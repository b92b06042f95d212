-- ===== src/HttpParam/Split.antt =====
-- `splite` and the joining of pieces are inverse to each other.
use lua_server.Common.{
  ℕ, zero, suc, ◌+◌, ◌≤◌, ◌<◌, ◌≡◌, ◌≢◌, refl, ap, ◌∙◌, none, some, List, [], ◌∷◌, ◌++◌, length,
  take, drop, arith, length-append, inl, inr, ◌⊎◌, ℕ_discrete,
}
use lua_server.Common.Bytes.{Bytes, All, take-append_left}
use lua_server.HttpParam.{find_char, split_loop, splite}

-- A piece that holds no `cut`.
abbrev pub IsFree : ℕ → Bytes → Type 0
IsFree cut p = All (λ c. c ≢ cut) p

-- Pieces with a `cut` between them.
unfoldable pub join : ℕ → List Bytes → Bytes
join cut [] = []
join cut (p ∷ []) = p
join cut (p ∷ q ∷ ps) = p ++ (cut ∷ join cut (q ∷ ps))

find_nothing : (cut : ℕ) (p : Bytes) → IsFree cut p → find_char cut p ≡ none
unfolding find_char
find_nothing cut [] h = refl
find_nothing cut (c ∷ p) h = ground (arith, find_nothing cut p h.1, h.0)

find_first :
    (cut : ℕ) (p r : Bytes) → IsFree cut p → find_char cut (p ++ (cut ∷ r)) ≡ some (length p)
unfolding find_char
find_first cut [] r h = ground arith
find_first cut (c ∷ p) r h = ground (arith, find_first cut p r h.1, h.0)

split_last :
    (fuel cut : ℕ) (s : Bytes) → find_char cut s ≡ none → split_loop (suc fuel) cut s ≡ s ∷ []
unfolding split_loop
split_last fuel cut s e = rw (split_loop, e) refl

split_first :
    (fuel cut n : ℕ) (s : Bytes)
    → find_char cut s ≡ some n
    → split_loop (suc fuel) cut s ≡ take n s ∷ split_loop fuel cut (drop (suc n) s)
unfolding split_loop
split_first fuel cut n s e = rw (split_loop, e) refl

drop_past : (p : Bytes) (c : ℕ) (r : Bytes) → drop (suc (length p)) (p ++ (c ∷ r)) ≡ r
drop_past [] c r = refl
drop_past (x ∷ p) c r = drop_past p c r

split_loop-join :
    (fuel cut : ℕ) (p : Bytes) (ps : List Bytes)
    → All (IsFree cut) (p ∷ ps)
    → length ps < fuel
    → split_loop fuel cut (join cut (p ∷ ps)) ≡ p ∷ ps
unfolding join
split_loop-join zero cut p ps h l = absurd (omega arith)
split_loop-join (suc fuel) cut p [] h l = split_last fuel cut p (find_nothing cut p h.0)
split_loop-join (suc fuel) cut p (q ∷ ps) h l =
    split_first fuel cut (length p) _ (find_first cut p _ h.0)
    ∙ rw (take-append_left, drop_past)
        (ap (◌∷◌ p) (split_loop-join fuel cut q ps h.1 (omega arith)))

length-join : (cut : ℕ) (p : Bytes) (ps : List Bytes) → length ps ≤ length (join cut (p ∷ ps))
unfolding join
length-join cut p [] = omega arith
length-join cut p (q ∷ ps) =
    omega (arith, length-join cut q ps, length-append p (cut ∷ join cut (q ∷ ps)))

-- Joining any pieces, at least one and each without the separator, and splitting again gives the
-- same pieces.
pub splite-join :
    (cut : ℕ) (p : Bytes) (ps : List Bytes)
    → All (IsFree cut) (p ∷ ps)
    → splite cut (join cut (p ∷ ps)) ≡ p ∷ ps
unfolding splite
splite-join cut p ps h =
    split_loop-join (length (join cut (p ∷ ps)) + 1) cut p ps h
      (omega (arith, length-join cut p ps))

-- Where `find` has found the separator.
record Found (cut n : ℕ) (s : Bytes) : Type 0 where
  parts : take n s ++ (cut ∷ drop (suc n) s) ≡ s
  free : IsFree cut (take n s)
  shorter : length (drop (suc n) s) < length s

find_lem :
    (cut : ℕ) (s : Bytes)
    → ((find_char cut s ≡ none) × IsFree cut s)
      ⊎ ((n : ℕ) × (find_char cut s ≡ some n) × Found cut n s)
find_lem cut [] = inl (unfold find_char in refl, tt)
find_lem cut (c ∷ s) = elim (ℕ_discrete c cut) [
  | yes e ↦ inr (
    0,
    unfold find_char in ground arith,
    record { parts = rw e refl; free = tt; shorter = omega arith },
  )
  | no d ↦ elim (find_lem cut s) [
    | inl (e, f) ↦ inl (unfold find_char in ground arith, (d, f))
    | inr (n, e, f) ↦ inr (
      suc n,
      unfold find_char in ground arith,
      record { parts = ap (◌∷◌ c) f.parts; free = (d, f.free); shorter = omega (arith, f.shorter) },
    )
  ]
]

join-cons :
    (cut : ℕ) (p : Bytes) (ps : List Bytes)
    → 0 < length ps
    → join cut (p ∷ ps) ≡ p ++ (cut ∷ join cut ps)
unfolding join
join-cons cut p [] h = absurd (omega arith)
join-cons cut p (q ∷ ps) h = refl

-- What the loop has done with enough fuel.
record Splits (cut : ℕ) (s : Bytes) (ps : List Bytes) : Type 0 where
  some_piece : 0 < length ps
  joined : join cut ps ≡ s
  free : All (IsFree cut) ps

split_lem : (fuel cut : ℕ) (s : Bytes) → length s < fuel → Splits cut s (split_loop fuel cut s)
split_lem zero cut s l = absurd (omega arith)
split_lem (suc fuel) cut s l = elim (find_lem cut s) [
  | inl (e, f) ↦
      rw (split_last fuel cut s e)
        (record { some_piece = omega arith; joined = unfold join in refl; free = (f, tt) })
  | inr (n, e, f) ↦
      let r = split_lem fuel cut (drop (suc n) s) (omega (arith, f.shorter)) in
      rw (split_first fuel cut n s e) (record {
        some_piece = omega arith;
        joined = join-cons cut (take n s) _ r.some_piece ∙ rw (r.joined) f.parts;
        free = (f.free, r.free);
      })
]

-- Splitting any text and joining the pieces again gives the text, and no piece holds the separator.
pub join-splite :
    (cut : ℕ) (s : Bytes) → (join cut (splite cut s) ≡ s) × All (IsFree cut) (splite cut s)
unfolding splite
join-splite cut s = let r = split_lem (length s + 1) cut s (omega arith) in (r.joined, r.free)
