-- ===== src/HttpConnect/Scan.antt =====
-- How HttpConnect.cpp finds the end of a head.
use lua_server.Common.{
  ℕ, suc, ◌+◌, ◌-◌, ◌≤◌, ◌≡◌, ◌≢◌, refl, ap, sym, ◌∙◌, true, false, none, some, [], ◌∷◌, ◌++◌, ◌==◌,
  if◌then◌else◌, ◌>>=◌, length, drop, arith, take-append-drop,
}
use lua_server.Common.Bytes.{Bytes, All, drop-drop}
use lua_server.MessageBuffer.{MessageBuffer}
use lua_server.MessageBuffer.Laws.{IsValid, active}
use lua_server.HttpConnect.{c_string, starts_end, find_end}

-- A C string is found behind any bytes, if there is one behind them.
pub c_string-append :
    (xs ys s : Bytes) → c_string ys ≡ some s → (t : Bytes) × (c_string (xs ++ ys) ≡ some t)
unfolding c_string
c_string-append [] ys s h = (s, h)
c_string-append (x ∷ xs) ys s h =
    let (t, e) = c_string-append xs ys s h in
    elim (x == 0)
      as (λ c.
        (u : Bytes) × ((if c then some [] else (c_string (xs ++ ys) >>= λ s. some (x ∷ s)))
          ≡ some u)) [ true ↦ ([], refl) | false ↦ (x ∷ t, rw e refl) ]

abbrev pub NotZero : ℕ → Type 0
NotZero c = c ≢ 0

-- Bytes other than 0 are a part of it.
pub c_string_behind :
    (xs ys s : Bytes) → All NotZero xs → c_string ys ≡ some s → c_string (xs ++ ys) ≡ some (xs ++ s)
unfolding c_string
c_string_behind [] ys s n h = h
c_string_behind (x ∷ xs) ys s n h =
    let z : (x == 0) ≡ false = ground (arith, n.0) in rw (z, c_string_behind xs ys s n.1 h) refl

has_four : (xs : Bytes) → starts_end xs ≡ true → 4 ≤ length xs
unfolding starts_end
has_four [] h = cc
has_four (a ∷ []) h = cc
has_four (a ∷ b ∷ []) h = cc
has_four (a ∷ b ∷ c ∷ []) h = cc
has_four (a ∷ b ∷ c ∷ d ∷ s) h = omega arith

starts_end-append : (xs ys : Bytes) → 4 ≤ length xs → starts_end (xs ++ ys) ≡ starts_end xs
unfolding starts_end
starts_end-append [] ys h = absurd (omega arith)
starts_end-append (a ∷ []) ys h = absurd (omega arith)
starts_end-append (a ∷ b ∷ []) ys h = absurd (omega arith)
starts_end-append (a ∷ b ∷ c ∷ []) ys h = absurd (omega arith)
starts_end-append (a ∷ b ∷ c ∷ d ∷ s) ys h = refl

some_eq : {m n : ℕ} → some m ≡ some n → m ≡ n
some_eq h = cc h

found_inside : (xs : Bytes) (n : ℕ) → find_end xs ≡ some n → n + 4 ≤ length xs
unfolding find_end
found_inside [] n h = cc
found_inside (x ∷ xs) n h =
    elim (starts_end (x ∷ xs))
        as (λ t.
          starts_end (x ∷ xs) ≡ t
          → (if t then some 0 else (find_end xs >>= λ n. some (suc n))) ≡ some n
          → n + 4 ≤ suc (length xs)) [
            | true ↦ λ e k. omega (arith, has_four (x ∷ xs) e, some_eq k)
            | false ↦ λ e.
                elim (find_end xs)
                    as (λ o.
                      find_end xs ≡ o
                      → (o >>= λ n. some (suc n)) ≡ some n
                      → n + 4 ≤ suc (length xs)) [
                        | none ↦ λ f k. cc k
                        | some m ↦ λ f k. omega (arith, found_inside xs m f, some_eq k)
                      ]
                  refl
          ]
      refl h

-- What is found in the first bytes is found first.
pub find_end-append : (xs ys : Bytes) (n : ℕ) → find_end xs ≡ some n → find_end (xs ++ ys) ≡ some n
unfolding find_end
find_end-append [] ys n h = cc
find_end-append (x ∷ xs) ys n h =
    rw (starts_end-append (x ∷ xs) ys (omega (arith, found_inside (x ∷ xs) n h))) (
      elim (starts_end (x ∷ xs))
          as (λ t.
            (if t then some 0 else (find_end xs >>= λ n. some (suc n))) ≡ some n
            → (if t then some 0 else (find_end (xs ++ ys) >>= λ n. some (suc n))) ≡ some n) [
              | true ↦ λ k. k
              | false ↦
                  elim (find_end xs)
                      as (λ o.
                        find_end xs ≡ o
                        → (o >>= λ n. some (suc n)) ≡ some n
                        → (find_end (xs ++ ys) >>= λ n. some (suc n)) ≡ some n) [
                          | none ↦ λ f k. cc k
                          | some m ↦ λ f k. rw (find_end-append xs ys m f) k
                        ]
                    refl
            ]
        h)

-- The view that the code takes of a buffer
pub view_lem :
    (b : MessageBuffer) (s : Bytes)
    → IsValid b
    → c_string (drop b.wpos b.storage) ≡ some s
    → drop b.rpos b.storage ≡ active b ++ drop b.wpos b.storage
view_lem b s v h =
    let e : b.rpos + (b.wpos - b.rpos) ≡ b.wpos = omega (arith, v.ordered) in
    sym (take-append-drop (b.wpos - b.rpos) (drop b.rpos b.storage))
    ∙ ap (λ t. active b ++ t)
        (drop-drop (b.wpos - b.rpos) b.rpos b.storage ∙ ap (λ k. drop k b.storage) e)
