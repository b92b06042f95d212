-- ===== src/Json/Readable.antt =====
-- Which values the reader takes back, and one step of its loops.
use lua_server.Common.{
  ℕ, suc, ◌≡◌, ◌≢◌, refl, ap, sym, ◌∙◌, Bool, true, false, not, [], ◌∷◌, ◌++◌, ◌==◌, drop, arith,
  append_assoc, inl, inr,
}
use lua_server.Common.Bytes.{Bytes}
use lua_server.Json.{
  Floats, Json, int, float, null, str, bool, arr, obj, Items, no_items, item, Members, no_members,
  member, write, int_text,
}
use lua_server.Json.Reader.{
  ◌>>=◌, Parsed, ok, skip, head, read_base, read_str, at_end, is_comma, past_comma, add_item,
  reader, read_items, read_members, key_lt, put,
}
use lua_server.Json.Numbers.{IsInt, int_text-IsNumeral, IsNumeral}
use lua_server.Json.Text.{
  IsSpace, IsFront, skip-IsSpace, skip-IsFront, IsNumeral-IsFront, IsText, IsExact,
  to_string-IsNumeral,
}

-- Each key of the first members is less than k.
unfoldable pub AllBelow : Members → Bytes → Type 0
AllBelow no_members k = Unit
AllBelow (member k' v ms) k = (key_lt k' k ≡ true) × AllBelow ms k

unfoldable pub snoc : Members → Bytes → Json → Members
snoc no_members k v = member k v no_members
snoc (member k' v' ms) k v = member k' v' (snoc ms k v)

unfoldable pub append_members : Members → Members → Members
append_members no_members ns = ns
append_members (member k v ms) ns = member k v (append_members ms ns)

append-no_members : (ms : Members) → append_members ms no_members ≡ ms
unfolding append_members
append-no_members no_members = refl
append-no_members (member k v ms) = ap (member k v) (append-no_members ms)

pub append-snoc :
    (ms ns : Members) (k : Bytes) (v : Json)
    → append_members (snoc ms k v) ns ≡ append_members ms (member k v ns)
unfolding append_members snoc
append-snoc no_members ns k v = refl
append-snoc (member k' v' ms) ns k v = ap (member k' v') (append-snoc ms ns k v)

pub snoc_lem :
    (ms : Members) (k : Bytes) (v : Json) → snoc ms k v ≡ append_members ms (member k v no_members)
snoc_lem ms k v = sym (append-no_members (snoc ms k v)) ∙ append-snoc ms no_members k v

-- A value that the reader takes back. With a layout an array or an object must not be empty. The
-- keys of an object stand in their order, behind those of `before`.
unfoldable mutual
  pub IsReadable : Floats → Bool → Json → Type 0
  IsReadable fl layout (int n) = IsInt n
  IsReadable fl layout (float x) = IsExact fl x
  IsReadable fl layout null = Unit
  IsReadable fl layout (bool b) = Unit
  IsReadable fl layout (str s) = IsText s
  IsReadable fl layout (arr vs) = ((layout ≡ true) → vs ≢ no_items) × AreReadable fl layout vs
  IsReadable fl layout (obj ms) =
      ((layout ≡ true) → ms ≢ no_members) × AreMembers fl layout no_members ms

  pub AreReadable : Floats → Bool → Items → Type 0
  AreReadable fl layout no_items = Unit
  AreReadable fl layout (item v vs) = IsReadable fl layout v × AreReadable fl layout vs

  pub AreMembers : Floats → Bool → Members → Members → Type 0
  AreMembers fl layout before no_members = Unit
  AreMembers fl layout before (member k v ms) =
      (IsText k × AllBelow before k)
      × (IsReadable fl layout v × AreMembers fl layout (snoc before k v) ms)

pub key_lt_asym : (k l : Bytes) → key_lt k l ≡ true → key_lt l k ≡ false
unfolding key_lt
key_lt_asym [] [] h = cc
key_lt_asym [] (d ∷ ds) h = refl
key_lt_asym (c ∷ cs) [] h = cc
key_lt_asym (c ∷ cs) (d ∷ ds) h = ground (arith, key_lt_asym cs ds)

-- A key behind all others goes to the end.
pub put_last : (ms : Members) (k : Bytes) (v : Json) → AllBelow ms k → put k v ms ≡ snoc ms k v
unfolding put snoc AllBelow
put_last no_members k v h = refl
put_last (member k' v' ms) k v h =
    rw (key_lt_asym k' k h.0, h.0) (ap (member k' v') (put_last ms k v h.1))

pub write-IsFront :
    (fl : Floats) (layout : Bool) (depth : ℕ) (v : Json)
    → IsReadable fl layout v
    → IsFront (write fl layout depth v)
unfolding write IsReadable
write-IsFront fl layout depth (int n) h = IsNumeral-IsFront (int_text n) (int_text-IsNumeral n)
write-IsFront fl layout depth (float x) h =
    IsNumeral-IsFront (fl.to_string x) (to_string-IsNumeral fl x h)
write-IsFront fl layout depth null h = omega arith
write-IsFront fl layout depth (str s) h = omega arith
write-IsFront fl layout depth (bool true) h = omega arith
write-IsFront fl layout depth (bool false) h = omega arith
write-IsFront fl layout depth (arr vs) h = omega arith
write-IsFront fl layout depth (obj ms) h = omega arith

-- One call of `reader`, at the first character that is no space.
abbrev pub at_value : Floats → ℕ → Bytes → Parsed Json
at_value fl fuel t = elim (head t == b'[') [
  | true ↦ read_items fl fuel true (drop 1 t) >>= λ vs r. ok (arr vs) r
  | false ↦ elim (head t == b'{') [
    | true ↦ read_members fl fuel true no_members (drop 1 t) >>= λ ms r. ok (obj ms) r
    | false ↦ read_base fl t
  ]
]

pub reader-skip :
    (fl : Floats) (fuel : ℕ) (s t : Bytes)
    → skip s ≡ t
    → reader fl (suc fuel) s ≡ at_value fl fuel t
unfolding reader
reader-skip fl fuel s t e = ap (at_value fl fuel) e

pub reader-IsSpace :
    (fl : Floats) (fuel : ℕ) (ws s : Bytes)
    → IsSpace ws
    → reader fl (suc fuel) (ws ++ s) ≡ reader fl (suc fuel) s
reader-IsSpace fl fuel ws s h =
    reader-skip fl fuel (ws ++ s) (skip s) (skip-IsSpace ws s h)
    ∙ sym (reader-skip fl fuel s (skip s) refl)

-- A leaf: the text begins as that of no array and no object does.
pub reader-leaf :
    (fl : Floats) (fuel : ℕ) (s : Bytes) (p : Parsed Json)
    → skip s ≡ s
    → (head s == b'[') ≡ false
    → (head s == b'{') ≡ false
    → read_base fl s ≡ p
    → reader fl (suc fuel) s ≡ p
reader-leaf fl fuel s p e f g h = reader-skip fl fuel s s e ∙ rw (at_value, f, g) h

pub numeral_head :
    (s r : Bytes)
    → IsNumeral s
    → ((head (s ++ r) == b'[') ≡ false) × ((head (s ++ r) == b'{') ≡ false)
numeral_head [] r h = absurd h
numeral_head (c ∷ cs) r (inl d) = let lo = d.0 in let hi = d.1 in ground arith
numeral_head (c ∷ cs) r (inr e) = ground arith

pub reader-IsNumeral :
    (fl : Floats) (fuel : ℕ) (s r : Bytes) (p : Parsed Json)
    → IsNumeral s
    → read_base fl (s ++ r) ≡ p
    → reader fl (suc fuel) (s ++ r) ≡ p
reader-IsNumeral fl fuel s r p n h =
    let (f, g) = numeral_head s r n in
    reader-leaf fl fuel (s ++ r) p (skip-IsFront s r (IsNumeral-IsFront s n)) f g h

pub regroup :
    (a b c rest : Bytes) (x : ℕ)
    → (a ++ (b ++ (c ++ (x ∷ [])))) ++ rest ≡ a ++ (b ++ (c ++ (x ∷ rest)))
regroup a b c rest x = simp append_assoc

pub regroup_item :
    (ws ind w comma nl vs tail : Bytes)
    → ws ++ ((ind ++ (w ++ (comma ++ (nl ++ vs)))) ++ tail)
      ≡ (ws ++ ind) ++ (w ++ (comma ++ (nl ++ (vs ++ tail))))
regroup_item ws ind w comma nl vs tail = simp append_assoc

pub regroup_member :
    (ws ind k w comma nl ms tail : Bytes)
    → ws ++ ((ind ++ (k ++ (b':' ∷ (w ++ (comma ++ (nl ++ ms)))))) ++ tail)
      ≡ (ws ++ ind) ++ (k ++ (b':' ∷ (w ++ (comma ++ (nl ++ (ms ++ tail))))))
regroup_member ws ind k w comma nl ms tail = simp append_assoc

pub read_items-step :
    (fl : Floats) (fuel : ℕ) (test : Bool) (s r : Bytes) (v : Json)
    → at_end b']' s ≡ false
    → reader fl fuel s ≡ ok v r
    → read_items fl (suc fuel) test s
      ≡ add_item v (read_items fl fuel (not (is_comma (skip r))) (past_comma (skip r)))
unfolding read_items
read_items-step fl fuel true s r v e h = rw (read_items, e, h) refl
read_items-step fl fuel false s r v e h = rw (read_items, h) refl

pub read_items-end :
    (fl : Floats) (fuel : ℕ) (rest : Bytes)
    → read_items fl (suc fuel) true (b']' ∷ rest) ≡ ok no_items rest
unfolding read_items
read_items-end fl fuel rest = refl

pub read_members-step :
    (fl : Floats) (fuel : ℕ) (test : Bool) (objs : Members) (s q r k : Bytes) (v : Json)
    → at_end b'}' s ≡ false
    → read_str (skip s) ≡ ok k (b':' ∷ q)
    → reader fl fuel q ≡ ok v r
    → read_members fl (suc fuel) test objs s
      ≡ read_members fl fuel (not (is_comma (skip r))) (put k v objs) (past_comma (skip r))
unfolding read_members
read_members-step fl fuel true objs s q r k v e g h = rw (read_members, e, g, h) refl
read_members-step fl fuel false objs s q r k v e g h = rw (read_members, g, h) refl

pub read_members-end :
    (fl : Floats) (fuel : ℕ) (objs : Members) (rest : Bytes)
    → read_members fl (suc fuel) true objs (b'}' ∷ rest) ≡ ok objs rest
unfolding read_members
read_members-end fl fuel objs rest = refl
