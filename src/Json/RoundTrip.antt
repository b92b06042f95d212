-- ===== src/Json/RoundTrip.antt =====
-- Reading what the writer has written: values, the items of an array and the members of an object.
use lua_server.Common.{
  ℕ, zero, suc, ◌+◌, ◌*◌, ◌<◌, ◌≡◌, refl, ap, ◌∙◌, Bool, true, false, [], ◌∷◌, ◌++◌, length, arith,
  append-nil, length-append, inl, inr, subst,
}
use lua_server.Common.Bytes.{Bytes}
use lua_server.Json.{
  Floats, Json, int, float, null, str, bool, arr, obj, Items, no_items, item, Members, no_members,
  member, write, write_items, write_members, quoted, indent, newline, int_text,
}
use lua_server.Json.Reader.{ok, skip, reader, read_items, read_members, parser, whole, parsed}
use lua_server.Json.Numbers.{IsStop, read_base-int_text, int_text-IsNumeral}
use lua_server.Json.Text.{
  IsSpace, skip-IsFront, newline-IsSpace, IsText, read_base-quoted, to_string-IsNumeral,
  read_base-to_string,
}
use lua_server.Json.Readable.{
  append-snoc, snoc_lem, AllBelow, snoc, append_members, write-IsFront, reader-leaf,
  reader-IsNumeral, regroup, read_items-end, read_members-end, IsReadable, AreReadable, AreMembers,
}
use lua_server.Json.Loops.{
  length-behind_item, length-behind_member, tail, pos-IsFront, reader-arr, reader-obj, reader-word,
  behind_item, behind_item-IsStop, next_item, last_item, item_text, one_item, behind_member,
  behind_member-IsStop, next_member, last_member, member_text, one_member,
}

length-parts : (ws s r : Bytes) → length (ws ++ (s ++ r)) ≡ length ws + (length s + length r)
length-parts ws s r = omega (arith, length-append ws (s ++ r), length-append s r)

mutual
  unfolding write write_items write_members IsReadable AreReadable AreMembers append_members

  pub reader-write :
      (v : Json) (fl : Floats) (layout : Bool) (fuel depth : ℕ) (rest : Bytes)
      → IsReadable fl layout v
      → IsStop rest
      → 2 * length (write fl layout depth v ++ rest) + 1 < fuel
      → reader fl fuel (write fl layout depth v ++ rest) ≡ ok v rest
  reader-write v fl layout zero depth rest h s l = absurd (omega arith)
  reader-write (int n) fl layout (suc fuel) depth rest h s l =
      reader-IsNumeral fl fuel (int_text n) rest (ok (int n) rest) (int_text-IsNumeral n)
        (read_base-int_text fl n rest h s)
  reader-write (float x) fl layout (suc fuel) depth rest h s l =
      reader-IsNumeral fl fuel (fl.to_string x) rest (ok (float x) rest)
        (to_string-IsNumeral fl x h) (read_base-to_string fl x h rest s)
  reader-write null fl layout (suc fuel) depth rest h s l =
      reader-word fl layout fuel depth rest null (inl (inl refl))
  reader-write (bool true) fl layout (suc fuel) depth rest h s l =
      reader-word fl layout fuel depth rest (bool true) (inl (inr refl))
  reader-write (bool false) fl layout (suc fuel) depth rest h s l =
      reader-word fl layout fuel depth rest (bool false) (inr refl)
  reader-write (str s) fl layout (suc fuel) depth rest h t l =
      reader-leaf fl fuel (quoted s ++ rest) (ok (str s) rest)
        (skip-IsFront (quoted s) rest (omega arith)) refl refl (read_base-quoted fl s rest h)
  reader-write (arr no_items) fl true (suc fuel) depth rest h s l = absurd (h.0 refl refl)
  reader-write (arr no_items) fl false (suc zero) depth rest h s l = absurd (omega arith)
  reader-write (arr no_items) fl false (suc (suc fuel)) depth rest h s l =
      reader-arr fl (suc fuel) (b']' ∷ rest) rest no_items (read_items-end fl fuel rest)
  reader-write (arr (item v vs)) fl layout (suc fuel) depth rest h s l =
      let e =
        regroup (newline layout) (write_items fl layout depth (item v vs)) (indent layout depth)
          rest b']' in
      reader-arr fl fuel _ rest (item v vs) (
        rw e (
          read_items-write vs v fl layout fuel depth rest (newline layout) true
            (newline-IsSpace layout) h.1.0 h.1.1 (omega (arith, ap length e))))
  reader-write (obj no_members) fl true (suc fuel) depth rest h s l = absurd (h.0 refl refl)
  reader-write (obj no_members) fl false (suc zero) depth rest h s l = absurd (omega arith)
  reader-write (obj no_members) fl false (suc (suc fuel)) depth rest h s l =
      reader-obj fl (suc fuel) (b'}' ∷ rest) rest no_members
        (read_members-end fl fuel no_members rest)
  reader-write (obj (member k v ms)) fl layout (suc fuel) depth rest h s l =
      let e =
        regroup (newline layout) (write_members fl layout depth (member k v ms))
          (indent layout depth) rest b'}' in
      reader-obj fl fuel _ rest (member k v ms) (
        rw e (
          read_members-write ms k v fl layout fuel depth rest (newline layout) true no_members
            (newline-IsSpace layout) h.1.0 h.1.1.0 h.1.1.1 (omega (arith, ap length e))))

  read_items-write :
      (vs : Items) (v : Json) (fl : Floats) (layout : Bool) (fuel depth : ℕ) (rest ws : Bytes)
      (test : Bool)
      → IsSpace ws
      → IsReadable fl layout v
      → AreReadable fl layout vs
      → 2 * length (ws ++ (write_items fl layout depth (item v vs) ++ tail layout depth b']' rest))
          + 2
        < fuel
      → read_items fl fuel test
          (ws ++ (write_items fl layout depth (item v vs) ++ tail layout depth b']' rest))
        ≡ ok (item v vs) rest
  read_items-write vs v fl layout zero depth rest ws test sp h hs l = absurd (omega arith)
  read_items-write vs v fl layout (suc zero) depth rest ws test sp h hs l = absurd (omega arith)
  read_items-write no_items v fl layout (suc (suc fuel)) depth rest ws test sp h hs l =
      let t = ap length (item_text fl layout depth rest ws v no_items) in
      let more = behind_item fl layout depth rest no_items in
      let w = write fl layout (suc depth) v in
      let n = length-parts (ws ++ indent layout (suc depth)) w more in
      let m = length-append w more in
      one_item fl layout fuel depth rest ws test v no_items sp h
        (reader-write v fl layout (suc fuel) (suc depth) more h
          (behind_item-IsStop fl layout depth rest no_items) (omega arith))
        (last_item fl layout fuel depth rest)
  read_items-write (item v' vs) v fl layout (suc (suc fuel)) depth rest ws test sp h hs l =
      let t = ap length (item_text fl layout depth rest ws v (item v' vs)) in
      let more = behind_item fl layout depth rest (item v' vs) in
      let w = write fl layout (suc depth) v in
      let n = length-parts (ws ++ indent layout (suc depth)) w more in
      let m = length-append w more in
      let p = pos-IsFront w (write-IsFront fl layout (suc depth) v h) in
      let b = length-behind_item fl layout depth rest v' vs in
      one_item fl layout fuel depth rest ws test v (item v' vs) sp h
        (reader-write v fl layout (suc fuel) (suc depth) more h
          (behind_item-IsStop fl layout depth rest (item v' vs)) (omega arith))
        (next_item fl layout (suc fuel) depth rest v' vs (
          read_items-write vs v' fl layout (suc fuel) depth rest (newline layout) false
            (newline-IsSpace layout) hs.0 hs.1 (omega arith)))

  read_members-write :
      (ms : Members) (k : Bytes) (v : Json) (fl : Floats) (layout : Bool) (fuel depth : ℕ)
      (rest ws : Bytes) (test : Bool) (objs : Members)
      → IsSpace ws
      → IsText k × AllBelow objs k
      → IsReadable fl layout v
      → AreMembers fl layout (snoc objs k v) ms
      → 2
            * length (
                ws
                ++ (write_members fl layout depth (member k v ms) ++ tail layout depth b'}' rest))
          + 2
        < fuel
      → read_members fl fuel test objs
          (ws ++ (write_members fl layout depth (member k v ms) ++ tail layout depth b'}' rest))
        ≡ ok (append_members objs (member k v ms)) rest
  read_members-write ms k v fl layout zero depth rest ws test objs sp kt h hs l =
      absurd (omega arith)
  read_members-write ms k v fl layout (suc zero) depth rest ws test objs sp kt h hs l =
      absurd (omega arith)
  read_members-write no_members k v fl layout (suc (suc fuel)) depth rest ws test objs sp kt h hs
        l =
      let t = ap length (member_text fl layout depth rest ws k v no_members) in
      let more = behind_member fl layout depth rest no_members in
      let w = write fl layout (suc depth) v in
      let n = length-parts (ws ++ indent layout (suc depth)) (quoted k) (b':' ∷ (w ++ more)) in
      one_member fl layout fuel depth rest ws k test v objs
        (append_members objs (member k v no_members)) no_members sp kt.0 kt.1
        (reader-write v fl layout (suc fuel) (suc depth) more h
          (behind_member-IsStop fl layout depth rest no_members) (omega arith))
        (last_member fl layout fuel depth rest (snoc objs k v)
          ∙ ap (λ all. ok all rest) (snoc_lem objs k v))
  read_members-write (member k' v' ms) k v fl layout (suc (suc fuel)) depth rest ws test objs sp kt
        h hs l =
      let t = ap length (member_text fl layout depth rest ws k v (member k' v' ms)) in
      let more = behind_member fl layout depth rest (member k' v' ms) in
      let w = write fl layout (suc depth) v in
      let n = length-parts (ws ++ indent layout (suc depth)) (quoted k) (b':' ∷ (w ++ more)) in
      let m = length-append w more in
      let b = length-behind_member fl layout depth rest k' v' ms in
      one_member fl layout fuel depth rest ws k test v objs
        (append_members objs (member k v (member k' v' ms))) (member k' v' ms) sp kt.0 kt.1
        (reader-write v fl layout (suc fuel) (suc depth) more h
          (behind_member-IsStop fl layout depth rest (member k' v' ms)) (omega arith))
        (next_member fl layout (suc fuel) depth rest (snoc objs k v) _ ms k' v' (
          read_members-write ms k' v' fl layout (suc fuel) depth rest (newline layout) false
            (snoc objs k v) (newline-IsSpace layout) hs.0 hs.1.0 hs.1.1 (omega arith)
          ∙ ap (λ all. ok all rest) (append-snoc objs (member k' v' ms) k v)))

-- What `write` prints the parser reads as the same value, with a layout or without one: the numbers
-- of the value fit an `int` or are floats that their text gives back, strings and keys are not empty
-- and hold no quote and no 0, keys stand in the order of the map, and with a layout no array and no
-- object is empty.
pub parser-write :
    (fl : Floats) (layout : Bool) (v : Json)
    → IsReadable fl layout v
    → parser fl (write fl layout 0 v) ≡ parsed v
unfolding parser whole skip
parser-write fl layout v h =
    let e : reader fl (2 * length (write fl layout 0 v) + 3) (write fl layout 0 v) ≡ ok v [] =
      subst (λ t. reader fl (2 * length (write fl layout 0 v) + 3) t ≡ ok v [])
        (append-nil (write fl layout 0 v))
        (reader-write v fl layout (2 * length (write fl layout 0 v) + 3) 0 [] h tt
          (omega (arith, length-append (write fl layout 0 v) []))) in
    rw e refl
