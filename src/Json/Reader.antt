-- ===== src/Json/Reader.antt =====
-- src/utils/JsonReader.cpp. The buffer is the text from its position on; where that is used up, the
-- character is the final 0 of the C string.
use lua_server.Common.{
  ℕ, zero, suc, ◌+◌, ◌-◌, ◌*◌, Bool, true, false, ◌&&◌, ◌||◌, Option, none, some, [], ◌∷◌, leb, ltb,
  ◌==◌, if◌then◌else◌, length, drop, not,
}
use lua_server.Common.Bytes.{Bytes}
use lua_server.Json.{
  ℤ, pos, negsuc, Floats, Json, int, float, null, str, bool, arr, obj, Items, no_items, item,
  Members, no_members, member,
}

-- What a reading function leaves: a value, or a null pointer, and the position; or an exception that
-- std::stoi or std::stof throws. `no_fuel` is the model's own.
pub data Parsed (A : Type 0) : Type 0 where
  ok : A → Bytes → Parsed A
  failed : Bytes → Parsed A
  threw : Parsed A
  no_fuel : Parsed A

infixl 5 ◌>>=◌
abbrev pub ◌>>=◌ : {A B : Type 0} → Parsed A → (A → Bytes → Parsed B) → Parsed B
ok a r >>= f = f a r
failed r >>= f = failed r
threw >>= f = threw
no_fuel >>= f = no_fuel

abbrev pub head : Bytes → ℕ
head [] = 0
head (c ∷ cs) = c

-- `skip`
unfoldable pub skip : Bytes → Bytes
skip [] = []
skip (c ∷ cs) = let rest = skip cs in if leb c 32 then rest else (c ∷ cs)

-- `strncmp(str, word, strlen(word)) == 0`
unfoldable pub starts : Bytes → Bytes → Bool
starts [] s = true
starts (w ∷ ws) [] = false
starts (w ∷ ws) (c ∷ cs) = w == c && starts ws cs

-- The loop of `readStr`: the characters before the next quote, and what is there.
unfoldable pub scan_str : Bytes → Bytes × Bytes
scan_str [] = ([], [])
scan_str (c ∷ cs) = let (s, r) = scan_str cs in if c == b'"' then ([], c ∷ cs) else (c ∷ s, r)

abbrev pub close_str : Bytes → Bytes → Parsed Bytes
close_str s [] = failed []
close_str [] (q ∷ r) = failed (q ∷ r)
close_str (c ∷ s) (q ∷ r) = ok (c ∷ s) r

-- `readStr`
unfoldable pub read_str : Bytes → Parsed Bytes
read_str [] = failed []
read_str (c ∷ cs) = let (s, r) = scan_str cs in if c == b'"' then close_str s r else failed (c ∷ cs)

abbrev pub is_digit : ℕ → Bool
is_digit c = leb b'0' c && leb c b'9'

-- The loop over the characters of a number: `isfloat`, `numpos` and the position.
pub data Scanned : Type 0 where
  stopped : Bool → ℕ → Bytes → Scanned
  second_dot : Bytes → Scanned

unfoldable pub scan_number : Bool → ℕ → Bytes → Scanned
scan_number isfloat numpos [] = stopped isfloat numpos []
scan_number isfloat numpos (c ∷ cs) =
    let after_dot = scan_number true numpos cs in
    let after_digit = scan_number isfloat (numpos + 1) cs in
    if c == b'.'
    then (if isfloat then second_dot (c ∷ cs) else after_dot)
    else (if is_digit c then after_digit else stopped isfloat numpos (c ∷ cs))

-- std::stoi on a text that begins with a number, a sign perhaps before it: `none` out of range
unfoldable pub leading : ℕ → Bytes → ℕ
leading acc [] = acc
leading acc (c ∷ cs) =
    let rest = leading (acc * 10 + (c - b'0')) cs in if is_digit c then rest else acc

unfoldable pub negated : ℕ → Option ℤ
negated zero = some (pos 0)
negated (suc n) = if ltb n 2147483648 then some (negsuc n) else none

unfoldable pub stoi : Bytes → Option ℤ
stoi [] = some (pos 0)
stoi (c ∷ cs) =
    if c == b'-'
    then negated (leading 0 cs)
    else (let n = leading 0 (c ∷ cs) in if ltb n 2147483648 then some (pos n) else none)

abbrev pub or_throw : {A : Type 0} → (A → Json) → Option A → Bytes → Parsed Json
or_throw make none r = threw
or_throw make (some a) r = ok (make a) r

-- The rest of `readBase` behind that loop. A text that is no number may still be a string.
unfoldable pub end_number : Floats → Bytes → Scanned → Parsed Json
end_number fl pnum (second_dot r) = failed r
end_number fl pnum (stopped isfloat numpos r) =
    if numpos == 0
    then (read_str r >>= λ s r'. ok (str s) r')
    else (if isfloat then or_throw float (fl.stof pnum) r else or_throw int (stoi pnum) r)

unfoldable pub read_number : Floats → Bytes → Parsed Json
read_number fl s = end_number fl s (scan_number false 0 (if head s == b'-' then drop 1 s else s))

-- `readBase`
unfoldable pub read_base : Floats → Bytes → Parsed Json
read_base fl s =
    if starts (b'n' ∷ b'u' ∷ b'l' ∷ b'l' ∷ []) s
    then ok null (drop 4 s)
    else if starts (b'f' ∷ b'a' ∷ b'l' ∷ b's' ∷ b'e' ∷ []) s
    then ok (bool false) (drop 5 s)
    else if starts (b't' ∷ b'r' ∷ b'u' ∷ b'e' ∷ []) s
    then ok (bool true) (drop 4 s)
    else read_number fl s

-- The order of the keys of a std::map, and an assignment `maps[key] = value`.
unfoldable pub key_lt : Bytes → Bytes → Bool
key_lt [] [] = false
key_lt [] (d ∷ ds) = true
key_lt (c ∷ cs) [] = false
key_lt (c ∷ cs) (d ∷ ds) = ltb c d || (c == d && key_lt cs ds)

unfoldable pub put : Bytes → Json → Members → Members
put k v no_members = member k v no_members
put k v (member k' v' ms) =
    let behind = put k v ms in
    if key_lt k k'
    then member k v (member k' v' ms)
    else (if key_lt k' k then member k' v' behind else member k' v ms)

-- The test of a loop: the closing bracket, or the end of the text.
abbrev pub at_end : ℕ → Bytes → Bool
at_end close s = head s == close || head s == 0

abbrev pub finish : {A : Type 0} → ℕ → A → Bytes → Parsed A
finish close a s = if head s == close then ok a (drop 1 s) else failed s

abbrev pub add_item : Json → Parsed Items → Parsed Items
add_item v p = p >>= λ vs r. ok (item v vs) r

abbrev pub is_comma : Bytes → Bool
is_comma s = head s == b','

-- What stands behind a value, up to the next one: a comma is passed.
abbrev pub past_comma : Bytes → Bytes
past_comma s = if is_comma s then drop 1 s else s

-- `reader`, and the loops of `readArray` and `readObj`. `test` says whether the loop's test comes
-- first: behind a comma the code jumps past it. 2 * n + 3 is enough fuel for n characters.
unfoldable mutual
  pub reader : Floats → ℕ → Bytes → Parsed Json
  reader fl zero s = no_fuel
  reader fl (suc fuel) s = elim (head (skip s) == b'[') [
    | true ↦ read_items fl fuel true (drop 1 (skip s)) >>= λ vs r. ok (arr vs) r
    | false ↦ elim (head (skip s) == b'{') [
      | true ↦ read_members fl fuel true no_members (drop 1 (skip s)) >>= λ ms r. ok (obj ms) r
      | false ↦ read_base fl (skip s)
    ]
  ]

  pub read_items : Floats → ℕ → Bool → Bytes → Parsed Items
  read_items fl zero test s = no_fuel
  read_items fl (suc fuel) test s = elim (test && at_end b']' s) [
    | true ↦ finish b']' no_items s
    | false ↦ reader fl fuel s >>= λ v r.
        add_item v (read_items fl fuel (not (is_comma (skip r))) (past_comma (skip r)))
  ]

  pub read_members : Floats → ℕ → Bool → Members → Bytes → Parsed Members
  read_members fl zero test objs s = no_fuel
  read_members fl (suc fuel) test objs s = elim (test && at_end b'}' s) [
    | true ↦ finish b'}' objs s
    | false ↦ read_str (skip s) >>= λ k q. elim (head q == b':') [
      | false ↦ failed q
      | true ↦ reader fl fuel (drop 1 q) >>= λ v r.
          read_members fl fuel (not (is_comma (skip r))) (put k v objs) (past_comma (skip r))
    ]
  ]

-- `parser`: the value of a whole text, or the position of the error for `getError`.
pub data Outcome : Type 0 where
  parsed : Json → Outcome
  rejected : Bytes → Outcome
  thrown : Outcome
  unfinished : Outcome

unfoldable pub whole : Parsed Json → Outcome
whole (ok v r) = elim (skip r) [ [] ↦ parsed v | c ∷ cs ↦ rejected (c ∷ cs) ]
whole (failed r) = rejected (skip r)
whole threw = thrown
whole no_fuel = unfinished

unfoldable pub parser : Floats → Bytes → Outcome
parser fl s = whole (reader fl (2 * length s + 3) s)
