-- ===== src/Json/Tests.antt =====
-- Runs of Json.cpp and JsonReader.cpp.
-- No floats.
use lua_server.Common.Bytes.{Bytes}
use lua_server.Json.Numbers.{IsStop}
use lua_server.Common.{
  ℕ, Option, ◌*◌, ◌^◌, ◌++◌, ◌==◌, ◌||◌, if◌then◌else◌, drop, ap, ◌≡◌, refl, ◌≢◌, true, false, some,
  ◌∷◌, arith, [], ℕ, ap, Option,
}
use lua_server.Json.{
  null, str, Floats, decimal, decimal_loop, Members, pos, write, float, Json, write_items, obj, arr,
  member, no_items, item, int, str, null, bool, no_members, float, Bytes,
}
use lua_server.Json.Empty.{parser-blank, parser-empty_string}
use lua_server.Json.Readable.{AllBelow, snoc, IsReadable, AreReadable, AreMembers}
use lua_server.Json.Reader.{
  end_number, key_lt, leading, parsed, parser, put, read_base, read_number, read_str, rejected,
  scan_number, scan_str, is_digit, head, skip, starts, stoi, unfinished, whole, reader, read_items,
}
use lua_server.Json.RoundTrip.{parser-write}
use lua_server.Json.Text.{IsExact}
use lua_server.Json.Edit.{find, remove_member, IsSorted}
use lua_server.Json.Order.{put-remove_member}
use lua_server.Json.Total.{parser_ends}

abbrev no_floats : Floats
no_floats = record { to_string = λ x. b'0' ∷ b'.' ∷ b'5' ∷ []; stof = λ t. some 7 }

-- Floats that are whole numbers, printed as by `%f`, and read with a fraction and an exponent behind
-- the digits, as std::stof reads them.
past_digits : Bytes → Bytes
past_digits [] = []
past_digits (c ∷ cs) = let rest = past_digits cs in if is_digit c then rest else (c ∷ cs)

exponent : ℕ → Bytes → ℕ
exponent n [] = n
exponent n (c ∷ cs) = if (c == b'e') || (c == b'E') then n * 10 ^ leading 0 cs else n

abbrev past_dot : Bytes → Bytes
past_dot s = if head s == b'.' then past_digits (drop 1 s) else s

unfoldable read_fixed : Bytes → Option ℕ
read_fixed s = some (exponent (leading 0 s) (past_dot (past_digits s)))

abbrev fixed_floats : Floats
fixed_floats = record {
  to_string = λ x. decimal x ++ (b'.' ∷ b'0' ∷ b'0' ∷ b'0' ∷ b'0' ∷ b'0' ∷ b'0' ∷ []);
  stof = read_fixed;
}

with_exponent : read_fixed (b'7' ∷ b'.' ∷ b'0' ∷ b'e' ∷ b'2' ∷ []) ≡ some 700
unfolding read_fixed leading past_digits exponent
with_exponent = refl

stop_lem : (r : Bytes) → IsStop r → exponent 7 (past_digits r) ≡ 7
unfolding past_digits exponent
stop_lem [] h = refl
stop_lem (c ∷ cs) h =
    let d = h.0 in
    let e : ((c == b'e') || (c == b'E')) ≡ false = ground (arith, h.1.1.0, h.1.1.1) in
    rw d (rw e refl)

seven-IsExact : IsExact fixed_floats 7
unfolding decimal decimal_loop read_fixed leading past_digits
seven-IsExact = record {
  minus = false;
  whole_part = 7;
  fraction = b'0' ∷ b'0' ∷ b'0' ∷ b'0' ∷ b'0' ∷ b'0' ∷ [];
  digits = omega arith;
  form = refl;
  back = λ r h. ap some (stop_lem r h);
}

-- {"a":[1,7.000000,null],"b":{"c":true}}
abbrev value : Json
value = obj (
    member (97 ∷ []) (arr (item (int (pos 1)) (item (float 7) (item null no_items))))
      (member (98 ∷ []) (obj (member (99 ∷ []) (bool true) no_members)) no_members))

value-IsReadable : IsReadable fixed_floats true value
unfolding IsReadable AreReadable AreMembers AllBelow snoc key_lt
value-IsReadable = (
  (λ l e. cc),
  (
    (record { some_char = omega arith; no_quote = omega arith }, tt),
    (
      ((λ l e. cc), (omega arith, (seven-IsExact, (tt, tt)))),
      (
        (record { some_char = omega arith; no_quote = omega arith }, (refl, tt)),
        (
          (
            (λ l e. cc),
            ((record { some_char = omega arith; no_quote = omega arith }, tt), (tt, tt)),
          ),
          tt,
        ),
      ),
    ),
  ),
)

parser-write_example : parser fixed_floats (write fixed_floats true 0 value) ≡ parsed value
parser-write_example = parser-write fixed_floats true value value-IsReadable

parser_ends_example : parser no_floats (91 ∷ 91 ∷ 44 ∷ []) ≢ unfinished
parser_ends_example = parser_ends no_floats (91 ∷ 91 ∷ 44 ∷ [])

parser-empty_string_example : parser no_floats (b'"' ∷ b'"' ∷ []) ≡ rejected (b'"' ∷ [])
parser-empty_string_example = parser-empty_string no_floats []

-- What is written for an empty array with a layout
blank_array : write no_floats true 0 (arr no_items) ≡ b'[' ∷ 10 ∷ b']' ∷ []
unfolding write write_items
blank_array = refl

parser-blank_example :
    (parser no_floats (b'[' ∷ 10 ∷ b']' ∷ []) ≡ rejected (b']' ∷ []))
    × (parser no_floats (b'{' ∷ 10 ∷ b'}' ∷ []) ≡ rejected (b'}' ∷ []))
parser-blank_example = parser-blank no_floats 10 [] [] ((omega arith, omega arith), tt)

-- Commas may be missing, and a minus may stand before a string.
lenient :
    parser no_floats (b'[' ∷ b'1' ∷ 32 ∷ b'2' ∷ b'-' ∷ b'"' ∷ 97 ∷ b'"' ∷ b']' ∷ [])
    ≡ parsed (arr (item (int (pos 1)) (item (int (pos 2)) (item (str (97 ∷ [])) no_items))))
unfolding parser whole reader read_items skip read_base starts read_number scan_number end_number
    read_str scan_str stoi leading
lenient = refl

-- {"a":null,"c":true}, with "b" assigned and "a" removed
abbrev two_members : Members
two_members = member (97 ∷ []) null (member (99 ∷ []) (bool true) no_members)

two_members-IsSorted : IsSorted two_members
unfolding key_lt
two_members-IsSorted = (refl, tt)

put-remove_member_example :
    IsSorted (put (98 ∷ []) null two_members)
    × IsSorted (remove_member two_members (98 ∷ []))
    × (find (put (98 ∷ []) null two_members) (99 ∷ []) ≡ some (bool true))
    × (find (remove_member two_members (98 ∷ [])) (99 ∷ []) ≡ some (bool true))
unfolding find key_lt
put-remove_member_example =
    put-remove_member (98 ∷ []) (99 ∷ []) null two_members two_members-IsSorted
