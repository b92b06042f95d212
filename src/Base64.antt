-- ===== src/Base64.antt =====
-- src/common/base64.cpp. Characters are their codes; an unsigned char is cut to 8 bits. The arrays
-- char_array_3 and char_array_4 are modelled by the bytes that have been put into them.
mod Tests
pub mod RoundTrip
use lua_server.Common.{
  ℕ, zero, suc, ◌+◌, ◌-◌, ◌*◌, ◌/◌, ◌%◌, ◌^◌, Bool, true, false, ◌&&◌, ◌||◌, not, Option, none,
  some, List, [], ◌∷◌, ◌++◌, leb, ◌==◌, if◌then◌else◌, length, take, replicate,
}
use lua_server.Common.Bytes.{Bytes}
use Prim.Native.Nat.{bit_and}
use Prim.Native.Char.{code}
use Prim.Native.String.{String}

abbrev codes : String → Bytes
codes String.[] = []
codes (String.◌∷◌ c s) = code c ∷ codes s

unfoldable pub base64_chars : Bytes
base64_chars = codes "ABCDEFGHIJKLMNOPQRSTUVWXYZabcdefghijklmnopqrstuvwxyz0123456789+/"

-- isalnum in the C locale, `+` and `/`
unfoldable pub is_base64 : ℕ → Bool
is_base64 c =
    (leb b'0' c && leb c b'9')
    || (leb b'A' c && leb c b'Z')
    || (leb b'a' c && leb c b'z')
    || c == b'+'
    || c == b'/'

-- `base64_chars[n]`, with the final 0 behind the end
unfoldable pub char_at : Bytes → ℕ → ℕ
char_at [] n = 0
char_at (c ∷ cs) zero = c
char_at (c ∷ cs) (suc n) = char_at cs n

-- `base64_chars.find(c)` as an unsigned char: npos becomes 255.
unfoldable pub find : Bytes → ℕ → ℕ → ℕ
find [] n c = 255
find (x ∷ xs) n c = if x == c then n else find xs (n + 1) c

-- char_array_4 from char_array_3
unfoldable pub to_4 : ℕ → ℕ → ℕ → Bytes
to_4 a b c =
    bit_and a 0xfc / 4
    ∷ ((bit_and a 0x03 * 16 + bit_and b 0xf0 / 16) % 256)
    ∷ ((bit_and b 0x0f * 4 + bit_and c 0xc0 / 64) % 256)
    ∷ bit_and c 0x3f
    ∷ []

-- char_array_3 from char_array_4
unfoldable pub to_3 : ℕ → ℕ → ℕ → ℕ → Bytes
to_3 a b c d =
    ((a * 4 + bit_and b 0x30 / 16) % 256)
    ∷ ((bit_and b 0xf * 16 + bit_and c 0x3c / 4) % 256)
    ∷ ((bit_and c 0x3 * 64 + d) % 256)
    ∷ []

unfoldable pub map_chars : (ℕ → ℕ) → Bytes → Bytes
map_chars f [] = []
map_chars f (x ∷ xs) = f x ∷ map_chars f xs

-- The last group, of i bytes: i + 1 characters, and `=` up to four.
unfoldable pub encode_end : Bytes → Bytes → Bytes
unfolding map_chars
encode_end [] ret = ret
encode_end (a ∷ []) ret =
    ret ++ (take 2 (map_chars (char_at base64_chars) (to_4 a 0 0)) ++ (b'=' ∷ b'=' ∷ []))
encode_end (a ∷ b ∷ _) ret =
    ret ++ (take 3 (map_chars (char_at base64_chars) (to_4 a b 0)) ++ (b'=' ∷ []))

-- The loop over the bytes; `group` is char_array_3 up to i.
unfoldable pub encode_loop : Bytes → Bytes → Bytes → Bytes
encode_loop [] group ret = encode_end group ret
encode_loop (x ∷ xs) [] ret = encode_loop xs (x ∷ []) ret
encode_loop (x ∷ xs) (a ∷ []) ret = encode_loop xs (a ∷ x ∷ []) ret
encode_loop (x ∷ xs) (a ∷ b ∷ _) ret =
    encode_loop xs [] (ret ++ map_chars (char_at base64_chars) (to_4 a b x))

unfoldable pub base64_encode : Bytes → Bytes
unfolding encode_loop encode_end to_4 char_at base64_chars map_chars
base64_encode xs = encode_loop xs [] []

abbrev value : ℕ → ℕ
value c = find base64_chars 0 c

-- The last group of i characters gives i - 1 bytes. What is missing is a 0 character, whose
-- `find` is npos.
unfoldable pub decode_end : Bytes → Bytes → Bytes
decode_end [] ret = ret
decode_end (a ∷ []) ret = ret
decode_end (a ∷ b ∷ []) ret = ret ++ take 1 (to_3 (value a) (value b) (value 0) (value 0))
decode_end (a ∷ b ∷ c ∷ _) ret = ret ++ take 2 (to_3 (value a) (value b) (value c) (value 0))

-- A character joins char_array_4; the fourth completes three bytes.
unfoldable pub next_group : ℕ → Bytes → Bytes
next_group x [] = x ∷ []
next_group x (a ∷ []) = a ∷ x ∷ []
next_group x (a ∷ b ∷ []) = a ∷ b ∷ x ∷ []
next_group x (a ∷ b ∷ c ∷ _) = []

unfoldable pub next_bytes : ℕ → Bytes → Bytes
next_bytes x [] = []
next_bytes x (a ∷ []) = []
next_bytes x (a ∷ b ∷ []) = []
next_bytes x (a ∷ b ∷ c ∷ _) = to_3 (value a) (value b) (value c) (value x)

-- The loop over the characters, up to a `=` or any other that is not in the alphabet; `group` is
-- char_array_4 up to i.
unfoldable pub decode_loop : Bytes → Bytes → Bytes → Bytes
unfolding next_group next_bytes
decode_loop [] group ret = decode_end group ret
decode_loop (x ∷ xs) group ret =
    let rest = decode_loop xs (next_group x group) (ret ++ next_bytes x group) in
    if not (x == b'=') && is_base64 x then rest else decode_end group ret

unfoldable pub base64_decode : Bytes → Bytes
unfolding decode_loop decode_end to_3 find base64_chars is_base64
base64_decode xs = decode_loop xs [] []
