-- ===== src/Base64/Tests.antt =====
-- Runs of base64.cpp.
use lua_server.Common.{◌==◌, ◌+◌, ◌*◌, ◌/◌, ◌≡◌, refl, true, not, ◌||◌, ◌∷◌, ◌++◌, arith}
use lua_server.Base64.{base64_decode, base64_encode, is_base64, [], length}
use lua_server.Base64.RoundTrip.{
  base64_decode-base64_encode, base64_decode-stops, length-base64_encode,
}
use lua_server.Common.Bytes.{All, Bytes, IsByte}

abbrev hello : Bytes
hello = 104 ∷ 101 ∷ 108 ∷ 108 ∷ 111 ∷ []

-- "aGVsbG8="
abbrev encoded : Bytes
encoded = 97 ∷ 71 ∷ 86 ∷ 115 ∷ 98 ∷ 71 ∷ 56 ∷ 61 ∷ []

encode_hello : base64_encode hello ≡ encoded
unfolding base64_encode
encode_hello = refl

decode_hello : base64_decode encoded ≡ hello
unfolding base64_decode
decode_hello = refl

hello-IsByte : All IsByte hello
hello-IsByte = (omega arith, (omega arith, (omega arith, (omega arith, (omega arith, tt)))))

base64_decode-base64_encode_example : base64_decode (base64_encode hello) ≡ hello
base64_decode-base64_encode_example = base64_decode-base64_encode hello hello-IsByte

length-base64_encode_example : length (base64_encode hello) ≡ (length hello + 2) / 3 * 4
length-base64_encode_example = length-base64_encode hello hello-IsByte

stops_here : (b'=' == b'=' || not (is_base64 b'=')) ≡ true
stops_here = refl

base64_decode-stops_example : base64_decode (hello ++ (b'=' ∷ hello)) ≡ base64_decode hello
base64_decode-stops_example = base64_decode-stops hello b'=' hello stops_here
