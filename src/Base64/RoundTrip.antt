-- ===== src/Base64/RoundTrip.antt =====
-- Decoding what base64.cpp has encoded.
use lua_server.Common.{
  ℕ, ◌+◌, ◌*◌, ◌/◌, ◌%◌, ◌<◌, ◌≡◌, refl, ◌∙◌, sym, true, ◌&&◌, ◌||◌, not, [], ◌∷◌, ◌++◌, ◌==◌,
  length, arith, append_assoc, append-nil,
}
use lua_server.Common.Bytes.{Bytes, All, IsByte}
use Prim.Native.Nat.{bit_and}
use lua_server.Common.Tables.{covers, covers_each, table}
use lua_server.Base64.{
  base64_chars, is_base64, char_at, find, to_4, to_3, map_chars, encode_end, encode_loop,
  base64_encode, value, decode_end, next_group, next_bytes, decode_loop, base64_decode,
}

module _ (x : ℕ) (h : x < 256) where
  and_fc : bit_and x 0xfc ≡ x / 4 * 4
  unfolding covers
  and_fc = table (λ k. bit_and k 0xfc) (λ k. k / 4 * 4) 256 x refl h

  and_03 : bit_and x 0x03 ≡ x % 4
  unfolding covers
  and_03 = table (λ k. bit_and k 0x03) (λ k. k % 4) 256 x refl h

  and_f0 : bit_and x 0xf0 ≡ x / 16 * 16
  unfolding covers
  and_f0 = table (λ k. bit_and k 0xf0) (λ k. k / 16 * 16) 256 x refl h

  and_0f : bit_and x 0x0f ≡ x % 16
  unfolding covers
  and_0f = table (λ k. bit_and k 0x0f) (λ k. k % 16) 256 x refl h

  and_c0 : bit_and x 0xc0 ≡ x / 64 * 64
  unfolding covers
  and_c0 = table (λ k. bit_and k 0xc0) (λ k. k / 64 * 64) 256 x refl h

  and_3f : bit_and x 0x3f ≡ x % 64
  unfolding covers
  and_3f = table (λ k. bit_and k 0x3f) (λ k. k % 64) 256 x refl h

  and_30 : bit_and x 0x30 ≡ x / 16 % 4 * 16
  unfolding covers
  and_30 = table (λ k. bit_and k 0x30) (λ k. k / 16 % 4 * 16) 256 x refl h

  and_3c : bit_and x 0x3c ≡ x / 4 % 16 * 4
  unfolding covers
  and_3c = table (λ k. bit_and k 0x3c) (λ k. k / 4 % 16 * 4) 256 x refl h

-- The character of a number below 64, and what the decoder makes of it.
abbrev letter : ℕ → ℕ
letter n = char_at base64_chars n

module _ (n : ℕ) (h : n < 64) where
  value-letter : value (letter n) ≡ n
  unfolding covers find char_at base64_chars
  value-letter = table (λ k. value (letter k)) (λ k. k) 64 n refl h

  letter_taken : (not (letter n == b'=') && is_base64 (letter n)) ≡ true
  unfolding covers is_base64 char_at base64_chars
  letter_taken = covers_each (λ k. not (letter k == b'=') && is_base64 (letter k)) n 64 h refl

-- Four numbers of 6 bits for three bytes.
sextets : ℕ → ℕ → ℕ → Bytes
sextets a b c = a / 4 ∷ (a % 4 * 16 + b / 16) ∷ (b % 16 * 4 + c / 64) ∷ c % 64 ∷ []

to_4_lem : (a b c : ℕ) → a < 256 → b < 256 → c < 256 → to_4 a b c ≡ sextets a b c
unfolding to_4 sextets
to_4_lem a b c ha hb hc =
    rw (and_fc a ha, and_03 a ha, and_f0 b hb, and_0f b hb, and_c0 c hc, and_3f c hc) (ground arith)

-- The three bytes again.
module _ (a b c : ℕ) (ha : a < 256) (hb : b < 256) (hc : c < 256) where
  byte_1 : (a / 4 * 4 + bit_and (a % 4 * 16 + b / 16) 0x30 / 16) % 256 ≡ a
  byte_1 = rw (and_30 (a % 4 * 16 + b / 16) (omega arith)) (omega arith)

  byte_2 :
      (bit_and (a % 4 * 16 + b / 16) 0xf * 16 + bit_and (b % 16 * 4 + c / 64) 0x3c / 4) % 256 ≡ b
  byte_2 =
      rw (and_0f (a % 4 * 16 + b / 16) (omega arith), and_3c (b % 16 * 4 + c / 64) (omega arith))
        (omega arith)

  byte_3 : (bit_and (b % 16 * 4 + c / 64) 0x3 * 64 + c % 64) % 256 ≡ c
  byte_3 = rw (and_03 (b % 16 * 4 + c / 64) (omega arith)) (omega arith)

  to_3_lem : to_3 (a / 4) (a % 4 * 16 + b / 16) (b % 16 * 4 + c / 64) (c % 64) ≡ a ∷ b ∷ c ∷ []
  unfolding to_3
  to_3_lem = rw (byte_1, byte_2, byte_3) refl

-- The text of some bytes, group by group.
pub text : Bytes → Bytes
text [] = []
text (a ∷ []) = letter (a / 4) ∷ letter (a % 4 * 16) ∷ b'=' ∷ b'=' ∷ []
text (a ∷ b ∷ []) = letter (a / 4) ∷ letter (a % 4 * 16 + b / 16) ∷ letter (b % 16 * 4) ∷ b'=' ∷ []
text (a ∷ b ∷ c ∷ xs) =
    letter (a / 4)
    ∷ letter (a % 4 * 16 + b / 16)
    ∷ letter (b % 16 * 4 + c / 64)
    ∷ letter (c % 64)
    ∷ text xs

encode_loop-text : (xs ret : Bytes) → All IsByte xs → encode_loop xs [] ret ≡ ret ++ text xs
unfolding encode_loop encode_end text map_chars sextets
encode_loop-text [] ret h = sym (append-nil ret)
encode_loop-text (a ∷ []) ret h =
    let e : a % 4 * 16 + 0 / 16 ≡ a % 4 * 16 = omega arith in
    rw (to_4_lem a 0 0 h.0 (omega arith) (omega arith), e) refl
encode_loop-text (a ∷ b ∷ []) ret h =
    let e : b % 16 * 4 + 0 / 64 ≡ b % 16 * 4 = omega arith in
    rw (to_4_lem a b 0 h.0 h.1.0 (omega arith), e) refl
encode_loop-text (a ∷ b ∷ c ∷ xs) ret h =
    rw (to_4_lem a b c h.0 h.1.0 h.1.1.0, encode_loop-text xs _ h.1.1.1, append_assoc) refl

-- A letter that the decoder takes.
decode_letter :
    (n : ℕ) (xs group ret : Bytes)
    → n < 64
    → decode_loop (letter n ∷ xs) group ret
      ≡ decode_loop xs (next_group (letter n) group) (ret ++ next_bytes (letter n) group)
unfolding decode_loop
decode_letter n xs group ret h = rw (letter_taken n h) refl

module _ (p q : ℕ) (hp : p < 64) (hq : q < 64) where
  decode_two :
      (xs ret : Bytes)
      → decode_loop (letter p ∷ letter q ∷ xs) [] ret
        ≡ decode_loop xs (letter p ∷ letter q ∷ []) ret
  unfolding next_group next_bytes
  decode_two xs ret =
      rw
        (
          decode_letter p (letter q ∷ xs) [] ret hp,
          append-nil,
          decode_letter q xs (letter p ∷ []) ret hq,
          append-nil,
        )
        refl

  decode_three :
      (r : ℕ) (xs ret : Bytes)
      → r < 64
      → decode_loop (letter p ∷ letter q ∷ letter r ∷ xs) [] ret
        ≡ decode_loop xs (letter p ∷ letter q ∷ letter r ∷ []) ret
  unfolding next_group next_bytes
  decode_three r xs ret hr =
      rw
        (
          decode_two (letter r ∷ xs) ret,
          decode_letter r xs (letter p ∷ letter q ∷ []) ret hr,
          append-nil,
        )
        refl

  decode_four :
      (r s : ℕ) (xs ret : Bytes)
      → r < 64
      → s < 64
      → decode_loop (letter p ∷ letter q ∷ letter r ∷ letter s ∷ xs) [] ret
        ≡ decode_loop xs [] (ret ++ to_3 p q r s)
  unfolding next_group next_bytes
  decode_four r s xs ret hr hs =
      rw
        (
          decode_three r (letter s ∷ xs) ret hr,
          decode_letter s xs (letter p ∷ letter q ∷ letter r ∷ []) ret hs,
          value-letter p hp,
          value-letter q hq,
          value-letter r hr,
          value-letter s hs,
        )
        refl

decode_stop : (xs group ret : Bytes) → decode_loop (b'=' ∷ xs) group ret ≡ decode_end group ret
unfolding decode_loop
decode_stop xs group ret = refl

decode_text : (xs ret : Bytes) → All IsByte xs → decode_loop (text xs) [] ret ≡ ret ++ xs
unfolding text
decode_text [] ret h = unfold decode_loop decode_end in sym (append-nil ret)
decode_text (a ∷ []) ret h =
    decode_two (a / 4) (a % 4 * 16) (omega (arith, h.0)) (omega arith) (b'=' ∷ b'=' ∷ []) ret
    ∙ decode_stop (b'=' ∷ []) (letter (a / 4) ∷ letter (a % 4 * 16) ∷ []) ret
    ∙ unfold decode_end to_3 in
      rw (value-letter (a / 4) (omega (arith, h.0)), value-letter (a % 4 * 16) (omega arith), first)
        refl
  where
    first : (a / 4 * 4 + bit_and (a % 4 * 16) 0x30 / 16) % 256 ≡ a
    first = rw (and_30 (a % 4 * 16) (omega arith)) (omega (arith, h.0))
decode_text (a ∷ b ∷ []) ret h =
    decode_three (a / 4) (a % 4 * 16 + b / 16) (omega (arith, h.0)) (omega (arith, h.1.0))
      (b % 16 * 4) (b'=' ∷ []) ret (omega arith)
    ∙ decode_stop [] (letter (a / 4) ∷ letter (a % 4 * 16 + b / 16) ∷ letter (b % 16 * 4) ∷ []) ret
    ∙ unfold decode_end to_3 in
      rw
        (
          value-letter (a / 4) (omega (arith, h.0)),
          value-letter (a % 4 * 16 + b / 16) (omega (arith, h.1.0)),
          value-letter (b % 16 * 4) (omega arith),
          byte_1 a b 0 h.0 h.1.0 (omega arith),
          second,
        )
        refl
  where
    second : (bit_and (a % 4 * 16 + b / 16) 0xf * 16 + bit_and (b % 16 * 4) 0x3c / 4) % 256 ≡ b
    second =
        rw (and_0f (a % 4 * 16 + b / 16) (omega (arith, h.1.0)), and_3c (b % 16 * 4) (omega arith))
          (omega (arith, h.1.0))
decode_text (a ∷ b ∷ c ∷ xs) ret h =
    rw
      (
        decode_four (a / 4) (a % 4 * 16 + b / 16) (omega (arith, h.0)) (omega (arith, h.1.0))
            (b % 16 * 4 + c / 64) (c % 64) (text xs) ret (omega (arith, h.1.1.0)) (omega arith),
        to_3_lem a b c h.0 h.1.0 h.1.1.0,
        decode_text xs (ret ++ (a ∷ b ∷ c ∷ [])) h.1.1.1,
        append_assoc,
      )
      refl

-- Decoding gives back the bytes that were encoded.
pub base64_decode-base64_encode :
    (xs : Bytes) → All IsByte xs → base64_decode (base64_encode xs) ≡ xs
unfolding base64_decode base64_encode
base64_decode-base64_encode xs h = rw (encode_loop-text xs [] h) (decode_text xs [] h)

length-text : (xs : Bytes) → length (text xs) ≡ (length xs + 2) / 3 * 4
unfolding text
length-text [] = omega arith
length-text (a ∷ []) = omega arith
length-text (a ∷ b ∷ []) = omega arith
length-text (a ∷ b ∷ c ∷ xs) = omega (arith, length-text xs)

-- The encoded text has four characters for every three bytes begun.
pub length-base64_encode :
    (xs : Bytes) → All IsByte xs → length (base64_encode xs) ≡ (length xs + 2) / 3 * 4
unfolding base64_encode
length-base64_encode xs h = rw (encode_loop-text xs [] h) (length-text xs)

decode_ignores :
    (xs group ret : Bytes) (c : ℕ) (ys : Bytes)
    → (c == b'=' || not (is_base64 c)) ≡ true
    → decode_loop (xs ++ (c ∷ ys)) group ret ≡ decode_loop xs group ret
unfolding decode_loop
decode_ignores [] group ret c ys h = ground arith
decode_ignores (x ∷ xs) group ret c ys h =
    rw (decode_ignores xs (next_group x group) (ret ++ next_bytes x group) c ys h) refl

-- The decoder reads up to the first `=` or other character that is not in the alphabet, and says
-- nothing of what comes behind it.
pub base64_decode-stops :
    (xs : Bytes) (c : ℕ) (ys : Bytes)
    → (c == b'=' || not (is_base64 c)) ≡ true
    → base64_decode (xs ++ (c ∷ ys)) ≡ base64_decode xs
unfolding base64_decode
base64_decode-stops xs c ys h = decode_ignores xs [] [] c ys h
