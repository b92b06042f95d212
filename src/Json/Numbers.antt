-- ===== src/Json/Numbers.antt =====
-- Numbers in JSON text: what the writer prints the reader takes as the same number.
use lua_server.Common.{
  ℕ, zero, suc, ◌+◌, ◌*◌, ◌/◌, ◌%◌, ◌≤◌, ◌<◌, ◌≡◌, ◌≢◌, refl, ap, ◌∙◌, Bool, false, some, [], ◌∷◌,
  ◌++◌, ltb, ◌==◌, length, arith, append_assoc, length-append, inl, inr, ◌⊎◌, dec_lt, lt→ltb,
}
use lua_server.Common.Bytes.{Bytes}
use lua_server.Json.{ℤ, pos, negsuc, Floats, int, decimal_loop, decimal, int_text}
use lua_server.Json.Reader.{
  ok, starts, head, is_digit, stopped, scan_number, leading, negated, stoi, end_number, read_number,
  read_base,
}

abbrev pub IsDigit : ℕ → Type 0
IsDigit c = (b'0' ≤ c) × (c ≤ b'9')

-- The text behind a number: no digit, no dot and no exponent comes first.
abbrev pub IsStop : Bytes → Type 0
IsStop [] = Unit
IsStop (c ∷ cs) = (is_digit c ≡ false) × ((c ≢ b'.') × ((c ≢ b'e') × (c ≢ b'E')))

-- Text that begins as a number does.
abbrev pub IsNumeral : Bytes → Type 0
IsNumeral [] = ⊥
IsNumeral (c ∷ cs) = IsDigit c ⊎ (c ≡ b'-')

leading-decimal_loop :
    (fuel n : ℕ) (rest : Bytes)
    → n < fuel
    → leading 0 (decimal_loop fuel n ++ rest) ≡ leading n rest
unfolding leading decimal_loop
leading-decimal_loop zero n rest h = absurd (omega arith)
leading-decimal_loop (suc fuel) n rest h = elim (dec_lt n 10) [
  | yes l ↦ ground arith
  | no l ↦
      let e : ltb n 10 ≡ false = ground arith in
      rw (e, append_assoc)
        (leading-decimal_loop fuel (n / 10) ((b'0' + n % 10) ∷ rest) (omega arith)
          ∙ next (n / 10) (n % 10) (omega arith)
          ∙ ap (λ k. leading k rest) (omega arith))
]
  where
    next : (a d : ℕ) → d < 10 → leading a ((b'0' + d) ∷ rest) ≡ leading (a * 10 + d) rest
    next a d l = ground arith

scan-decimal_loop :
    (fuel n m : ℕ) (f : Bool) (rest : Bytes)
    → n < fuel
    → scan_number f m (decimal_loop fuel n ++ rest)
      ≡ scan_number f (m + length (decimal_loop fuel n)) rest
unfolding scan_number decimal_loop
scan-decimal_loop zero n m f rest h = absurd (omega arith)
scan-decimal_loop (suc fuel) n m f rest h = elim (dec_lt n 10) [
  | yes l ↦ ground arith
  | no l ↦
      let e : ltb n 10 ≡ false = ground arith in
      rw (e, append_assoc)
        (scan-decimal_loop fuel (n / 10) m f ((b'0' + n % 10) ∷ rest) (omega arith)
          ∙ next (m + length (decimal_loop fuel (n / 10))) (n % 10) (omega arith)
          ∙ ap (λ k. scan_number f k rest)
              (omega (arith, length-append (decimal_loop fuel (n / 10)) ((b'0' + n % 10) ∷ []))))
]
  where
    next : (k d : ℕ) → d < 10 → scan_number f k ((b'0' + d) ∷ rest) ≡ scan_number f (k + 1) rest
    next k d l = ground arith

decimal_loop-IsDigit :
    (fuel n : ℕ) → n < fuel → (c : ℕ) × (cs : Bytes) × (decimal_loop fuel n ≡ c ∷ cs) × IsDigit c
unfolding decimal_loop
decimal_loop-IsDigit zero n h = absurd (omega arith)
decimal_loop-IsDigit (suc fuel) n h = elim (dec_lt n 10) [
  | yes l ↦ (b'0' + n, [], rw (lt→ltb n 10 l) refl, (omega arith, omega arith))
  | no l ↦
      let e : ltb n 10 ≡ false = ground arith in
      let (c, cs, k, d) = decimal_loop-IsDigit fuel (n / 10) (omega arith) in
      (c, cs ++ ((b'0' + n % 10) ∷ []), rw (e, k) refl, d)
]

pub decimal-IsDigit : (n : ℕ) → (c : ℕ) × (cs : Bytes) × (decimal n ≡ c ∷ cs) × IsDigit c
unfolding decimal
decimal-IsDigit n = decimal_loop-IsDigit (suc n) n (omega arith)

leading_stop : (n : ℕ) (rest : Bytes) → IsStop rest → leading n rest ≡ n
unfolding leading
leading_stop n [] h = refl
leading_stop n (c ∷ cs) h = rw (h.0) refl

scan_stop :
    (f : Bool) (m : ℕ) (rest : Bytes) → IsStop rest → scan_number f m rest ≡ stopped f m rest
unfolding scan_number
scan_stop f m [] h = refl
scan_stop f m (c ∷ cs) h = let d = h.1 in let e = h.0 in ground arith

leading-decimal : (n : ℕ) (rest : Bytes) → IsStop rest → leading 0 (decimal n ++ rest) ≡ n
unfolding decimal
leading-decimal n rest h = leading-decimal_loop (suc n) n rest (omega arith) ∙ leading_stop n rest h

pub scan-decimal :
    (f : Bool) (n : ℕ) (rest : Bytes)
    → scan_number f 0 (decimal n ++ rest) ≡ scan_number f (length (decimal n)) rest
unfolding decimal
scan-decimal f n rest =
    scan-decimal_loop (suc n) n 0 f rest (omega arith)
    ∙ ap (λ k. scan_number f k rest) (omega arith)

-- The values of an `int`
abbrev pub IsInt : ℤ → Type 0
IsInt (pos n) = n < 2147483648
IsInt (negsuc n) = n < 2147483648

pub read_base-IsNumeral :
    (fl : Floats) (s rest : Bytes)
    → IsNumeral s
    → read_base fl (s ++ rest) ≡ read_number fl (s ++ rest)
unfolding read_base starts
read_base-IsNumeral fl [] rest h = absurd h
read_base-IsNumeral fl (c ∷ cs) rest (inl d) = ground arith
read_base-IsNumeral fl (c ∷ cs) rest (inr e) = ground arith

pub int_text-IsNumeral : (n : ℤ) → IsNumeral (int_text n)
unfolding int_text
int_text-IsNumeral (pos n) = let (c, cs, e, d) = decimal-IsDigit n in rw e (inl d)
int_text-IsNumeral (negsuc n) = inr refl

stoi-decimal :
    (n : ℕ) (rest : Bytes) → n < 2147483648 → IsStop rest → stoi (decimal n ++ rest) ≡ some (pos n)
unfolding stoi
stoi-decimal n rest h s =
    let (c, cs, e, d) = decimal-IsDigit n in
    let l : leading 0 (c ∷ (cs ++ rest)) ≡ n = rw e at (leading-decimal n rest s) in
    rw e (ground arith)

read_number-decimal :
    (fl : Floats) (n : ℕ) (rest : Bytes)
    → n < 2147483648
    → IsStop rest
    → read_number fl (decimal n ++ rest) ≡ ok (int (pos n)) rest
unfolding read_number end_number
read_number-decimal fl n rest h s =
    let (c, cs, e, d) = decimal-IsDigit n in
    let minus : (head (decimal n ++ rest) == b'-') ≡ false = rw e (ground arith) in
    let some_digit : (length (decimal n) == 0) ≡ false = rw e (ground arith) in
    rw
      (
        minus,
        scan-decimal,
        scan_stop false (length (decimal n)) rest s,
        some_digit,
        stoi-decimal n rest h s,
      )
      refl

read_number-minus :
    (fl : Floats) (n : ℕ) (rest : Bytes)
    → n < 2147483648
    → IsStop rest
    → read_number fl (b'-' ∷ (decimal (suc n) ++ rest)) ≡ ok (int (negsuc n)) rest
unfolding read_number end_number stoi negated
read_number-minus fl n rest h s =
    let (c, cs, e, d) = decimal-IsDigit (suc n) in
    let some_digit : (length (decimal (suc n)) == 0) ≡ false = rw e (ground arith) in
    rw
      (
        scan-decimal,
        scan_stop false (length (decimal (suc n))) rest s,
        some_digit,
        leading-decimal (suc n) rest s,
        lt→ltb n 2147483648 h,
      )
      refl

-- An `int` that is printed, with anything behind it that does not go on with a digit or a dot.
pub read_base-int_text :
    (fl : Floats) (n : ℤ) (rest : Bytes)
    → IsInt n
    → IsStop rest
    → read_base fl (int_text n ++ rest) ≡ ok (int n) rest
read_base-int_text fl n rest h s =
    read_base-IsNumeral fl (int_text n) rest (int_text-IsNumeral n) ∙ by_sign n h
  where
    by_sign : (n : ℤ) → IsInt n → read_number fl (int_text n ++ rest) ≡ ok (int n) rest
    by_sign (pos n) h = unfold int_text in read_number-decimal fl n rest h s
    by_sign (negsuc n) h = unfold int_text in read_number-minus fl n rest h s
