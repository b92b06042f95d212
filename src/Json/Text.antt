-- ===== src/Json/Text.antt =====
-- Spaces, strings and first characters of JSON text, as the reader meets them.
use lua_server.Common.{
  ℕ, zero, suc, ◌+◌, ◌≤◌, ◌<◌, ◌≡◌, ◌≢◌, refl, ap, sym, ◌∙◌, Bool, true, false, [], ◌∷◌, ◌++◌, ◌==◌,
  if◌then◌else◌, length, arith, append_assoc, inl, inr, replicate, some, ◌⊎◌, drop, subst,
}
use lua_server.Common.Bytes.{Bytes, All}
use lua_server.Json.{Floats, Json, float, quoted, indent, newline, decimal}
use lua_server.Json.Reader.{
  ok, skip, starts, scan_str, read_str, head, at_end, stopped, scan_number, end_number, read_number,
  read_base,
}
use lua_server.Json.Numbers.{
  IsStop, IsNumeral, IsDigit, decimal-IsDigit, scan-decimal, read_base-IsNumeral,
}

-- What the writer puts between tokens
abbrev pub IsSpace : Bytes → Type 0
IsSpace s = All (λ c. (0 < c) × (c ≤ 32)) s

-- Text that begins with a character of a value: no space, and no closing bracket.
abbrev pub IsFront : Bytes → Type 0
IsFront [] = ⊥
IsFront (c ∷ cs) = (32 < c) × ((c ≢ b']') × (c ≢ b'}'))

pub skip-IsSpace : (ws s : Bytes) → IsSpace ws → skip (ws ++ s) ≡ skip s
unfolding skip
skip-IsSpace [] s h = refl
skip-IsSpace (w ∷ ws) s h = let k = h.0 in ground (arith, skip-IsSpace ws s h.1)

pub skip-IsFront : (s r : Bytes) → IsFront s → skip (s ++ r) ≡ s ++ r
unfolding skip
skip-IsFront [] r h = absurd h
skip-IsFront (c ∷ cs) r h = let k = h.0 in ground arith

pub at_end-IsFront :
    (close : ℕ) (ws s r : Bytes)
    → (close ≡ b']') ⊎ (close ≡ b'}')
    → IsSpace ws
    → IsFront s
    → at_end close (ws ++ (s ++ r)) ≡ false
at_end-IsFront close [] [] r o w h = absurd h
at_end-IsFront close [] (c ∷ cs) r (inl e) w h = let k = h.1.0 in let l = h.0 in ground arith
at_end-IsFront close [] (c ∷ cs) r (inr e) w h = let k = h.1.1 in let l = h.0 in ground arith
at_end-IsFront close (w ∷ ws) s r (inl e) h f = let k = h.0 in ground arith
at_end-IsFront close (w ∷ ws) s r (inr e) h f = let k = h.0 in ground arith

pub IsNumeral-IsFront : (s : Bytes) → IsNumeral s → IsFront s
IsNumeral-IsFront [] h = h
IsNumeral-IsFront (c ∷ cs) (inl d) = let k = d.0 in let l = d.1 in omega arith
IsNumeral-IsFront (c ∷ cs) (inr e) = omega arith

pub newline-IsSpace : (layout : Bool) → IsSpace (newline layout)
newline-IsSpace true = omega arith
newline-IsSpace false = tt

tabs-IsSpace : (n : ℕ) → IsSpace (replicate n 9)
tabs-IsSpace zero = tt
tabs-IsSpace (suc n) = ((omega arith, omega arith), tabs-IsSpace n)

pub indent-IsSpace : (layout : Bool) (n : ℕ) → IsSpace (indent layout n)
indent-IsSpace true n = tabs-IsSpace n
indent-IsSpace false n = tt

pub IsSpace-append : (xs ys : Bytes) → IsSpace xs → IsSpace ys → IsSpace (xs ++ ys)
IsSpace-append [] ys h g = g
IsSpace-append (x ∷ xs) ys h g = (h.0, IsSpace-append xs ys h.1 g)

-- A space, a comma or a bracket ends a number.
pub IsStop-IsSpace : (ws s : Bytes) → IsSpace ws → IsStop s → IsStop (ws ++ s)
IsStop-IsSpace [] s h g = g
IsStop-IsSpace (w ∷ ws) s h g = let k = h.0 in (ground arith, omega arith)

-- A string that the reader takes back: not empty, with no quote and no 0 in it.
pub record IsText (s : Bytes) : Type 0 where
  pub some_char : 0 < length s
  pub no_quote : All (λ c. (c ≢ b'"') × (c ≢ 0)) s

scan-quoted :
    (s r : Bytes) → All (λ c. (c ≢ b'"') × (c ≢ 0)) s → scan_str (s ++ (b'"' ∷ r)) ≡ (s, b'"' ∷ r)
unfolding scan_str
scan-quoted [] r h = refl
scan-quoted (c ∷ s) r h = let k = h.0.0 in ground (arith, scan-quoted s r h.1)

pub read_str-quoted : (s r : Bytes) → IsText s → read_str (quoted s ++ r) ≡ ok s r
unfolding read_str
read_str-quoted [] r h = absurd (omega (arith, h.some_char))
read_str-quoted (c ∷ s) r h = rw (append_assoc, scan-quoted (c ∷ s) r h.no_quote) refl

pub read_base-quoted :
    (fl : Floats) (s r : Bytes) → IsText s → read_base fl (quoted s ++ r) ≡ ok (Json.str s) r
unfolding read_base starts read_number scan_number end_number
read_base-quoted fl s r h = rw (read_str-quoted s r h) refl

positive : (k : ℕ) → (suc k == 0) ≡ false
positive k = ground arith

-- A float that its text gives back, whatever stands behind it but a digit, a dot or an exponent. The
-- text has the form of `%f`: a sign perhaps, digits, a dot and digits.
pub record IsExact (fl : Floats) (x : ℕ) : Type 0 where
  pub minus : Bool
  pub whole_part : ℕ
  pub fraction : Bytes
  pub digits : All IsDigit fraction
  pub form :
      fl.to_string x
      ≡ (if minus then b'-' ∷ [] else []) ++ (decimal whole_part ++ (b'.' ∷ fraction))
  pub back : (r : Bytes) → IsStop r → fl.stof (fl.to_string x ++ r) ≡ some x

scan_fraction :
    (m : ℕ) (s r : Bytes)
    → All IsDigit s
    → IsStop r
    → (k : ℕ) × (scan_number true m (s ++ r) ≡ stopped true (m + k) r)
unfolding scan_number
scan_fraction m [] [] h g = (0, ap (λ k. stopped true k []) (omega arith))
scan_fraction m [] (c ∷ r) h g = (0, let k = g.0 in let l = g.1 in ground arith)
scan_fraction m (c ∷ s) r h g =
    let (k, e) = scan_fraction (m + 1) s r h.1 g in
    let lo = h.0.0 in let hi = h.0.1 in (k + 1, ground arith)

module _ (fl : Floats) (x : ℕ) (h : IsExact fl x) where
  pub to_string-IsNumeral : IsNumeral (fl.to_string x)
  to_string-IsNumeral = rw (h.form) (by_sign h.minus)
    where
      by_sign :
          (b : Bool)
          → IsNumeral
              ((if b then b'-' ∷ [] else []) ++ (decimal h.whole_part ++ (b'.' ∷ h.fraction)))
      by_sign true = inr refl
      by_sign false = let (c, cs, e, d) = decimal-IsDigit h.whole_part in rw e (inl d)

  scan_float :
      (r : Bytes)
      → IsStop r
      → (k : ℕ) × (scan_number false 0 (decimal h.whole_part ++ (b'.' ∷ (h.fraction ++ r)))
          ≡ stopped true (suc k) r)
  unfolding scan_number
  scan_float r s =
      let (c, cs, e, d) = decimal-IsDigit h.whole_part in
      let (k, f) = scan_fraction (length (decimal h.whole_part)) h.fraction r h.digits s in
      (length cs + k, rw scan-decimal (f ∙ ap (λ n. stopped true n r) (omega (arith, ap length e))))

  unsigned : Bool → Bytes
  unsigned b = (if b then b'-' ∷ [] else []) ++ (decimal h.whole_part ++ (b'.' ∷ h.fraction))

  past_sign :
      (b : Bool) (r : Bytes)
      → (if head (unsigned b ++ r) == b'-' then drop 1 (unsigned b ++ r) else unsigned b ++ r)
        ≡ decimal h.whole_part ++ (b'.' ∷ (h.fraction ++ r))
  unfolding unsigned
  past_sign true r = append_assoc (decimal h.whole_part) (b'.' ∷ h.fraction) r
  past_sign false r =
      let (c, cs, e, d) = decimal-IsDigit h.whole_part in
      let minus : (head ((decimal h.whole_part ++ (b'.' ∷ h.fraction)) ++ r) == b'-') ≡ false =
        rw e (ground arith) in
      rw minus (append_assoc (decimal h.whole_part) (b'.' ∷ h.fraction) r)

  pub read_base-to_string :
      (r : Bytes) → IsStop r → read_base fl (fl.to_string x ++ r) ≡ ok (float x) r
  unfolding unsigned end_number
  read_base-to_string r s =
      let (k, e) = scan_float r s in
      let signed : (if head (fl.to_string x ++ r) == b'-'
            then drop 1 (fl.to_string x ++ r)
            else fl.to_string x ++ r)
          ≡ decimal h.whole_part ++ (b'.' ∷ (h.fraction ++ r)) =
        subst
          (λ t.
            (if head (t ++ r) == b'-' then drop 1 (t ++ r) else t ++ r)
            ≡ decimal h.whole_part ++ (b'.' ∷ (h.fraction ++ r)))
          (sym h.form) (past_sign h.minus r) in
      read_base-IsNumeral fl (fl.to_string x) r to_string-IsNumeral
      ∙ unfold read_number in rw (signed, e, positive k, h.back r s) refl
