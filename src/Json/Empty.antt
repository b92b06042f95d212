-- ===== src/Json/Empty.antt =====
-- What the writer prints and the reader does not take: an empty string, and an empty array or object
-- with a layout.
use lua_server.Common.{ℕ, suc, ◌+◌, ◌*◌, ◌≡◌, refl, sym, ◌∙◌, true, false, ◌∷◌, ◌++◌, length, arith}
use lua_server.Common.Bytes.{Bytes}
use lua_server.Json.{Floats, no_members}
use lua_server.Json.Reader.{
  failed, skip, starts, scan_str, read_str, scan_number, end_number, read_number, read_base, at_end,
  reader, read_items, read_members, rejected, whole, parser,
}
use lua_server.Json.Text.{IsSpace, skip-IsSpace}
use lua_server.Json.Readable.{reader-skip}

empty_fails :
    (fl : Floats) (n : ℕ) (rest : Bytes)
    → reader fl (n + 3) (b'"' ∷ b'"' ∷ rest) ≡ failed (b'"' ∷ rest)
unfolding reader skip read_base starts read_number scan_number end_number read_str scan_str
empty_fails fl n rest = let k : n + 3 ≡ suc (suc (suc n)) = omega arith in rw k refl

-- A text that begins with an empty string is rejected at its second quote.
pub parser-empty_string :
    (fl : Floats) (rest : Bytes) → parser fl (b'"' ∷ b'"' ∷ rest) ≡ rejected (b'"' ∷ rest)
unfolding parser whole skip
parser-empty_string fl rest = rw (empty_fails fl (2 * length (b'"' ∷ b'"' ∷ rest)) rest) refl

closing_fails :
    (fl : Floats) (fuel : ℕ) (rest : Bytes)
    → reader fl (suc fuel) (b']' ∷ rest) ≡ failed (b']' ∷ rest)
unfolding reader skip read_base starts read_number scan_number end_number read_str
closing_fails fl fuel rest = refl

-- One space is enough.
module _ (fl : Floats) (fuel w : ℕ) (ws rest : Bytes) (h : IsSpace (w ∷ ws)) where
  blank_items :
      read_items fl (suc (suc fuel)) true ((w ∷ ws) ++ (b']' ∷ rest)) ≡ failed (b']' ∷ rest)
  unfolding read_items
  blank_items =
      let lo = h.0.0 in
      let hi = h.0.1 in
      let e : at_end b']' (w ∷ (ws ++ (b']' ∷ rest))) ≡ false = ground arith in
      let s : reader fl (suc fuel) ((w ∷ ws) ++ (b']' ∷ rest)) ≡ failed (b']' ∷ rest) =
        reader-skip fl fuel ((w ∷ ws) ++ (b']' ∷ rest)) (b']' ∷ rest)
          (skip-IsSpace (w ∷ ws) (b']' ∷ rest) h ∙ closed)
        ∙ sym (reader-skip fl fuel (b']' ∷ rest) (b']' ∷ rest) closed)
        ∙ closing_fails fl fuel rest in
      rw (read_items, e, s) refl
    where
      closed : skip (b']' ∷ rest) ≡ b']' ∷ rest
      closed = unfold skip in refl

  blank_members :
      read_members fl (suc fuel) true no_members ((w ∷ ws) ++ (b'}' ∷ rest)) ≡ failed (b'}' ∷ rest)
  unfolding read_members
  blank_members =
      let lo = h.0.0 in
      let hi = h.0.1 in
      let e : at_end b'}' (w ∷ (ws ++ (b'}' ∷ rest))) ≡ false = ground arith in
      let s : skip ((w ∷ ws) ++ (b'}' ∷ rest)) ≡ b'}' ∷ rest =
        skip-IsSpace (w ∷ ws) (b'}' ∷ rest) h ∙ (unfold skip in refl) in
      rw (read_members, e, s) (unfold read_str in refl)

  open_array :
      (n : ℕ)
      → n ≡ fuel
      → reader fl (n + 3) (b'[' ∷ ((w ∷ ws) ++ (b']' ∷ rest))) ≡ failed (b']' ∷ rest)
  unfolding skip
  open_array n e =
      let k : n + 3 ≡ suc (suc (suc fuel)) = omega arith in
      let text = (w ∷ ws) ++ (b']' ∷ rest) in
      rw k (reader-skip fl (suc (suc fuel)) (b'[' ∷ text) (b'[' ∷ text) refl ∙ rw blank_items refl)

  open_object :
      (n : ℕ)
      → n + 1 ≡ fuel
      → reader fl (n + 3) (b'{' ∷ ((w ∷ ws) ++ (b'}' ∷ rest))) ≡ failed (b'}' ∷ rest)
  unfolding skip
  open_object n e =
      let k : n + 3 ≡ suc (suc fuel) = omega arith in
      let text = (w ∷ ws) ++ (b'}' ∷ rest) in
      rw k (reader-skip fl (suc fuel) (b'{' ∷ text) (b'{' ∷ text) refl ∙ rw blank_members refl)

-- Brackets or braces with spaces and nothing else between them are rejected at the closing one,
-- whatever comes behind it. So a written array or object that is empty is not read back if it was
-- written with a layout.
pub parser-blank :
    (fl : Floats) (w : ℕ) (ws rest : Bytes)
    → IsSpace (w ∷ ws)
    → (parser fl (b'[' ∷ ((w ∷ ws) ++ (b']' ∷ rest))) ≡ rejected (b']' ∷ rest))
      × (parser fl (b'{' ∷ ((w ∷ ws) ++ (b'}' ∷ rest))) ≡ rejected (b'}' ∷ rest))
unfolding parser whole skip
parser-blank fl w ws rest h =
    let n = 2 * length (b'[' ∷ ((w ∷ ws) ++ (b']' ∷ rest))) in
    let m = 2 * length (b'{' ∷ ((w ∷ ws) ++ (b'}' ∷ rest))) in
    (
      rw (open_array fl n w ws rest h n refl) refl,
      rw (open_object fl (m + 1) w ws rest h m refl) refl,
    )
