-- ===== src/Common/Bytes.antt =====
-- Bytes and machine words. A byte is a number below 256, a w-byte word its value, and a word in
-- memory the list of its bytes in the order of a little-endian host: `EndianConvert` of
-- src/common/ByteConverter.h changes nothing, since TRINITY_ENDIAN is never defined.
use lua_server.Common.Lists.{length, take, drop, replicate}
use Prim.Native.Nat.{ℕ, zero, suc, ◌+◌, ◌-◌, ◌*◌, ◌/◌, ◌%◌, ◌^◌, ◌≤◌, ◌<◌}
use mathlib.Core.Path.{◌≡◌, refl, ap}
use mathlib.Core.List.{List, [], ◌∷◌, ◌++◌}
use native.Mathlib.Omega.{arith}

abbrev pub Bytes : Type 0
Bytes = List ℕ

abbrev pub All {ℓ κ} : {A : Type ℓ} → (A → Type κ) → List A → Type κ
All P [] = Unit
All P (x ∷ xs) = P x × All P xs

abbrev pub IsByte : ℕ → Type 0
IsByte b = b < 256

-- The w bytes of a word, lowest first, and the word that such bytes stand for.
unfoldable pub word_bytes : ℕ → ℕ → Bytes
word_bytes zero v = []
word_bytes (suc w) v = v % 256 ∷ word_bytes w (v / 256)

unfoldable pub bytes_word : Bytes → ℕ
bytes_word [] = 0
bytes_word (b ∷ bs) = b + 256 * bytes_word bs

pub length-word_bytes : (w v : ℕ) → length (word_bytes w v) ≡ w
unfolding word_bytes
length-word_bytes zero v = refl
length-word_bytes (suc w) v = ap suc (length-word_bytes w (v / 256))

-- The value is kept, up to what w bytes can hold.
pub bytes_word-word_bytes : (w v : ℕ) → v < 256 ^ w → bytes_word (word_bytes w v) ≡ v
unfolding word_bytes bytes_word
bytes_word-word_bytes zero v h = omega arith
bytes_word-word_bytes (suc w) v h = omega (arith, bytes_word-word_bytes w (v / 256) (omega arith))

pub word_bytes-IsByte : (w v : ℕ) → All IsByte (word_bytes w v)
unfolding word_bytes
word_bytes-IsByte zero v = tt
word_bytes-IsByte (suc w) v = (omega arith, word_bytes-IsByte w (v / 256))

-- `std::vector` operations. `resize` cuts, or fills with 0.
abbrev pub resize : ℕ → Bytes → Bytes
resize n xs = take n xs ++ replicate (n - length xs) 0

-- memcpy of `src` over `dst` from an offset on, where the bytes fit.
abbrev pub overwrite : ℕ → Bytes → Bytes → Bytes
overwrite pos src dst = take pos dst ++ (src ++ drop (pos + length src) dst)

abbrev pub splice : ℕ → Bytes → Bytes → Bytes
splice pos src dst = take pos dst ++ (src ++ drop pos dst)

module _ {ℓ} {A : Type ℓ} where
  pub take-append_left : (xs ys : List A) → take (length xs) (xs ++ ys) ≡ xs
  take-append_left [] ys = refl
  take-append_left (x ∷ xs) ys = ap (◌∷◌ x) (take-append_left xs ys)

  pub drop-append_left : (xs ys : List A) → drop (length xs) (xs ++ ys) ≡ ys
  drop-append_left [] ys = refl
  drop-append_left (x ∷ xs) ys = drop-append_left xs ys

  pub take_all : (xs : List A) → take (length xs) xs ≡ xs
  take_all [] = refl
  take_all (x ∷ xs) = ap (◌∷◌ x) (take_all xs)

  pub drop_all : (xs : List A) → drop (length xs) xs ≡ []
  drop_all [] = refl
  drop_all (x ∷ xs) = drop_all xs

  pub drop-drop : (m n : ℕ) (xs : List A) → drop m (drop n xs) ≡ drop (n + m) xs
  drop-drop m zero xs = ap (λ k. drop k xs) (omega arith)
  drop-drop zero (suc n) [] = let e : suc n + 0 ≡ suc (n + 0) = omega arith in rw e
  drop-drop (suc m) (suc n) [] = let e : suc n + suc m ≡ suc (n + suc m) = omega arith in rw e
  drop-drop m (suc n) (x ∷ xs) =
      let e : suc n + m ≡ suc (n + m) = omega arith in rw e (drop-drop m n xs)

  pub drop-append_at : (n : ℕ) (xs ys : List A) → n ≡ length xs → drop n (xs ++ ys) ≡ ys
  drop-append_at n xs ys e = rw e (drop-append_left xs ys)

  pub take-append_at : (n : ℕ) (xs ys : List A) → n ≡ length xs → take n (xs ++ ys) ≡ xs
  take-append_at n xs ys e = rw e (take-append_left xs ys)

  pub take-take : (n m : ℕ) (xs : List A) → n ≤ m → take n (take m xs) ≡ take n xs
  take-take zero m xs h = refl
  take-take (suc n) zero xs h = absurd (omega arith)
  take-take (suc n) (suc m) [] h = refl
  take-take (suc n) (suc m) (x ∷ xs) h = ap (◌∷◌ x) (take-take n m xs (omega arith))

  pub drop-take : (n m k : ℕ) (xs : List A) → m ≡ n + k → drop n (take m xs) ≡ take k (drop n xs)
  drop-take zero m k xs h = ap (λ j. take j xs) (omega arith)
  drop-take (suc n) zero k xs h = absurd (omega arith)
  drop-take (suc n) (suc m) zero [] h = refl
  drop-take (suc n) (suc m) (suc k) [] h = refl
  drop-take (suc n) (suc m) k (x ∷ xs) h = drop-take n m k xs (omega arith)

  pub drop-append_le :
      (n : ℕ) (xs ys : List A) → n ≤ length xs → drop n (xs ++ ys) ≡ drop n xs ++ ys
  drop-append_le zero xs ys h = refl
  drop-append_le (suc n) [] ys h = absurd (omega arith)
  drop-append_le (suc n) (x ∷ xs) ys h = drop-append_le n xs ys (omega arith)

  pub take-le : (n : ℕ) (xs : List A) → length xs ≤ n → take n xs ≡ xs
  take-le zero [] h = refl
  take-le zero (x ∷ xs) h = absurd (omega arith)
  take-le (suc n) [] h = refl
  take-le (suc n) (x ∷ xs) h = ap (◌∷◌ x) (take-le n xs (omega arith))
