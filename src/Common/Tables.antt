-- ===== src/Common/Tables.antt =====
-- Facts about small numbers, checked for each of them.
use Prim.Native.Nat.{ℕ, zero, suc, ◌<◌, bit_xor}
use mathlib.Core.Path.{◌≡◌, refl}
use mathlib.Core.Bool.{Bool, true, ◌&&◌}
use native.Mathlib.Omega.{arith}
use lua_server.Common.Tests.{◌==◌, ==_iff}

-- A test that passes below a bound.
unfoldable pub covers : (ℕ → Bool) → ℕ → Bool
covers test zero = true
covers test (suc k) = covers test k && test k

pub covers_each :
    (test : ℕ → Bool) (x bound : ℕ) → x < bound → covers test bound ≡ true → test x ≡ true
unfolding covers
covers_each test x zero l e = absurd (omega arith)
covers_each test x (suc k) l e = ground (arith, covers_each test x k)

pub table : (f g : ℕ → ℕ) (n x : ℕ) → covers (λ k. f k == g k) n ≡ true → x < n → f x ≡ g x
table f g n x h l = (==_iff (f x) (g x)).0 (covers_each (λ k. f k == g k) x n l h)

xor_twice : covers (λ k. covers (λ x. bit_xor (bit_xor x k) k == x) 256) 256 ≡ true
unfolding covers
xor_twice = refl

-- Masking a byte twice gives it back.
pub bit_xor-bit_xor : (x k : ℕ) → x < 256 → k < 256 → bit_xor (bit_xor x k) k ≡ x
bit_xor-bit_xor x k hx hk = (==_iff _ x).0 (
    covers_each (λ y. bit_xor (bit_xor y k) k == y) x 256 hx
      (covers_each (λ j. covers (λ y. bit_xor (bit_xor y j) j == y) 256) k 256 hk xor_twice))
