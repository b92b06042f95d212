-- ===== src/Common/Taken.antt =====
-- Bytes taken from a buffer, as far as they are missing, and put into the room behind others.
use Prim.Native.Nat.{ℕ, zero, suc, ◌-◌, ◌≤◌, ◌<◌}
use mathlib.Core.Path.{◌≡◌}
use mathlib.Core.List.{◌++◌, append_assoc}
use native.Mathlib.Omega.{arith}
use lua_server.Common.Tests.{leb, if◌then◌else◌}
use lua_server.Common.Lists.{length, take, drop, replicate, length-take}
use lua_server.Common.Bytes.{Bytes, overwrite, take-append_left, drop-drop, drop-append_left}

-- The number of bytes that a round takes: what is missing, or all there is.
abbrev pub taken : ℕ → Bytes → ℕ
taken missing xs = if leb missing (length xs) then missing else length xs

pub taken_bounds : (m : ℕ) (xs : Bytes) → (taken m xs ≤ m) × (taken m xs ≤ length xs)
taken_bounds m xs = ground arith

pub taken_pos : (m : ℕ) (xs : Bytes) → 0 < m → 0 < length xs → 0 < taken m xs
taken_pos m xs h k = ground arith

pub length-taken : (m : ℕ) (xs : Bytes) → length (take (taken m xs) xs) ≡ taken m xs
length-taken m xs = omega (arith, length-take (taken m xs) xs, taken_bounds m xs)

drop-replicate : (m n : ℕ) (x : ℕ) → drop m (replicate n x) ≡ replicate (n - m) x
drop-replicate zero n x = let e : n - 0 ≡ n = omega arith in rw e
drop-replicate (suc m) zero x = let e : 0 - suc m ≡ 0 = omega arith in rw e
drop-replicate (suc m) (suc n) x =
    let e : suc n - suc m ≡ n - m = omega arith in rw e (drop-replicate m n x)

pub overwrite-append :
    (bs xs : Bytes) (n : ℕ)
    → length xs ≤ n
    → overwrite (length bs) xs (bs ++ replicate n 0) ≡ (bs ++ xs) ++ replicate (n - length xs) 0
overwrite-append bs xs n h = rw (
  take-append_left bs (replicate n 0),
  ← drop-drop (length xs) (length bs) (bs ++ replicate n 0),
  drop-append_left bs (replicate n 0),
  drop-replicate,
  append_assoc,
)
