-- ===== src/MessageBuffer/Laws.antt =====
-- The invariant of a receive buffer, and what its operations do to the data in it.
use lua_server.Common.{
  ℕ, ◌+◌, ◌-◌, ◌^◌, ◌≤◌, ◌<◌, ◌≡◌, sym, ap, some, le→leb, length, take, drop, length-take,
  length-drop, arith,
}
use lua_server.Common.Bytes.{Bytes, drop-drop, take-take, drop-take}
use lua_server.MessageBuffer.{MessageBuffer, read_completed, active_size, peek}

-- 0 <= rpos <= wpos <= size, and a size that a size_t holds with room to spare.
pub record IsValid (b : MessageBuffer) : Type 0 where
  pub ordered : b.rpos ≤ b.wpos
  pub inside : b.wpos ≤ length b.storage
  pub small : length b.storage < 2 ^ 62

-- The data in the buffer.
abbrev pub active : MessageBuffer → Bytes
active b = take (b.wpos - b.rpos) (drop b.rpos b.storage)

pub length-active : {b : MessageBuffer} → IsValid b → length (active b) ≡ b.wpos - b.rpos
length-active {b} v =
    omega
      (arith, length-take (b.wpos - b.rpos) (drop b.rpos b.storage), length-drop b.rpos b.storage)

pub active_size_lem : {b : MessageBuffer} → IsValid b → active_size b ≡ length (active b)
unfolding active_size
active_size_lem {b} v = omega (arith, length-active v)

pub peek_lem :
    {b : MessageBuffer} (n : ℕ)
    → IsValid b
    → n ≤ length (active b)
    → peek b n ≡ some (take n (active b))
unfolding peek
peek_lem {b} n v h = rw (le→leb (b.rpos + n) (length b.storage) (omega (arith, length-active v))) (
    ap some (
      sym (take-take n (b.wpos - b.rpos) (drop b.rpos b.storage) (omega (arith, length-active v)))))

-- `ReadCompleted` drops what was read, and keeps the invariant.
pub read_completed-IsValid :
    {b : MessageBuffer} (n : ℕ) → IsValid b → n ≤ length (active b) → IsValid (read_completed b n)
unfolding read_completed
read_completed-IsValid {b} n v h = omega (arith, v, length-active v)

pub active-read_completed :
    {b : MessageBuffer} (n : ℕ)
    → IsValid b
    → n ≤ length (active b)
    → active (read_completed b n) ≡ drop n (active b)
unfolding read_completed
active-read_completed {b} n v h = rw (← drop-drop n b.rpos b.storage) (
    sym (
      drop-take n (b.wpos - b.rpos) (b.wpos - (b.rpos + n)) (drop b.rpos b.storage)
        (omega (arith, length-active v))))
