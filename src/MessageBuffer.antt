-- ===== src/MessageBuffer.antt =====
-- src/network/MessageBuffer.h: the receive buffer of a socket. Data stands between the two
-- positions. Positions are size_t: below 2 ^ 64.
mod Tests
pub mod Laws
pub mod Growth
use lua_server.Common.{
  ℕ, ◌+◌, ◌-◌, ◌*◌, ◌/◌, ◌%◌, ◌^◌, ◌≤◌, Option, none, some, leb, ◌==◌, if◌then◌else◌, ◌>>=◌, length,
  take, drop, [],
}
use lua_server.Common.Bytes.{Bytes, resize, overwrite}

pub record MessageBuffer : Type 0 where
  pub storage : Bytes
  pub rpos : ℕ
  pub wpos : ℕ

-- `MessageBuffer(size_t)`
unfoldable pub sized : ℕ → MessageBuffer
sized n = record { storage = resize n []; rpos = 0; wpos = 0 }

unfoldable pub reset : MessageBuffer → MessageBuffer
reset b = record b { rpos = 0; wpos = 0 }

unfoldable pub resize_storage : MessageBuffer → ℕ → MessageBuffer
resize_storage b n = record b { storage = resize n b.storage }

unfoldable pub read_completed : MessageBuffer → ℕ → MessageBuffer
read_completed b n = record b { rpos = b.rpos + n }

unfoldable pub write_completed : MessageBuffer → ℕ → MessageBuffer
write_completed b n = record b { wpos = b.wpos + n }

-- `GetActiveSize`, a size_t difference
unfoldable pub active_size : MessageBuffer → ℕ
active_size b = (b.wpos + 2 ^ 64 - b.rpos) % 2 ^ 64

-- `GetRemainingSpace`
unfoldable pub remaining_space : MessageBuffer → ℕ
remaining_space b = (length b.storage + 2 ^ 64 - b.wpos) % 2 ^ 64

-- n bytes from `GetReadPointer()` on; `none` where they are not all in the storage
unfoldable pub peek : MessageBuffer → ℕ → Option Bytes
peek b n =
    if leb (b.rpos + n) (length b.storage) then some (take n (drop b.rpos b.storage)) else none

-- memmove and memcpy to an offset of the storage
unfoldable pub store : MessageBuffer → ℕ → Bytes → Option MessageBuffer
store b pos src =
    if leb (pos + length src) (length b.storage)
    then some (record b { storage = overwrite pos src b.storage })
    else none

-- `Write(void const *, size_t)`
unfoldable pub write : MessageBuffer → Bytes → Option MessageBuffer
write b src =
    if length src == 0
    then some b
    else (store b b.wpos src >>= λ b'. some (write_completed b' (length src)))

-- `Normalize`: the data moves to the front.
unfoldable pub normalize : MessageBuffer → Option MessageBuffer
normalize b =
    if b.rpos == 0
    then some b
    else ((if b.rpos == b.wpos then some b else (peek b (active_size b) >>= store b 0)) >>= λ b'.
        some (record b' { rpos = 0; wpos = (b.wpos + 2 ^ 64 - b.rpos) % 2 ^ 64 }))

-- `EnsureFreeSpace`
unfoldable pub ensure_free_space : MessageBuffer → MessageBuffer
ensure_free_space b =
    if remaining_space b == 0 then resize_storage b (length b.storage * 3 / 2) else b
