-- ===== src/NetPacket.antt =====
-- src/network/BasePacket.cpp and NetPacket.cpp: packets of the TCP protocol, a head of 8 bytes (body
-- length and message type, uint32 each) and a body. A packet is its `ByteBuffer`.
use lua_server.Common.{
  ℕ, ◌+◌, ◌-◌, ◌%◌, ◌^◌, Bool, ◌&&◌, Option, some, leb, ltb, if◌then◌else◌, ◌>>=◌,
}
use lua_server.Common.Bytes.{Bytes, resize}
use lua_server.ByteBuffer.{ByteBuffer, size, put, put_word, read_word_at}

abbrev pub head_size : ℕ
head_size = 8

-- The bits of an `int` made from a size_t, and its test `> 0`.
abbrev pub to_int32 : ℕ → ℕ
to_int32 n = n % 2 ^ 32

abbrev pub is_positive : ℕ → Bool
is_positive n = ltb 0 n && ltb n (2 ^ 31)

-- An `int` (by its bits) made a size_t: the sign is extended.
abbrev pub int32_to_size : ℕ → ℕ
int32_to_size n = if ltb n (2 ^ 31) then n else n + (2 ^ 64 - 2 ^ 32)

-- `BasePacket::zero` and `NetPacket::zero`
unfoldable pub base_zero : ByteBuffer → ByteBuffer
base_zero p = record { storage = resize 0 p.storage; rpos = 0; wpos = 0 }

unfoldable pub zero_packet : ByteBuffer → ByteBuffer
zero_packet p = record { storage = resize head_size p.storage; rpos = head_size; wpos = head_size }

-- `new NetPacket`: both constructors run, whatever the pooled vector held.
unfoldable pub new_packet : Bytes → ByteBuffer
unfolding base_zero zero_packet
new_packet old = zero_packet (base_zero (record { storage = old; rpos = 0; wpos = 0 }))

-- `getBodySize`, the bits of an `int`
unfoldable pub body_size : ByteBuffer → ℕ
body_size p = to_int32 (p.wpos + 2 ^ 64 - head_size)

-- `getMarkLen` and `getMsgType`, the bits of an `int`
unfoldable pub mark_len : ByteBuffer → Option ℕ
mark_len p = read_word_at 4 p 0

unfoldable pub msg_type : ByteBuffer → Option ℕ
msg_type p = read_word_at 4 p 4

unfoldable pub is_head_full : ByteBuffer → Bool
is_head_full p = leb head_size p.wpos

-- `writeHead`
unfoldable pub write_head : ByteBuffer → ℕ → Option ByteBuffer
write_head p kind = do p' ← put_word 4 p 0 (body_size p); put_word 4 p' 4 kind

-- `readHead`'s `rsize` before it is capped
abbrev pub head_missing : ByteBuffer → ℕ
head_missing p = to_int32 (head_size + 2 ^ 64 - p.wpos)

-- `readHead` at `size` bytes in reach, which `source` reads: how many it took, and the packet.
unfoldable pub read_head : ByteBuffer → (ℕ → Option Bytes) → ℕ → Option (ℕ × ByteBuffer)
read_head p source size =
    if is_positive (head_missing p)
    then (let n = if leb (head_missing p) size then head_missing p else size in
        source n >>= λ bs. put p p.wpos bs >>= λ p'. some (n, record p' { wpos = p'.wpos + n }))
    else some (0, p)
