-- ===== src/UdpPacket.antt =====
-- src/network/UdpPacket.cpp: a packet with its type in the first 4 bytes (which doc/src-note.md calls
-- a length).
use lua_server.Common.{ℕ, Option, ltb, if◌then◌else◌, take, []}
use lua_server.Common.Bytes.{Bytes, resize}
use lua_server.ByteBuffer.{ByteBuffer, size, put_word, read_word_at}
use lua_server.NetPacket.{base_zero}

abbrev pub udp_head_size : ℕ
udp_head_size = 4

-- `zero`, and `new UdpPacket`
unfoldable pub zero_udp : ByteBuffer → ByteBuffer
zero_udp p = record {
  storage = resize udp_head_size p.storage;
  rpos = udp_head_size;
  wpos = udp_head_size;
}

unfoldable pub new_udp : ByteBuffer
new_udp = zero_udp (base_zero (record { storage = []; rpos = 0; wpos = 0 }))

-- `initSize` of a size that is not negative
unfoldable pub init_size : ℕ → ByteBuffer → ByteBuffer
init_size s p = if ltb (size p) s then record p { storage = resize s p.storage } else p

unfoldable pub udp_type : ByteBuffer → Option ℕ
udp_type p = read_word_at 4 p 0

unfoldable pub write_udp_head : ByteBuffer → ℕ → Option ByteBuffer
write_udp_head p kind = put_word 4 p 0 kind

-- `sendStream` and `sendSize`
abbrev pub udp_wire : ByteBuffer → Bytes
udp_wire p = take p.wpos p.storage
