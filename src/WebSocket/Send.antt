-- ===== src/WebSocket/Send.antt =====
-- What `sendMsg` of WebSocketConnect.cpp puts on the wire.
use lua_server.Common.{
  ℕ, suc, ◌+◌, ◌-◌, ◌%◌, ◌^◌, ◌≤◌, ◌<◌, ◌≡◌, refl, false, ◌||◌, some, [], ◌∷◌, ◌++◌, leb,
  if◌then◌else◌, length, arith, replicate, append-nil, le→leb, dec_lt,
}
use lua_server.Common.Bytes.{Bytes, word_bytes, take_all}
use lua_server.ByteBuffer.{append, put, put_word}
use lua_server.WebSocket.{
  WebSocketPacket, new_frame, put_length, write_frame_head, frame_wire, send_frame, binary_frame,
}

-- The head that `writeFrameHead` writes: a final binary frame, and the length in one byte, or in 2 or
-- 8 bytes of the host's order.
unfoldable pub frame_head : ℕ → Bytes
frame_head len =
    binary_frame
    ∷ (if leb len 125
        then len ∷ []
        else (if leb len 0xffff then 126 ∷ word_bytes 2 len else 127 ∷ word_bytes 8 len))

-- A packet whose head ends at 14, with a message behind it.
sent : Bytes → ℕ → Bytes → WebSocketPacket
sent head pos msg = record {
  buffer = record { storage = head ++ (msg ++ []); rpos = 14; wpos = 14 + length msg };
  head = 0 ∷ 0 ∷ [];
  headpos = pos;
}

module _ (msg : Bytes) where
  send_short :
      length msg ≤ 125
      → send_frame msg ≡ some (sent (replicate 12 0 ++ (0x82 ∷ (length msg % 256) ∷ [])) 12 msg)
  unfolding send_frame write_frame_head put_length new_frame put_word put append sent word_bytes
  send_short h =
      let i : length msg % 2 ^ 32 ≡ length msg = omega arith in
      rw (i, le→leb (length msg) 125 h) refl

  send_medium :
      125 < length msg
      → length msg ≤ 65535
      → send_frame msg
        ≡ some (sent (replicate 10 0 ++ (0x82 ∷ 126 ∷ word_bytes 2 (length msg))) 10 msg)
  unfolding send_frame write_frame_head put_length new_frame put_word put append sent word_bytes
  send_medium h k =
      let i : length msg % 2 ^ 32 ≡ length msg = omega arith in
      let e : (leb (length msg) 125 || leb (2 ^ 31) (length msg)) ≡ false = ground arith in
      rw (i, e, le→leb (length msg) 65535 k) refl

  send_long :
      65535 < length msg
      → length msg < 2 ^ 31
      → send_frame msg
        ≡ some (sent (replicate 4 0 ++ (0x82 ∷ 127 ∷ word_bytes 8 (length msg))) 4 msg)
  unfolding send_frame write_frame_head put_length new_frame put_word put append sent word_bytes
  send_long h k =
      let i : length msg % 2 ^ 32 ≡ length msg = omega arith in
      let e : (leb (length msg) 125 || leb (2 ^ 31) (length msg)) ≡ false = ground arith in
      let f : leb (length msg) 65535 ≡ false = ground arith in rw (i, e, f) refl

  wire_short :
      length msg ≤ 125
      → frame_wire (sent (replicate 12 0 ++ (0x82 ∷ (length msg % 256) ∷ [])) 12 msg)
        ≡ frame_head (length msg) ++ msg
  unfolding sent frame_head
  wire_short h =
      let n : 14 + length msg - 12 ≡ suc (suc (length msg)) = omega arith in
      let m : length msg % 256 ≡ length msg = omega arith in
      rw (n, m, append-nil, take_all, le→leb (length msg) 125 h) refl

  wire_medium :
      125 < length msg
      → length msg ≤ 65535
      → frame_wire (sent (replicate 10 0 ++ (0x82 ∷ 126 ∷ word_bytes 2 (length msg))) 10 msg)
        ≡ frame_head (length msg) ++ msg
  unfolding sent frame_head word_bytes
  wire_medium h k =
      let n : 14 + length msg - 10 ≡ suc (suc (suc (suc (length msg)))) = omega arith in
      let e : leb (length msg) 125 ≡ false = ground arith in
      rw (n, append-nil, take_all, e, le→leb (length msg) 65535 k) refl

  wire_long :
      65535 < length msg
      → frame_wire (sent (replicate 4 0 ++ (0x82 ∷ 127 ∷ word_bytes 8 (length msg))) 4 msg)
        ≡ frame_head (length msg) ++ msg
  unfolding sent frame_head word_bytes
  wire_long h =
      let n : 14 + length msg - 4
          ≡ suc (suc (suc (suc (suc (suc (suc (suc (suc (suc (length msg)))))))))) =
        omega arith in
      let e : leb (length msg) 125 ≡ false = ground arith in
      let f : leb (length msg) 65535 ≡ false = ground arith in
      rw (n, append-nil, take_all, e, f) refl

-- `sendMsg` with a buffer never faults, and what goes over the wire is the head of a final binary
-- frame with the message's length in the host's byte order, and the message, for messages of every
-- size below 2 ^ 31.
pub send_frame_lem :
    (msg : Bytes)
    → length msg < 2 ^ 31
    → (p : WebSocketPacket) × (send_frame msg ≡ some p)
      × (frame_wire p ≡ frame_head (length msg) ++ msg)
send_frame_lem msg small = elim (dec_lt 125 (length msg)) [
  | no a ↦ (_, send_short msg (omega arith), wire_short msg (omega arith))
  | yes a ↦ elim (dec_lt 65535 (length msg)) [
    | no b ↦ (_, send_medium msg a (omega arith), wire_medium msg a (omega arith))
    | yes b ↦ (_, send_long msg b small, wire_long msg b)
  ]
]
