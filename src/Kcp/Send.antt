-- ===== src/Kcp/Send.antt =====
-- From the `sendMsg` of one KCP session to the handler of another.
use lua_server.Common.{
  ℕ, ◌+◌, ◌-◌, ◌^◌, ◌<◌, ◌≡◌, refl, ap, sym, ◌∙◌, true, false, some, [], ◌∷◌, ◌++◌, length, take,
  drop, replicate, arith, le→leb, lt→ltb, length-append, append-nil, dec_lt, length-take,
  length-replicate, length-drop, eq_nil_of_length, suc, ltb,
}
use lua_server.Common.Bytes.{
  Bytes, word_bytes, bytes_word-word_bytes, length-word_bytes, take_all, take-append_at,
  drop-append_at,
}
use lua_server.ByteBuffer.{ByteBuffer, append, put, put_word, unread, read_word_at, slice}
use lua_server.NetPacket.{is_positive, base_zero}
use lua_server.UdpPacket.{new_udp, zero_udp, init_size, udp_type, write_udp_head}
use lua_server.Kcp.{KcpLib, KcpSession, send_msg, send_bytes, receive}

-- What ikcp is given: the type in 4 bytes, and the message.
abbrev pub message_bytes : ℕ → Bytes → Bytes
message_bytes kind msg = word_bytes 4 kind ++ msg

-- Room for a message, and the message in it
init_size_lem :
    (n : ℕ)
    → (length (init_size (4 + n) new_udp).storage ≡ 4 + n) × ((init_size (4 + n) new_udp).rpos ≡ 4)
unfolding init_size new_udp zero_udp base_zero
init_size_lem n = elim (dec_lt 0 n) [
  | yes h ↦
      let zeros : Bytes = replicate 4 0 in
      let l = length-append (take (4 + n) zeros) (replicate (4 + n - 4) 0) in
      rw (lt→ltb 4 (4 + n) (omega arith))
        (omega (arith, l, length-take (4 + n) zeros, length-replicate {A = ℕ} (4 + n - 4) 0), refl)
  | no h ↦ let e : ltb 4 (4 + n) ≡ false = ground arith in rw e (omega arith, refl)
]

put_all :
    (p : ByteBuffer) (bs : Bytes)
    → length p.storage ≡ length bs
    → put p 0 bs ≡ some (record p { storage = bs })
unfolding put
put_all p bs e =
    let d : drop (0 + length bs) p.storage ≡ [] =
      eq_nil_of_length (drop (0 + length bs) p.storage)
        (omega (arith, e, length-drop (0 + length bs) p.storage)) in
    rw (le→leb (0 + length bs) (length p.storage) (omega arith), d, append-nil) refl

type_lem :
    (p : ByteBuffer) (kind : ℕ) (msg : Bytes)
    → kind < 2 ^ 32
    → p.storage ≡ message_bytes kind msg
    → udp_type p ≡ some kind
unfolding udp_type read_word_at slice
type_lem p kind msg small e =
    let n = length-append (word_bytes 4 kind) msg in
    let w = length-word_bytes 4 kind in
    rw
      (
        e,
        le→leb (0 + 4) (length (message_bytes kind msg)) (omega arith),
        take-append_at 4 (word_bytes 4 kind) msg (sym w),
      )
      (ap some (bytes_word-word_bytes 4 kind small))

module _ (lib : KcpLib) where
  send_bytes_lem :
      (s : KcpSession lib) (k : lib.Kcp) (msg : Bytes) (kind : ℕ)
      → s.kcp ≡ some k
      → send_bytes lib s msg kind
        ≡ some (record s { kcp = some (lib.flush (lib.send k (message_bytes kind msg))) })
  unfolding send_bytes send_msg append new_udp zero_udp base_zero write_udp_head put_word put
      word_bytes
  send_bytes_lem s k msg kind e =
      let n : 4 + length msg ≡ suc (suc (suc (suc (length msg)))) = omega arith in
      rw
        (
          send_msg,
          append-nil,
          le→leb (0 + 4) (length (0 ∷ 0 ∷ 0 ∷ 0 ∷ msg)) (omega arith),
          n,
          take_all,
          e,
        )
        refl

  receive_sent :
      (s : KcpSession lib) (k k' : lib.Kcp) (msg : Bytes) (kind clock : ℕ)
      → kind < 2 ^ 32
      → 4 + length msg < 2 ^ 31
      → lib.peeksize k ≡ 4 + length msg
      → lib.recv k (4 + length msg) ≡ (k', (4 + length msg, message_bytes kind msg))
      → (p : ByteBuffer) × (receive lib s k clock
          ≡ some (record s { kcp = some k'; talk_time = clock }, some p))
        × (udp_type p ≡ some kind)
        × (unread p ≡ msg)
  unfolding receive
  receive_sent s k k' msg kind clock small fits e f =
      let bs = message_bytes kind msg in
      let n : length bs ≡ 4 + length msg =
        omega (arith, length-append (word_bytes 4 kind) msg, length-word_bytes 4 kind) in
      let (l, r) = init_size_lem (length msg) in
      let room = init_size (4 + length msg) new_udp in
      let q = put_all room bs (l ∙ sym n) in
      let positive : is_positive (4 + length msg) ≡ true = ground arith in
      let p : ByteBuffer = record { storage = bs; rpos = room.rpos; wpos = 4 + length msg } in
      (
        p,
        rw (e, positive, f, q, positive) refl,
        type_lem p kind msg small refl,
        (let m : 4 + length msg - 4 ≡ length msg = omega arith in
            rw (r, drop-append_at 4 (word_bytes 4 kind) msg (sym (length-word_bytes 4 kind)), m)
              (take_all msg)),
      )

  -- What sendMsg gives to the ikcp of one session is, where the ikcp of another session delivers
  -- it, handed to the handler there with the type and the message of the call, and the time of the
  -- last talk is set. The type is a uint32 and the message with its head fits an int.
  pub receive-send_bytes :
      (s s₂ : KcpSession lib) (k k₂ k₃ : lib.Kcp) (msg : Bytes) (kind clock : ℕ)
      → kind < 2 ^ 32
      → 4 + length msg < 2 ^ 31
      → s.kcp ≡ some k
      → lib.peeksize k₂ ≡ 4 + length msg
      → lib.recv k₂ (4 + length msg) ≡ (k₃, (4 + length msg, message_bytes kind msg))
      → (send_bytes lib s msg kind
          ≡ some (record s { kcp = some (lib.flush (lib.send k (message_bytes kind msg))) }))
        × (p : ByteBuffer) × (receive lib s₂ k₂ clock
            ≡ some (record s₂ { kcp = some k₃; talk_time = clock }, some p))
        × (udp_type p ≡ some kind)
        × (unread p ≡ msg)
  receive-send_bytes s s₂ k k₂ k₃ msg kind clock small fits has peek got =
      let (p, r, t, u) = receive_sent s₂ k₂ k₃ msg kind clock small fits peek got in
      (send_bytes_lem s k msg kind has, p, r, t, u)
