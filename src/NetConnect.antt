-- ===== src/NetConnect.antt =====
-- src/network/NetConnect.cpp with the read callback of TcpSocket.cpp: a TCP connection cuts the
-- stream that it receives into packets.
mod Tests
pub mod Stream
pub mod Round
pub mod Body
pub mod Refine
pub mod Receive
pub mod Send
pub mod Deliver
pub mod Stall
use lua_server.Common.{
  ℕ, zero, suc, ◌+◌, ◌-◌, ◌*◌, ◌%◌, ◌^◌, ◌<◌, Bool, true, false, ◌&&◌, Option, none, some, List, [],
  ◌∷◌, ◌++◌, leb, ltb, ◌==◌, if◌then◌else◌, ◌>>=◌, length,
}
use lua_server.Common.Bytes.{Bytes}
use lua_server.ByteBuffer.{ByteBuffer, append}
use lua_server.MessageBuffer.{
  MessageBuffer, reset, read_completed, write_completed, active_size, peek, store,
}
use lua_server.NetPacket.{
  head_size, to_int32, is_positive, int32_to_size, new_packet, mark_len, msg_type, is_head_full,
  write_head, read_head,
}

-- A call `onMsg(this, type, packet)` of the event object.
pub record Delivery : Type 0 where
  pub type : ℕ
  pub packet : ByteBuffer

-- The connection's own state, and the calls that it has made so far.
pub record NetConnect : Type 0 where
  pub read_packet : Option ByteBuffer
  pub delivered : List Delivery

-- `mReadPacket`, created at the head of the loop where it is NULL
unfoldable pub current_packet : Option ByteBuffer → ByteBuffer
current_packet none = record (new_packet []) { wpos = 0 }
current_packet (some p) = p

-- `mReadPacket->getMarkLen() + MSG_HEAD_SIZE`, a size_t
abbrev pub frame_size : ℕ → ℕ
frame_size mark = (int32_to_size mark + head_size) % 2 ^ 64

-- `needsize`, the bits of an `int`
abbrev pub need_size : ℕ → ByteBuffer → ℕ
need_size mark p = to_int32 (frame_size mark + 2 ^ 64 - p.wpos)

-- The rest of `read body`: append what there is, if anything is missing.
unfoldable pub read_body : ByteBuffer → MessageBuffer → ℕ → Option (ByteBuffer × MessageBuffer)
read_body p b mark =
    if is_positive (need_size mark p)
    then (let n =
          if leb (need_size mark p) (active_size b) then need_size mark p else active_size b in
        if is_positive (to_int32 n)
        then (peek b n >>= λ bs. append p bs >>= λ p'. some (p', read_completed b n))
        else some (p, b))
    else some (p, b)

-- `new packet`: a complete one is handed on and recycled.
unfoldable pub hand_on : NetConnect → ByteBuffer → Option NetConnect
hand_on c p = mark_len p >>= λ mark.
    if p.wpos == frame_size mark
    then (msg_type p >>= λ kind. some (record {
      read_packet = none;
      delivered = c.delivered ++ (record { type = kind; packet = p } ∷ []);
    }))
    else some (record c { read_packet = some p })

-- One round of the loop.
unfoldable pub round : NetConnect → MessageBuffer → Option (NetConnect × MessageBuffer)
round c b =
    let p = current_packet c.read_packet in
    if is_head_full p
    then (mark_len p >>= λ mark.
        read_body p b mark >>= λ (p', b'). hand_on c p' >>= λ c'. some (c', b'))
    else (read_head p (peek b) (active_size b % 2 ^ 32) >>= λ (n, p').
        some (record c { read_packet = some p' }, read_completed b n))

-- How a run of the loop ends: at its test, by a fault, or out of fuel.
pub data Outcome : Type 0 where
  done : NetConnect → MessageBuffer → Outcome
  fault : Outcome
  unfinished : Outcome

-- `on_msgbuffer`
unfoldable pub on_msgbuffer : ℕ → NetConnect → MessageBuffer → Outcome
on_msgbuffer zero c b = unfinished
on_msgbuffer (suc fuel) c b = elim (ltb 0 (active_size b)) [
  | false ↦ done c b
  | true ↦ elim (round c b) [ none ↦ fault | some (c', b') ↦ on_msgbuffer fuel c' b' ]
]
