-- ===== src/TcpSocket.antt =====
-- src/network/TcpSocket.cpp, the sending side: a queue of packets, of which the first few are in the
-- hands of libuv. A packet is what it sends: `sendSize()` bytes from `sendStream()` on.
mod Tests
pub mod Batch
pub mod Queue
pub mod Progress
use lua_server.Common.{
  ℕ, zero, suc, ◌+◌, ◌%◌, ◌^◌, ◌<◌, Bool, true, false, ◌&&◌, ◌||◌, not, Option, none, some, List,
  [], ◌∷◌, ◌++◌, leb, ltb, if◌then◌else◌, ◌>>=◌, length,
}
use lua_server.Common.Bytes.{Bytes}

abbrev pub Packet : Type 0
Packet = Bytes

abbrev pub max_send_packet : ℕ
max_send_packet = 10

abbrev pub max_send_byte : ℕ
max_send_byte = 1024

-- `in_flight` stands for libuv: the request `m_write_t` is in use. `writes` lists the calls of
-- uv_write, the last one last.
pub record TcpSocket : Type 0 where
  pub sending : List Packet
  pub send_packets : List Packet
  pub in_flight : Bool
  pub writes : List (List Packet)

abbrev pub fresh : TcpSocket
fresh = record { sending = []; send_packets = []; in_flight = false; writes = [] }

-- `TcpSocketBase::write`. The one request of a socket must not be in use: `none`.
unfoldable pub base_write : TcpSocket → List Packet → Option TcpSocket
base_write s bufs =
    if s.in_flight
    then none
    else some (record s { in_flight = true; writes = s.writes ++ (bufs ∷ []) })

unfoldable pub is_sending : TcpSocket → Bool
is_sending s = ltb 0 (length s.sending)

-- Sums of sizes are an `int`, kept by its bits.
abbrev pub is_enough : ℕ → Bool
is_enough sum = leb max_send_byte sum && ltb sum (2 ^ 31)

-- The loop of `send_top_msg`: `mSending` and `sumsize` after it.
unfoldable pub fill : List Packet → List Packet → ℕ → List Packet × ℕ
fill [] sending sum = (sending, sum)
fill (p ∷ ps) sending sum =
    let rest = fill ps (sending ++ (p ∷ [])) ((sum + length p) % 2 ^ 32) in
    if is_enough sum || leb max_send_packet (length sending) then (sending, sum) else rest

unfoldable pub send_top_msg : TcpSocket → Option TcpSocket
send_top_msg s =
    let (sending, sum) = fill s.send_packets s.sending 0 in
    let s' = record s { sending = sending } in
    if ltb 0 sum && ltb sum (2 ^ 31) then base_write s' sending else some s'

-- `write(BasePacket *)`
unfoldable pub write : TcpSocket → Packet → Option TcpSocket
write s p =
    let s' = record s { send_packets = s.send_packets ++ (p ∷ []) } in
    if not (is_sending s') then send_top_msg s' else some s'

-- `pop_front` so many times; on an empty list it is undefined.
unfoldable pub pop_front : ℕ → List Packet → Option (List Packet)
pop_front zero ps = some ps
pop_front (suc n) [] = none
pop_front (suc n) (p ∷ ps) = pop_front n ps

-- `on_writecomplete`
unfoldable pub on_writecomplete : TcpSocket → Option TcpSocket
on_writecomplete s = pop_front (length s.sending) s.send_packets >>= λ ps.
    send_top_msg (record s { sending = []; send_packets = ps })

-- `release`
unfoldable pub release : TcpSocket → TcpSocket
release s = record s { sending = []; send_packets = [] }

-- What can happen to a socket. libuv reports the end of a write (`echo_write`) only while one is
-- under way, and the request is free again then.
pub data Event : Type 0 where
  write_call : Packet → Event
  write_end : Event

unfoldable pub handle : TcpSocket → Event → Option TcpSocket
handle s (write_call p) = write s p
handle s write_end =
    if s.in_flight then on_writecomplete (record s { in_flight = false }) else some s

unfoldable pub handle_all : TcpSocket → List Event → Option TcpSocket
handle_all s [] = some s
handle_all s (e ∷ es) = handle s e >>= λ t. handle_all t es

-- The packets written, in order.
unfoldable pub written : List Event → List Packet
written [] = []
written (write_call p ∷ es) = p ∷ written es
written (write_end ∷ es) = written es
