-- ===== src/Kcp.antt =====
-- src/network/KcpServer.cpp and KcpSession.cpp: the sessions of a UDP server, over ikcp.
pub mod Valid
pub mod Receive
pub mod Events
pub mod Send
mod Tests
use lua_server.Common.{
  ℕ, zero, suc, ◌+◌, ◌-◌, ◌%◌, ◌^◌, Bool, true, false, ◌&&◌, Option, none, some, List, [], ◌∷◌,
  ◌++◌, leb, ltb, ◌==◌, if◌then◌else◌, ◌>>=◌, length, take, drop, get_or, ◌*◌,
}
use lua_server.Common.Bytes.{Bytes, overwrite, word_bytes, bytes_word}
use lua_server.ByteBuffer.{ByteBuffer, append, put}
use lua_server.NetPacket.{is_positive, to_int32}
use lua_server.UdpPacket.{new_udp, init_size, udp_type, write_udp_head, udp_wire}

abbrev pub session_packet_size : ℕ
session_packet_size = 5

abbrev pub setup_session_code : ℕ
setup_session_code = 110

-- What the sessions use of ikcp: an `ikcpcb` and its calls. `input`, `recv` and `peeksize` give an
-- `int`; `recv` gives the bytes that it writes too.
pub record KcpLib : Type 1 where
  pub Kcp : Type 0
  pub create : ℕ → Kcp
  pub conv : Kcp → ℕ
  pub input : Kcp → Bytes → Kcp × ℕ
  pub update : Kcp → ℕ → Kcp
  pub peeksize : Kcp → ℕ
  pub recv : Kcp → ℕ → Kcp × (ℕ × Bytes)
  pub check : Kcp → ℕ → ℕ
  pub send : Kcp → Bytes → Kcp
  pub flush : Kcp → Kcp

-- Calls of the event object, of uv_udp_try_send and of `delete`, for a session by its address.
pub data Call : Type 0 where
  accepted : ℕ → Call
  received : ℕ → ℕ → ByteBuffer → Call
  timed_out : ℕ → Call
  closed : ℕ → Call
  replied : Bytes → Call

unfoldable pub set_at {ℓ} : {A : Type ℓ} → (ℕ → A) → ℕ → A → ℕ → A
set_at f a v x = if x == a then v else f x

-- What can happen to a server: a datagram, the timer of a session, and a call of `closeSession`.
pub data Event : Type 0 where
  datagram : Bytes → ℕ → Event
  tick : ℕ → ℕ → Event
  close_call : ℕ → Event

-- The id and the code are read from the buffer, whatever the length of the datagram.
abbrev pub head_conv : Bytes → ℕ
head_conv buff = bytes_word (take 4 buff)

abbrev pub is_setup : Bytes → Bytes → Bool
is_setup buff bytes =
    ((length bytes == session_packet_size) && (head_conv buff == 0))
    && (get_or buff 4 0 == setup_session_code)

module _ (lib : KcpLib) where
  pub record KcpSession : Type 0 where
    pub kcp : Option lib.Kcp
    pub timer_on : Bool
    pub timeout : ℕ
    pub talk_time : ℕ
    pub update_time : ℕ

  -- `sessions` is the map by session id, `heap` the sessions that are allocated, by address; and
  -- `buffer` is the one buffer that datagrams are read into.
  pub record KcpServer : Type 0 where
    pub session_id : ℕ
    pub sessions : ℕ → Option ℕ
    pub heap : ℕ → Option KcpSession
    pub next_ref : ℕ
    pub buffer : Bytes
    pub calls : List Call

  unfoldable pub get_session_id : KcpSession → ℕ
  get_session_id s = elim s.kcp [ none ↦ 0 | some k ↦ lib.conv k ]

  -- `KcpSessionBase::update` with `_onMsg`: the session, the packet if one is handed on, and when
  -- to come back. `clock` is what XTime::iclock gives.
  unfoldable pub receive : KcpSession → lib.Kcp → ℕ → Option (KcpSession × Option ByteBuffer)
  receive s k clock =
      let size = lib.peeksize k in
      if is_positive size
      then (let (k', (n, bytes)) = lib.recv k size in
          put (init_size size new_udp) 0 bytes >>= λ p.
          (if is_positive n
            then some
                (record s { kcp = some k'; talk_time = clock }, some (record p { wpos = size }))
            else some (record s { kcp = some k' }, none)))
      else some (record s { kcp = some k }, none)

  unfoldable pub checked : ℕ → KcpSession → ℕ
  checked clock s = elim s.kcp [ none ↦ 0 | some k ↦ lib.check k clock ]

  unfoldable pub update_with :
      KcpSession → lib.Kcp → ℕ → Option (KcpSession × (Option ByteBuffer × ℕ))
  update_with s k clock =
      receive s (lib.update k clock) clock >>= λ (s', p). some (s', (p, checked clock s'))

  unfoldable pub update_base : KcpSession → ℕ → Option (KcpSession × (Option ByteBuffer × ℕ))
  update_base s clock = elim s.kcp [ none ↦ some (s, (none, 0)) | some k ↦ update_with s k clock ]

  -- `updateKcp`
  unfoldable pub update_kcp : KcpSession → ℕ → Option (KcpSession × Option ByteBuffer)
  update_kcp s clock =
      update_base s clock >>= λ (s', (p, t)). some (record s' { update_time = t }, p)

  -- The timer's `update`, and whether `onUdpTimeout` is called
  unfoldable pub is_late : KcpSession → ℕ → Bool
  is_late s clock = ltb ((s.talk_time + s.timeout) % 2 ^ 32) clock

  unfoldable pub update_session : KcpSession → ℕ → Option (KcpSession × (Option ByteBuffer × Bool))
  update_session s clock =
      (if leb s.update_time clock then update_kcp s clock else some (s, none)) >>= λ (s', p).
      some (s', (p, is_late s' clock))

  -- Both `sendMsg`. ikcp must be there.
  unfoldable pub send_msg : KcpSession → ByteBuffer → ℕ → Option KcpSession
  send_msg s p kind = write_udp_head p kind >>= λ p'.
      s.kcp >>= λ k. some (record s { kcp = some (lib.flush (lib.send k (udp_wire p'))) })

  unfoldable pub send_bytes : KcpSession → Bytes → ℕ → Option KcpSession
  send_bytes s msg kind = append new_udp msg >>= λ p. send_msg s p kind

  -- `init`, `createConnect` with its timeout of 30 seconds, and `start`
  unfoldable pub new_session : ℕ → ℕ → KcpSession
  new_session id clock = record {
    kcp = some (lib.create id);
    timer_on = true;
    timeout = 30 * 1000;
    talk_time = clock;
    update_time = 0;
  }

  -- `_onMsg`: the call of the event object
  unfoldable pub hand_on : KcpServer → ℕ → Option ByteBuffer → Option KcpServer
  hand_on v r none = some v
  hand_on v r (some p) =
      udp_type p >>= λ kind. some (record v { calls = v.calls ++ (received r kind p ∷ []) })

  -- `release`: `destory`, `over`, `onClose` and `destroyConnect`. A session that is not allocated
  -- is a fault.
  unfoldable pub release : KcpServer → ℕ → Option KcpServer
  release v r = elim (v.heap r) [
    | none ↦ none
    | some s ↦ some (record v { heap = set_at v.heap r none; calls = v.calls ++ (closed r ∷ []) })
  ]

  unfoldable pub erase : KcpServer → ℕ → KcpServer
  erase v id = record v { sessions = set_at v.sessions id none }

  -- `closeSession`
  unfoldable pub close_id : KcpServer → ℕ → ℕ → Option KcpServer
  close_id v r id = elim (v.sessions id) [ none ↦ some v | some found ↦ release (erase v id) r ]

  unfoldable pub close_session : KcpServer → ℕ → Option KcpServer
  close_session v r = elim (v.heap r) [ none ↦ none | some s ↦ close_id v r (get_session_id s) ]

  -- The first branch of `onMessage`
  unfoldable pub accept : KcpServer → ℕ → KcpServer
  accept v clock =
      let id = (v.session_id + 1) % 2 ^ 32 in
      record v {
        session_id = id;
        sessions = set_at v.sessions id (some v.next_ref);
        heap = set_at v.heap v.next_ref (some (new_session id clock));
        next_ref = suc v.next_ref;
        calls =
            v.calls
            ++ (replied (word_bytes 4 id ++ (setup_session_code ∷ [])) ∷ accepted v.next_ref ∷ []);
      }

  -- and the second
  unfoldable pub take_input : KcpServer → ℕ → ℕ → KcpSession → lib.Kcp → ℕ → ℕ → Option KcpServer
  take_input v conv r s k n clock =
      let s' = record s { kcp = some k } in
      if n == 0
      then (update_kcp s' clock >>= λ (s'', p).
          hand_on (record v { heap = set_at v.heap r (some s'') }) r p)
      else (release (record v { heap = set_at v.heap r (some s') }) r >>= λ v'.
          some (erase v' conv))

  unfoldable pub input_session : KcpServer → ℕ → ℕ → Bytes → ℕ → KcpSession → Option KcpServer
  input_session v conv r bytes clock s = elim s.kcp [
    | none ↦ none
    | some k ↦ (let (k', n) = lib.input k bytes in take_input v conv r s k' n clock)
  ]

  unfoldable pub on_session : KcpServer → ℕ → Bytes → ℕ → ℕ → Option KcpServer
  on_session v conv bytes clock r = elim (v.heap r) [
    | none ↦ none
    | some s ↦ input_session v conv r bytes clock s
  ]

  unfoldable pub on_known : KcpServer → ℕ → Bytes → ℕ → Option KcpServer
  on_known v conv bytes clock = elim (v.sessions conv) [
    | none ↦ some v
    | some r ↦ on_session v conv bytes clock r
  ]

  -- `on_read` with `onMessage`
  unfoldable pub on_message : KcpServer → Bytes → ℕ → Option KcpServer
  on_message v bytes clock =
      let buff = overwrite 0 bytes v.buffer in
      let v' = record v { buffer = buff } in
      if length bytes == 0
      then some v'
      else (if is_setup buff bytes
          then some (accept v' clock)
          else on_known v' (head_conv buff) bytes clock)

  -- The timer of a session
  unfoldable pub timer_of : KcpServer → ℕ → ℕ → KcpSession → Option KcpServer
  timer_of v r clock s = update_session s clock >>= λ (s', (p, late)).
      hand_on (record v { heap = set_at v.heap r (some s') }) r p >>= λ v'.
      some (record v' { calls = if late then v'.calls ++ (timed_out r ∷ []) else v'.calls })

  unfoldable pub on_timer : KcpServer → ℕ → ℕ → Option KcpServer
  on_timer v r clock = elim (v.heap r) [ none ↦ some v | some s ↦ timer_of v r clock s ]

  unfoldable pub handle : KcpServer → Event → Option KcpServer
  handle v (datagram bytes clock) = on_message v bytes clock
  handle v (tick r clock) = on_timer v r clock
  handle v (close_call r) = close_session v r
