-- ===== src/Kcp/Tests.antt =====
-- Runs of KcpServer.cpp.
use lua_server.Common.{
  ℕ, ◌+◌, ◌^◌, ◌-◌, ◌≡◌, refl, none, some, [], ◌∷◌, ltb, if◌then◌else◌, length, arith,
}
use lua_server.Common.Bytes.{Bytes, word_bytes, bytes_word}
use lua_server.Kcp.{
  KcpLib, KcpServer, closed, set_at, new_session, on_message, handle, send_bytes, receive, tick,
  send_bytes, ByteBuffer, udp_type,
}
use lua_server.ByteBuffer.{ByteBuffer, unread}
use lua_server.UdpPacket.{udp_type}
use lua_server.Kcp.Valid.{IsValid, add}
use lua_server.Kcp.Receive.{IsKcp}
use lua_server.Kcp.Send.{message_bytes, receive-send_bytes}
use lua_server.Kcp.Events.{Keeps, handle-Keeps, on_message_closes}

-- An ikcp that never has a message, and takes any datagram that has a head.
abbrev still : KcpLib
still = record {
  Kcp = ℕ;
  create = λ id. id;
  conv = λ k. k;
  input = λ k bs. (k, if ltb (length bs) 24 then 2 ^ 32 - 1 else 0);
  update = λ k t. k;
  peeksize = λ k. 0;
  recv = λ k n. (k, (0, []));
  check = λ k t. t + 10;
  send = λ k bs. k;
  flush = λ k. k;
}

still-IsKcp : IsKcp still
still-IsKcp = record {
  conv_create = λ id l. refl;
  conv_input = λ k bs. refl;
  conv_update = λ k t. refl;
  conv_recv = λ k n. refl;
  recv_fits = λ k n. omega arith;
  short_input = λ k bs l. ground arith;
}

-- A server before its first session, with the last datagram of the session 1 in its buffer
abbrev empty : KcpServer still
empty = record {
  session_id = 0;
  sessions = λ id. none;
  heap = λ r. none;
  next_ref = 0;
  buffer = 1 ∷ 0 ∷ 0 ∷ 0 ∷ 81 ∷ [];
  calls = [];
}

empty-IsValid : IsValid still empty
empty-IsValid = record {
  known = λ id r e. cc e;
  kept = λ r s e. cc e;
  given_out = λ id r e. cc e;
  unused = λ r l. refl;
}

abbrev one_session : KcpServer still
one_session = record empty {
  session_id = 1;
  sessions = set_at empty.sessions 1 (some 0);
  heap = set_at empty.heap 0 (some (new_session still 1 0));
  next_ref = 1;
}

one_session-IsValid : IsValid still one_session
unfolding new_session
one_session-IsValid = add still empty (new_session still 1 0) 1 empty-IsValid refl refl refl

-- Its timer, after 40 seconds
handle-Keeps_example : Keeps still still-IsKcp one_session (handle still one_session (tick 0 40000))
handle-Keeps_example =
    handle-Keeps still still-IsKcp one_session (tick 0 40000) one_session-IsValid tt (omega arith)

-- A datagram of one byte closes the session that the one before was for.
on_message_closes_example :
    (v' : KcpServer still) × (on_message still one_session (1 ∷ []) 5 ≡ some v')
    × (v'.heap 0 ≡ none)
    × (v'.sessions 1 ≡ none)
    × (v'.calls ≡ closed 0 ∷ [])
unfolding bytes_word
on_message_closes_example =
    on_message_closes still still-IsKcp one_session (1 ∷ []) 5 0 one_session-IsValid (omega arith)
      (omega arith) refl (unfold set_at in refl)

-- An ikcp that holds the bytes of the last message given to it
abbrev post : KcpLib
post = record still {
  Kcp = Bytes;
  create = λ id. [];
  conv = λ k. 1;
  input = λ k bs. (bs, 0);
  update = λ k t. k;
  peeksize = λ k. length k;
  recv = λ k n. ([], (length k, k));
  check = λ k t. t + 10;
  send = λ k bs. bs;
  flush = λ k. k;
}

receive-send_bytes_example :
    (send_bytes post (new_session post 1 0) (7 ∷ 8 ∷ []) 300
      ≡ some (record (new_session post 1 0) { kcp = some (message_bytes 300 (7 ∷ 8 ∷ [])) }))
    × (p : ByteBuffer) × (receive post (new_session post 1 0) (44 ∷ 1 ∷ 0 ∷ 0 ∷ 7 ∷ 8 ∷ []) 9
        ≡ some (record (new_session post 1 0) { kcp = some []; talk_time = 9 }, some p))
    × (udp_type p ≡ some 300)
    × (unread p ≡ 7 ∷ 8 ∷ [])
unfolding new_session word_bytes
receive-send_bytes_example =
    receive-send_bytes post (new_session post 1 0) (new_session post 1 0) []
      (44 ∷ 1 ∷ 0 ∷ 0 ∷ 7 ∷ 8 ∷ []) [] (7 ∷ 8 ∷ []) 300 9 (omega arith) (omega arith) refl refl refl
