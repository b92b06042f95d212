-- ===== src/TcpSocket/Progress.antt =====
-- How the queue of a socket is emptied, and what an empty packet does to it.
use lua_server.Common.{
  ℕ, zero, suc, ◌≤◌, ◌≡◌, refl, false, some, List, [], ◌∷◌, ◌++◌, length, arith, replicate,
  eq_nil_of_length,
}
use lua_server.Common.Bytes.{All}
use lua_server.TcpSocket.{
  Packet, TcpSocket, fresh, write, send_top_msg, fill, is_sending, Event, write_call, write_end,
  handle, handle_all, written,
}
use lua_server.TcpSocket.Queue.{
  concat, Queue, idle, busy, IsSoundEvent, handle_all_Queue, write_end_Queue, fresh-Queue,
}

drain :
    (n : ℕ) (s : TcpSocket) (all : List Packet)
    → Queue s all
    → length s.send_packets ≤ n
    → (t : TcpSocket) × (handle_all s (replicate n write_end) ≡ some t)
      × (t.send_packets ≡ [])
      × (concat t.writes ≡ all)
unfolding handle_all
drain zero s all q l =
    let e = eq_nil_of_length s.send_packets (omega arith) in (s, refl, e, sent q e)
  where
    sent :
        {s : TcpSocket} {all : List Packet}
        → Queue s all
        → s.send_packets ≡ []
        → concat s.writes ≡ all
    sent (idle ws e b k) h = rw e k
    sent (busy x xs rest ws e b g k) h = cc
drain (suc n) s all q l =
    let (t, r, q', less) = write_end_Queue q in
    let (u, r', e, c) = drain n t all q' (omega arith) in (u, rw r r', e, c)

-- Once libuv has ended as many writes as there are packets in the queue, all that was written to the
-- socket has gone to uv_write, in order, and the queue is empty.
pub handle_all_drains :
    (es : List Event)
    → All IsSoundEvent es
    → (s t : TcpSocket) × (handle_all fresh es ≡ some s)
      × (handle_all s (replicate (length s.send_packets) write_end) ≡ some t)
      × (t.send_packets ≡ [])
      × (concat t.writes ≡ written es)
handle_all_drains es h =
    let (s, r, q) = handle_all_Queue es h fresh-Queue in
    let (t, r', e, c) = drain (length s.send_packets) s (written es) q (omega arith) in
    (s, t, r, r', e, c)

-- A socket whose first packet was empty: that packet counts as being sent, but no write is made.
record IsStalled (s : TcpSocket) : Type 0 where
  sending : s.sending ≡ [] ∷ []
  in_flight : s.in_flight ≡ false
  writes : s.writes ≡ []

stays_after_any :
    (e : Event) (s : TcpSocket)
    → IsStalled s
    → (t : TcpSocket) × (handle s e ≡ some t) × IsStalled t
unfolding handle write is_sending
stays_after_any (write_call p) s h = (
  record s { send_packets = s.send_packets ++ (p ∷ []) },
  rw (h.sending) refl,
  record { sending = h.sending; in_flight = h.in_flight; writes = h.writes },
)
stays_after_any write_end s h = (s, rw (h.in_flight) refl, h)

stays_for_good :
    (es : List Event) (s : TcpSocket)
    → IsStalled s
    → (t : TcpSocket) × (handle_all s es ≡ some t) × IsStalled t
unfolding handle_all
stays_for_good [] s h = (s, refl, h)
stays_for_good (e ∷ es) s h =
    let (t, r, h') = stays_after_any e s h in
    let (u, r', h'') = stays_for_good es t h' in (u, rw r r', h'')

-- After an empty packet on a fresh socket nothing that is written to it is ever sent: whatever
-- follows, no call of uv_write is made.
pub empty_packet_stalls :
    (es : List Event)
    → (t : TcpSocket) × (handle_all fresh (write_call [] ∷ es) ≡ some t) × (t.writes ≡ [])
unfolding handle_all
empty_packet_stalls es =
    let (t, r, h) =
      stays_for_good es first (record { sending = refl; in_flight = refl; writes = refl }) in
    (t, rw begins r, h.writes)
  where
    first : TcpSocket
    first = record fresh { sending = [] ∷ []; send_packets = [] ∷ [] }

    begins : handle fresh (write_call []) ≡ some first
    begins = unfold handle write is_sending send_top_msg fill in refl
