-- ===== src/TcpSocket/Queue.antt =====
-- The socket's queue: what it holds between two events, and what becomes of the packets in it.
use lua_server.Common.{
  ◌+◌, ◌-◌, ◌^◌, ◌≤◌, ◌<◌, ◌≡◌, refl, ap, ◌∙◌, sym, true, false, ◌&&◌, some, List, [], ◌∷◌, ◌++◌,
  ltb, length, arith, append_assoc, append-nil, length-append, drop, subst, lt→ltb,
}
use lua_server.Common.Bytes.{All, drop-append_left}
use lua_server.TcpSocket.{
  Packet, TcpSocket, fresh, fill, is_sending, send_top_msg, base_write, write, pop_front,
  on_writecomplete, Event, write_call, write_end, handle, handle_all, written,
}
use lua_server.TcpSocket.Batch.{
  IsSound, total, Within, batch, waiting, batch-append-waiting, batch-Within, waiting-All,
  fill-batch, batch_first,
}

pub concat : List (List Packet) → List Packet
concat [] = []
concat (ps ∷ pss) = ps ++ concat pss

concat-append : (xs ys : List (List Packet)) → concat (xs ++ ys) ≡ concat xs ++ concat ys
unfolding concat
concat-append [] ys = refl
concat-append (x ∷ xs) ys = rw (concat-append xs ys, append_assoc)

concat-last :
    (ws : List (List Packet)) (q rest : List Packet)
    → concat (ws ++ (q ∷ [])) ++ rest ≡ concat ws ++ (q ++ rest)
unfolding concat
concat-last ws q rest = rw (concat-append ws (q ∷ []), append_assoc, append_assoc) refl

-- A call of uv_write is given 1 to 10 packets, with fewer than 1024 bytes before the last.
abbrev pub IsBatch : List Packet → Type 0
IsBatch [] = ⊥
IsBatch (p ∷ ps) = Within 0 0 (p ∷ ps)

-- `idle`: nothing is queued. `busy`: a write is under way, of the first packets of the queue.
-- `all` are the packets that have been written to the socket.
pub data Queue (s : TcpSocket) (all : List Packet) : Type 0 where
  idle :
      (ws : List (List Packet))
      → s ≡ record { sending = []; send_packets = []; in_flight = false; writes = ws }
      → All IsBatch ws
      → concat ws ≡ all
      → Queue s all
  busy :
      (p : Packet) (ps rest : List Packet) (ws : List (List Packet))
      → s ≡ record {
        sending = p ∷ ps;
        send_packets = (p ∷ ps) ++ rest;
        in_flight = true;
        writes = ws ++ ((p ∷ ps) ∷ []);
      }
      → All IsBatch (ws ++ ((p ∷ ps) ∷ []))
      → All IsSound rest
      → concat ws ++ ((p ∷ ps) ++ rest) ≡ all
      → Queue s all

All-append {ℓ} :
    {A : Type ℓ} (P : A → Type 0) (ws : List A) (w : A) → P w → All P ws → All P (ws ++ (w ∷ []))
All-append P [] w g h = (g, tt)
All-append P (v ∷ ws) w g h = (h.0, All-append P ws w g h.1)

-- `send_top_msg` with nothing under way: all that the limits allow goes to libuv.
abbrev stopped : List (List Packet) → List Packet → TcpSocket
stopped ws ps = record { sending = []; send_packets = ps; in_flight = false; writes = ws }

abbrev started : List (List Packet) → List Packet → List Packet → TcpSocket
started ws q ps = record {
  sending = q;
  send_packets = ps;
  in_flight = true;
  writes = ws ++ (q ∷ []);
}

send_some :
    (p : Packet) (ps : List Packet) (ws : List (List Packet))
    → All IsSound (p ∷ ps)
    → send_top_msg (stopped ws (p ∷ ps))
      ≡ some (started ws (p ∷ batch ps 1 (0 + length p)) (p ∷ ps))
unfolding send_top_msg base_write
send_some p ps ws h =
    let (e, bound) = fill-batch (p ∷ ps) [] 0 0 h refl (omega arith) in
    rw (e, batch_first, positive bound) refl
  where
    positive :
        0 + total (batch (p ∷ ps) 0 0) < 2 ^ 30 + 1024
        → (ltb 0 (0 + total (p ∷ batch ps 1 (0 + length p)))
            && ltb (0 + total (p ∷ batch ps 1 (0 + length p))) (2 ^ 31))
          ≡ true
    positive b =
        let c : 0 + total (p ∷ batch ps 1 (0 + length p)) < 2 ^ 30 + 1024 = rw batch_first at b in
        ground (arith, h.0)

send_lem :
    (ps : List Packet) (ws : List (List Packet)) (all : List Packet)
    → All IsSound ps
    → All IsBatch ws
    → concat ws ++ ps ≡ all
    → (t : TcpSocket) × (send_top_msg (stopped ws ps) ≡ some t)
      × Queue t all
      × (t.send_packets ≡ ps)
send_lem [] ws all h b e = (
  stopped ws [],
  unfold send_top_msg fill in refl,
  idle ws refl b (sym (append-nil (concat ws)) ∙ e),
  refl,
)
send_lem (p ∷ ps) ws all h b e =
    let q = batch ps 1 (0 + length p) in
    let r = waiting ps 1 (0 + length p) in
    let parts : (p ∷ q) ++ r ≡ p ∷ ps = ap (◌∷◌ p) (batch-append-waiting ps 1 (0 + length p)) in
    let first : IsBatch (p ∷ q) = rw batch_first at (batch-Within (p ∷ ps) 0 0) in
    (
      started ws (p ∷ q) (p ∷ ps),
      send_some p ps ws h,
      busy p q r ws (ap (started ws (p ∷ q)) (sym parts)) (All-append IsBatch ws (p ∷ q) first b)
          (waiting-All ps 1 (0 + length p) h.1) (ap (λ k. concat ws ++ k) parts ∙ e),
      refl,
    )

pop_front_lem : (ps rest : List Packet) → pop_front (length ps) (ps ++ rest) ≡ some rest
unfolding pop_front
pop_front_lem [] rest = refl
pop_front_lem (p ∷ ps) rest = pop_front_lem ps rest

-- A packet is queued, and sent at once if nothing is under way.
write_Queue :
    (p : Packet) {s : TcpSocket} {all : List Packet}
    → IsSound p
    → Queue s all
    → (t : TcpSocket) × (write s p ≡ some t) × Queue t (all ++ (p ∷ []))
unfolding write is_sending
write_Queue p {all} h (idle ws e b k) =
    let (t, r, q, l) = send_lem (p ∷ []) ws (all ++ (p ∷ [])) (h, tt) b (rw k refl) in
    (t, rw (e, r) refl, q)
write_Queue p {all} h (busy x xs rest ws e b g k) = (
  started ws (x ∷ xs) ((x ∷ xs) ++ (rest ++ (p ∷ []))),
  rw (e, lt→ltb 0 (length (x ∷ xs)) (omega arith), append_assoc) refl,
  busy x xs (rest ++ (p ∷ [])) ws refl b (All-append IsSound rest p h g) rw (← k)
      (simp append_assoc),
)

-- The packets of a finished write are dropped, and the next are sent.
pub write_end_Queue :
    {s : TcpSocket} {all : List Packet}
    → Queue s all
    → (t : TcpSocket) × (handle s write_end ≡ some t)
      × Queue t all
      × (length t.send_packets ≤ length s.send_packets - 1)
unfolding handle on_writecomplete
write_end_Queue (idle ws e b k) = (stopped ws [], rw e refl, idle ws refl b k, omega arith)
write_end_Queue {all} (busy x xs rest ws e b g k) =
    let (t, r, q, l) =
      send_lem rest (ws ++ ((x ∷ xs) ∷ [])) all g b (concat-last ws (x ∷ xs) rest ∙ k) in
    (
      t,
      rw (e, pop_front_lem (x ∷ xs) rest, r) refl,
      q,
      rw (e, l) (omega (arith, length-append xs rest)),
    )

-- A write whose packet is sound.
abbrev pub IsSoundEvent : Event → Type 0
IsSoundEvent (write_call p) = IsSound p
IsSoundEvent write_end = Unit

handle_Queue :
    (e : Event) {s : TcpSocket} {all : List Packet}
    → IsSoundEvent e
    → Queue s all
    → (t : TcpSocket) × (handle s e ≡ some t) × Queue t (all ++ written (e ∷ []))
unfolding written
handle_Queue (write_call p) h q = unfold handle in write_Queue p h q
handle_Queue write_end {all} h q =
    let (t, r, q', l) = write_end_Queue q in (t, r, subst (Queue t) (sym (append-nil all)) q')

pub handle_all_Queue :
    (es : List Event) {s : TcpSocket} {all : List Packet}
    → All IsSoundEvent es
    → Queue s all
    → (t : TcpSocket) × (handle_all s es ≡ some t) × Queue t (all ++ written es)
unfolding handle_all
handle_all_Queue [] {s} {all} h q =
    (s, refl, unfold written in subst (Queue s) (sym (append-nil all)) q)
handle_all_Queue (e ∷ es) {all} h q =
    let (t, r, q') = handle_Queue e h.0 q in
    let (u, r', q'') = handle_all_Queue es h.1 q' in
    (
      u,
      rw r r',
      subst (Queue u)
          (append_assoc all (written (e ∷ [])) (written es) ∙ ap (λ k. all ++ k) (joined e es)) q'',
    )
  where
    joined : (e : Event) (es : List Event) → written (e ∷ []) ++ written es ≡ written (e ∷ es)
    joined (write_call p) es = unfold written in refl
    joined write_end es = unfold written in refl

pub fresh-Queue : Queue fresh []
unfolding concat
fresh-Queue = idle [] refl tt refl

-- What is in the queue and not in the hands of libuv.
abbrev pub pending : TcpSocket → List Packet
pending s = drop (length s.sending) s.send_packets

-- Whatever is written to a socket, and whenever libuv ends its writes: no call faults, so the one
-- write request of the socket is never used twice at once and no packet is taken from an empty
-- queue; each packet goes to uv_write once and in order, or is still queued; each call of uv_write
-- has 1 to 10 packets, each of which joined below 1024 bytes; and nothing stays queued while no
-- write is under way. (Packets are not empty, and smaller than 2 ^ 30 bytes.)
pub handle_all_sends :
    (es : List Event)
    → All IsSoundEvent es
    → (t : TcpSocket) × (handle_all fresh es ≡ some t)
      × (concat t.writes ++ pending t ≡ written es)
      × All IsBatch t.writes
      × (t.in_flight ≡ false → t.send_packets ≡ [])
handle_all_sends es h =
    let (t, r, q) = handle_all_Queue es h fresh-Queue in let (a, b, c) = facts q in (t, r, a, b, c)
  where
    facts :
        {t : TcpSocket} {all : List Packet}
        → Queue t all
        → (concat t.writes ++ pending t ≡ all)
          × All IsBatch t.writes
          × (t.in_flight ≡ false → t.send_packets ≡ [])
    facts (idle ws e b k) = rw e (append-nil (concat ws) ∙ k, b, λ _. refl)
    facts (busy x xs rest ws e b g k) = rw e (
      ap (λ l. concat (ws ++ ((x ∷ xs) ∷ [])) ++ l) (drop-append_left (x ∷ xs) rest)
          ∙ concat-last ws (x ∷ xs) rest
          ∙ k,
      b,
      λ f. cc,
    )
