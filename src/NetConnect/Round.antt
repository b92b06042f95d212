-- ===== src/NetConnect/Round.antt =====
-- One round of the loop in `NetConnect::on_msgbuffer`, on what the connection holds.
use lua_server.Common.{
  ℕ, ◌+◌, ◌-◌, ◌%◌, ◌^◌, ◌≤◌, ◌<◌, ◌≡◌, refl, ◌∙◌, ap, sym, Option, none, some, [], ◌++◌, map,
  length, take, drop, replicate, length-append, length-replicate, arith, leb, length-drop,
  append-nil, le→leb, false, true,
}
use lua_server.Common.Taken.{taken, taken_bounds, length-taken, overwrite-append}
use lua_server.Common.Bytes.{Bytes, overwrite, splice, take_all, drop_all}
use lua_server.ByteBuffer.{ByteBuffer, size, append, put, unread, read_word_at, slice}
use lua_server.MessageBuffer.{MessageBuffer, peek, active_size, read_completed}
use lua_server.MessageBuffer.Laws.{IsValid, active, active_size_lem, peek_lem}
use lua_server.NetPacket.{new_packet, mark_len, msg_type, is_head_full, read_head, head_missing}
use lua_server.NetConnect.Stream.{Message, Stream, body_length, message_of, extend}
use lua_server.NetConnect.{Delivery, NetConnect, current_packet, round, is_positive}

-- The packet holds the bytes read so far; behind them is the room for the rest of the head.
pub record Holds (p : ByteBuffer) (bs : Bytes) : Type 0 where
  pub storage : p.storage ≡ bs ++ replicate (8 - length bs) 0
  pub wpos : p.wpos ≡ length bs
  pub rpos : p.rpos ≡ 8

-- What a message handler finds in the packet that it is given.
abbrev pub view : Delivery → Message
view d = record { type = d.type; body = unread d.packet }

abbrev pub HoldsPartial : Option ByteBuffer → Bytes → Type 0
HoldsPartial none bs = bs ≡ []
HoldsPartial (some p) bs = Holds p bs

-- The connection is at this point of the stream.
pub record Follows (c : NetConnect) (s : Stream) : Type 0 where
  pub packet : HoldsPartial c.read_packet s.partial
  pub messages : map view c.delivered ≡ s.messages

pub current_packet-Holds :
    (o : Option ByteBuffer) (bs : Bytes) → HoldsPartial o bs → Holds (current_packet o) bs
unfolding current_packet new_packet
current_packet-Holds none bs h = record { storage = rw h refl; wpos = rw h refl; rpos = refl }
current_packet-Holds (some p) bs h = h

-- Where the head is complete the storage is what was read.
full : {p : ByteBuffer} {bs : Bytes} → Holds p bs → 8 ≤ length bs → p.storage ≡ bs
full {p} {bs} h l = let e : 8 - length bs ≡ 0 = omega arith in h.storage ∙ rw (e, append-nil)

put-Holds :
    (p : ByteBuffer) (bs xs : Bytes) (n : ℕ)
    → Holds p bs
    → n ≡ length xs
    → length bs + length xs ≤ 8
    → (q : ByteBuffer) × (put p p.wpos xs ≡ some q)
      × Holds (record q { wpos = q.wpos + n }) (bs ++ xs)
unfolding put
put-Holds p bs xs n h k l = (
  record p { storage = overwrite p.wpos xs p.storage },
  rw (le→leb (p.wpos + length xs) (size p) room),
  record { storage = stored; wpos = omega (arith, h.wpos, length-append bs xs); rpos = h.rpos },
)
  where
    room : p.wpos + length xs ≤ size p
    room = omega (
      arith,
      h.wpos,
      ap length h.storage,
      length-append bs (replicate (8 - length bs) 0),
      length-replicate {A = ℕ} (8 - length bs) 0,
    )

    stored : overwrite p.wpos xs p.storage ≡ (bs ++ xs) ++ replicate (8 - length (bs ++ xs)) 0
    stored =
        let e : 8 - length bs - length xs ≡ 8 - length (bs ++ xs) =
          omega (arith, length-append bs xs) in
        rw (h.wpos, h.storage, overwrite-append bs xs (8 - length bs) (omega arith), e)

pub append-Holds :
    (p : ByteBuffer) (bs xs : Bytes)
    → Holds p bs
    → 8 ≤ length bs
    → (q : ByteBuffer) × (append p xs ≡ some q) × Holds q (bs ++ xs)
unfolding append
append-Holds p bs xs h l = (
  record p { storage = bs ++ xs; wpos = p.wpos + length xs },
  stored,
  record {
    storage =
        let e : 8 - length (bs ++ xs) ≡ 0 = omega (arith, length-append bs xs) in
        rw (e, append-nil);
    wpos = omega (arith, h.wpos, length-append bs xs);
    rpos = h.rpos;
  },
)
  where
    at_end : splice p.wpos xs p.storage ≡ bs ++ xs
    at_end = rw (full h l, h.wpos, take_all, drop_all, append-nil)

    stored : append p xs ≡ some (record p { storage = bs ++ xs; wpos = p.wpos + length xs })
    stored =
        rw (le→leb p.wpos (size p) (omega (arith, h.wpos, ap length (full h l))))
          (ap (λ t. some (record p { storage = t; wpos = p.wpos + length xs })) at_end)

pub mark_len-Holds :
    (p : ByteBuffer) (bs : Bytes) → Holds p bs → 8 ≤ length bs → mark_len p ≡ some (body_length bs)
unfolding mark_len read_word_at slice
mark_len-Holds p bs h l = rw (full h l, le→leb 4 (length bs) (omega arith))

pub msg_type-Holds :
    (p : ByteBuffer) (bs : Bytes)
    → Holds p bs
    → 8 ≤ length bs
    → msg_type p ≡ some (message_of bs).type
unfolding msg_type read_word_at slice
msg_type-Holds p bs h l = rw (full h l, le→leb (4 + 4) (length bs) (omega arith))

pub unread-Holds : (p : ByteBuffer) (bs : Bytes) → Holds p bs → 8 ≤ length bs → unread p ≡ drop 8 bs
unread-Holds p bs h l = rw (full h l, h.rpos, h.wpos) (rest bs l)
  where
    rest : (xs : Bytes) → 8 ≤ length xs → take (length xs - 8) (drop 8 xs) ≡ drop 8 xs
    rest xs k = rw (← length-drop 8 xs) (take_all (drop 8 xs))

-- `readHead` on bytes in reach.
read_head_lem :
    (p : ByteBuffer) (bs : Bytes) (b : MessageBuffer)
    → Holds p bs
    → IsValid b
    → length bs < 8
    → length (active b) < 2 ^ 32
    → let n = taken (8 - length bs) (active b) in
      (q : ByteBuffer) × (read_head p (peek b) (active_size b % 2 ^ 32) ≡ some (n, q))
      × Holds q (bs ++ take n (active b))
unfolding read_head
read_head_lem p bs b h v l small =
    let n = taken (8 - length bs) (active b) in
    let k = length-taken (8 - length bs) (active b) in
    let (q, e, t) =
      put-Holds p bs (take n (active b)) n h (sym k)
        (omega (arith, k, taken_bounds (8 - length bs) (active b))) in
    (
      record q { wpos = q.wpos + n },
      rw (missing, size, positive, peek_lem n v (taken_bounds (8 - length bs) (active b)).1, e)
          refl,
      t,
    )
  where
    missing : head_missing p ≡ 8 - length bs
    missing = omega (arith, h.wpos)

    size : active_size b % 2 ^ 32 ≡ length (active b)
    size = omega (arith, active_size_lem v)

    positive : is_positive (8 - length bs) ≡ true
    positive = ground arith

-- The part of a round that completes the head.
pub round_head :
    (c : NetConnect) (s : Stream) (b : MessageBuffer)
    → Follows c s
    → IsValid b
    → length s.partial < 8
    → length (active b) < 2 ^ 32
    → let n = taken (8 - length s.partial) (active b) in
      (c' : NetConnect) × (round c b ≡ some (c', read_completed b n))
      × Follows c' (extend s (take n (active b)))
unfolding round is_head_full
round_head c s b f v l small =
    let p = current_packet c.read_packet in
    let h = current_packet-Holds c.read_packet s.partial f.packet in
    let (q, e, t) = read_head_lem p s.partial b h v l small in
    (
      record c { read_packet = some q },
      rw (not_full p h, e),
      record { packet = t; messages = f.messages },
    )
  where
    not_full : (p : ByteBuffer) → Holds p s.partial → leb 8 p.wpos ≡ false
    not_full p h = ground (arith, h.wpos)
