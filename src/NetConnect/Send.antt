-- ===== src/NetConnect/Send.antt =====
-- The sending side of NetConnect.cpp (`sendMsg`): what goes over the wire.
use lua_server.Common.{
  ℕ, ◌+◌, ◌^◌, ◌≤◌, ◌<◌, ◌≡◌, refl, ◌∙◌, ap, sym, Option, some, [], ◌++◌, length, take, drop,
  length-append, length-drop, le→leb, arith, append-nil, ◌>>=◌, replicate,
}
use lua_server.Common.Bytes.{
  Bytes, word_bytes, length-word_bytes, overwrite, take_all, drop-append_at, take-append_at,
  drop-drop,
}
use lua_server.ByteBuffer.{ByteBuffer, size, append, put, put_word}
use lua_server.NetPacket.{new_packet, zero_packet, body_size, write_head}
use lua_server.NetConnect.Stream.{Message}

-- `BasePacket::moveData`: this packet and the other one after it.
unfoldable pub move_data : ByteBuffer → ByteBuffer → ByteBuffer × ByteBuffer
unfolding zero_packet
move_data p other = (
  record { storage = other.storage; rpos = other.rpos; wpos = other.wpos },
  zero_packet (record { storage = p.storage; rpos = other.rpos; wpos = other.wpos }),
)

-- `sendMsg(uint32, const char *, uint32)`: the packet that is queued.
unfoldable pub send_bytes : ℕ → Bytes → Option ByteBuffer
send_bytes kind msg = append (new_packet []) msg >>= λ p. write_head p kind

-- `sendMsg(uint32, NetPacket *)`: the packet that is queued, and the caller's packet.
unfoldable pub send_packet : ℕ → ByteBuffer → Option (ByteBuffer × ByteBuffer)
send_packet kind pack =
    let (p, pack') = move_data (new_packet []) pack in write_head p kind >>= λ p'. some (p', pack')

-- What goes over the wire: `sendSize()` bytes from `sendStream()` on.
abbrev pub wire : ByteBuffer → Bytes
wire p = take p.wpos p.storage

-- The format of a message.
unfoldable pub frame : Message → Bytes
frame m = word_bytes 4 (length m.body) ++ (word_bytes 4 m.type ++ m.body)

-- A length that an `int` holds, and a type that is a uint32.
abbrev pub IsSendable : Message → Type 0
IsSendable m = (length m.body < 2 ^ 31) × (m.type < 2 ^ 32)

-- A packet that a client has built: the head's room, and the body behind it.
pub record Carries (p : ByteBuffer) (msg : Bytes) : Type 0 where
  pub head : Bytes
  pub room : length head ≡ 8
  pub storage : p.storage ≡ head ++ msg
  pub wpos : p.wpos ≡ 8 + length msg

put_lem :
    (p : ByteBuffer) (pos : ℕ) (xs : Bytes)
    → pos + length xs ≤ size p
    → put p pos xs ≡ some (record p { storage = overwrite pos xs p.storage })
unfolding put
put_lem p pos xs h = rw (le→leb (pos + length xs) (size p) h) refl

-- Two words written over the first eight bytes.
two_words :
    (u v xs : Bytes)
    → length u ≡ 4
    → length v ≡ 4
    → overwrite 4 v (overwrite 0 u xs) ≡ u ++ (v ++ drop 8 xs)
two_words u v xs hu hv =
    rw
      (
        take-append_at 4 u (drop (0 + length u) xs) (sym hu),
        ← drop-drop (length v) 4 (u ++ drop (0 + length u) xs),
        drop-append_at 4 u (drop (0 + length u) xs) (sym hu),
        drop-drop,
        hu,
        hv,
      )
      refl

body_size_lem : (p : ByteBuffer) (n : ℕ) → p.wpos ≡ 8 + n → n < 2 ^ 32 → body_size p ≡ n
unfolding body_size
body_size_lem p n h k = omega arith

-- `writeHead` puts the length of the body and the type in front of it.
write_head_lem :
    (p : ByteBuffer) (m : Message)
    → Carries p m.body
    → IsSendable m
    → write_head p m.type ≡ some (record p { storage = frame m })
unfolding write_head put_word
write_head_lem p m c h = first ∙ second
  where
    u : Bytes
    u = word_bytes 4 (length m.body)

    v : Bytes
    v = word_bytes 4 m.type

    long : size p ≡ 8 + length m.body
    long = omega (arith, ap length c.storage, length-append c.head m.body, c.room)

    first : write_head p m.type ≡ put (record p { storage = overwrite 0 u p.storage }) 4 v
    first =
        rw
          (
            body_size_lem p (length m.body) c.wpos (omega arith),
            put_lem p 0 u (omega (arith, length-word_bytes 4 (length m.body), long)),
          )
          refl

    stored : overwrite 4 v (overwrite 0 u p.storage) ≡ frame m
    stored =
        unfold frame in
        rw
          (
            two_words u v p.storage (length-word_bytes 4 (length m.body))
                (length-word_bytes 4 m.type),
            c.storage,
            drop-append_at 8 c.head m.body (sym c.room),
          )
          refl

    room : 4 + length v ≤ size (record p { storage = overwrite 0 u p.storage })
    room = omega (
      arith,
      length-append u (drop (0 + length u) p.storage),
      length-drop (0 + length u) p.storage,
      length-word_bytes 4 (length m.body),
      length-word_bytes 4 m.type,
      long,
    )

    second :
        put (record p { storage = overwrite 0 u p.storage }) 4 v
        ≡ some (record p { storage = frame m })
    second =
        put_lem (record p { storage = overwrite 0 u p.storage }) 4 v room
        ∙ ap (λ s. some (record p { storage = s })) stored

pub length-frame : (m : Message) → length (frame m) ≡ 8 + length m.body
unfolding frame
length-frame m = omega (
  arith,
  length-append (word_bytes 4 (length m.body)) (word_bytes 4 m.type ++ m.body),
  length-append (word_bytes 4 m.type) m.body,
  length-word_bytes 4 (length m.body),
  length-word_bytes 4 m.type,
)

wire-frame :
    (p : ByteBuffer) (m : Message)
    → p.wpos ≡ 8 + length m.body
    → wire (record p { storage = frame m }) ≡ frame m
wire-frame p m e = rw (e, ← length-frame m) (take_all (frame m))

-- `sendMsg` with a buffer queues a packet whose bytes on the wire are the frame of the message, if
-- an `int` holds the length and a uint32 the type.
pub send_bytes_lem :
    (m : Message)
    → IsSendable m
    → (p : ByteBuffer) × (send_bytes m.type m.body ≡ some p) × (wire p ≡ frame m)
unfolding send_bytes new_packet append
send_bytes_lem m h =
    let p : ByteBuffer = record {
      storage = new_storage ++ m.body;
      rpos = 8;
      wpos = 8 + length m.body;
    } in
    let built : Carries p m.body = record {
      head = new_storage;
      room = refl;
      storage = refl;
      wpos = refl;
    } in
    (record p { storage = frame m }, filled ∙ write_head_lem p m built h, wire-frame p m refl)
  where
    new_storage : Bytes
    new_storage = replicate 8 0

    filled :
        send_bytes m.type m.body
        ≡ write_head
            (record { storage = new_storage ++ m.body; rpos = 8; wpos = 8 + length m.body })
            m.type
    filled = rw (send_bytes, append-nil) refl

-- `sendMsg` with a packet that the caller has filled behind the room for its head queues the frame
-- of the message (under the same bounds), and leaves the caller's packet as a new one.
pub send_packet_lem :
    (p : ByteBuffer) (m : Message)
    → Carries p m.body
    → IsSendable m
    → (q p' : ByteBuffer) × (send_packet m.type p ≡ some (q, p'))
      × (wire q ≡ frame m)
      × (p' ≡ new_packet [])
unfolding send_packet move_data new_packet
send_packet_lem p m c h = (
  record p { storage = frame m },
  new_packet [],
  rw (write_head_lem p m c h) refl,
  wire-frame p m c.wpos,
  refl,
)
