-- ===== src/NetConnect/Body.antt =====
-- The rounds of the loop in `NetConnect::on_msgbuffer` that read a body and hand a packet on.
use lua_server.Common.{
  ℕ, ◌+◌, ◌-◌, ◌%◌, ◌^◌, ◌≤◌, ◌<◌, ◌≡◌, ◌≢◌, refl, ◌∙◌, ap, none, some, List, [], ◌∷◌, ◌++◌, map,
  length, take, length-append, arith, leb, le→leb, true, false, ◌==◌, ==_iff, ℕ_discrete,
}
use lua_server.Common.Bytes.{Bytes}
use lua_server.ByteBuffer.{ByteBuffer, append}
use lua_server.MessageBuffer.{MessageBuffer, read_completed}
use lua_server.MessageBuffer.Laws.{IsValid, active, active_size_lem, peek_lem}
use lua_server.NetPacket.{mark_len, is_head_full, is_positive}
use lua_server.NetConnect.Stream.{
  Stream, body_length, message_of, extend, flush, body_length-append, flush_complete, flush_partial,
}
use lua_server.Common.Taken.{taken, taken_bounds, taken_pos}
use lua_server.NetConnect.{
  NetConnect, current_packet, frame_size, need_size, read_body, hand_on, round,
}
use lua_server.NetConnect.Round.{
  Holds, Follows, view, current_packet-Holds, append-Holds, mark_len-Holds, msg_type-Holds,
  unread-Holds,
}

frame_size_lem : (m : ℕ) → m < 2 ^ 31 → frame_size m ≡ m + 8
frame_size_lem m h = ground arith

need_size_lem :
    (m k : ℕ) (p : ByteBuffer)
    → m < 2 ^ 31
    → p.wpos ≡ k
    → 8 ≤ k
    → k ≤ 8 + m
    → need_size m p ≡ 8 + m - k
need_size_lem m k p h e l u = omega (arith, frame_size_lem m h)

map-concat {ℓ κ} :
    {A : Type ℓ} {B : Type κ} (f : A → B) (xs : List A) (x : A)
    → map f (xs ++ (x ∷ [])) ≡ map f xs ++ (f x ∷ [])
map-concat f [] x = refl
map-concat f (y ∷ xs) x = ap (◌∷◌ (f y)) (map-concat f xs x)

-- A packet is handed on exactly when it is complete.
hand_on_lem :
    (c : NetConnect) (p : ByteBuffer) (s : Stream)
    → Holds p s.partial
    → map view c.delivered ≡ s.messages
    → 8 ≤ length s.partial
    → body_length s.partial < 2 ^ 31
    → (c' : NetConnect) × (hand_on c p ≡ some c') × Follows c' (flush s)
unfolding hand_on
hand_on_lem c p s h ms l m = elim (ℕ_discrete (length s.partial) (8 + body_length s.partial)) [
  | yes e ↦ (
    handed,
    rw (mark_len-Holds p s.partial h l, complete e, msg_type-Holds p s.partial h l) refl,
    rw (flush_complete s l e) (record { packet = refl; messages = logged }),
  )
  | no e ↦ (
    record c { read_packet = some p },
    rw (mark_len-Holds p s.partial h l, incomplete e) refl,
    rw (flush_partial s e) (record { packet = h; messages = ms }),
  )
]
  where
    handed : NetConnect
    handed = record {
      read_packet = none;
      delivered = c.delivered ++ (record { type = (message_of s.partial).type; packet = p } ∷ []);
    }

    logged : map view handed.delivered ≡ s.messages ++ (message_of s.partial ∷ [])
    logged = rw (map-concat, ms, unread-Holds p s.partial h l) refl

    complete :
        length s.partial ≡ 8 + body_length s.partial
        → (p.wpos == frame_size (body_length s.partial)) ≡ true
    complete e =
        (==_iff p.wpos (frame_size (body_length s.partial))).1
          (omega (arith, h.wpos, frame_size_lem (body_length s.partial) m))

    incomplete :
        length s.partial ≢ 8 + body_length s.partial
        → (p.wpos == frame_size (body_length s.partial)) ≡ false
    incomplete e = ground (arith, h.wpos, frame_size_lem (body_length s.partial) m)

head_full : (p : ByteBuffer) (bs : Bytes) → Holds p bs → 8 ≤ length bs → leb 8 p.wpos ≡ true
head_full p bs h l = le→leb 8 p.wpos (omega (arith, h.wpos))

pub round_parts :
    (c c' : NetConnect) (b b' : MessageBuffer) (q : ByteBuffer) (mark : ℕ)
    → leb 8 (current_packet c.read_packet).wpos ≡ true
    → mark_len (current_packet c.read_packet) ≡ some mark
    → read_body (current_packet c.read_packet) b mark ≡ some (q, b')
    → hand_on c q ≡ some c'
    → round c b ≡ some (c', b')
unfolding round is_head_full
round_parts c c' b b' q mark e₁ e₂ e₃ e₄ = rw (e₁, e₂, e₃, e₄) refl

-- A packet with no body is handed on, and no byte is taken.
pub round_empty :
    (c : NetConnect) (s : Stream) (b : MessageBuffer)
    → Follows c s
    → length s.partial ≡ 8
    → body_length s.partial ≡ 0
    → (c' : NetConnect) × (round c b ≡ some (c', b)) × Follows c' (flush s)
unfolding read_body
round_empty c s b f l m =
    let p = current_packet c.read_packet in
    let h = current_packet-Holds c.read_packet s.partial f.packet in
    let (c', e, t) = hand_on_lem c p s h f.messages (omega arith) (omega arith) in
    (
      c',
      round_parts c c' b b p 0 (head_full p s.partial h (omega arith))
          (rw (mark_len-Holds p s.partial h (omega arith), m) refl)
          (rw (need_size_lem 0 8 p (omega arith) (h.wpos ∙ l) (omega arith) (omega arith)) refl) e,
      t,
    )

-- The bytes at hand are taken, as far as they belong to the body.
read_body_lem :
    (p : ByteBuffer) (bs : Bytes) (b : MessageBuffer) (mark : ℕ)
    → Holds p bs
    → IsValid b
    → 8 ≤ length bs
    → mark < 2 ^ 31
    → length bs < 8 + mark
    → 0 < length (active b)
    → let n = taken (8 + mark - length bs) (active b) in
      (q : ByteBuffer) × (read_body p b mark ≡ some (q, read_completed b n))
      × Holds q (bs ++ take n (active b))
unfolding read_body
read_body_lem p bs b mark h v l m more any =
    let n = taken (8 + mark - length bs) (active b) in
    let (q, e, t) = append-Holds p bs (take n (active b)) h l in (q, steps q n refl e, t)
  where
    missing_pos : is_positive (8 + mark - length bs) ≡ true
    missing_pos = ground arith

    taken_int : is_positive (taken (8 + mark - length bs) (active b) % 2 ^ 32) ≡ true
    taken_int = ground (
      arith,
      taken_bounds (8 + mark - length bs) (active b),
      taken_pos (8 + mark - length bs) (active b),
    )

    steps :
        (q : ByteBuffer) (n : ℕ)
        → n ≡ taken (8 + mark - length bs) (active b)
        → append p (take n (active b)) ≡ some q
        → read_body p b mark ≡ some (q, read_completed b n)
    steps q n k e =
        rw
          (
            need_size_lem mark (length bs) p m h.wpos l (omega arith),
            active_size_lem v,
            missing_pos,
            taken_int,
            ← k,
            peek_lem n v (rw k (taken_bounds (8 + mark - length bs) (active b)).1),
            e,
          )
          refl

pub round_body :
    (c : NetConnect) (s : Stream) (b : MessageBuffer)
    → Follows c s
    → IsValid b
    → 8 ≤ length s.partial
    → body_length s.partial < 2 ^ 31
    → length s.partial < 8 + body_length s.partial
    → 0 < length (active b)
    → let n = taken (8 + body_length s.partial - length s.partial) (active b) in
      (c' : NetConnect) × (round c b ≡ some (c', read_completed b n))
      × Follows c' (flush (extend s (take n (active b))))
round_body c s b f v l m more any =
    let p = current_packet c.read_packet in
    let mark = body_length s.partial in
    let h = current_packet-Holds c.read_packet s.partial f.packet in
    let ys = take (taken (8 + mark - length s.partial) (active b)) (active b) in
    let (q, e, t) = read_body_lem p s.partial b mark h v l m more any in
    let k = body_length-append s.partial ys l in
    let j = length-append s.partial ys in
    let (c', g, u) = hand_on_lem c q (extend s ys) t f.messages (omega arith) (omega arith) in
    (
      c',
      round_parts c c' b _ q mark (head_full p s.partial h l) (mark_len-Holds p s.partial h l) e g,
      u,
    )
