-- ===== src/WebSocket/LongHead.antt =====
-- The head of a masked frame with a length of 16 bits, read in pieces.
use lua_server.Common.{
  ℕ, suc, ◌+◌, ◌-◌, ◌/◌, ◌%◌, ◌^◌, ◌≤◌, ◌<◌, ◌≡◌, refl, ap, ◌∙◌, true, false, some, [], ◌∷◌, ◌++◌,
  leb, ◌==◌, length, take, arith, replicate, le→leb,
}
use lua_server.Common.Bytes.{Bytes, take_all}
use lua_server.Common.Taken.{taken}
use lua_server.MessageBuffer.{MessageBuffer, active_size, read_completed}
use lua_server.MessageBuffer.Laws.{IsValid, active, active_size_lem, peek_lem}
use lua_server.NetPacket.{is_positive}
use lua_server.WebSocket.{
  WebSocketPacket, WebSocketConnect, calc_head_size, place_head, read_two, read_rest,
  read_frame_head, current_frame, head_left, is_frame_head_full, frame_round,
}
use lua_server.WebSocket.Head.{frame_at, at_rest, rest_lem}

abbrev pub eight : Bytes
eight = 0 ∷ 0 ∷ 0 ∷ 0 ∷ 0 ∷ 0 ∷ 0 ∷ 0 ∷ []

-- The packet when these bytes of such a head have been read.
abbrev pub long_at : Bytes → WebSocketPacket
long_at [] = frame_at []
long_at (a ∷ []) = frame_at (a ∷ [])
long_at (a ∷ b ∷ ks) = at_rest eight a b ks

-- The second byte is the mask and the length 126.
abbrev pub SecondLong : Bytes → Type 0
SecondLong [] = Unit
SecondLong (a ∷ []) = Unit
SecondLong (a ∷ b ∷ r) = b ≡ 254

place_long :
    (a b : ℕ)
    → b ≡ 254
    → place_head (record {
      buffer = record { storage = replicate 14 0; rpos = 14; wpos = 2 };
      head = a ∷ b ∷ [];
      headpos = 0;
    })
      ≡ long_at (a ∷ b ∷ [])
unfolding place_head calc_head_size
place_long a b h =
    let e : (b % 128 == 126) ≡ true = ground arith in
    let g : (b / 128 % 2 == 0) ≡ false = ground arith in rw (e, g) refl

two_long :
    (a b : ℕ) (r : Bytes) → b ≡ 254 → read_two (long_at []) (a ∷ b ∷ r) ≡ (2, long_at (a ∷ b ∷ []))
unfolding read_two
two_long a b r h =
    rw (le→leb 2 (length (a ∷ b ∷ r)) (omega arith)) (ap (λ p. (2, p)) (place_long a b h))

one_long :
    (a b : ℕ) (r : Bytes)
    → b ≡ 254
    → read_two (long_at (a ∷ [])) (b ∷ r) ≡ (1, long_at (a ∷ b ∷ []))
unfolding read_two
one_long a b r h =
    rw (le→leb 1 (length (b ∷ r)) (omega arith)) (ap (λ p. (1, p)) (place_long a b h))

none_long :
    (a b : ℕ) (ks ys : Bytes)
    → length ks ≤ 6
    → read_two (long_at (a ∷ b ∷ ks)) ys ≡ (0, long_at (a ∷ b ∷ ks))
unfolding read_two
none_long a b ks ys h =
    let e : is_positive (head_left (long_at (a ∷ b ∷ ks))) ≡ false = ground arith in rw e refl

-- `readFrameHead` takes the bytes that the head still misses, or all that there are.
pub read_long_lem :
    (bs ys : Bytes)
    → length bs < 8
    → 0 < length ys
    → SecondLong (bs ++ ys)
    → let n = taken (8 - length bs) ys in
      read_frame_head (long_at bs) ys ≡ some (n, long_at (bs ++ take n ys))
unfolding read_frame_head
read_long_lem [] [] l p h = absurd (omega arith)
read_long_lem [] (y ∷ []) l p h = unfold read_two place_head read_rest in refl
read_long_lem [] (a ∷ b ∷ r) l p h =
    let e : taken 8 (a ∷ b ∷ r) ≡ suc (suc (taken 6 r)) = ground arith in
    let f : 2 + taken 6 r ≡ suc (suc (taken 6 r)) = omega arith in
    rw (two_long a b r h)
      (rest_lem eight 6 (omega arith) (omega arith) 2 a b [] r (omega arith) ∙ rw (e, f) refl)
read_long_lem (a ∷ []) [] l p h = absurd (omega arith)
read_long_lem (a ∷ []) (b ∷ r) l p h =
    let e : taken 7 (b ∷ r) ≡ suc (taken 6 r) = ground arith in
    let f : 1 + taken 6 r ≡ suc (taken 6 r) = omega arith in
    rw (one_long a b r h)
      (rest_lem eight 6 (omega arith) (omega arith) 1 a b [] r (omega arith) ∙ rw (e, f) refl)
read_long_lem (a ∷ b ∷ ks) ys l p h =
    let e : 8 - length (a ∷ b ∷ ks) ≡ 6 - length ks = omega arith in
    let f : 0 + taken (6 - length ks) ys ≡ taken (6 - length ks) ys = omega arith in
    rw (none_long a b ks ys (omega arith))
      (rest_lem eight 6 (omega arith) (omega arith) 0 a b ks ys (omega arith) ∙ rw (e, f) refl)

-- One round of the loop, while the head is not complete.
head_open : (bs : Bytes) → length bs < 8 → leb 14 (long_at bs).buffer.wpos ≡ false
head_open [] h = refl
head_open (a ∷ []) h = refl
head_open (a ∷ b ∷ ks) h = ground arith

pub round_long :
    (c : WebSocketConnect) (bs : Bytes) (b : MessageBuffer)
    → current_frame c.read_packet ≡ long_at bs
    → IsValid b
    → length bs < 8
    → 0 < length (active b)
    → length (active b) < 2 ^ 32
    → SecondLong (bs ++ active b)
    → let n = taken (8 - length bs) (active b) in
      frame_round c b
      ≡ some
          (record c { read_packet = some (long_at (bs ++ take n (active b))) }, read_completed b n)
unfolding frame_round is_frame_head_full
round_long c bs b f v l any small second =
    let z : active_size b % 2 ^ 32 ≡ length (active b) = omega (arith, active_size_lem v) in
    rw
      (
        f,
        head_open bs l,
        z,
        peek_lem (length (active b)) v (omega arith),
        take_all (active b),
        read_long_lem bs (active b) l any second,
      )
      refl
