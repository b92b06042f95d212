-- ===== src/WebSocket/Head.antt =====
-- The head of a masked frame of 1 to 125 bytes, read in pieces.
use lua_server.Common.{
  ℕ, suc, ◌+◌, ◌-◌, ◌/◌, ◌%◌, ◌≤◌, ◌<◌, ◌≡◌, refl, ap, sym, ◌∙◌, true, false, ◌&&◌, none, some, [],
  ◌∷◌, ◌++◌, leb, ltb, ◌==◌, ◌>>=◌, length, take, arith, replicate, le→leb, length-append,
  length-replicate, append-nil, append_assoc, dec_lt,
}
use lua_server.Common.Bytes.{Bytes}
use lua_server.Common.Taken.{taken, taken_bounds, length-taken, overwrite-append}
use lua_server.ByteBuffer.{ByteBuffer, size, put}
use lua_server.NetPacket.{is_positive}
use lua_server.WebSocket.{
  WebSocketPacket, new_frame, calc_head_size, place_head, read_two, read_rest, read_frame_head,
  current_frame, rest_left, head_left,
}

-- The second byte of a frame: a mask, and a length of 1 to 125.
abbrev pub IsSmall : ℕ → Type 0
IsSmall b = (128 < b) × (b ≤ 253)

abbrev pub SecondSmall : Bytes → Type 0
SecondSmall [] = Unit
SecondSmall (a ∷ []) = Unit
SecondSmall (a ∷ b ∷ r) = IsSmall b

-- A buffer that holds these bytes, and the room for a head of 14.
abbrev pub held : Bytes → ByteBuffer
held t = record { storage = t ++ replicate (14 - length t) 0; rpos = 14; wpos = length t }

-- Key and payload stand behind 10 bytes that are not used.
abbrev pub behind_ten : Bytes → Bytes
behind_ten ks = 0 ∷ 0 ∷ 0 ∷ 0 ∷ 0 ∷ 0 ∷ 0 ∷ 0 ∷ 0 ∷ 0 ∷ ks

-- The packet when these bytes of a frame have been read.
abbrev pub frame_at : Bytes → WebSocketPacket
frame_at [] = record {
  buffer = record { storage = replicate 14 0; rpos = 14; wpos = 0 };
  head = 0 ∷ 0 ∷ [];
  headpos = 0;
}
frame_at (a ∷ []) = record {
  buffer = record { storage = replicate 14 0; rpos = 14; wpos = 1 };
  head = a ∷ 0 ∷ [];
  headpos = 0;
}
frame_at (a ∷ b ∷ ks) = record { buffer = held (behind_ten ks); head = a ∷ b ∷ []; headpos = 8 }

pub current_frame-none : current_frame none ≡ frame_at []
unfolding current_frame new_frame
current_frame-none = refl

put-held :
    (t xs : Bytes)
    → length t + length xs ≤ 14
    → put (held t) (length t) xs ≡ some (record (held (t ++ xs)) { wpos = length t })
unfolding put
put-held t xs h =
    rw
      (
        le→leb (length t + length xs) (size (held t)) room,
        overwrite-append t xs (14 - length t) (omega arith),
        e,
      )
      refl
  where
    room : length t + length xs ≤ size (held t)
    room = omega (
      arith,
      length-append t (replicate (14 - length t) 0),
      length-replicate {A = ℕ} (14 - length t) 0,
    )

    e : 14 - length t - length xs ≡ 14 - length (t ++ xs)
    e = omega (arith, length-append t xs)

-- A packet that holds these bytes of the rest of its head, behind what is not used.
abbrev pub at_rest : Bytes → ℕ → ℕ → Bytes → WebSocketPacket
at_rest front a b ks = record {
  buffer = held (front ++ ks);
  head = a ∷ b ∷ [];
  headpos = length front - 2;
}

-- The second part of `readFrameHead`, for a head with this much room behind its first two bytes.
module _ (front : Bytes) (room : ℕ) (lo : 2 ≤ length front) (w : length front + room ≡ 14)
    (k a b : ℕ) (ks : Bytes) (l : length ks ≤ room) where
  long : length (front ++ ks) ≡ length front + length ks
  long = length-append front ks

  rest_none : read_rest k (at_rest front a b ks) [] ≡ some (k, at_rest front a b ks)
  unfolding read_rest
  rest_none =
      let e : (leb 2 (length (front ++ ks)) && ltb 0 (length {A = ℕ} [])) ≡ false = ground arith in
      rw e refl

  rest_full :
      (ys : Bytes)
      → length ks ≡ room
      → read_rest k (at_rest front a b ks) ys ≡ some (k, at_rest front a b ks)
  unfolding read_rest
  rest_full ys e =
      let f : is_positive (rest_left (at_rest front a b ks)) ≡ false = ground (arith, long) in
      let g : ((leb 2 (length (front ++ ks)) && ltb 0 (length ys))
            && is_positive (rest_left (at_rest front a b ks)))
          ≡ false =
        ground arith in
      rw g refl

  rest_some :
      (y : ℕ) (ys : Bytes)
      → length ks < room
      → let n = taken (room - length ks) (y ∷ ys) in
        read_rest k (at_rest front a b ks) (y ∷ ys)
        ≡ some (k + n, at_rest front a b (ks ++ take n (y ∷ ys)))
  unfolding read_rest
  rest_some y ys h =
      rw (left, positive, behind)
        (steps (taken (room - length ks) (y ∷ ys)) (sym t)
          (omega (arith, t, taken_bounds (room - length ks) (y ∷ ys))))
    where
      t :
          length (take (taken (room - length ks) (y ∷ ys)) (y ∷ ys))
          ≡ taken (room - length ks) (y ∷ ys)
      t = length-taken (room - length ks) (y ∷ ys)

      left : rest_left (at_rest front a b ks) ≡ room - length ks
      left = omega (arith, long)

      positive : is_positive (room - length ks) ≡ true
      positive = ground arith

      behind : (leb 2 (length (front ++ ks)) && ltb 0 (length (y ∷ ys))) ≡ true
      behind = ground (arith, long)

      steps :
          (n : ℕ)
          → n ≡ length (take n (y ∷ ys))
          → length ks + n ≤ room
          → ◌>>=◌ {B = ℕ × WebSocketPacket}
              (put (held (front ++ ks)) (length (front ++ ks)) (take n (y ∷ ys)))
              (λ q.
                some (
                  k + n,
                  record (at_rest front a b ks) { buffer = record q { wpos = q.wpos + n } },
                ))
            ≡ some (k + n, at_rest front a b (ks ++ take n (y ∷ ys)))
      steps n e m =
          let u : length (front ++ ks) + n ≡ length ((front ++ ks) ++ take n (y ∷ ys)) =
            omega (arith, length-append (front ++ ks) (take n (y ∷ ys))) in
          rw (put-held (front ++ ks) (take n (y ∷ ys)) (omega (arith, long)), u)
            (ap (λ t. some (k + n, record (at_rest front a b ks) { buffer = held t }))
              (append_assoc front ks (take n (y ∷ ys))))

-- All that the second part does, at any bytes in reach.
pub rest_lem :
    (front : Bytes) (room : ℕ)
    → 2 ≤ length front
    → length front + room ≡ 14
    → (k a b : ℕ) (ks ys : Bytes) → length ks ≤ room
    → let n = taken (room - length ks) ys in
      read_rest k (at_rest front a b ks) ys ≡ some (k + n, at_rest front a b (ks ++ take n ys))
rest_lem front room lo w k a b ks [] l =
    let e : taken (room - length ks) [] ≡ 0 = ground arith in
    let z : k + 0 ≡ k = omega arith in
    rest_none front room lo w k a b ks l ∙ rw (e, append-nil, z) refl
rest_lem front room lo w k a b ks (y ∷ ys) l = elim (dec_lt (length ks) room) [
  | yes h ↦ rest_some front room lo w k a b ks l y ys h
  | no h ↦
      let e : taken (room - length ks) (y ∷ ys) ≡ 0 = ground arith in
      let z : k + 0 ≡ k = omega arith in
      rest_full front room lo w k a b ks l (y ∷ ys) (omega arith) ∙ rw (e, append-nil, z) refl
]

abbrev ten : Bytes
ten = behind_ten []

-- The second byte of the head decides where the rest of it is put.
place_lem :
    (a b : ℕ)
    → IsSmall b
    → place_head (record {
      buffer = record { storage = replicate 14 0; rpos = 14; wpos = 2 };
      head = a ∷ b ∷ [];
      headpos = 0;
    })
      ≡ frame_at (a ∷ b ∷ [])
unfolding place_head calc_head_size
place_lem a b h =
    let lo = h.0 in
    let hi = h.1 in
    let e : (b % 128 == 126) ≡ false = ground arith in
    let f : (b % 128 == 127) ≡ false = ground arith in
    let g : (b / 128 % 2 == 0) ≡ false = ground arith in rw (e, f, g) refl

two_of_two :
    (a b : ℕ) (r : Bytes)
    → IsSmall b
    → read_two (frame_at []) (a ∷ b ∷ r) ≡ (2, frame_at (a ∷ b ∷ []))
unfolding read_two
two_of_two a b r h =
    rw (le→leb 2 (length (a ∷ b ∷ r)) (omega arith)) (ap (λ p. (2, p)) (place_lem a b h))

one_of_two :
    (a b : ℕ) (r : Bytes)
    → IsSmall b
    → read_two (frame_at (a ∷ [])) (b ∷ r) ≡ (1, frame_at (a ∷ b ∷ []))
unfolding read_two
one_of_two a b r h =
    rw (le→leb 1 (length (b ∷ r)) (omega arith)) (ap (λ p. (1, p)) (place_lem a b h))

none_of_two :
    (a b : ℕ) (ks ys : Bytes)
    → length ks ≤ 12
    → read_two (frame_at (a ∷ b ∷ ks)) ys ≡ (0, frame_at (a ∷ b ∷ ks))
unfolding read_two
none_of_two a b ks ys h =
    let e : is_positive (head_left (frame_at (a ∷ b ∷ ks))) ≡ false = ground arith in rw e refl

-- `readFrameHead` takes the bytes that the head still misses, or all that there are.
pub read_frame_head_lem :
    (bs ys : Bytes)
    → length bs < 6
    → 0 < length ys
    → SecondSmall (bs ++ ys)
    → let n = taken (6 - length bs) ys in
      read_frame_head (frame_at bs) ys ≡ some (n, frame_at (bs ++ take n ys))
unfolding read_frame_head
read_frame_head_lem [] [] l p h = absurd (omega arith)
read_frame_head_lem [] (y ∷ []) l p h = unfold read_two place_head read_rest in refl
read_frame_head_lem [] (a ∷ b ∷ r) l p h =
    let e : taken 6 (a ∷ b ∷ r) ≡ suc (suc (taken 4 r)) = ground arith in
    let f : 2 + taken 4 r ≡ suc (suc (taken 4 r)) = omega arith in
    rw (two_of_two a b r h)
      (rest_lem ten 4 (omega arith) (omega arith) 2 a b [] r (omega arith) ∙ rw (e, f) refl)
read_frame_head_lem (a ∷ []) [] l p h = absurd (omega arith)
read_frame_head_lem (a ∷ []) (b ∷ r) l p h =
    let e : taken 5 (b ∷ r) ≡ suc (taken 4 r) = ground arith in
    let f : 1 + taken 4 r ≡ suc (taken 4 r) = omega arith in
    rw (one_of_two a b r h)
      (rest_lem ten 4 (omega arith) (omega arith) 1 a b [] r (omega arith) ∙ rw (e, f) refl)
read_frame_head_lem (a ∷ b ∷ ks) ys l p h =
    let e : 6 - length (a ∷ b ∷ ks) ≡ 4 - length ks = omega arith in
    let f : 0 + taken (4 - length ks) ys ≡ taken (4 - length ks) ys = omega arith in
    rw (none_of_two a b ks ys (omega arith))
      (rest_lem ten 4 (omega arith) (omega arith) 0 a b ks ys (omega arith) ∙ rw (e, f) refl)
