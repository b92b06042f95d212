-- ===== src/WebSocket/Round.antt =====
-- One round of the loop in `WebSocketConnect::on_msgbuffer`, on the frames that it is meant for.
use lua_server.Common.{
  ℕ, ◌+◌, ◌-◌, ◌%◌, ◌^◌, ◌≤◌, ◌<◌, ◌≡◌, refl, ap, ap₂, sym, ◌∙◌, true, false, some, [], ◌∷◌, ◌++◌,
  leb, ltb, ◌==◌, length, take, arith, le→leb, length-append, append-nil, ==_iff,
}
use lua_server.Common.Bytes.{Bytes, take_all, drop_all}
use lua_server.Common.Taken.{taken, taken_bounds, taken_pos}
use lua_server.ByteBuffer.{append}
use lua_server.MessageBuffer.{MessageBuffer, active_size, read_completed}
use lua_server.MessageBuffer.Laws.{IsValid, active, active_size_lem, peek_lem}
use lua_server.NetPacket.{is_positive}
use lua_server.WebSocket.{
  WebSocketPacket, WebSocketConnect, current_frame, frame_len, frame_end, frame_missing,
  is_frame_head_full, read_payload, complete, frame_round,
}
use lua_server.WebSocket.Head.{frame_at, held, behind_ten, SecondSmall, read_frame_head_lem}
use lua_server.WebSocket.Frame.{Frame, IsFrame, frame_bytes, Handed, complete_lem}

-- The packet that the connection reads into holds these bytes of a frame.
abbrev pub Follows : WebSocketConnect → Bytes → Type 0
Follows c bs = current_frame c.read_packet ≡ frame_at bs

head_open : (bs : Bytes) → length bs < 6 → leb 14 (frame_at bs).buffer.wpos ≡ false
head_open [] h = refl
head_open (a ∷ []) h = refl
head_open (a ∷ b ∷ ks) h = ground arith

pub round_head :
    (c : WebSocketConnect) (bs : Bytes) (b : MessageBuffer)
    → Follows c bs
    → IsValid b
    → length bs < 6
    → 0 < length (active b)
    → length (active b) < 2 ^ 32
    → SecondSmall (bs ++ active b)
    → let n = taken (6 - length bs) (active b) in
      frame_round c b
      ≡ some
          (record c { read_packet = some (frame_at (bs ++ take n (active b))) }, read_completed b n)
unfolding frame_round is_frame_head_full
round_head c bs b f v l any small second =
    let z : active_size b % 2 ^ 32 ≡ length (active b) = omega (arith, active_size_lem v) in
    rw
      (
        f,
        head_open bs l,
        z,
        peek_lem (length (active b)) v (omega arith),
        take_all (active b),
        read_frame_head_lem bs (active b) l any second,
      )
      refl

append-held :
    (ks xs : Bytes)
    → 4 ≤ length ks
    → append (held (behind_ten ks)) xs ≡ some (held (behind_ten (ks ++ xs)))
unfolding append
append-held ks xs h =
    let z : 14 - length (behind_ten ks) ≡ 0 = omega arith in
    let y : 14 - length (behind_ten (ks ++ xs)) ≡ 0 = omega (arith, length-append ks xs) in
    rw
      (
        z,
        y,
        append-nil,
        le→leb (length (behind_ten ks)) (length (behind_ten ks)) (omega arith),
        take_all,
        drop_all,
      )
      (ap₂ (λ t w. some (record { storage = behind_ten t; rpos = 14; wpos = w }))
        (ap (λ t. ks ++ t) (append-nil xs) ∙ sym (append-nil (ks ++ xs)))
        (omega (arith, length-append ks xs)))

-- The part of a round that reads a payload.
module _ (f : Frame) (h : IsFrame f) (ks : Bytes) (b : MessageBuffer) (v : IsValid b)
    (lo : 4 ≤ length ks) (hi : length ks < 4 + length f.payload) (any : 0 < length (active b)) where
  abbrev missing : ℕ
  missing = 4 + length f.payload - length ks

  abbrev begun : Bytes → WebSocketPacket
  begun ts = frame_at (f.op ∷ (128 + length f.payload) ∷ ts)

  frame_len_lem : (ts : Bytes) → frame_len (begun ts) ≡ some (length f.payload)
  unfolding frame_len
  frame_len_lem ts =
      let s = h.short_payload in
      let e : ltb ((128 + length f.payload) % 128) 126 ≡ true = ground arith in
      let g : (128 + length f.payload) % 128 ≡ length f.payload = omega arith in rw (e, g) refl

  read_payload_lem :
      let n = taken missing (active b) in
      read_payload (begun ks) b (length f.payload)
      ≡ some (begun (ks ++ take n (active b)), read_completed b n)
  unfolding read_payload
  read_payload_lem = steps (taken missing (active b)) refl
    where
      needs : frame_missing (begun ks) (length f.payload) ≡ missing
      needs = let s = h.short_payload in ground arith

      positive : is_positive missing ≡ true
      positive = let s = h.short_payload in ground arith

      taken_int : is_positive (taken missing (active b) % 2 ^ 32) ≡ true
      taken_int =
          let s = h.short_payload in
          ground (arith, taken_bounds missing (active b), taken_pos missing (active b))

      steps :
          (n : ℕ)
          → n ≡ taken missing (active b)
          → read_payload (begun ks) b (length f.payload)
            ≡ some (begun (ks ++ take n (active b)), read_completed b n)
      steps n k =
          rw
            (
              needs,
              active_size_lem v,
              positive,
              taken_int,
              ← k,
              peek_lem n v (rw k (taken_bounds missing (active b)).1),
              append-held ks (take n (active b)) lo,
            )
            refl

  module _ (c : WebSocketConnect) (g : Follows c (f.op ∷ (128 + length f.payload) ∷ ks)) where
    abbrev read_now : Bytes
    read_now = ks ++ take (taken missing (active b)) (active b)

    frame_end_lem : frame_end (length f.payload) ≡ 14 + length f.payload
    frame_end_lem = let s = h.short_payload in ground arith

    is_full : leb 14 (begun ks).buffer.wpos ≡ true
    is_full = le→leb 14 (begun ks).buffer.wpos (omega arith)

    -- A frame that is not complete stays with the connection,
    pub round_more :
        length read_now < 4 + length f.payload
        → frame_round c b
          ≡ some (
            record c { read_packet = some (begun read_now) },
            read_completed b (taken missing (active b)),
          )
    unfolding frame_round is_frame_head_full
    round_more l =
        let e : ((begun read_now).buffer.wpos == frame_end (length f.payload)) ≡ false =
          ground (arith, frame_end_lem) in
        rw (g, is_full, frame_len_lem ks, read_payload_lem, e) refl

    -- and a complete one is handed on.
    pub round_done :
        f.op ∷ (128 + length f.payload) ∷ read_now ≡ frame_bytes f
        → length read_now ≡ 4 + length f.payload
        → (s : Handed f c (frame_at (frame_bytes f))) × (frame_round c b
            ≡ some (s.after, read_completed b (taken missing (active b))))
    unfolding frame_round is_frame_head_full
    round_done w l =
        let s = complete_lem f c h in
        let e : ((begun read_now).buffer.wpos == frame_end (length f.payload)) ≡ true =
          (==_iff _ _).1 (omega (arith, frame_end_lem, l)) in
        let r : complete c (begun read_now) (length f.payload) ≡ some s.after =
          ap (λ t. complete c (frame_at t) (length f.payload)) w ∙ s.runs in
        (s, rw (g, is_full, frame_len_lem ks, read_payload_lem, e, r) refl)
