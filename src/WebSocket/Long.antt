-- ===== src/WebSocket/Long.antt =====
-- What the loop of WebSocketConnect.cpp makes of a masked frame with a length of 16 bits.
use lua_server.Common.{
  ℕ, suc, ◌+◌, ◌-◌, ◌%◌, ◌<◌, ◌≡◌, ◌≢◌, refl, ap, sym, ◌∙◌, false, none, some, List, [], ◌∷◌, ◌++◌,
  ◌==◌, length, take, drop, arith, map, get_or, append-nil, append_assoc, dec_lt, eq_nil_of_length,
  length-append, length-take, take-append-drop,
}
use lua_server.Common.Bytes.{
  Bytes, All, bytes_word, take_all, drop_all, take-append_at, drop-append_at,
}
use lua_server.Common.Taken.{taken}
use lua_server.ByteBuffer.{read_word_at, slice}
use lua_server.MessageBuffer.{MessageBuffer, read_completed, active_size}
use lua_server.MessageBuffer.Laws.{
  IsValid, active, active_size_lem, read_completed-IsValid, active-read_completed,
}
use lua_server.NetConnect.Receive.{concat}
use lua_server.WebSocket.{
  WebSocketPacket, WebSocketConnect, frame_len, is_frame_head_full, current_frame, message,
  read_payload, complete, mask_key, decoding_datas, masked, frame_round, frame_loop, ended,
}
use lua_server.WebSocket.Length.{dispatch_lem}
use lua_server.WebSocket.Stall.{frame_loop_step}
use lua_server.WebSocket.Frame.{view}
use lua_server.WebSocket.Head.{current_frame-none}
use lua_server.WebSocket.LongHead.{long_at, SecondLong, round_long}
use lua_server.WebSocket.Pieces.{IsPiece, on_buffers, on_buffers_step, frame_loop_stop}
use mathlib.Core.List.{map-append}

start_SecondLong : (op : ℕ) (t u r : Bytes) → t ++ u ≡ op ∷ 254 ∷ r → SecondLong t
start_SecondLong op [] u r e = tt
start_SecondLong op (a ∷ []) u r e = tt
start_SecondLong op (a ∷ b ∷ t) u r e = ap (λ s. get_or s 1 0) e

-- The head of such a frame, and what comes behind it.
module _ (op l0 l1 k0 k1 k2 k3 : ℕ) where
  abbrev pub long_head : Bytes
  long_head = op ∷ 254 ∷ l0 ∷ l1 ∷ k0 ∷ k1 ∷ k2 ∷ k3 ∷ []

  abbrev long_frame : WebSocketPacket
  long_frame = long_at long_head

  len_long : frame_len long_frame ≡ some 0
  unfolding frame_len read_word_at slice bytes_word
  len_long = refl

  complete_long :
      (c : WebSocketConnect)
      → op % 16 ≢ 8
      → complete c long_frame 0
        ≡ some (record { read_packet = none; actions = c.actions ++ (message long_frame ∷ []) })
  unfolding complete mask_key read_word_at slice decoding_datas masked
  complete_long c o =
      let f : (op % 16 == 8) ≡ false = ground (arith, o) in rw (dispatch_lem, f) refl

  empty_round :
      (c : WebSocketConnect) (b : MessageBuffer)
      → op % 16 ≢ 8
      → frame_round (record c { read_packet = some long_frame }) b
        ≡ some (record { read_packet = none; actions = c.actions ++ (message long_frame ∷ []) }, b)
  unfolding frame_round is_frame_head_full current_frame read_payload
  empty_round c b o =
      rw (len_long, complete_long (record c { read_packet = some long_frame }) o) refl

  module _ (payload : Bytes) where
    -- A piece of the head is kept.
    piece_kept :
        (c : WebSocketConnect) (bs future : Bytes) (b : MessageBuffer)
        → IsPiece b
        → current_frame c.read_packet ≡ long_at bs
        → bs ++ (active b ++ future) ≡ long_head ++ payload
        → length bs + length (active b) < 8
        → (c' : WebSocketConnect) × (b' : MessageBuffer) × (frame_loop (suc (active_size b)) c b
            ≡ ended c' b')
          × (current_frame c'.read_packet ≡ long_at (bs ++ active b))
          × (c'.actions ≡ c.actions)
    piece_kept c bs future b (v, small) f e l = elim (dec_lt 0 (length (active b))) [
      | no idle ↦ (
        c,
        b,
        frame_loop_stop (active_size b) c b (omega (arith, active_size_lem v)),
        f
            ∙ ap long_at (
                sym (append-nil bs)
                ∙ ap (λ t. bs ++ t) (sym (eq_nil_of_length (active b) (omega arith)))),
        refl,
      )
      | yes any ↦
          (let second =
              start_SecondLong op (bs ++ active b) future _
                (append_assoc bs (active b) future ∙ e) in
            let r = round_long c bs b f v (omega arith) any small second in
            let n : taken (8 - length bs) (active b) ≡ length (active b) = ground arith in
            let b' = read_completed b (length (active b)) in
            let c' : WebSocketConnect = record c {
              read_packet = some (long_at (bs ++ active b));
            } in
            let r' : frame_round c b ≡ some (c', b') =
              r
              ∙ ap
                  (λ m. some (
                    record c { read_packet = some (long_at (bs ++ take m (active b))) },
                    read_completed b m,
                  ))
                  n
              ∙ ap (λ t. some (record c { read_packet = some (long_at (bs ++ t)) }, b'))
                  (take_all (active b)) in
            let m : active_size b ≡ suc (active_size b - 1) = omega (arith, active_size_lem v) in
            let v' = read_completed-IsValid (length (active b)) v (omega arith) in
            let z : active_size b' ≡ 0 = omega (
              arith,
              active_size_lem v',
              ap length (active-read_completed (length (active b)) v (omega arith)),
              ap length (drop_all (active b)),
            ) in
            (
              c',
              b',
              frame_loop_step (active_size b) c c' b b' (ended c' b')
                  (omega (arith, active_size_lem v)) r'
                  (ap (λ k. frame_loop k c' b') m ∙ frame_loop_stop (active_size b - 1) c' b' z),
              unfold current_frame in refl,
              refl,
            ))
    ]

    -- So are all pieces that do not make up the head.
    pieces_kept :
        (bufs : List MessageBuffer) (c : WebSocketConnect) (bs future : Bytes)
        → All IsPiece bufs
        → current_frame c.read_packet ≡ long_at bs
        → bs ++ (concat (map active bufs) ++ future) ≡ long_head ++ payload
        → length bs + length (concat (map active bufs)) < 8
        → (c' : WebSocketConnect) × (on_buffers c bufs ≡ some c')
          × (current_frame c'.read_packet ≡ long_at (bs ++ concat (map active bufs)))
          × (c'.actions ≡ c.actions)
    unfolding concat
    pieces_kept [] c bs future p f e l =
        (c, unfold on_buffers in refl, f ∙ ap long_at (sym (append-nil bs)), refl)
    pieces_kept (b ∷ bufs) c bs future p f e l =
        let xs = active b in
        let ys = concat (map active bufs) in
        let n = length-append xs ys in
        let e₁ : bs ++ (xs ++ (ys ++ future)) ≡ long_head ++ payload =
          ap (λ t. bs ++ t) (sym (append_assoc xs ys future)) ∙ e in
        let (c₁, b₁, r, g, a) = piece_kept c bs (ys ++ future) b p.0 f e₁ (omega (arith, n)) in
        let (c₂, q, h, a₂) =
          pieces_kept bufs c₁ (bs ++ xs) future p.1 g (append_assoc bs xs (ys ++ future) ∙ e₁)
            (omega (arith, n, length-append bs xs)) in
        (c₂, on_buffers_step c c₁ b b₁ bufs r ∙ q, h ∙ ap long_at (append_assoc bs xs ys), a₂ ∙ a)

    -- The round that completes the head takes what it misses.
    last_round :
        (c : WebSocketConnect) (bs : Bytes) (b : MessageBuffer)
        → IsPiece b
        → current_frame c.read_packet ≡ long_at bs
        → bs ++ active b ≡ long_head ++ payload
        → length bs < 8
        → (b' : MessageBuffer) × (frame_round c b
            ≡ some (record c { read_packet = some long_frame }, b'))
          × IsValid b'
          × (active b' ≡ payload)
    last_round c bs b (v, small) f e l =
        let k = 8 - length bs in
        let total : length bs + length (active b) ≡ 8 + length payload =
          omega (arith, length-append bs (active b), ap length e) in
        let r =
          round_long c bs b f v l (omega arith) small
            (start_SecondLong op (bs ++ active b) [] _ (append-nil (bs ++ active b) ∙ e)) in
        let n : taken k (active b) ≡ k = ground arith in
        let begun = bs ++ take k (active b) in
        let left = drop k (active b) in
        let joined : begun ++ left ≡ long_head ++ payload =
          append_assoc bs (take k (active b)) left
          ∙ ap (λ t. bs ++ t) (take-append-drop k (active b))
          ∙ e in
        let eight_read : 8 ≡ length begun =
          omega (arith, length-append bs (take k (active b)), length-take k (active b)) in
        let whole : begun ≡ long_head =
          sym (take-append_at 8 begun left eight_read)
          ∙ ap (take 8) joined
          ∙ take-append_at 8 long_head payload refl in
        let rest : left ≡ payload =
          sym (drop-append_at 8 begun left eight_read)
          ∙ ap (drop 8) joined
          ∙ drop-append_at 8 long_head payload refl in
        (
          read_completed b k,
          r
              ∙ ap
                  (λ m. some (
                    record c { read_packet = some (long_at (bs ++ take m (active b))) },
                    read_completed b m,
                  ))
                  n
              ∙ ap (λ t. some (record c { read_packet = some (long_at t) }, read_completed b k))
                  whole,
          read_completed-IsValid k v (omega arith),
          active-read_completed k v (omega arith) ∙ rest,
        )

-- The head of a masked frame with a 16 bit length comes to a connection between two frames, cut in
-- pieces anywhere, and at least one byte of the payload comes with its last byte. Whatever the
-- length says, the event object is then given the frame with no payload, after two rounds of the
-- loop on the last piece, and the loop goes on with the payload as the bytes of the next frames. The
-- opcode is not the one that closes the connection.
pub on_buffers-long :
    (op l0 l1 k0 k1 k2 k3 x fuel : ℕ) (payload : Bytes) (bufs : List MessageBuffer)
    (b : MessageBuffer) (c : WebSocketConnect)
    → All IsPiece bufs
    → IsPiece b
    → concat (map active bufs) ++ active b ≡ long_head op l0 l1 k0 k1 k2 k3 ++ (x ∷ payload)
    → length (concat (map active bufs)) < 8
    → c.read_packet ≡ none
    → op % 16 ≢ 8
    → (c₁ : WebSocketConnect) × (on_buffers c bufs ≡ some c₁)
      × (c' : WebSocketConnect) × (b' : MessageBuffer) × (frame_loop (suc (suc fuel)) c₁ b
          ≡ frame_loop fuel c' b')
      × (c'.read_packet ≡ none)
      × (map view c'.actions ≡ map view c.actions ++ (some (op % 16, []) ∷ []))
      × IsValid b'
      × (active b' ≡ x ∷ payload)
on_buffers-long op l0 l1 k0 k1 k2 k3 x fuel payload bufs b c ps p e l idle o =
    let (c₁, q, f, a) =
      pieces_kept op l0 l1 k0 k1 k2 k3 (x ∷ payload) bufs c [] (active b) ps
        (ap current_frame idle ∙ current_frame-none) e (omega (arith, l)) in
    let (b', r, v', rest) =
      last_round op l0 l1 k0 k1 k2 k3 (x ∷ payload) c₁ (concat (map active bufs)) b p f e l in
    let m = message (long_frame op l0 l1 k0 k1 k2 k3) in
    let c₂ : WebSocketConnect = record c₁ {
      read_packet = some (long_frame op l0 l1 k0 k1 k2 k3);
    } in
    let c₃ : WebSocketConnect = record { read_packet = none; actions = c₁.actions ++ (m ∷ []) } in
    let any : 0 < active_size b = omega (
      arith,
      active_size_lem p.0,
      length-append (concat (map active bufs)) (active b),
      ap length e,
    ) in
    let more : 0 < active_size b' = omega (arith, active_size_lem v', ap length rest) in
    (
      c₁,
      q,
      c₃,
      b',
      frame_loop_step (suc fuel) c₁ c₂ b b' (frame_loop fuel c₃ b') any r (
          frame_loop_step fuel c₂ c₃ b' b' (frame_loop fuel c₃ b') more
            (empty_round op l0 l1 k0 k1 k2 k3 c₁ b' o) refl),
      refl,
      map-append view c₁.actions (m ∷ []) ∙ ap (λ t. map view t ++ (some (op % 16, []) ∷ [])) a,
      v',
      rest,
    )
