-- ===== src/WebSocket/Tests.antt =====
-- Runs of WebSocketPacket.cpp and WebSocketConnect.cpp.
use lua_server.ByteBuffer.{put, read_word_at, slice}
use lua_server.Common.Bytes.{Bytes, bytes_word}
use lua_server.MessageBuffer.{active_size, MessageBuffer}
use lua_server.WebSocket.{
  WebSocketPacket, calc_head_size, current_frame, dispatch, frame_len, frame_loop, frame_wire,
  message, new_frame, place_head, read_frame_head, read_rest, read_two, send_frame, unfinished,
  WebSocketConnect,
}
use lua_server.WebSocket.Length.{dispatch_lem}
use lua_server.WebSocket.Long.{on_buffers-long}
use lua_server.WebSocket.Send.{frame_head, send_frame_lem}
use lua_server.WebSocket.Stall.{frame_loop_hangs}
use lua_server.Common.{◌≡◌, refl, some, none, ◌∷◌, [], arith, List, length, ◌<◌, map}
use lua_server.NetConnect.Receive.{concat}
use lua_server.MessageBuffer.Laws.{IsValid, active, length-active}
use lua_server.WebSocket.Frame.{Frame, IsFrame, client_mask, view}
use lua_server.WebSocket.Deliver.{stream}
use lua_server.WebSocket.Pieces.{IsPiece, on_buffers, on_buffers-stream}

-- A head with a mask and a length of 0xFFFFFFFF in 8 bytes, read from a stream.
abbrev long_head : Bytes
long_head = 0x82 ∷ 255 ∷ 255 ∷ 255 ∷ 255 ∷ 255 ∷ 0 ∷ 0 ∷ 0 ∷ 0 ∷ 1 ∷ 2 ∷ 3 ∷ 4 ∷ []

abbrev long_packet : WebSocketPacket
long_packet = record {
  buffer = record {
    storage = 0 ∷ 0 ∷ 255 ∷ 255 ∷ 255 ∷ 255 ∷ 0 ∷ 0 ∷ 0 ∷ 0 ∷ 1 ∷ 2 ∷ 3 ∷ 4 ∷ [];
    rpos = 14;
    wpos = 14;
  };
  head = 0x82 ∷ 255 ∷ [];
  headpos = 0;
}

long_read : read_frame_head (current_frame none) long_head ≡ some (14, long_packet)
unfolding read_frame_head read_two read_rest place_head calc_head_size current_frame new_frame put
long_read = refl

long_len : frame_len long_packet ≡ some 0xFFFFFFFF
unfolding frame_len read_word_at slice bytes_word
long_len = refl

-- The connection has read that head, and there is a byte behind it.
frame_loop_hangs_example :
    frame_loop 9
      (record { read_packet = some long_packet; actions = [] })
      (record { storage = 7 ∷ []; rpos = 0; wpos = 1 })
    ≡ unfinished
frame_loop_hangs_example =
    frame_loop_hangs 9 (record { read_packet = some long_packet; actions = [] }) long_packet
      (record { storage = 7 ∷ []; rpos = 0; wpos = 1 }) 0xFFFFFFFF refl refl long_len (omega arith)
      (omega arith) (unfold active_size in omega arith)

send_frame_example :
    (p : WebSocketPacket) × (send_frame (1 ∷ 2 ∷ []) ≡ some p)
    × (frame_wire p ≡ 0x82 ∷ 2 ∷ 1 ∷ 2 ∷ [])
unfolding frame_head
send_frame_example = send_frame_lem (1 ∷ 2 ∷ []) (omega arith)

dispatch_example : dispatch long_packet ≡ some (message long_packet ∷ [])
dispatch_example = dispatch_lem long_packet

-- Two frames, the first of them cut in three pieces: "Hi" and "!"
abbrev hi : Frame
hi = record { op = 0x81; key = 1 ∷ 2 ∷ 3 ∷ 4 ∷ []; payload = 72 ∷ 105 ∷ [] }

abbrev bang : Frame
bang = record { op = 0x82; key = 9 ∷ 8 ∷ 7 ∷ 6 ∷ []; payload = 33 ∷ [] }

abbrev piece : Bytes → MessageBuffer
piece xs = record { storage = xs; rpos = 0; wpos = length xs }

abbrev pieces : List MessageBuffer
pieces =
    piece (0x81 ∷ [])
    ∷ piece (130 ∷ 1 ∷ 2 ∷ 3 ∷ [])
    ∷ piece (4 ∷ 73 ∷ 107 ∷ 0x82 ∷ 129 ∷ 9 ∷ 8 ∷ 7 ∷ 6 ∷ 40 ∷ [])
    ∷ []

hi-IsFrame : IsFrame hi
hi-IsFrame = record {
  four = refl;
  key_bytes = (omega arith, (omega arith, (omega arith, (omega arith, tt))));
  payload_bytes = (omega arith, (omega arith, tt));
  some_payload = omega arith;
  short_payload = omega arith;
  no_close = λ e. omega (arith, e);
}

bang-IsFrame : IsFrame bang
bang-IsFrame = record {
  four = refl;
  key_bytes = (omega arith, (omega arith, (omega arith, (omega arith, tt))));
  payload_bytes = (omega arith, tt);
  some_payload = omega arith;
  short_payload = omega arith;
  no_close = λ e. omega (arith, e);
}

piece-IsPiece : (xs : Bytes) → length xs < 100 → IsPiece (piece xs)
piece-IsPiece xs h =
    let v : IsValid (piece xs) = omega (arith, h) in (v, omega (arith, h, length-active v))

pieces_join : concat (map active pieces) ≡ stream (hi ∷ bang ∷ [])
unfolding concat stream client_mask
pieces_join = refl

on_buffers-stream_example :
    (c' : WebSocketConnect) × (on_buffers (record { read_packet = none; actions = [] }) pieces
      ≡ some c')
    × (map view c'.actions ≡ some (1, 72 ∷ 105 ∷ []) ∷ some (2, 33 ∷ []) ∷ [])
on_buffers-stream_example =
    on_buffers-stream pieces (record { read_packet = none; actions = [] }) (hi ∷ bang ∷ [])
      (
        piece-IsPiece (0x81 ∷ []) (omega arith),
        (
          piece-IsPiece (130 ∷ 1 ∷ 2 ∷ 3 ∷ []) (omega arith),
          (piece-IsPiece (4 ∷ 73 ∷ 107 ∷ 0x82 ∷ 129 ∷ 9 ∷ 8 ∷ 7 ∷ 6 ∷ 40 ∷ []) (omega arith), tt),
        ),
      )
      pieces_join (hi-IsFrame, (bang-IsFrame, tt)) refl

-- The head of a frame of 300 bytes in two pieces, and the first two of them
on_buffers-long_example :
    (c₁ : WebSocketConnect) × (on_buffers
        (record { read_packet = none; actions = [] })
        (piece (0x82 ∷ 254 ∷ 1 ∷ []) ∷ [])
      ≡ some c₁)
    × (c' : WebSocketConnect) × (b' : MessageBuffer) × (frame_loop 3 c₁
          (piece (44 ∷ 5 ∷ 6 ∷ 7 ∷ 8 ∷ 9 ∷ 10 ∷ []))
        ≡ frame_loop 1 c' b')
    × (c'.read_packet ≡ none)
    × (map view c'.actions ≡ some (2, []) ∷ [])
    × IsValid b'
    × (active b' ≡ 9 ∷ 10 ∷ [])
unfolding concat
on_buffers-long_example =
    on_buffers-long 0x82 1 44 5 6 7 8 9 1 (10 ∷ []) (piece (0x82 ∷ 254 ∷ 1 ∷ []) ∷ [])
      (piece (44 ∷ 5 ∷ 6 ∷ 7 ∷ 8 ∷ 9 ∷ 10 ∷ [])) (record { read_packet = none; actions = [] })
      (piece-IsPiece (0x82 ∷ 254 ∷ 1 ∷ []) (omega arith), tt)
      (piece-IsPiece (44 ∷ 5 ∷ 6 ∷ 7 ∷ 8 ∷ 9 ∷ 10 ∷ []) (omega arith)) refl (omega arith) refl
      (λ e. omega (arith, e))
