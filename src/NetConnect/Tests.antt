-- ===== src/NetConnect/Tests.antt =====
-- Runs of NetConnect.cpp and of the callbacks around it on small streams.
use lua_server.Common.{
  ◌≡◌, refl, true, false, none, some, List, ◌∷◌, ◌++◌, map, arith, replicate, [],
}
use lua_server.ByteBuffer.{ByteBuffer}
use lua_server.Common.Bytes.{bytes_word, word_bytes, Bytes}
use lua_server.MessageBuffer.{MessageBuffer}
use lua_server.MessageBuffer.Laws.{active}
use lua_server.NetConnect.{NetConnect, done, on_msgbuffer}
use lua_server.NetConnect.Receive.{
  Connection, IsIdle, bytes, concat, echo_read, echo_within, echo_reads, echo_reads_refines, failed,
  no_return, ready,
}
use lua_server.NetConnect.Refine.{IsOpen, on_msgbuffer_lem}
use lua_server.NetConnect.Round.{Follows, view}
use lua_server.NetConnect.Send.{
  frame, send_bytes, send_bytes_lem, send_packet, send_packet_lem, wire,
}
use lua_server.NetConnect.Deliver.{echo_reads-frames, frames}
use lua_server.NetConnect.Stall.{IsNegative, echo_read_hangs}
use lua_server.NetConnect.Stream.{Message, Stream, absorb, absorb_all, flush}
use lua_server.NetPacket.{new_packet}

abbrev room : Bytes
room = replicate 8 0

abbrev idle : Connection
idle = record {
  conn = record { read_packet = none; delivered = [] };
  buffer = record { storage = room; rpos = 0; wpos = 0 };
  closing = false;
}

abbrev start : Stream
start = record { partial = []; messages = [] }

idle-IsIdle : IsIdle idle start
idle-IsIdle = record {
  rpos = refl;
  wpos = refl;
  small = omega arith;
  follows = record { packet = refl; messages = refl };
  open_stream = record { at_most = λ l. omega arith; below = λ l. absurd (omega arith) };
}

-- Three messages, the second without a body.
abbrev sent : List Message
sent =
    record { type = 1; body = 65 ∷ [] }
    ∷ record { type = 2; body = [] }
    ∷ record { type = 258; body = 66 ∷ 67 ∷ [] }
    ∷ []

-- Their frames, cut in the middle of a head and of a body.
abbrev chunks : List Bytes
chunks =
    (1 ∷ 0 ∷ 0 ∷ 0 ∷ 1 ∷ [])
    ∷ (0 ∷ 0 ∷ 0 ∷ 65 ∷ 0 ∷ 0 ∷ 0 ∷ [])
    ∷ (0 ∷ 2 ∷ 0 ∷ 0 ∷ 0 ∷ 2 ∷ 0 ∷ [])
    ∷ (0 ∷ 0 ∷ 2 ∷ 1 ∷ 0 ∷ 0 ∷ 66 ∷ [])
    ∷ (67 ∷ [])
    ∷ []

chunks-frames : concat chunks ≡ frames sent
unfolding concat frames frame word_bytes
chunks-frames = refl

echo_reads-frames_example :
    (k' : Connection) × (echo_reads idle (map bytes chunks) ≡ ready k')
    × (map view k'.conn.delivered ≡ sent)
echo_reads-frames_example =
    echo_reads-frames sent chunks idle [] idle-IsIdle
      (omega arith, (omega arith, (omega arith, (omega arith, (omega arith, tt))))) chunks-frames
      ((omega arith, omega arith), ((omega arith, omega arith), ((omega arith, omega arith), tt)))
      (omega arith)

-- A message, and the first byte of the next head.
abbrev pieces : List Bytes
pieces = (1 ∷ 0 ∷ 0 ∷ 0 ∷ 5 ∷ 0 ∷ 0 ∷ 0 ∷ []) ∷ (65 ∷ 9 ∷ []) ∷ []

abbrev after_pieces : Stream
after_pieces = record { partial = 9 ∷ []; messages = record { type = 5; body = 65 ∷ [] } ∷ [] }

pieces-Stream : absorb_all start (concat pieces) ≡ some after_pieces
unfolding concat absorb_all absorb flush bytes_word
pieces-Stream = refl

echo_reads_refines_example :
    (k' : Connection) × (echo_reads idle (map bytes pieces) ≡ ready k')
    × IsIdle k' after_pieces
    × (map view k'.conn.delivered ≡ record { type = 5; body = 65 ∷ [] } ∷ [])
echo_reads_refines_example =
    echo_reads_refines pieces idle start after_pieces idle-IsIdle (omega arith, (omega arith, tt))
      pieces-Stream

-- A receive buffer that holds the first seven bytes of a head.
abbrev seven : MessageBuffer
seven = record { storage = 1 ∷ 0 ∷ 0 ∷ 0 ∷ 5 ∷ 0 ∷ 0 ∷ 0 ∷ []; rpos = 0; wpos = 7 }

abbrev after_seven : Stream
after_seven = record { partial = 1 ∷ 0 ∷ 0 ∷ 0 ∷ 5 ∷ 0 ∷ 0 ∷ []; messages = [] }

seven-Stream : absorb_all start (active seven) ≡ some after_seven
unfolding absorb_all absorb flush bytes_word
seven-Stream = refl

on_msgbuffer_example :
    (c' : NetConnect) × (b' : MessageBuffer) × (on_msgbuffer 15 idle.conn seven ≡ done c' b')
    × (Follows c' after_seven × IsOpen after_seven × (b'.storage ≡ seven.storage))
on_msgbuffer_example =
    on_msgbuffer_lem 15 idle.conn start after_seven seven idle-IsIdle.follows
      idle-IsIdle.open_stream
      (record { ordered = omega arith; inside = omega arith; small = omega arith }) (omega arith)
      seven-Stream (omega arith)

send_bytes_example :
    (p : ByteBuffer) × (send_bytes 258 (66 ∷ 67 ∷ []) ≡ some p)
    × (wire p ≡ frame (record { type = 258; body = 66 ∷ 67 ∷ [] }))
send_bytes_example =
    send_bytes_lem (record { type = 258; body = 66 ∷ 67 ∷ [] }) (omega arith, omega arith)

-- A packet that a client has filled with one byte.
abbrev filled : ByteBuffer
filled = record { storage = room ++ (65 ∷ []); rpos = 8; wpos = 9 }

send_packet_example :
    (q p' : ByteBuffer) × (send_packet 7 filled ≡ some (q, p'))
    × (wire q ≡ frame (record { type = 7; body = 65 ∷ [] }))
    × (p' ≡ new_packet [])
send_packet_example =
    send_packet_lem filled (record { type = 7; body = 65 ∷ [] })
      (record { head = room; room = refl; storage = refl; wpos = refl }) (omega arith, omega arith)

-- A head whose length is 2 ^ 31.
abbrev negative : Stream
negative = record { partial = 0 ∷ 0 ∷ 0 ∷ 128 ∷ 1 ∷ 0 ∷ 0 ∷ 0 ∷ []; messages = [] }

abbrev in_trouble : Connection
in_trouble = record idle {
  conn = record {
    read_packet = some (record { storage = negative.partial; rpos = 8; wpos = 8 });
    delivered = [];
  };
}

in_trouble-IsIdle : IsIdle in_trouble negative
in_trouble-IsIdle = record {
  rpos = refl;
  wpos = refl;
  small = omega arith;
  follows = record {
    packet = record { storage = refl; wpos = refl; rpos = refl };
    messages = refl;
  };
  open_stream = record { at_most = λ l. omega arith; below = λ l. absurd (omega arith) };
}

negative-IsNegative : IsNegative negative
unfolding bytes_word
negative-IsNegative = record { head_only = refl; too_long = omega arith; uint32 = omega arith }

echo_read_hangs_example : echo_within 1000 in_trouble (bytes (0 ∷ [])) ≡ no_return
echo_read_hangs_example =
    echo_read_hangs 1000 in_trouble negative 0 [] in_trouble-IsIdle negative-IsNegative
      (omega arith)

-- The end of the stream closes the connection.
echo_read-failed : echo_read idle failed ≡ ready (record idle { closing = true })
unfolding echo_read echo_within
echo_read-failed = refl
