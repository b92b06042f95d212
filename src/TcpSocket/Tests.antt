-- ===== src/TcpSocket/Tests.antt =====
-- Runs of the sending side of TcpSocket.cpp.
use lua_server.Common.{◌≡◌, refl, true, false, some, List, ◌∷◌, ◌++◌, arith, replicate, [], length}
use lua_server.Common.Bytes.{All}
use lua_server.TcpSocket.{
  Event, TcpSocket, base_write, fill, fresh, handle, handle_all, is_sending, on_writecomplete,
  pop_front, send_top_msg, write, write_call, write_end, written,
}
use lua_server.TcpSocket.Progress.{empty_packet_stalls, handle_all_drains}
use lua_server.TcpSocket.Queue.{IsBatch, IsSoundEvent, concat, handle_all_sends, pending}

abbrev script : List Event
script = write_call (1 ∷ []) ∷ write_call (2 ∷ 3 ∷ []) ∷ write_end ∷ write_call (4 ∷ []) ∷ []

script-IsSound : All IsSoundEvent script
script-IsSound = (
  (omega arith, omega arith),
  ((omega arith, omega arith), (tt, ((omega arith, omega arith), tt))),
)

handle_all_sends_example :
    (t : TcpSocket) × (handle_all fresh script ≡ some t)
    × (concat t.writes ++ pending t ≡ written script)
    × All IsBatch t.writes
    × (t.in_flight ≡ false → t.send_packets ≡ [])
handle_all_sends_example = handle_all_sends script script-IsSound

handle_all_drains_example :
    (s t : TcpSocket) × (handle_all fresh script ≡ some s)
    × (handle_all s (replicate (length s.send_packets) write_end) ≡ some t)
    × (t.send_packets ≡ [])
    × (concat t.writes ≡ written script)
handle_all_drains_example = handle_all_drains script script-IsSound

empty_packet_stalls_example :
    (t : TcpSocket) × (handle_all fresh (write_call [] ∷ script) ≡ some t) × (t.writes ≡ [])
empty_packet_stalls_example = empty_packet_stalls script

-- Two packets wait for the first write, and go out together.
together :
    (handle_all fresh
      (write_call (1 ∷ []) ∷ write_call (2 ∷ []) ∷ write_call (3 ∷ []) ∷ write_end ∷ []))
    ≡ some (record {
      sending = (2 ∷ []) ∷ (3 ∷ []) ∷ [];
      send_packets = (2 ∷ []) ∷ (3 ∷ []) ∷ [];
      in_flight = true;
      writes = ((1 ∷ []) ∷ []) ∷ ((2 ∷ []) ∷ (3 ∷ []) ∷ []) ∷ [];
    })
unfolding handle_all handle write is_sending send_top_msg fill base_write on_writecomplete pop_front
together = refl
