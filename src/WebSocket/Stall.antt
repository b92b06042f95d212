-- ===== src/WebSocket/Stall.antt =====
-- Where the loop of WebSocketConnect.cpp stands still: no bytes to read, or a length that is negative
-- as an `int`.
use lua_server.Common.{
  ℕ, zero, suc, ◌^◌, ◌≤◌, ◌<◌, ◌≡◌, refl, false, some, ◌==◌, arith, lt→ltb, le→leb,
}
use lua_server.MessageBuffer.{MessageBuffer, active_size}
use lua_server.NetPacket.{is_positive}
use lua_server.WebSocket.{
  WebSocketPacket, WebSocketConnect, current_frame, frame_len, frame_end, frame_missing,
  is_frame_head_full, read_payload, frame_round, frame_loop, unfinished, Ending,
}

round_stuck :
    (c : WebSocketConnect) (p : WebSocketPacket) (b : MessageBuffer) (len : ℕ)
    → c.read_packet ≡ some p
    → p.buffer.wpos ≡ 14
    → frame_len p ≡ some len
    → 2 ^ 31 ≤ len
    → len < 2 ^ 32
    → frame_round c b ≡ some (record c { read_packet = some p }, b)
unfolding frame_round is_frame_head_full read_payload current_frame
round_stuck c p b len r w e lo hi =
    let m : is_positive (frame_missing p len) ≡ false = ground arith in
    let n : (p.buffer.wpos == frame_end len) ≡ false = ground arith in
    rw (r, le→leb 14 p.buffer.wpos (omega arith), e, m, n) refl

pub frame_loop_step :
    (fuel : ℕ) (c c' : WebSocketConnect) (b b' : MessageBuffer) (r : Ending)
    → 0 < active_size b
    → frame_round c b ≡ some (c', b')
    → frame_loop fuel c' b' ≡ r
    → frame_loop (suc fuel) c b ≡ r
unfolding frame_loop
frame_loop_step fuel c c' b b' r h e k = rw (frame_loop, lt→ltb 0 (active_size b) h, e) k

-- With a complete head and a length of 2 ^ 31 or more, and a byte behind it, the loop never ends:
-- however many rounds it is given, it is still running.
pub frame_loop_hangs :
    (fuel : ℕ) (c : WebSocketConnect) (p : WebSocketPacket) (b : MessageBuffer) (len : ℕ)
    → c.read_packet ≡ some p
    → p.buffer.wpos ≡ 14
    → frame_len p ≡ some len
    → 2 ^ 31 ≤ len
    → len < 2 ^ 32
    → 0 < active_size b
    → frame_loop fuel c b ≡ unfinished
frame_loop_hangs zero c p b len r w e lo hi any = unfold frame_loop in refl
frame_loop_hangs (suc fuel) c p b len r w e lo hi any =
    frame_loop_step fuel c (record c { read_packet = some p }) b b unfinished any
      (round_stuck c p b len r w e lo hi)
      (frame_loop_hangs fuel (record c { read_packet = some p }) p b len refl w e lo hi any)
