-- ===== src/NetConnect/Stall.antt =====
-- What NetConnect.cpp does with a head whose length has the top bit set: `getMarkLen` is an `int`,
-- and the loop of `on_msgbuffer` makes no progress on a negative one.
use lua_server.Common.{
  ℕ, zero, suc, ◌^◌, ◌≤◌, ◌<◌, ◌≡◌, refl, ◌∙◌, false, some, ◌∷◌, length, arith, ◌==◌, le→leb,
}
use lua_server.Common.Bytes.{Bytes}
use lua_server.ByteBuffer.{ByteBuffer}
use lua_server.MessageBuffer.{MessageBuffer}
use lua_server.MessageBuffer.Laws.{IsValid, active, active_size_lem}
use lua_server.NetPacket.{is_positive}
use lua_server.NetConnect.Stream.{Stream, body_length}
use lua_server.NetConnect.{
  NetConnect, current_packet, frame_size, need_size, read_body, hand_on, round, unfinished,
  on_msgbuffer,
}
use lua_server.NetConnect.Round.{Follows, current_packet-Holds, mark_len-Holds}
use lua_server.NetConnect.Body.{round_parts}
use lua_server.NetConnect.Refine.{loop_step}
use lua_server.NetConnect.Receive.{Connection, bytes, IsIdle, no_return, echo_within, store_lem}

-- A complete head with a length that is negative as an `int`.
pub record IsNegative (s : Stream) : Type 0 where
  pub head_only : length s.partial ≡ 8
  pub too_long : 2 ^ 31 ≤ body_length s.partial
  pub uint32 : body_length s.partial < 2 ^ 32

negative_need :
    (m : ℕ) (p : ByteBuffer)
    → 2 ^ 31 ≤ m
    → m < 2 ^ 32
    → p.wpos ≡ 8
    → (is_positive (need_size m p) ≡ false) × ((p.wpos == frame_size m) ≡ false)
negative_need m p l h e = ground arith

-- A round then changes nothing, but that a packet is there.
waiting : NetConnect → NetConnect
waiting c = record c { read_packet = some (current_packet c.read_packet) }

module _ (c : NetConnect) (s : Stream) (f : Follows c s) (g : IsNegative s) where
  round_stuck : (b : MessageBuffer) → round c b ≡ some (waiting c, b)
  unfolding read_body hand_on waiting
  round_stuck b =
      let p = current_packet c.read_packet in
      let h = current_packet-Holds c.read_packet s.partial f.packet in
      let mark = mark_len-Holds p s.partial h (omega (arith, g.head_only)) in
      let (needs, differs) =
        negative_need (body_length s.partial) p g.too_long g.uint32 (h.wpos ∙ g.head_only) in
      round_parts c _ b b p (body_length s.partial)
        (le→leb 8 p.wpos (omega (arith, h.wpos, g.head_only))) mark (rw needs refl)
        (rw (mark, differs) refl)

  waiting-Follows : Follows (waiting c) s
  unfolding waiting
  waiting-Follows = record {
    packet = current_packet-Holds c.read_packet s.partial f.packet;
    messages = f.messages;
  }

-- With a complete head of a length of 2 ^ 31 or more, and any byte behind it, the loop never ends:
-- however many rounds it is given, it is still running.
on_msgbuffer_hangs :
    (fuel : ℕ) (c : NetConnect) (s : Stream) (b : MessageBuffer)
    → Follows c s
    → IsNegative s
    → IsValid b
    → 0 < length (active b)
    → on_msgbuffer fuel c b ≡ unfinished
on_msgbuffer_hangs zero c s b f g v any = unfold on_msgbuffer in refl
on_msgbuffer_hangs (suc fuel) c s b f g v any =
    loop_step fuel c (waiting c) b b unfinished (omega (arith, active_size_lem v))
      (round_stuck c s f g b)
      (on_msgbuffer_hangs fuel (waiting c) s b (waiting-Follows c s f g) g v any)

-- If the head of the packet being read is complete and gives a length of 2 ^ 31 or more, the read
-- callback for any bytes that follow and fit the buffer never returns: however many rounds its loop
-- is given, it has not ended.
pub echo_read_hangs :
    (rounds : ℕ) (k : Connection) (s : Stream) (x : ℕ) (xs : Bytes)
    → IsIdle k s
    → IsNegative s
    → length (x ∷ xs) ≤ length k.buffer.storage
    → echo_within rounds k (bytes (x ∷ xs)) ≡ no_return
unfolding echo_within
echo_read_hangs rounds k s x xs i g fits =
    let (b, st, (fl, kept)) = store_lem k.buffer (x ∷ xs) i.rpos i.wpos i.small fits in
    rw
      (
        echo_within,
        st,
        on_msgbuffer_hangs rounds k.conn s _ i.follows g fl.valid
            (rw fl.active_bytes (omega arith)),
      )
      refl
