-- ===== src/WebSocket/Pieces.antt =====
-- Calls of `WebSocketConnect::on_msgbuffer` on the pieces of a stream of frames.
use lua_server.Common.{
  ℕ, zero, suc, ◌^◌, ◌<◌, ◌≡◌, refl, ap, sym, ◌∙◌, subst, Option, none, some, List, [], ◌∷◌, ◌++◌,
  map, length, arith, length-append, append-nil, append_assoc, dec_lt, eq_nil_of_length,
}
use lua_server.Common.Bytes.{Bytes, All}
use lua_server.MessageBuffer.{MessageBuffer, active_size}
use lua_server.MessageBuffer.Laws.{IsValid, active, active_size_lem}
use lua_server.NetConnect.Receive.{concat}
use lua_server.WebSocket.{WebSocketConnect, frame_loop, ended, fault, unfinished}
use lua_server.WebSocket.Frame.{Frame, IsFrame, frame_bytes, view, said}
use lua_server.WebSocket.Stall.{frame_loop_step}
use lua_server.WebSocket.Round.{Follows}
use lua_server.WebSocket.Deliver.{stream, IsPart, Advance, step, idle_Follows, nil-IsPart}
use mathlib.Core.List.{map-append}

All-append_right {ℓ κ} :
    {A : Type ℓ} (P : A → Type κ) (xs ys : List A) → All P (xs ++ ys) → All P ys
All-append_right P [] ys h = h
All-append_right P (x ∷ xs) ys h = All-append_right P xs ys h.1

compose :
    (c₀ c₁ c₂ : WebSocketConnect) (b₀ b₁ b₂ : MessageBuffer) (fs : List Frame) (future : Bytes)
    (a : Advance c₀ b₀ fs future c₁ b₁)
    → Advance c₁ b₁ a.to_come future c₂ b₂
    → Advance c₀ b₀ fs future c₂ b₂
compose c₀ c₁ c₂ b₀ b₁ b₂ fs future a d = record {
  said_now = a.said_now ++ d.said_now;
  to_come = d.to_come;
  part = d.part;
  splits =
      append_assoc a.said_now d.said_now d.to_come ∙ ap (λ t. a.said_now ++ t) d.splits ∙ a.splits;
  follows = d.follows;
  is_part = d.is_part;
  heard =
      d.heard
      ∙ ap (λ t. t ++ map said d.said_now) a.heard
      ∙ append_assoc (map view c₀.actions) (map said a.said_now) (map said d.said_now)
      ∙ ap (λ t. map view c₀.actions ++ t) (sym (map-append said a.said_now d.said_now));
  valid = d.valid;
  joined = d.joined;
}

pub frame_loop_stop :
    (fuel : ℕ) (c : WebSocketConnect) (b : MessageBuffer)
    → active_size b ≡ 0
    → frame_loop (suc fuel) c b ≡ ended c b
unfolding frame_loop
frame_loop_stop fuel c b h = rw (frame_loop, h) refl

-- The loop ends once its buffer is empty, since each round takes a byte.
pub frame_loop_lem :
    (fuel : ℕ) (c : WebSocketConnect) (b : MessageBuffer) (fs : List Frame) (bs future : Bytes)
    → IsValid b
    → length (active b) < 2 ^ 32
    → bs ++ (active b ++ future) ≡ stream fs
    → All IsFrame fs
    → Follows c bs
    → IsPart bs fs
    → length (active b) < fuel
    → (c' : WebSocketConnect) × (b' : MessageBuffer) × (frame_loop fuel c b ≡ ended c' b')
      × (Advance c b fs future c' b' × (length (active b') ≡ 0))
frame_loop_lem zero c b fs bs future v small e h g i k = absurd (omega arith)
frame_loop_lem (suc fuel) c b fs bs future v small e h g i k = elim (dec_lt 0 (length (active b))) [
  | yes any ↦
      let s = step c b fs bs future v any small e h g i in
      let a = s.advance in
      let still : All IsFrame a.to_come =
        All-append_right IsFrame a.said_now a.to_come (subst (All IsFrame) (sym a.splits) h) in
      let (c', b', r, (d, z)) =
        frame_loop_lem fuel s.conn s.buffer a.to_come a.part future a.valid (omega (arith, s.less))
          a.joined still a.follows a.is_part (omega (arith, s.less)) in
      (
        c',
        b',
        frame_loop_step fuel c s.conn b s.buffer _ (omega (arith, active_size_lem v)) s.runs r,
        (compose c s.conn c' b s.buffer b' fs future a d, z),
      )
  | no idle ↦ (
    c,
    b,
    frame_loop_stop fuel c b (omega (arith, active_size_lem v)),
    (
      record {
        said_now = [];
        to_come = fs;
        part = bs;
        splits = refl;
        follows = g;
        is_part = i;
        heard = sym (append-nil (map view c.actions));
        valid = v;
        joined = e;
      },
      omega arith,
    ),
  )
]

-- Calls of `on_msgbuffer` behind the handshake, on one buffer after the other.
unfoldable pub on_buffers : WebSocketConnect → List MessageBuffer → Option WebSocketConnect
on_buffers c [] = some c
on_buffers c (b ∷ bs) = elim (frame_loop (suc (active_size b)) c b) [
  | ended c' b' ↦ on_buffers c' bs
  | fault ↦ none
  | unfinished ↦ none
]

abbrev pub IsPiece : MessageBuffer → Type 0
IsPiece b = IsValid b × (length (active b) < 2 ^ 32)

pub on_buffers_step :
    (c c' : WebSocketConnect) (b b' : MessageBuffer) (bufs : List MessageBuffer)
    → frame_loop (suc (active_size b)) c b ≡ ended c' b'
    → on_buffers c (b ∷ bufs) ≡ on_buffers c' bufs
unfolding on_buffers
on_buffers_step c c' b b' bufs r = rw (on_buffers, r) refl

nothing_left : (bs : Bytes) (fs : List Frame) → bs ++ [] ≡ stream fs → IsPart bs fs → fs ≡ []
unfolding stream
nothing_left bs [] e i = refl
nothing_left bs (f ∷ fs) e i =
    absurd
      (omega (arith, ap length e, length-append bs [], length-append (frame_bytes f) (stream fs)))

on_buffers_from :
    (bufs : List MessageBuffer) (c : WebSocketConnect) (fs : List Frame) (bs : Bytes)
    → All IsPiece bufs
    → bs ++ concat (map active bufs) ≡ stream fs
    → All IsFrame fs
    → Follows c bs
    → IsPart bs fs
    → (c' : WebSocketConnect) × (on_buffers c bufs ≡ some c')
      × (map view c'.actions ≡ map view c.actions ++ map said fs)
unfolding concat
on_buffers_from [] c fs bs p e h g i = (
  c,
  unfold on_buffers in refl,
  sym (append-nil (map view c.actions))
      ∙ ap (λ t. map view c.actions ++ map said t) (sym (nothing_left bs fs e i)),
)
on_buffers_from (b ∷ bufs) c fs bs p e h g i =
    let future = concat (map active bufs) in
    let (v, small) = p.0 in
    let (c₁, b₁, r, (a, z)) =
      frame_loop_lem (suc (active_size b)) c b fs bs future v small e h g i
        (omega (arith, active_size_lem v)) in
    let still : All IsFrame a.to_come =
      All-append_right IsFrame a.said_now a.to_come (subst (All IsFrame) (sym a.splits) h) in
    let joined : a.part ++ future ≡ stream a.to_come =
      ap (λ t. a.part ++ (t ++ future)) (sym (eq_nil_of_length (active b₁) z)) ∙ a.joined in
    let (c₂, q, heard) =
      on_buffers_from bufs c₁ a.to_come a.part p.1 joined still a.follows a.is_part in
    (
      c₂,
      on_buffers_step c c₁ b b₁ bufs r ∙ q,
      heard
          ∙ ap (λ t. t ++ map said a.to_come) a.heard
          ∙ append_assoc (map view c.actions) (map said a.said_now) (map said a.to_come)
          ∙ ap (λ t. map view c.actions ++ t)
              (sym (map-append said a.said_now a.to_come) ∙ ap (map said) a.splits),
    )

-- Masked frames of 1 to 125 bytes, none of which closes the connection, come in as one stream cut
-- in pieces anywhere. If `on_msgbuffer` is called with one piece after the other, on a connection
-- that has no frame begun, then every call ends without a fault after at most one round more than it
-- has bytes, and the event object is given each frame's opcode and its payload without the mask, in
-- order and nothing else.
pub on_buffers-stream :
    (bufs : List MessageBuffer) (c : WebSocketConnect) (fs : List Frame)
    → All IsPiece bufs
    → concat (map active bufs) ≡ stream fs
    → All IsFrame fs
    → c.read_packet ≡ none
    → (c' : WebSocketConnect) × (on_buffers c bufs ≡ some c')
      × (map view c'.actions ≡ map view c.actions ++ map said fs)
on_buffers-stream bufs c fs p e h g =
    on_buffers_from bufs c fs [] p e h (idle_Follows c g) (nil-IsPart fs)
