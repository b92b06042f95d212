-- ===== src/WebSocket/Deliver.antt =====
-- The loop of `WebSocketConnect::on_msgbuffer` on a stream of frames that is cut anywhere.
use lua_server.Common.{
  ℕ, ◌+◌, ◌-◌, ◌^◌, ◌≤◌, ◌<◌, ◌≡◌, refl, ap, ap₂, sym, ◌∙◌, subst, none, some, List, [], ◌∷◌, ◌++◌,
  map, length, take, drop, arith, length-append, length-drop, append-nil, append_assoc,
  take-append-drop, get_or, dec_lt, ℕ_discrete,
}
use lua_server.Common.Bytes.{Bytes, All, take-append_at, drop-append_at}
use lua_server.Common.Taken.{taken, taken_bounds, taken_pos, length-taken}
use lua_server.MessageBuffer.{MessageBuffer, read_completed}
use lua_server.MessageBuffer.Laws.{IsValid, active, read_completed-IsValid, active-read_completed}
use lua_server.WebSocket.{WebSocketConnect, current_frame, frame_round}
use lua_server.WebSocket.Head.{frame_at, IsSmall, SecondSmall, current_frame-none}
use lua_server.WebSocket.Frame.{
  Frame, IsFrame, frame_bytes, view, said, length-client_mask, client_mask,
}
use lua_server.WebSocket.Round.{Follows, round_head, round_more, round_done}

unfoldable pub stream : List Frame → Bytes
stream [] = []
stream (f ∷ fs) = frame_bytes f ++ stream fs

-- These bytes are a part of the first of the frames.
abbrev pub IsPart : Bytes → List Frame → Type 0
IsPart bs [] = bs ≡ []
IsPart bs (f ∷ fs) = length bs < length (frame_bytes f)

length-frame_bytes : (f : Frame) → IsFrame f → length (frame_bytes f) ≡ 6 + length f.payload
length-frame_bytes f h = omega (
  arith,
  length-append f.key (client_mask f.key 0 f.payload),
  length-client_mask f.key 0 f.payload,
  h.four,
)

second_lem : (zs rest ts : Bytes) (x y : ℕ) → zs ++ rest ≡ x ∷ y ∷ ts → IsSmall y → SecondSmall zs
second_lem [] rest ts x y e h = tt
second_lem (a ∷ []) rest ts x y e h = tt
second_lem (a ∷ b ∷ zs) rest ts x y e h = subst IsSmall (sym (ap (λ t. get_or t 1 0) e)) h

-- What a round, or a run of the loop, achieves.
pub record Advance (c : WebSocketConnect) (b : MessageBuffer) (fs : List Frame) (future : Bytes)
    (c' : WebSocketConnect) (b' : MessageBuffer) : Type 0 where
  pub said_now : List Frame
  pub to_come : List Frame
  pub part : Bytes
  pub splits : said_now ++ to_come ≡ fs
  pub follows : Follows c' part
  pub is_part : IsPart part to_come
  pub heard : map view c'.actions ≡ map view c.actions ++ map said said_now
  pub valid : IsValid b'
  pub joined : part ++ (active b' ++ future) ≡ stream to_come

pub record Stride (c : WebSocketConnect) (b : MessageBuffer) (fs : List Frame) (future : Bytes)
    : Type 0 where
  pub conn : WebSocketConnect
  pub buffer : MessageBuffer
  pub runs : frame_round c b ≡ some (conn, buffer)
  pub advance : Advance c b fs future conn buffer
  pub less : length (active buffer) < length (active b)

pub idle_Follows : (c : WebSocketConnect) → c.read_packet ≡ none → Follows c []
idle_Follows c e = ap current_frame e ∙ current_frame-none

pub nil-IsPart : (fs : List Frame) → IsPart [] fs
nil-IsPart [] = refl
nil-IsPart (f ∷ fs) = omega arith

module _ (c : WebSocketConnect) (b : MessageBuffer) (f : Frame) (gs : List Frame)
    (bs future : Bytes) (v : IsValid b) (any : 0 < length (active b))
    (e : bs ++ (active b ++ future) ≡ frame_bytes f ++ stream gs) where
  kept_bytes :
      (n : ℕ)
      → (bs ++ take n (active b)) ++ (drop n (active b) ++ future) ≡ frame_bytes f ++ stream gs
  kept_bytes n =
      append_assoc bs (take n (active b)) (drop n (active b) ++ future)
      ∙ ap (λ t. bs ++ t)
          (sym (append_assoc (take n (active b)) (drop n (active b)) future)
            ∙ ap (λ t. t ++ future) (take-append-drop n (active b)))
      ∙ e

  module _ (c' : WebSocketConnect) (n : ℕ) (p : 0 < n) (l : n ≤ length (active b))
      (r : frame_round c b ≡ some (c', read_completed b n)) where
    fewer : length (active (read_completed b n)) < length (active b)
    fewer = rw (active-read_completed n v l) (omega (arith, length-drop n (active b)))

    stays :
        length (bs ++ take n (active b)) < length (frame_bytes f)
        → Follows c' (bs ++ take n (active b))
        → c'.actions ≡ c.actions
        → Stride c b (f ∷ gs) future
    stays i g a = record {
      conn = c';
      buffer = read_completed b n;
      runs = r;
      advance = record {
        said_now = [];
        to_come = f ∷ gs;
        part = bs ++ take n (active b);
        splits = refl;
        follows = g;
        is_part = i;
        heard = ap (map view) a ∙ sym (append-nil (map view c.actions));
        valid = read_completed-IsValid n v l;
        joined = unfold stream in rw (active-read_completed n v l) (kept_bytes n);
      };
      less = fewer;
    }

    hands_on :
        length (bs ++ take n (active b)) ≡ length (frame_bytes f)
        → c'.read_packet ≡ none
        → map view c'.actions ≡ map view c.actions ++ (said f ∷ [])
        → Stride c b (f ∷ gs) future
    hands_on i g a = record {
      conn = c';
      buffer = read_completed b n;
      runs = r;
      advance = record {
        said_now = f ∷ [];
        to_come = gs;
        part = [];
        splits = refl;
        follows = idle_Follows c' g;
        is_part = nil-IsPart gs;
        heard = a;
        valid = read_completed-IsValid n v l;
        joined = rw (active-read_completed n v l) (
            sym (
              drop-append_at (length (frame_bytes f)) (bs ++ take n (active b))
                (drop n (active b) ++ future) (sym i))
            ∙ ap (drop (length (frame_bytes f))) (kept_bytes n)
            ∙ drop-append_at (length (frame_bytes f)) (frame_bytes f) (stream gs) refl);
      };
      less = fewer;
    }

  -- What was read, where it makes up the frame.
  all_read :
      (n : ℕ)
      → length (bs ++ take n (active b)) ≡ length (frame_bytes f)
      → bs ++ take n (active b) ≡ frame_bytes f
  all_read n i =
      sym (
        take-append_at (length (frame_bytes f)) (bs ++ take n (active b))
          (drop n (active b) ++ future) (sym i))
      ∙ ap (take (length (frame_bytes f))) (kept_bytes n)
      ∙ take-append_at (length (frame_bytes f)) (frame_bytes f) (stream gs) refl

  step_head :
      IsFrame f
      → Follows c bs
      → length (active b) < 2 ^ 32
      → length bs < 6
      → Stride c b (f ∷ gs) future
  unfolding current_frame
  step_head h g small l =
      let n = taken (6 - length bs) (active b) in
      let k = length-taken (6 - length bs) (active b) in
      let (lo, hi) = taken_bounds (6 - length bs) (active b) in
      let s = h.some_payload in
      let t = h.short_payload in
      let second =
        second_lem (bs ++ active b) future _ f.op (128 + length f.payload)
          (append_assoc bs (active b) future ∙ e) (omega arith, omega arith) in
      stays _ n (taken_pos (6 - length bs) (active b) (omega arith) any) hi
        (round_head c bs b g v l any small second)
        (omega (arith, length-append bs (take n (active b)), length-frame_bytes f h)) refl refl

step_at :
    (c : WebSocketConnect) (b : MessageBuffer) (f : Frame) (gs : List Frame) (ks future : Bytes)
    → IsValid b
    → 0 < length (active b)
    → f.op ∷ (128 + length f.payload) ∷ (ks ++ (active b ++ future)) ≡ frame_bytes f ++ stream gs
    → IsFrame f
    → Follows c (f.op ∷ (128 + length f.payload) ∷ ks)
    → 4 ≤ length ks
    → length ks < 4 + length f.payload
    → Stride c b (f ∷ gs) future
unfolding current_frame
step_at c b f gs ks future v any e h g lo hi =
    let miss = 4 + length f.payload - length ks in
    let n = taken miss (active b) in
    let bs = f.op ∷ (128 + length f.payload) ∷ ks in
    let k = length-taken miss (active b) in
    let (le, ge) = taken_bounds miss (active b) in
    let pos = taken_pos miss (active b) (omega arith) any in
    let j = length-append ks (take n (active b)) in
    let w = length-frame_bytes f h in
    elim (ℕ_discrete (length (ks ++ take n (active b))) (4 + length f.payload)) [
      | yes i ↦
          let same : length (bs ++ take n (active b)) ≡ length (frame_bytes f) =
            omega (arith, w, i) in
          let (s, r) =
            round_done f h ks b v lo hi any c g (all_read c b f gs bs future v any e n same) i in
          hands_on c b f gs bs future v any e s.after n pos ge r same s.idle s.heard
      | no i ↦
          stays c b f gs bs future v any e _ n pos ge
            (round_more f h ks b v lo hi any c g (omega arith)) (omega arith) refl refl
    ]

step_body :
    (c : WebSocketConnect) (b : MessageBuffer) (f : Frame) (gs : List Frame) (bs future : Bytes)
    → IsValid b
    → 0 < length (active b)
    → bs ++ (active b ++ future) ≡ frame_bytes f ++ stream gs
    → IsFrame f
    → Follows c bs
    → 6 ≤ length bs
    → length bs < length (frame_bytes f)
    → Stride c b (f ∷ gs) future
step_body c b f gs [] future v any e h g lo hi = absurd (omega arith)
step_body c b f gs (x ∷ []) future v any e h g lo hi = absurd (omega arith)
step_body c b f gs (x ∷ y ∷ ks) future v any e h g lo hi =
    let q : x ∷ y ∷ ks ≡ f.op ∷ (128 + length f.payload) ∷ ks =
      ap₂ (λ a t. a ∷ t ∷ ks) (ap (λ t. get_or t 0 0) e) (ap (λ t. get_or t 1 0) e) in
    step_at c b f gs ks future v any (ap (λ t. t ++ (active b ++ future)) (sym q) ∙ e) h
      (g ∙ ap frame_at q) (omega arith) (omega (arith, length-frame_bytes f h))

pub step :
    (c : WebSocketConnect) (b : MessageBuffer) (fs : List Frame) (bs future : Bytes)
    → IsValid b
    → 0 < length (active b)
    → length (active b) < 2 ^ 32
    → bs ++ (active b ++ future) ≡ stream fs
    → All IsFrame fs
    → Follows c bs
    → IsPart bs fs
    → Stride c b fs future
unfolding stream
step c b [] bs future v any small e h g i = absurd (
    omega
      (arith, ap length e, length-append bs (active b ++ future), length-append (active b) future))
step c b (f ∷ gs) bs future v any small e h g i = elim (dec_lt (length bs) 6) [
  | yes l ↦ step_head c b f gs bs future v any e h.0 g small l
  | no l ↦ step_body c b f gs bs future v any e h.0 g (omega arith) i
]
