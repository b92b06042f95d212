-- ===== src/NetConnect/Refine.antt =====
-- The loop of `NetConnect::on_msgbuffer` reads its buffer as the stream specification says.
use lua_server.Common.{
  ℕ, zero, suc, ◌+◌, ◌-◌, ◌*◌, ◌^◌, ◌≤◌, ◌<◌, ◌≡◌, refl, ◌∙◌, ap, sym, some, length, take, drop,
  length-append, length-drop, arith, leb, if◌then◌else◌, take-append-drop, lt→ltb, ◌>>=◌, dec_lt,
  ℕ_discrete, subst,
}
use lua_server.Common.Bytes.{Bytes}
use lua_server.MessageBuffer.{MessageBuffer, active_size, read_completed}
use lua_server.MessageBuffer.Laws.{
  IsValid, active, active_size_lem, read_completed-IsValid, active-read_completed,
}
use lua_server.NetConnect.Stream.{
  Stream, body_length, extend, flush, flush_complete, flush_partial, absorb_all, absorb_all-append,
  absorb_all_head, absorb_all_inner, absorb_all_last, body_length-append, absorb_all_negative,
  absorb_all-flush, absorb_all_nothing,
}
use lua_server.NetConnect.{NetConnect, round, Outcome, done, on_msgbuffer}
use lua_server.NetConnect.Round.{Follows, round_head}
use lua_server.Common.Taken.{taken, taken_bounds, taken_pos, length-taken}
use lua_server.NetConnect.Body.{round_empty, round_body}

-- Between two bytes the packet at hand is not complete, but for a head with no body.
pub record IsOpen (s : Stream) : Type 0 where
  pub at_most : 8 ≤ length s.partial → length s.partial ≤ 8 + body_length s.partial
  pub below : 8 < length s.partial → length s.partial < 8 + body_length s.partial

short-IsOpen : (s : Stream) → length s.partial ≤ 8 → IsOpen s
short-IsOpen s h = record { at_most = λ l. omega arith; below = λ l. absurd (omega arith) }

flush-IsOpen :
    (s : Stream)
    → 8 < length s.partial
    → length s.partial ≤ 8 + body_length s.partial
    → IsOpen (flush s)
flush-IsOpen s h l = elim (ℕ_discrete (length s.partial) (8 + body_length s.partial)) [
  | yes e ↦ rw (flush_complete s (omega arith) e) (short-IsOpen _ (omega arith))
  | no e ↦ rw (flush_partial s e) (record { at_most = λ _. l; below = λ _. omega arith })
]

absorb_all_body :
    (s : Stream) (ys : Bytes)
    → 8 ≤ length s.partial
    → body_length s.partial < 2 ^ 31
    → 0 < length ys
    → length s.partial + length ys ≤ 8 + body_length s.partial
    → absorb_all s ys ≡ some (flush (extend s ys))
absorb_all_body s ys h m p l =
    let k = body_length-append s.partial ys h in
    let j = length-append s.partial ys in
    elim (ℕ_discrete (length s.partial + length ys) (8 + body_length s.partial)) [
      | yes e ↦
          rw (flush_complete (extend s ys) (omega arith) (omega arith))
            (absorb_all_last ys s h m p e)
      | no e ↦
          rw (flush_partial (extend s ys) (omega arith)) (absorb_all_inner ys s h m (omega arith))
    ]

-- The work left: a round takes a byte, or hands a packet on.
abbrev pub work : Stream → Bytes → ℕ
work s xs = 2 * length xs + (if leb 8 (length s.partial) then 1 else 0)

-- What a round achieves on the way to `t`.
record Progress (c : NetConnect) (s : Stream) (b : MessageBuffer) (t : Stream) : Type 0 where
  conn : NetConnect
  stream : Stream
  buffer : MessageBuffer
  runs : round c b ≡ some (conn, buffer)
  follows : Follows conn stream
  open_stream : IsOpen stream
  valid : IsValid buffer
  absorbs : absorb_all stream (active buffer) ≡ some t
  less : work stream (active buffer) < work s (active b)
  small : length (active buffer) < 2 ^ 32
  kept : buffer.storage ≡ b.storage

module _ {c : NetConnect} {s t : Stream} {b : MessageBuffer} (f : Follows c s) (o : IsOpen s)
    (v : IsValid b) (any : 0 < length (active b)) (small : length (active b) < 2 ^ 32)
    (e : absorb_all s (active b) ≡ some t) where
  -- a round that takes n bytes
  takes :
      (c' : NetConnect) (s' : Stream) (n : ℕ)
      → 0 < n
      → n ≤ length (active b)
      → round c b ≡ some (c', read_completed b n)
      → Follows c' s'
      → IsOpen s'
      → absorb_all s (take n (active b)) ≡ some s'
      → Progress c s b t
  takes c' s' n p l r f' o' a = record {
    conn = c';
    stream = s';
    buffer = read_completed b n;
    runs = r;
    follows = f';
    open_stream = o';
    valid = read_completed-IsValid n v l;
    absorbs = rw (active-read_completed n v l) rest;
    less = rw (active-read_completed n v l) fewer;
    small = rw (active-read_completed n v l) (omega (arith, length-drop n (active b)));
    kept = unfold read_completed in refl;
  }
    where
      rest : absorb_all s' (drop n (active b)) ≡ some t
      rest =
          sym (ap (λ o. o >>= λ u. absorb_all u (drop n (active b))) a)
          ∙ sym (absorb_all-append (take n (active b)) (drop n (active b)) s)
          ∙ rw (take-append-drop n (active b)) e

      fewer : work s' (drop n (active b)) < work s (active b)
      fewer = ground (arith, length-drop n (active b))

  head_advances : length s.partial < 8 → Progress c s b t
  head_advances l =
      let n = taken (8 - length s.partial) (active b) in
      let k = length-taken (8 - length s.partial) (active b) in
      let j = length-append s.partial (take n (active b)) in
      let (lo, hi) = taken_bounds (8 - length s.partial) (active b) in
      let (c', r, f') = round_head c s b f v l small in
      takes c' (extend s (take n (active b))) n
        (taken_pos (8 - length s.partial) (active b) (omega arith) any) hi r f'
        (short-IsOpen _ (omega arith)) (absorb_all_head (take n (active b)) s (omega arith))

  body_advances :
      8 ≤ length s.partial
      → body_length s.partial < 2 ^ 31
      → length s.partial < 8 + body_length s.partial
      → Progress c s b t
  body_advances l m more =
      let missing = 8 + body_length s.partial - length s.partial in
      let n = taken missing (active b) in
      let ys = take n (active b) in
      let k = length-taken missing (active b) in
      let j = length-append s.partial ys in
      let i = body_length-append s.partial ys l in
      let (lo, hi) = taken_bounds missing (active b) in
      let pos = taken_pos missing (active b) (omega arith) any in
      let (c', r, f') = round_body c s b f v l m more any in
      takes c' (flush (extend s ys)) n pos hi r f'
        (flush-IsOpen (extend s ys) (omega arith) (omega arith))
        (absorb_all_body s ys l m (omega arith) (omega arith))

  empty_body_advances : length s.partial ≡ 8 → body_length s.partial ≡ 0 → Progress c s b t
  empty_body_advances l m =
      let (c', r, f') = round_empty c s b f l m in
      record {
        conn = c';
        stream = flush s;
        buffer = b;
        runs = r;
        follows = f';
        open_stream =
            rw (flush_complete s (omega arith) (omega arith)) (short-IsOpen _ (omega arith));
        valid = v;
        absorbs = absorb_all-flush s (active b) l m any ∙ e;
        less = rw (flush_complete s (omega arith) (omega arith)) (ground arith);
        small = small;
        kept = refl;
      }

  progress : Progress c s b t
  progress = elim (dec_lt (length s.partial) 8) [
    | yes l ↦ head_advances l
    | no l ↦ elim (dec_lt (body_length s.partial) (2 ^ 31)) [
      | yes m ↦ elim (dec_lt (length s.partial) (8 + body_length s.partial)) [
        | yes more ↦ body_advances (omega arith) m more
        | no full ↦ empty_body_advances (grind arith) (grind arith)
      ]
      | no m ↦ cc (e, absorb_all_negative s (active b) (omega arith) (omega arith) any)
    ]
  ]

pub loop_step :
    (fuel : ℕ) (c c' : NetConnect) (b b' : MessageBuffer) (r : Outcome)
    → 0 < active_size b
    → round c b ≡ some (c', b')
    → on_msgbuffer fuel c' b' ≡ r
    → on_msgbuffer (suc fuel) c b ≡ r
unfolding on_msgbuffer
loop_step fuel c c' b b' r h e k = rw (on_msgbuffer, lt→ltb 0 (active_size b) h, e) k

loop_stop :
    (fuel : ℕ) (c : NetConnect) (b : MessageBuffer)
    → active_size b ≡ 0
    → on_msgbuffer (suc fuel) c b ≡ done c b
unfolding on_msgbuffer
loop_stop fuel c b h = rw (on_msgbuffer, h) refl

-- The loop ends, without a fault, once its buffer is empty, and has then handed on the packets that
-- the specification finds.
pub on_msgbuffer_lem :
    (fuel : ℕ) (c : NetConnect) (s t : Stream) (b : MessageBuffer)
    → Follows c s
    → IsOpen s
    → IsValid b
    → length (active b) < 2 ^ 32
    → absorb_all s (active b) ≡ some t
    → work s (active b) < fuel
    → (c' : NetConnect) × (b' : MessageBuffer) × (on_msgbuffer fuel c b ≡ done c' b')
      × (Follows c' t × IsOpen t × (b'.storage ≡ b.storage))
on_msgbuffer_lem zero c s t b f o v small e w = absurd (omega arith)
on_msgbuffer_lem (suc fuel) c s t b f o v small e w = elim (dec_lt 0 (length (active b))) [
  | yes any ↦
      let p = progress f o v any small e in
      let (c', b', r, (f', o', k)) =
        on_msgbuffer_lem fuel p.conn p.stream t p.buffer p.follows p.open_stream p.valid p.small
          p.absorbs (omega (arith, p.less)) in
      (
        c',
        b',
        loop_step fuel c p.conn b p.buffer _ (omega (arith, active_size_lem v)) p.runs r,
        (f', o', k ∙ p.kept),
      )
  | no any ↦
      let ends : s ≡ t = absorb_all_nothing (active b) s t (omega arith) e in
      (
        c,
        b,
        loop_stop fuel c b (omega (arith, active_size_lem v)),
        (subst (Follows c) ends f, subst IsOpen ends o, refl),
      )
]
