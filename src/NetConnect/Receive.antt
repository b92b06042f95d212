-- ===== src/NetConnect/Receive.antt =====
-- src/network/TcpSocket.cpp, the read side: libuv writes what it has read to the front of the
-- receive buffer (`alloc_buffer`), and `echo_read` passes it to the connection.
use lua_server.Common.{
  ℕ, ◌+◌, ◌-◌, ◌*◌, ◌^◌, ◌≤◌, ◌<◌, ◌≡◌, refl, ◌∙◌, ap, sym, Bool, true, none, some, List, [], ◌∷◌,
  ◌++◌, map, length, take, drop, length-append, length-drop, le→leb, arith, Option-cases, inl, inr,
  subst,
}
use lua_server.Common.Bytes.{Bytes, All, overwrite, take-append_left}
use lua_server.MessageBuffer.{MessageBuffer, store, write_completed, reset}
use lua_server.MessageBuffer.Laws.{IsValid, active}
use lua_server.NetConnect.{NetConnect, Outcome, done, fault, unfinished, on_msgbuffer}
use lua_server.NetConnect.Stream.{Stream, absorb_all, absorb_all-append, absorb_all_nothing}
use lua_server.NetConnect.Round.{Follows, view}
use lua_server.NetConnect.Refine.{IsOpen, work, on_msgbuffer_lem}

-- What the read callback is called with: a negative `nread`, or the bytes read.
pub data Read : Type 0 where
  failed : Read
  bytes : Bytes → Read

-- A connection with its receive buffer; `closing` once `uv_close` has been called.
pub record Connection : Type 0 where
  pub conn : NetConnect
  pub buffer : MessageBuffer
  pub closing : Bool

pub data Result : Type 0 where
  ready : Connection → Result
  crashed : Result
  no_return : Result

-- The end of the callback: `mBuffer.Reset()`, if `on_msgbuffer` returns.
unfoldable pub after_loop : Connection → Outcome → Result
after_loop k (done c b) = ready (record k { conn = c; buffer = reset b })
after_loop k fault = crashed
after_loop k unfinished = no_return

-- `echo_read`, with a number of rounds for the loop
unfoldable pub echo_within : ℕ → Connection → Read → Result
unfolding after_loop
echo_within rounds k failed = ready (record k { closing = true })
echo_within rounds k (bytes []) = ready k
echo_within rounds k (bytes (x ∷ xs)) = elim (store k.buffer 0 (x ∷ xs)) [
  | none ↦ crashed
  | some b ↦ after_loop k (on_msgbuffer rounds k.conn (write_completed b (length (x ∷ xs))))
]

abbrev size_of : Read → ℕ
size_of failed = 0
size_of (bytes xs) = length xs

-- `echo_read`. A round of the loop takes a byte or hands a packet on, so that for n bytes
-- 2 * n + 2 rounds are enough wherever the loop ends at all.
unfoldable pub echo_read : Connection → Read → Result
echo_read k r = echo_within (2 * size_of r + 2) k r

-- One call after another.
unfoldable pub echo_reads : Connection → List Read → Result
echo_reads k [] = ready k
echo_reads k (r ∷ rs) = elim (echo_read k r) [
  | ready k' ↦ echo_reads k' rs
  | crashed ↦ crashed
  | no_return ↦ no_return
]

-- Between two calls the buffer is empty; its size is a uint32.
pub record IsIdle (k : Connection) (s : Stream) : Type 0 where
  pub rpos : k.buffer.rpos ≡ 0
  pub wpos : k.buffer.wpos ≡ 0
  pub small : length k.buffer.storage < 2 ^ 32
  pub follows : Follows k.conn s
  pub open_stream : IsOpen s

-- `store` at the front makes the bytes the active ones.
pub record Filled (b : MessageBuffer) (xs : Bytes) : Type 0 where
  pub valid : IsValid b
  pub active_bytes : active b ≡ xs

pub store_lem :
    (b : MessageBuffer) (xs : Bytes)
    → b.rpos ≡ 0
    → b.wpos ≡ 0
    → length b.storage < 2 ^ 32
    → length xs ≤ length b.storage
    → (b' : MessageBuffer) × (store b 0 xs ≡ some b')
      × (Filled (write_completed b' (length xs)) xs × (length b'.storage ≡ length b.storage))
unfolding store write_completed
store_lem b xs r w small fits = (
  record b { storage = overwrite 0 xs b.storage },
  rw (le→leb (0 + length xs) (length b.storage) (omega arith)) refl,
  (record { valid = valid; active_bytes = bytes_in }, kept),
)
  where
    kept : length (overwrite 0 xs b.storage) ≡ length b.storage
    kept = omega (
      arith,
      length-append xs (drop (0 + length xs) b.storage),
      length-drop (0 + length xs) b.storage,
    )

    valid : IsValid (record b { storage = overwrite 0 xs b.storage; wpos = b.wpos + length xs })
    valid = omega (arith, kept)

    bytes_in : take (b.wpos + length xs - b.rpos) (drop b.rpos (overwrite 0 xs b.storage)) ≡ xs
    bytes_in =
        let e : b.wpos + length xs - b.rpos ≡ length xs = omega arith in
        rw (e, r) (take-append_left xs (drop (0 + length xs) b.storage))

work_bound : (s : Stream) (xs : Bytes) → work s xs < 2 * length xs + 2
work_bound s xs = ground arith

echo_read_lem :
    (k : Connection) (s t : Stream) (xs : Bytes)
    → IsIdle k s
    → length xs ≤ length k.buffer.storage
    → absorb_all s xs ≡ some t
    → (k' : Connection) × (echo_read k (bytes xs) ≡ ready k')
      × (IsIdle k' t × (length k'.buffer.storage ≡ length k.buffer.storage))
unfolding echo_read echo_within
echo_read_lem k s t [] i fits e =
    let ends : s ≡ t = absorb_all_nothing [] s t refl e in
    (k, refl, (subst (IsIdle k) ends i, refl))
echo_read_lem k s t (x ∷ xs) i fits e =
    let (b, st, (fl, kept)) = store_lem k.buffer (x ∷ xs) i.rpos i.wpos i.small fits in
    let same : absorb_all s (active (write_completed b (length (x ∷ xs)))) ≡ some t =
      rw fl.active_bytes e in
    let (c', b', r, (f', o', j)) =
      on_msgbuffer_lem (2 * length (x ∷ xs) + 2) k.conn s t (write_completed b (length (x ∷ xs)))
        i.follows i.open_stream fl.valid (rw fl.active_bytes (omega arith)) same
        (rw fl.active_bytes (work_bound s (x ∷ xs))) in
    (
      record k { conn = c'; buffer = reset b' },
      steps b (write_completed b (length (x ∷ xs))) c' b' st refl r,
      (
        record {
          rpos = unfold reset in refl;
          wpos = unfold reset in refl;
          small = unfold reset in omega (arith, kept, ap length (j ∙ keeps b));
          follows = f';
          open_stream = o';
        },
        unfold reset in ap length (j ∙ keeps b) ∙ kept,
      ),
    )
  where
    keeps : (b : MessageBuffer) → (write_completed b (length (x ∷ xs))).storage ≡ b.storage
    keeps b = unfold write_completed in refl

    steps :
        (b w : MessageBuffer) (c' : NetConnect) (b' : MessageBuffer)
        → store k.buffer 0 (x ∷ xs) ≡ some b
        → w ≡ write_completed b (length (x ∷ xs))
        → on_msgbuffer (2 * length (x ∷ xs) + 2) k.conn w ≡ done c' b'
        → echo_read k (bytes (x ∷ xs)) ≡ ready (record k { conn = c'; buffer = reset b' })
    steps b w c' b' st e r = rw (echo_within, st, ← e, r) refl

-- The pieces of a stream, each no longer than the receive buffer.
abbrev pub Fits : ℕ → List Bytes → Type 0
Fits room = All (λ xs. length xs ≤ room)

unfoldable pub concat : List Bytes → Bytes
concat [] = []
concat (xs ∷ xss) = xs ++ concat xss

echo_reads_step :
    (k k' : Connection) (xs : Bytes) (xss : List Bytes) (r : Result)
    → echo_read k (bytes xs) ≡ ready k'
    → echo_reads k' (map bytes xss) ≡ r
    → echo_reads k (map bytes (xs ∷ xss)) ≡ r
unfolding echo_reads
echo_reads_step k k' xs xss r e f = rw (echo_reads, e) f

-- Read in pieces of any sizes that fit the buffer, an idle connection handles the stream as the
-- specification does: no callback faults or runs forever, the connection is idle again at the end,
-- and the handler has been given the messages that the specification finds in the whole stream.
pub echo_reads_refines :
    (chunks : List Bytes) (k : Connection) (s t : Stream)
    → IsIdle k s
    → Fits (length k.buffer.storage) chunks
    → absorb_all s (concat chunks) ≡ some t
    → (k' : Connection) × (echo_reads k (map bytes chunks) ≡ ready k')
      × IsIdle k' t
      × (map view k'.conn.delivered ≡ t.messages)
unfolding echo_reads concat
echo_reads_refines [] k s t i h e =
    let ends : s ≡ t = absorb_all_nothing [] s t refl e in
    let i' = subst (IsIdle k) ends i in (k, refl, i', i'.follows.messages)
echo_reads_refines (xs ∷ xss) k s t i h e = elim (Option-cases (absorb_all s xs)) [
  | inl n ↦ cc (e, absorb_all-append xs (concat xss) s, n)
  | inr (u, a) ↦
      let rest : absorb_all u (concat xss) ≡ some t =
        sym (rw a at (absorb_all-append xs (concat xss) s)) ∙ e in
      let (k₁, r₁, (i₁, j₁)) = echo_read_lem k s u xs i h.0 a in
      let (k₂, r₂, i₂, m) = echo_reads_refines xss k₁ u t i₁ (rw j₁ h.1) rest in
      (k₂, echo_reads_step k k₁ xs xss _ r₁ r₂, i₂, m)
]
