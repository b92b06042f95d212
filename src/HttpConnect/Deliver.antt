-- ===== src/HttpConnect/Deliver.antt =====
-- The loop of `HttpConnect::on_msgbuffer` on the pieces of a stream of requests.
use lua_server.Common.{
  ℕ, zero, suc, ◌+◌, ◌-◌, ◌^◌, ◌≤◌, ◌<◌, ◌≡◌, refl, ap, ap₂, sym, ◌∙◌, subst, some, List, [], ◌∷◌,
  ◌++◌, map, length, take, drop, arith, length-append, append-nil, append_assoc, lt→ltb, ◌⊎◌, inl,
  inr,
}
use lua_server.Common.Bytes.{Bytes, take-append_left, drop-append_at, take_all}
use lua_server.Common.Taken.{taken}
use lua_server.MessageBuffer.{MessageBuffer, active_size, read_completed}
use lua_server.MessageBuffer.Laws.{
  IsValid, active, active_size_lem, read_completed-IsValid, active-read_completed,
}
use lua_server.HttpConnect.{
  HttpLib, HttpConnect, ParseUrl, Call, handled, goes_on, Ending, ended, c_string, read_head,
  read_body, on_msgbuffer,
}
use lua_server.HttpConnect.Requests.{
  Sent, IsSent, asks, Phase, idle, reading, Piece, stop, bare, begin, part, finish, At, idle_at,
  reading_at, parsed,
}
use lua_server.HttpConnect.Round.{read_head_lem, read_no_body, read_more, read_last}

-- A receive buffer with these bytes in it, and a 0 somewhere behind them.
pub record Holds (b : MessageBuffer) (bs : Bytes) : Type 0 where
  pub valid : IsValid b
  pub bytes : active b ≡ bs
  pub small : length bs < 2 ^ 31
  pub string : Bytes
  pub zero_behind : c_string (drop b.wpos b.storage) ≡ some string

abbrev pub answers : List Sent → List Call
answers = map (λ r. handled (asks r))

Holds-read :
    (b : MessageBuffer) (xs ys : Bytes) (n : ℕ)
    → Holds b (xs ++ ys)
    → n ≡ length xs
    → Holds (read_completed b n) ys
unfolding read_completed
Holds-read b xs ys n h e =
    let l : n ≤ length (active b) = omega (arith, e, ap length h.bytes, length-append xs ys) in
    record {
      valid = read_completed-IsValid n h.valid l;
      bytes = active-read_completed n h.valid l ∙ ap (drop n) h.bytes ∙ drop-append_at n xs ys e;
      small = omega (arith, h.small, length-append xs ys);
      string = h.string;
      zero_behind = h.zero_behind;
    }

module _ (lib : HttpLib) where
  -- What the part of a round that reads a body achieves.
  record AfterBody (c : HttpConnect lib) (b : MessageBuffer) (bs : Bytes) (calls : List Call)
      (done : List Sent) (q : Phase) : Type 0 where
    conn : HttpConnect lib
    buffer : MessageBuffer
    phase : Phase
    rest : Bytes
    calls_now : List Call
    to_do : List Sent
    runs : read_body lib c b ≡ some (conn, buffer)
    left_over : Piece lib phase rest to_do q
    at : At lib conn phase calls_now
    holds : Holds buffer rest
    accounts : calls_now ++ answers to_do ≡ calls ++ answers done
    progress : (rest ≡ []) ⊎ (length rest < length bs)

  module _ (r : Sent) (got : Bytes) (b : MessageBuffer) (calls : List Call) (c : HttpConnect lib)
      (cap : ℕ) (u : ParseUrl) (big : 4096 ≤ cap) (h : IsSent lib r)
      (l : length got < length r.body) (e : c ≡ reading_at lib cap u r got calls) where
    reads_on :
        (xs : Bytes)
        → length got + length xs < length r.body
        → Holds b xs
        → read_body lib c b
          ≡ some (reading_at lib cap u r (got ++ xs) calls, read_completed b (length xs))
    reads_on xs m k =
        let n : taken (length r.body - length got) (active b) ≡ length xs =
          ground (arith, ap length k.bytes) in
        let t : take (taken (length r.body - length got) (active b)) (active b) ≡ xs =
          ap₂ take n k.bytes ∙ take_all xs in
        let s : length (got ++ take (taken (length r.body - length got) (active b)) (active b))
            < length r.body =
          omega (
            arith,
            ap length t,
            length-append got (take (taken (length r.body - length got) (active b)) (active b)),
          ) in
        ap (λ c. read_body lib c b) e
        ∙ read_more lib r h cap big u calls got b k.valid
            (omega (arith, k.small, ap length k.bytes)) l s
        ∙ ap₂ (λ t n. some (reading_at lib cap u r (got ++ t) calls, read_completed b n)) t n

    reads_last :
        (xs ys : Bytes)
        → got ++ xs ≡ r.body
        → Holds b (xs ++ ys)
        → read_body lib c b
          ≡ some (
            idle_at lib cap (parsed lib u r).url (calls ++ (handled (asks r) ∷ [])),
            read_completed b (length xs),
          )
    reads_last xs ys m k =
        let n : taken (length r.body - length got) (active b) ≡ length xs =
          ground
            (arith, ap length k.bytes, ap length m, length-append got xs, length-append xs ys) in
        let t : take (taken (length r.body - length got) (active b)) (active b) ≡ xs =
          ap₂ take n k.bytes ∙ take-append_left xs ys in
        ap (λ c. read_body lib c b) e
        ∙ read_last lib r h cap big u calls got b k.valid
            (omega (arith, k.small, ap length k.bytes)) l (ap (λ t. got ++ t) t ∙ m)
        ∙ ap
            (λ n. some (
              idle_at lib cap (parsed lib u r).url (calls ++ (handled (asks r) ∷ [])),
              read_completed b n,
            ))
            n

  -- One call more, in front of the others
  one_more :
      (calls : List Call) (r : Sent) (done : List Sent)
      → (calls ++ (handled (asks r) ∷ [])) ++ answers done ≡ calls ++ answers (r ∷ done)
  one_more calls r done = append_assoc calls (handled (asks r) ∷ []) (answers done)

  body_part :
      (r : Sent) (got bs : Bytes) (done : List Sent) (q : Phase) (c : HttpConnect lib)
      (b : MessageBuffer) (calls : List Call)
      → Piece lib (reading r got) bs done q
      → At lib c (reading r got) calls
      → Holds b bs
      → AfterBody c b bs calls done q
  body_part r got bs done q c b calls (stop p) (cap, u, big, h, l, e) k = record {
    conn = reading_at lib cap u r (got ++ []) calls;
    buffer = read_completed b 0;
    phase = reading r got;
    rest = [];
    calls_now = calls;
    to_do = [];
    runs = reads_on r got b calls c cap u big h l e [] (omega arith) k;
    left_over = stop (reading r got);
    at = (cap, u, big, h, l, ap (λ t. reading_at lib cap u r t calls) (append-nil got));
    holds = Holds-read b [] [] 0 k refl;
    accounts = refl;
    progress = inl refl;
  }
  body_part r got bs done q c b calls (part _ _ xs p m) (cap, u, big, h, l, e) k = record {
    conn = reading_at lib cap u r (got ++ bs) calls;
    buffer = read_completed b (length bs);
    phase = reading r (got ++ bs);
    rest = [];
    calls_now = calls;
    to_do = [];
    runs = reads_on r got b calls c cap u big h l e bs m k;
    left_over = stop (reading r (got ++ bs));
    at = (cap, u, big, h, omega (arith, length-append got bs), refl);
    holds = Holds-read b bs [] (length bs) (subst (Holds b) (sym (append-nil bs)) k) refl;
    accounts = refl;
    progress = inl refl;
  }
  body_part r got bs done q c b calls (finish _ _ xs ys todo _ p m d) (cap, u, big, h, l, e) k =
      record {
        conn = idle_at lib cap (parsed lib u r).url (calls ++ (handled (asks r) ∷ []));
        buffer = read_completed b (length xs);
        phase = idle;
        rest = ys;
        calls_now = calls ++ (handled (asks r) ∷ []);
        to_do = todo;
        runs = reads_last r got b calls c cap u big h l e xs ys m k;
        left_over = d;
        at = (cap, (parsed lib u r).url, big, refl);
        holds = Holds-read b xs ys (length xs) k refl;
        accounts = one_more calls r todo;
        progress = inr (omega (arith, length-append xs ys));
      }

  pub loop_step :
      (fuel : ℕ) (c c₁ c₂ : HttpConnect lib) (b b₁ b₂ : MessageBuffer) (r : Ending lib)
      → 0 < active_size b
      → read_head lib c b ≡ some (goes_on c₁ b₁)
      → read_body lib c₁ b₁ ≡ some (c₂, b₂)
      → on_msgbuffer lib fuel c₂ b₂ ≡ r
      → on_msgbuffer lib (suc fuel) c b ≡ r
  unfolding on_msgbuffer
  loop_step fuel c c₁ c₂ b b₁ b₂ r p h k t = rw (on_msgbuffer, lt→ltb 0 (active_size b) p, h, k) t

  pub loop_stop :
      (fuel : ℕ) (c : HttpConnect lib) (b : MessageBuffer)
      → active_size b ≡ 0
      → on_msgbuffer lib (suc fuel) c b ≡ ended c b
  unfolding on_msgbuffer
  loop_stop fuel c b h = rw (on_msgbuffer, h) refl

  -- How a call of `on_msgbuffer` ends.
  abbrev pub Ends : ℕ → HttpConnect lib → MessageBuffer → Phase → List Call → Type 0
  Ends fuel c b q calls =
      (c' : HttpConnect lib) × (b' : MessageBuffer) × (on_msgbuffer lib fuel c b ≡ ended c' b')
      × At lib c' q calls

  reading_goes_on :
      (c : HttpConnect lib) (b : MessageBuffer) (r : Sent) (got : Bytes) (calls : List Call)
      → At lib c (reading r got) calls
      → read_head lib c b ≡ some (goes_on c b)
  unfolding read_head
  reading_goes_on c b r got calls (cap, u, big, h, l, e) = rw e refl

  active_pos : (b : MessageBuffer) (bs : Bytes) → Holds b bs → 0 < length bs → 0 < active_size b
  active_pos b bs k p = omega (arith, active_size_lem k.valid, ap length k.bytes)

  -- A round, and what the loop does behind it
  round_then :
      (fuel : ℕ) (c c₁ : HttpConnect lib) (b b₁ : MessageBuffer) (bs : Bytes) (calls : List Call)
      (done : List Sent) (q : Phase) (s : AfterBody c₁ b₁ bs calls done q)
      → 0 < active_size b
      → read_head lib c b ≡ some (goes_on c₁ b₁)
      → Ends fuel s.conn s.buffer q (s.calls_now ++ answers s.to_do)
      → Ends (suc fuel) c b q (calls ++ answers done)
  round_then fuel c c₁ b b₁ bs calls done q s p e (c', b', r, a) = (
    c',
    b',
    loop_step fuel c c₁ s.conn b b₁ s.buffer _ p e s.runs r,
    subst (At lib c' q) s.accounts a,
  )

  shorter :
      (c : HttpConnect lib) (b : MessageBuffer) (bs : Bytes) (calls : List Call) (done : List Sent)
      (q : Phase) (s : AfterBody c b bs calls done q) (n : ℕ)
      → length bs < n
      → length s.rest < n
  shorter c b bs calls done q s n l = elim s.progress [
    | inl e ↦ omega (arith, ap length e)
    | inr k ↦ omega (arith, k)
  ]

  shorter_some :
      (c : HttpConnect lib) (b : MessageBuffer) (bs : Bytes) (calls : List Call) (done : List Sent)
      (q : Phase) (s : AfterBody c b bs calls done q) (n : ℕ)
      → 0 < length bs
      → length bs < suc n
      → length s.rest < n
  shorter_some c b bs calls done q s n p l = elim s.progress [
    | inl e ↦ omega (arith, ap length e)
    | inr k ↦ omega (arith, k)
  ]

  pub on_piece :
      (fuel : ℕ) (p : Phase) (bs : Bytes) (done : List Sent) (q : Phase) (c : HttpConnect lib)
      (b : MessageBuffer) (calls : List Call)
      → Piece lib p bs done q
      → At lib c p calls
      → Holds b bs
      → length bs < fuel
      → Ends fuel c b q (calls ++ answers done)
  on_piece zero p bs done q c b calls d a k f = absurd (omega arith)
  on_piece (suc fuel) p bs done q c b calls (stop _) a k f = (
    c,
    b,
    loop_stop fuel c b (omega (arith, active_size_lem k.valid, ap length k.bytes)),
    subst (At lib c p) (sym (append-nil calls)) a,
  )
  on_piece (suc fuel) p bs done q c b calls (bare r ys todo _ h n d) (cap, u, big, e) k f =
      let z = length-append r.head ys in
      let m = h.at_end in
      let hd : read_head lib c b
          ≡ some (goes_on (reading_at lib cap u r [] calls) (read_completed b (length r.head))) =
        ap (λ c. read_head lib c b) e
        ∙ read_head_lem lib r h cap big u calls b k.valid ys k.string k.bytes k.zero_behind in
      let (c', b', r', a) =
        on_piece fuel idle ys todo q
          (idle_at lib cap (parsed lib u r).url (calls ++ (handled (asks r) ∷ [])))
          (read_completed b (length r.head)) (calls ++ (handled (asks r) ∷ [])) d
          (cap, (parsed lib u r).url, big, refl) (Holds-read b r.head ys (length r.head) k refl)
          (omega arith) in
      (
        c',
        b',
        loop_step fuel c _ _ b _ _ _ (active_pos b (r.head ++ ys) k (omega arith)) hd
            (read_no_body lib r h cap big u calls (read_completed b (length r.head)) n) r',
        subst (At lib c' q) (one_more calls r todo) a,
      )
  on_piece (suc fuel) p bs done q c b calls (begin r ys _ _ h n d) (cap, u, big, e) k f =
      let z = length-append r.head ys in
      let m = h.at_end in
      let c₁ = reading_at lib cap u r [] calls in
      let b₁ = read_completed b (length r.head) in
      let hd : read_head lib c b ≡ some (goes_on c₁ b₁) =
        ap (λ c. read_head lib c b) e
        ∙ read_head_lem lib r h cap big u calls b k.valid ys k.string k.bytes k.zero_behind in
      let at_body : c₁ ≡ reading_at lib cap u r [] calls = refl in
      let s =
        body_part r [] ys done q c₁ b₁ calls d (cap, u, big, h, n, at_body)
          (Holds-read b r.head ys (length r.head) k refl) in
      round_then fuel c c₁ b b₁ ys calls done q s (active_pos b (r.head ++ ys) k (omega arith)) hd (
        on_piece fuel s.phase s.rest s.to_do q s.conn s.buffer s.calls_now s.left_over s.at s.holds
          (shorter c₁ b₁ ys calls done q s fuel (omega arith)))
  on_piece (suc fuel) p bs done q c b calls (part r got _ n m) a k f =
      let s = body_part r got bs [] q c b calls (part r got bs n m) a k in
      round_then fuel c c b b bs calls [] q s (active_pos b bs k n)
        (reading_goes_on c b r got calls a)
        (on_piece fuel s.phase s.rest s.to_do q s.conn s.buffer s.calls_now s.left_over s.at s.holds
          (shorter_some c b bs calls [] q s fuel n f))
  on_piece (suc fuel) p bs done q c b calls (finish r got xs ys todo _ n m d) a k f =
      let any : 0 < length (xs ++ ys) = omega (arith, length-append xs ys) in
      let s =
        body_part r got (xs ++ ys) (r ∷ todo) q c b calls (finish r got xs ys todo q n m d) a k in
      round_then fuel c c b b (xs ++ ys) calls (r ∷ todo) q s (active_pos b (xs ++ ys) k any)
        (reading_goes_on c b r got calls a)
        (on_piece fuel s.phase s.rest s.to_do q s.conn s.buffer s.calls_now s.left_over s.at s.holds
          (shorter_some c b (xs ++ ys) calls (r ∷ todo) q s fuel any f))
