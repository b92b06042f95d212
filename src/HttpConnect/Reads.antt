-- ===== src/HttpConnect/Reads.antt =====
-- Calls of `HttpConnect::on_msgbuffer`, one for each piece that is read from the socket.
use lua_server.Common.{
  ℕ, zero, suc, ◌+◌, ◌<◌, ◌≡◌, refl, ap, sym, ◌∙◌, subst, true, false, Option, none, some, List, [],
  ◌∷◌, ◌++◌, map, leb, length, drop, arith, length-append, append-nil, append_assoc, dec_lt,
  eq_nil_of_length, length-drop,
}
use lua_server.Common.Bytes.{Bytes, All, take_all}
use lua_server.MessageBuffer.{MessageBuffer, active_size, read_completed}
use lua_server.MessageBuffer.Laws.{
  IsValid, active, active_size_lem, peek_lem, read_completed-IsValid, active-read_completed,
}
use lua_server.NetConnect.Receive.{concat}
use lua_server.HttpConnect.{
  HttpLib, HttpConnect, Call, goes_on, ended, fault, unfinished, left, c_string, find_end, look,
  part_of_head, append_packet, read_head, read_body, on_msgbuffer,
}
use lua_server.HttpConnect.Requests.{Sent, Phase, Piece, At, packet}
use lua_server.HttpConnect.Round.{append-packet}
use lua_server.HttpConnect.Deliver.{Holds, answers, on_piece, loop_step, loop_stop}
use mathlib.Core.List.{map-append}

module _ (lib : HttpLib) where
  unfoldable pub on_reads : HttpConnect lib → List MessageBuffer → Option (HttpConnect lib)
  on_reads c [] = some c
  on_reads c (b ∷ bs) = elim (on_msgbuffer lib (suc (active_size b)) c b) [
    | ended c' b' ↦ on_reads c' bs
    | left c' ↦ none
    | fault ↦ none
    | unfinished ↦ none
  ]

  -- Buffers that hold the pieces of one stream
  pub data Pieces : Phase → List MessageBuffer → List Sent → Phase → Type 0 where
    no_more : (p : Phase) → Pieces p [] [] p
    next :
        (p q s : Phase) (b : MessageBuffer) (bufs : List MessageBuffer) (bs : Bytes)
        (done more : List Sent)
        → Piece lib p bs done q
        → Holds b bs
        → Pieces q bufs more s
        → Pieces p (b ∷ bufs) (done ++ more) s

  on_reads_step :
      (c c' : HttpConnect lib) (b b' : MessageBuffer) (bufs : List MessageBuffer)
      → on_msgbuffer lib (suc (active_size b)) c b ≡ ended c' b'
      → on_reads c (b ∷ bufs) ≡ on_reads c' bufs
  unfolding on_reads
  on_reads_step c c' b b' bufs r = rw (on_reads, r) refl

  -- Requests come in as a stream cut in pieces, in any way that keeps each head in one piece; a
  -- body may be cut anywhere. The heads hold no 0, a request is at most 4096 bytes long, llhttp
  -- accepts each head and says of it what the request means, and behind each piece there is a 0 in
  -- the receive buffer. Then every call of `on_msgbuffer` ends without a fault after at most one
  -- round more than it has bytes, and the event object is called once for each complete request, in
  -- order and with its path and its query or body; the connection then waits for the next request,
  -- or for the rest of the body it is at.
  pub on_reads_lem :
      (p q : Phase) (bufs : List MessageBuffer) (done : List Sent) (c : HttpConnect lib)
      (calls : List Call)
      → Pieces p bufs done q
      → At lib c p calls
      → (c' : HttpConnect lib) × (on_reads c bufs ≡ some c') × At lib c' q (calls ++ answers done)
  on_reads_lem p q bufs done c calls (no_more _) a =
      (c, unfold on_reads in refl, subst (At lib c p) (sym (append-nil calls)) a)
  on_reads_lem p q bufs done c calls (next _ r _ b rest bs now more d k ds) a =
      let (c₁, b₁, e, a₁) =
        on_piece lib (suc (active_size b)) p bs now r c b calls d a k
          (omega (arith, active_size_lem k.valid, ap length k.bytes)) in
      let (c₂, f, a₂) = on_reads_lem r q rest more c₁ (calls ++ answers now) ds a₁ in
      (
        c₂,
        on_reads_step c c₁ b b₁ rest e ∙ f,
        subst (At lib c₂ q)
            (append_assoc calls (answers now) (answers more)
              ∙ ap (λ t. calls ++ t) (sym (map-append _ now more)))
            a₂,
      )

-- A buffer in whose view no head ends
pub record Quiet (b : MessageBuffer) : Type 0 where
  pub valid : IsValid b
  pub view : Bytes
  pub sees : c_string (drop b.rpos b.storage) ≡ some view
  pub no_end : find_end view ≡ none

module _ (lib : HttpLib) where
  -- The connection waits for the rest of a head, and has these bytes of it.
  abbrev pub WaitsWith : HttpConnect lib → Bytes → List Call → Type 0
  WaitsWith c bs calls = (c.content ≡ none) × (c.read_packet ≡ packet bs) × (c.calls ≡ calls)

  append_waits :
      (c : HttpConnect lib) (bs xs : Bytes) (calls : List Call)
      → WaitsWith c bs calls
      → (c' : HttpConnect lib) × (append_packet lib c xs ≡ some c') × WaitsWith c' (bs ++ xs) calls
  unfolding append_packet
  append_waits c bs xs calls (e, k, l) =
      elim (leb (length bs + length xs) c.capacity)
          as (λ t.
            leb (length bs + length xs) c.capacity ≡ t
            → (c' : HttpConnect lib) × (append_packet lib c xs ≡ some c')
              × WaitsWith c' (bs ++ xs) calls) [
                | true ↦ λ f. (
                  record c { read_packet = packet (bs ++ xs) },
                  rw (k, append-packet bs xs, f) refl,
                  (e, refl, l),
                )
                | false ↦ λ f. (
                  record c {
                    read_packet = packet (bs ++ xs);
                    moved = true;
                    capacity = lib.grow c.capacity (length bs + length xs);
                  },
                  rw (k, append-packet bs xs, f) refl,
                  (e, refl, l),
                )
              ]
        refl

  part_of_head_lem :
      (c : HttpConnect lib) (b : MessageBuffer) (bs : Bytes) (calls : List Call)
      → WaitsWith c bs calls
      → IsValid b
      → length bs + length (active b) < 0xffff
      → (c' : HttpConnect lib) × (part_of_head lib c b
          ≡ some (goes_on c' (read_completed b (length (active b)))))
        × WaitsWith c' (bs ++ active b) calls
  unfolding part_of_head
  part_of_head_lem c b bs calls w v small =
      let (c', e, (k, l, m)) = append_waits c bs (active b) calls w in
      let f : leb 0xffff c'.read_packet.wpos ≡ false =
        ground (arith, ap (λ q. q.wpos) l, length-append bs (active b)) in
      (
        c',
        rw
            (
              active_size_lem v,
              peek_lem (length (active b)) v (omega arith),
              take_all (active b),
              e,
              f,
            )
            refl,
        (k, l, m),
      )

  head_waits :
      (c : HttpConnect lib) (b : MessageBuffer) (q : Quiet b)
      → c.content ≡ none
      → read_head lib c b ≡ part_of_head lib c b
  unfolding read_head look
  head_waits c b q e = rw (e, q.sees) (rw (look, q.no_end) refl)

  stops :
      (n : ℕ) (c : HttpConnect lib) (b : MessageBuffer)
      → 0 < n
      → active_size b ≡ 0
      → on_msgbuffer lib n c b ≡ ended c b
  stops zero c b p z = absurd (omega arith)
  stops (suc n) c b p z = loop_stop lib n c b z

  one_read :
      (c : HttpConnect lib) (b : MessageBuffer) (bs : Bytes) (calls : List Call)
      → WaitsWith c bs calls
      → Quiet b
      → length bs + length (active b) < 0xffff
      → (c' : HttpConnect lib) × (b' : MessageBuffer) × (on_msgbuffer lib (suc (active_size b)) c b
          ≡ ended c' b')
        × WaitsWith c' (bs ++ active b) calls
  unfolding read_body
  one_read c b bs calls w q small = elim (dec_lt 0 (length (active b))) [
    | no idle ↦
        let none_there : active b ≡ [] = eq_nil_of_length (active b) (omega arith) in
        (
          c,
          b,
          loop_stop lib (active_size b) c b (omega (arith, active_size_lem q.valid)),
          subst (λ t. WaitsWith c t calls)
              (sym (append-nil bs) ∙ ap (λ t. bs ++ t) (sym none_there)) w,
        )
    | yes any ↦
        let n = length (active b) in
        let (c', e, (k, l, m)) = part_of_head_lem c b bs calls w q.valid small in
        let b' = read_completed b n in
        let v' = read_completed-IsValid n q.valid (omega arith) in
        let z : active_size b' ≡ 0 = omega (
          arith,
          active_size_lem v',
          ap length (active-read_completed n q.valid (omega arith)),
          length-drop n (active b),
        ) in
        let body : read_body lib c' b' ≡ some (c', b') = rw (read_body, k) refl in
        (
          c',
          b',
          loop_step lib (active_size b) c c' c' b b' b' _ (omega (arith, active_size_lem q.valid))
              (head_waits c b q w.0 ∙ e) body
              (stops (active_size b) c' b' (omega (arith, active_size_lem q.valid)) z),
          (k, l, m),
        )
  ]

  -- While the view that is taken of each piece holds no end of a head, and less than 0xffff bytes
  -- have come in, nothing is answered: an end that is cut between two pieces is never found.
  pub on_reads_waits :
      (bufs : List MessageBuffer) (c : HttpConnect lib) (bs : Bytes) (calls : List Call)
      → WaitsWith c bs calls
      → All Quiet bufs
      → length bs + length (concat (map active bufs)) < 0xffff
      → (c' : HttpConnect lib) × (on_reads lib c bufs ≡ some c')
        × WaitsWith c' (bs ++ concat (map active bufs)) calls
  unfolding concat
  on_reads_waits [] c bs calls w q small =
      (c, unfold on_reads in refl, subst (λ t. WaitsWith c t calls) (sym (append-nil bs)) w)
  on_reads_waits (b ∷ bufs) c bs calls w q small =
      let l = length-append (active b) (concat (map active bufs)) in
      let (c₁, b₁, e, w₁) = one_read c b bs calls w q.0 (omega arith) in
      let (c₂, f, w₂) =
        on_reads_waits bufs c₁ (bs ++ active b) calls w₁ q.1
          (omega (arith, length-append bs (active b))) in
      (
        c₂,
        on_reads_step lib c c₁ b b₁ bufs e ∙ f,
        subst (λ t. WaitsWith c₂ t calls) (append_assoc bs (active b) (concat (map active bufs)))
            w₂,
      )
