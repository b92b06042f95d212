-- ===== src/HttpConnect/Round.antt =====
-- The two parts of a round of `HttpConnect::on_msgbuffer`.
use lua_server.Common.{
  ℕ, zero, suc, ◌+◌, ◌-◌, ◌^◌, ◌≤◌, ◌<◌, ◌≡◌, refl, ap, ap₂, sym, ◌∙◌, subst, true, false, none,
  some, List, [], ◌∷◌, ◌++◌, leb, ◌==◌, if◌then◌else◌, ◌>>=◌, length, take, drop, arith,
  length-append, append-nil, append_assoc, le→leb, dec_lt, length-drop, ℕ_discrete, ==_iff,
}
use lua_server.Common.Bytes.{
  Bytes, take_all, drop_all, take-append_left, drop-append_le, drop-append_left,
}
use lua_server.Common.Taken.{taken, taken_bounds, length-taken}
use lua_server.ByteBuffer.{append, slice}
use lua_server.MessageBuffer.{MessageBuffer, active_size, peek, read_completed}
use lua_server.MessageBuffer.Laws.{IsValid, active, active_size_lem, peek_lem}
use lua_server.NetPacket.{is_positive, to_int32, int32_to_size, base_zero}
use lua_server.HttpConnect.{
  HttpLib, HttpConnect, ParseUrl, Call, handled, goes_on, http_post, http_get, c_string, find_end,
  parser_zero, append_packet, zero_connect, request_of, complete, whole_head, read_head, take_body,
  read_body, get_path, get_param, have_param, run_parser, look, take_rlen, end_body, body_len,
}
use lua_server.HttpConnect.Scan.{c_string-append, c_string_behind, find_end-append, view_lem}
use lua_server.HttpConnect.Requests.{Sent, IsSent, packet, asks, parsed, idle_at, reading_at}

take-append_le : (n : ℕ) (xs ys : Bytes) → n ≤ length xs → take n (xs ++ ys) ≡ take n xs
take-append_le zero xs ys h = refl
take-append_le (suc n) [] ys h = absurd (omega arith)
take-append_le (suc n) (x ∷ xs) ys h = ap (◌∷◌ x) (take-append_le n xs ys (omega arith))

-- Reading a packet's first bytes takes no notice of what follows.
slice-append :
    (xs ys : Bytes) (pos len : ℕ) (s : Bytes)
    → slice (packet xs) pos len ≡ some s
    → slice (packet (xs ++ ys)) pos len ≡ some s
unfolding slice
slice-append xs ys pos len s h = elim (dec_lt (length xs) (pos + len)) [
  | yes l ↦ let e : leb (pos + len) (length xs) ≡ false = ground arith in absurd (cc (e, h))
  | no l ↦
      let e = le→leb (pos + len) (length xs) (omega arith) in
      rw
        (
          le→leb (pos + len) (length (xs ++ ys)) (omega (arith, length-append xs ys)),
          drop-append_le pos xs ys (omega arith),
          take-append_le len (drop pos xs) ys (omega (arith, length-drop pos xs)),
        )
        (subst (λ t. (if t then some (take len (drop pos xs)) else none) ≡ some s) e h)
]

pub append-packet : (bs xs : Bytes) → append (packet bs) xs ≡ some (packet (bs ++ xs))
unfolding append
append-packet bs xs =
    rw
      (
        le→leb (length bs) (length bs) (omega arith),
        take_all,
        drop_all,
        append-nil,
        ← length-append bs xs,
      )
      refl

module _ (lib : HttpLib) where
  append_packet_lem :
      (c : HttpConnect lib) (bs xs : Bytes)
      → c.read_packet ≡ packet bs
      → length bs + length xs ≤ c.capacity
      → append_packet lib c xs ≡ some (record c { read_packet = packet (bs ++ xs) })
  unfolding append_packet
  append_packet_lem c bs xs e l =
      rw (e, append-packet bs xs, le→leb (length bs + length xs) c.capacity l) refl

module _ (lib : HttpLib) (r : Sent) (h : IsSent lib r) (cap : ℕ) (big : 4096 ≤ cap) (u : ParseUrl)
    (calls : List Call) where
  residue_lem :
      (if r.method == http_post then to_int32 (lib.content_length (parsed lib u r).state) else 0)
      ≡ length r.body
  residue_lem = elim (ℕ_discrete r.method http_post) [
    | yes e ↦
        let k = h.has_length u e in
        let m : (r.method == http_post) ≡ true = (==_iff r.method http_post).1 e in
        rw (m, k) (omega (arith, h.fits))
    | no ne ↦
        let m : (r.method == http_post) ≡ false = ground (arith, ne) in
        let k : length r.body ≡ 0 = ap length (h.no_body ne) in rw m (sym k)
  ]

  run_parser_lem :
      (b : MessageBuffer)
      → run_parser lib (record (idle_at lib cap u calls) { read_packet = packet r.head }) b
        ≡ goes_on (reading_at lib cap u r [] calls) b
  unfolding run_parser
  run_parser_lem b =
      let k : (if lib.method (parsed lib u r).state == http_post
            then to_int32 (lib.content_length (parsed lib u r).state)
            else 0)
          ≡ length r.body - 0 =
        rw (h.has_method u) (residue_lem ∙ omega arith) in
      rw (take_all r.head, h.accepted u, k, append-nil) refl

  module _ (b : MessageBuffer) (v : IsValid b) (rest s : Bytes) (e : active b ≡ r.head ++ rest)
      (z : c_string (drop b.wpos b.storage) ≡ some s) where
    sees_end : (t : Bytes) × (c_string (drop b.rpos b.storage) ≡ some t) × (find_end t ≡ some h.at)
    sees_end =
        let (t, f) = c_string-append rest (drop b.wpos b.storage) s z in
        (
          r.head ++ t,
          ap c_string (
                view_lem b s v z
                ∙ ap (λ k. k ++ drop b.wpos b.storage) e
                ∙ append_assoc r.head rest (drop b.wpos b.storage))
              ∙ c_string_behind r.head (rest ++ drop b.wpos b.storage) t h.no_zero f,
          find_end-append r.head t h.at h.found,
        )

    peek_head : peek b (h.at + 4) ≡ some r.head
    peek_head =
        peek_lem (h.at + 4) v (omega (arith, ap length e, length-append r.head rest, h.at_end))
        ∙ ap some (ap₂ take h.at_end e ∙ take-append_left r.head rest)

    whole_head_lem :
        whole_head lib (idle_at lib cap u calls) b h.at
        ≡ some (goes_on (reading_at lib cap u r [] calls) (read_completed b (length r.head)))
    unfolding whole_head
    whole_head_lem =
        rw
          (
            peek_head,
            append_packet_lem lib (idle_at lib cap u calls) [] r.head refl (omega (arith, h.fits)),
            run_parser_lem,
            h.at_end,
          )
          refl

    pub read_head_lem :
        read_head lib (idle_at lib cap u calls) b
        ≡ some (goes_on (reading_at lib cap u r [] calls) (read_completed b (length r.head)))
    unfolding read_head
    read_head_lem =
        let (t, f, g) = sees_end in
        ap (λ o. o >>= look lib (idle_at lib cap u calls) b) f
        ∙ (unfold look in rw (look, g) whole_head_lem)

  path : get_path (parsed lib u r).url (packet (r.head ++ r.body)) ≡ some r.path
  unfolding get_path
  path = slice-append r.head r.body _ _ r.path (h.has_path u)

  content :
      r.method ≡ http_post
      → slice
          (packet (r.head ++ r.body))
          (length r.head)
          (int32_to_size (to_int32 (lib.content_length (parsed lib u r).state)))
        ≡ some r.body
  unfolding slice
  content e =
      let k : int32_to_size (to_int32 (length r.body)) ≡ length r.body = ground (arith, h.fits) in
      let l = length-append r.head r.body in
      rw
        (
          h.has_length u e,
          k,
          le→leb (length r.head + length r.body) (length (r.head ++ r.body)) (omega (arith, l)),
          drop-append_left r.head r.body,
          take_all r.body,
        )
        refl

  query :
      (if have_param (parsed lib u r).url
        then get_param (parsed lib u r).url (packet (r.head ++ r.body))
        else some [])
      ≡ some r.query
  unfolding get_param
  query =
      elim (have_param (parsed lib u r).url)
          as (λ t.
            (if t then get_param (parsed lib u r).url (packet r.head) else some []) ≡ some r.query
            → (if t then get_param (parsed lib u r).url (packet (r.head ++ r.body)) else some [])
              ≡ some r.query) [ true ↦ slice-append r.head r.body _ _ r.query | false ↦ λ k. k ]
        (h.has_query u)

  -- What a request of which a packet holds everything asks for.
  request_of_lem :
      request_of lib (parsed lib u r) (packet (r.head ++ r.body)) (length r.head) ≡ some (asks r)
  unfolding request_of get_path get_param
  request_of_lem = elim (ℕ_discrete r.method http_post) [
    | yes e ↦
        let m : (r.method == http_post) ≡ true = (==_iff r.method http_post).1 e in
        rw (path, h.has_method u, m, content e) refl
    | no ne ↦
        let m : (r.method == http_post) ≡ false = ground (arith, ne) in
        elim (ℕ_discrete r.method http_get) [
          | yes e ↦
              let k : (r.method == http_get) ≡ true = (==_iff r.method http_get).1 e in
              rw (path, h.has_method u, m, k, query) refl
          | no nk ↦
              let k : (r.method == http_get) ≡ false = ground (arith, nk) in
              rw (path, h.has_method u, m, k) refl
        ]
  ]

  abbrev done : List Call
  done = calls ++ (handled (asks r) ∷ [])

  complete_lem :
      (c : HttpConnect lib)
      → c ≡ reading_at lib cap u r r.body calls
      → complete lib c (length r.head) ≡ some (record c { calls = done })
  unfolding complete
  complete_lem c e = rw e (rw request_of_lem refl)

  zeroed :
      zero_connect lib (record (reading_at lib cap u r r.body calls) { calls = done })
      ≡ idle_at lib cap (parsed lib u r).url done
  unfolding zero_connect base_zero parser_zero
  zeroed = let z : 0 - length (r.head ++ r.body) ≡ 0 = omega arith in rw z refl

  -- A body that is complete is handed on, and the connection is as fresh.
  last_of_body :
      (c : HttpConnect lib) (b : MessageBuffer)
      → c ≡ reading_at lib cap u r r.body calls
      → end_body lib (length r.head) (c, b) ≡ some (idle_at lib cap (parsed lib u r).url done, b)
  unfolding end_body
  last_of_body c b e =
      let z : (length r.body - length r.body == 0) ≡ true = (==_iff _ 0).1 (omega arith) in
      rw (e, z, complete_lem (reading_at lib cap u r r.body calls) refl)
        (ap (λ c. some (c, b)) zeroed)

  pub read_no_body :
      (b : MessageBuffer)
      → r.body ≡ []
      → read_body lib (reading_at lib cap u r [] calls) b
        ≡ some (idle_at lib cap (parsed lib u r).url done, b)
  unfolding read_body take_body
  read_no_body b e =
      let z : is_positive (length r.body - 0) ≡ false = ground (arith, ap length e) in
      rw z (last_of_body _ b (ap (λ t. reading_at lib cap u r t calls) (sym e)))

  module _ (got : Bytes) (b : MessageBuffer) (v : IsValid b) (small : length (active b) < 2 ^ 31)
      (more : length got < length r.body) where
    abbrev now : ℕ
    now = taken (length r.body - length got) (active b)

    abbrev have : Bytes
    have = got ++ take now (active b)

    take_rlen_lem :
        (n : ℕ)
        → n ≡ now
        → take_rlen lib (reading_at lib cap u r got calls) b n
          ≡ some (reading_at lib cap u r (got ++ take n (active b)) calls, read_completed b n)
    unfolding take_rlen
    take_rlen_lem n e =
        let (lo, hi) = taken_bounds (length r.body - length got) (active b) in
        let k : int32_to_size n ≡ n = ground (arith, h.fits) in
        let l = length-taken (length r.body - length got) (active b) in
        let t : length (take n (active b)) ≡ n = rw e l in
        let m : to_int32 (length r.body - length got + 2 ^ 32 - n)
            ≡ length r.body - length (got ++ take n (active b)) =
          omega (arith, h.fits, t, length-append got (take n (active b))) in
        rw
          (
            k,
            peek_lem n v (omega arith),
            append_packet_lem lib (reading_at lib cap u r got calls) (r.head ++ got)
                (take n (active b)) refl (omega (arith, h.fits, t, length-append r.head got)),
            m,
            append_assoc,
          )
          refl

    take_body_lem :
        take_body lib (reading_at lib cap u r got calls) b
        ≡ some (reading_at lib cap u r have calls, read_completed b now)
    unfolding take_body
    take_body_lem =
        let positive : is_positive (length r.body - length got) ≡ true = ground (arith, h.fits) in
        let k : body_len (length r.body - length got) (to_int32 (active_size b)) ≡ now =
          ground (arith, active_size_lem v) in
        rw (positive, k) (take_rlen_lem now refl)

    -- The body is not complete,
    pub read_more :
        length have < length r.body
        → read_body lib (reading_at lib cap u r got calls) b
          ≡ some (reading_at lib cap u r have calls, read_completed b now)
    unfolding read_body end_body
    read_more l =
        let z : (length r.body - length have == 0) ≡ false = ground arith in
        rw (take_body_lem, z) refl

    -- or it is.
    pub read_last :
        have ≡ r.body
        → read_body lib (reading_at lib cap u r got calls) b
          ≡ some (idle_at lib cap (parsed lib u r).url done, read_completed b now)
    unfolding read_body
    read_last e =
        rw take_body_lem
          (last_of_body _ (read_completed b now) (ap (λ t. reading_at lib cap u r t calls) e))
