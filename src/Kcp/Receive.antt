-- ===== src/Kcp/Receive.antt =====
-- What an update of a session does, if ikcp keeps what it documents.
use lua_server.Common.{
  ℕ, ◌+◌, ◌-◌, ◌^◌, ◌≤◌, ◌<◌, ◌≡◌, ◌≢◌, refl, ap, ◌∙◌, Bool, true, false, Option, none, some, leb,
  ltb, length, take, drop, replicate, arith, le→leb, length-append, length-drop, length-take,
  length-replicate, dec_lt, lt→ltb,
}
use lua_server.Common.Bytes.{Bytes, bytes_word, overwrite}
use lua_server.ByteBuffer.{ByteBuffer, put, read_word_at, slice}
use lua_server.NetPacket.{is_positive, base_zero}
use lua_server.UdpPacket.{new_udp, zero_udp, init_size, udp_type}
use lua_server.Kcp.{
  KcpLib, KcpSession, receive, update_base, update_kcp, update_session, checked, update_with,
  is_late,
}

-- A conversation keeps its number, `ikcp_recv` writes at most as much as there is room for, and
-- `ikcp_input` rejects what is shorter than the 24 bytes of a segment's head.
pub record IsKcp (lib : KcpLib) : Type 0 where
  pub conv_create : (id : ℕ) → id < 2 ^ 32 → lib.conv (lib.create id) ≡ id
  pub conv_input : (k : lib.Kcp) (bs : Bytes) → lib.conv (lib.input k bs).0 ≡ lib.conv k
  pub conv_update : (k : lib.Kcp) (t : ℕ) → lib.conv (lib.update k t) ≡ lib.conv k
  pub conv_recv : (k : lib.Kcp) (n : ℕ) → lib.conv (lib.recv k n).0 ≡ lib.conv k
  pub recv_fits : (k : lib.Kcp) (n : ℕ) → length (lib.recv k n).1.1 ≤ n
  pub short_input : (k : lib.Kcp) (bs : Bytes) → length bs < 24 → (lib.input k bs).1 ≢ 0

-- A packet that is handed on has its type.
abbrev pub HasType : Option ByteBuffer → Type 0
HasType none = Unit
HasType (some p) = (kind : ℕ) × (udp_type p ≡ some kind)

length-init_size :
    (n : ℕ)
    → 0 < n
    → (4 ≤ length (init_size n new_udp).storage) × (n ≤ length (init_size n new_udp).storage)
unfolding init_size new_udp zero_udp base_zero
length-init_size n p =
    let zeros : Bytes = replicate 4 0 in
    let l = length-append (take n zeros) (replicate (n - 4) 0) in
    elim (dec_lt 4 n) [
      | yes h ↦ rw (lt→ltb 4 n h) (
        omega (arith, l, length-take n zeros, length-replicate {A = ℕ} (n - 4) 0),
        omega (arith, l, length-take n zeros, length-replicate {A = ℕ} (n - 4) 0),
      )
      | no h ↦ let e : ltb 4 n ≡ false = ground arith in rw e (omega arith, omega arith)
    ]

udp_type_lem : (p : ByteBuffer) → 4 ≤ length p.storage → HasType (some p)
unfolding udp_type read_word_at slice
udp_type_lem p h = (bytes_word (take 4 p.storage), rw (le→leb 4 (length p.storage) h) refl)

put_lem :
    (p : ByteBuffer) (bs : Bytes)
    → length bs ≤ length p.storage
    → (q : ByteBuffer) × (put p 0 bs ≡ some q) × (length q.storage ≡ length p.storage)
unfolding put
put_lem p bs h = (
  record p { storage = overwrite 0 bs p.storage },
  rw (le→leb (0 + length bs) (length p.storage) (omega arith)) refl,
  omega (
    arith,
    h,
    length-append bs (drop (0 + length bs) p.storage),
    length-drop (0 + length bs) p.storage,
  ),
)

module _ (lib : KcpLib) (laws : IsKcp lib) where
  -- The session that an update leaves, beside what it hands on
  pub record Updated (s s' : KcpSession lib) (k : lib.Kcp) : Type 0 where
    pub kcp : lib.Kcp
    pub has_kcp : s'.kcp ≡ some kcp
    pub same_id : lib.conv kcp ≡ lib.conv k
    pub timer : s'.timer_on ≡ s.timer_on

  -- An update never faults, keeps the session's id, and hands on a packet that has its type.
  abbrev Receives : KcpSession lib → lib.Kcp → ℕ → Type 0
  Receives s k clock =
      (s' : KcpSession lib) × (p : Option ByteBuffer) × (receive lib s k clock ≡ some (s', p))
      × (Updated s s' k × HasType p)

  receive_nothing :
      (s : KcpSession lib) (k : lib.Kcp) (clock : ℕ)
      → is_positive (lib.peeksize k) ≡ false
      → Receives s k clock
  unfolding receive
  receive_nothing s k clock e = (
    record s { kcp = some k },
    none,
    rw e refl,
    (record { kcp = k; has_kcp = refl; same_id = refl; timer = refl }, tt),
  )

  receive_some :
      (s : KcpSession lib) (k : lib.Kcp) (clock : ℕ)
      → is_positive (lib.peeksize k) ≡ true
      → Receives s k clock
  unfolding receive
  receive_some s k clock e =
      let size = lib.peeksize k in
      let k' = (lib.recv k size).0 in
      let (four, room) = length-init_size size (ground arith) in
      let (q, f, l) =
        put_lem (init_size size new_udp) (lib.recv k size).1.1
          (omega (arith, laws.recv_fits k size)) in
      elim (is_positive (lib.recv k size).1.0)
          as (λ t. is_positive (lib.recv k size).1.0 ≡ t → Receives s k clock) [
            | true ↦ λ g. (
              record s { kcp = some k'; talk_time = clock },
              some (record q { wpos = size }),
              rw (e, f, g) refl,
              (
                record { kcp = k'; has_kcp = refl; same_id = laws.conv_recv k size; timer = refl },
                udp_type_lem (record q { wpos = size }) (omega (arith, l)),
              ),
            )
            | false ↦ λ g. (
              record s { kcp = some k' },
              none,
              rw (e, f, g) refl,
              (
                record { kcp = k'; has_kcp = refl; same_id = laws.conv_recv k size; timer = refl },
                tt,
              ),
            )
          ]
        refl

  receive_lem : (s : KcpSession lib) (k : lib.Kcp) (clock : ℕ) → Receives s k clock
  receive_lem s k clock =
      elim (is_positive (lib.peeksize k))
          as (λ t. is_positive (lib.peeksize k) ≡ t → Receives s k clock) [
            | false ↦ receive_nothing s k clock
            | true ↦ receive_some s k clock
          ]
        refl

  update_base-update_with :
      (s : KcpSession lib) (k : lib.Kcp) (clock : ℕ)
      → s.kcp ≡ some k
      → update_base lib s clock ≡ update_with lib s k clock
  unfolding update_base
  update_base-update_with s k clock e =
      ap (λ o. elim o [ none ↦ some (s, (none, 0)) | some k ↦ update_with lib s k clock ]) e

  pub update_kcp_lem :
      (s : KcpSession lib) (k : lib.Kcp) (clock : ℕ)
      → s.kcp ≡ some k
      → (s' : KcpSession lib) × (p : Option ByteBuffer) × (update_kcp lib s clock ≡ some (s', p))
        × (Updated s s' k × HasType p)
  unfolding update_kcp update_with
  update_kcp_lem s k clock e =
      let (s', p, r, (u, t)) = receive_lem s (lib.update k clock) clock in
      (
        record s' { update_time = checked lib clock s' },
        p,
        rw (update_base-update_with s k clock e, r) refl,
        (
          record {
            kcp = u.kcp;
            has_kcp = u.has_kcp;
            same_id = u.same_id ∙ laws.conv_update k clock;
            timer = u.timer;
          },
          t,
        ),
      )

  pub update_session_lem :
      (s : KcpSession lib) (k : lib.Kcp) (clock : ℕ)
      → s.kcp ≡ some k
      → (s' : KcpSession lib) × (p : Option ByteBuffer) × (late : Bool) × (update_session lib s
            clock
          ≡ some (s', (p, late)))
        × (Updated s s' k × HasType p)
  unfolding update_session
  update_session_lem s k clock e =
      elim (leb s.update_time clock)
          as (λ t.
            leb s.update_time clock ≡ t
            → (s' : KcpSession lib) × (p : Option ByteBuffer) × (late : Bool) × (update_session lib
                  s clock
                ≡ some (s', (p, late)))
              × (Updated s s' k × HasType p)) [
                | true ↦ λ f.
                    let (s', p, r, u) = update_kcp_lem s k clock e in
                    (s', p, is_late lib s' clock, rw (f, r) refl, u)
                | false ↦ λ f. (
                  s,
                  none,
                  is_late lib s clock,
                  rw f refl,
                  (record { kcp = k; has_kcp = e; same_id = refl; timer = refl }, tt),
                )
              ]
        refl
