-- ===== src/Kcp/Events.antt =====
-- The events of a KCP server keep its invariant, and never fault.
use lua_server.Common.{
  ℕ, suc, ◌+◌, ◌%◌, ◌^◌, ◌≤◌, ◌<◌, ◌≡◌, refl, ap, sym, ◌∙◌, true, false, Option, none, some, List,
  [], ◌∷◌, ◌++◌, ◌==◌, if◌then◌else◌, length, arith,
}
use lua_server.Common.Bytes.{Bytes, overwrite, word_bytes}
use lua_server.ByteBuffer.{ByteBuffer}
use lua_server.Kcp.{
  KcpLib, KcpSession, KcpServer, Call, received, timed_out, closed, replied, accepted,
  setup_session_code, set_at, get_session_id, hand_on, release, erase, close_session, new_session,
  accept, input_session, on_known, is_setup, head_conv, on_message, on_timer, timer_of, close_id,
  on_session, take_input, Event, datagram, tick, close_call, handle,
}
use lua_server.Kcp.Valid.{IsValid, quiet, replace, remove, add, some_eq, set_at_same}
use lua_server.Kcp.Receive.{IsKcp, Updated, HasType, update_kcp_lem, update_session_lem}

module _ (lib : KcpLib) (laws : IsKcp lib) where
  -- A session may be closed by its address while it lives.
  abbrev pub IsAllowed : KcpServer lib → Event → Type 0
  IsAllowed v (datagram bytes clock) = Unit
  IsAllowed v (tick r clock) = Unit
  IsAllowed v (close_call r) = (s : KcpSession lib) × (v.heap r ≡ some s)

  -- An outcome that keeps the invariant.
  abbrev pub Keeps : KcpServer lib → Option (KcpServer lib) → Type 0
  Keeps v o =
      (v' : KcpServer lib) × (o ≡ some v') × (IsValid lib v' × (v'.session_id ≤ suc v.session_id))

  hand_on_lem :
      (v : KcpServer lib) (r : ℕ) (p : Option ByteBuffer)
      → HasType p
      → (calls : List Call) × (hand_on lib v r p ≡ some (record v { calls = calls }))
  unfolding hand_on
  hand_on_lem v r none t = (v.calls, refl)
  hand_on_lem v r (some p) (kind, e) = (v.calls ++ (received r kind p ∷ []), rw e refl)

  -- A session in memory, as the map knows it
  record Found (v : KcpServer lib) (r : ℕ) (s : KcpSession lib) : Type 0 where
    id : ℕ
    kcp : lib.Kcp
    at : v.sessions id ≡ some r
    has_kcp : s.kcp ≡ some kcp
    has_id : lib.conv kcp ≡ id
    timer : s.timer_on ≡ true

  found_lem :
      (v : KcpServer lib) (r : ℕ) (s : KcpSession lib)
      → IsValid lib v
      → v.heap r ≡ some s
      → Found v r s
  found_lem v r s h e =
      let (i, f) = h.kept r s e in
      let g = h.known i r f in
      let same : g.session ≡ s = some_eq (sym g.at ∙ e) in
      record {
        id = i;
        kcp = g.kcp;
        at = f;
        has_kcp = ap (λ (s : KcpSession lib). s.kcp) (sym same) ∙ g.has_kcp;
        has_id = g.has_id;
        timer = ap (λ (s : KcpSession lib). s.timer_on) (sym same) ∙ g.timer;
      }

  -- What an update leaves is put back.
  Updated-IsValid :
      (v : KcpServer lib) (r : ℕ) (s s' : KcpSession lib) (k : lib.Kcp) (i : ℕ) (calls : List Call)
      → IsValid lib v
      → v.sessions i ≡ some r
      → lib.conv k ≡ i
      → s.timer_on ≡ true
      → Updated lib laws s s' k
      → IsValid lib (record v { heap = set_at v.heap r (some s'); calls = calls })
  Updated-IsValid v r s s' k i calls h e c t u =
      let w = replace lib v i r s' u.kcp h e u.has_kcp (u.same_id ∙ c) (u.timer ∙ t) in
      quiet lib (record v { heap = set_at v.heap r (some s') }) v.buffer calls w

  on_timer-Keeps :
      (v : KcpServer lib) (r clock : ℕ)
      → IsValid lib v
      → (o : Option (KcpSession lib)) → v.heap r ≡ o
      → Keeps v (on_timer lib v r clock)
  unfolding on_timer timer_of
  on_timer-Keeps v r clock h none e = (v, rw (on_timer, e) refl, (h, omega arith))
  on_timer-Keeps v r clock h (some s) e =
      let f = found_lem v r s h e in
      let (s', p, late, q, (u, t)) = update_session_lem lib laws s f.kcp clock f.has_kcp in
      let w = record v { heap = set_at v.heap r (some s') } in
      let (calls, g) = hand_on_lem w r p t in
      let run : timer_of lib v r clock s
          ≡ some (record w { calls = if late then calls ++ (timed_out r ∷ []) else calls }) =
        rw (q, g) refl in
      (
        record w { calls = if late then calls ++ (timed_out r ∷ []) else calls },
        rw (on_timer, e) run,
        (Updated-IsValid v r s s' f.kcp f.id _ h f.at f.has_id f.timer u, omega arith),
      )

  release_lem :
      (v : KcpServer lib) (r : ℕ) (s : KcpSession lib)
      → v.heap r ≡ some s
      → release lib v r
        ≡ some (record v { heap = set_at v.heap r none; calls = v.calls ++ (closed r ∷ []) })
  unfolding release
  release_lem v r s e = rw (release, e) refl

  -- A server without this session
  abbrev without : KcpServer lib → ℕ → ℕ → KcpServer lib
  without v id r = record v {
    heap = set_at v.heap r none;
    sessions = set_at v.sessions id none;
    calls = v.calls ++ (closed r ∷ []);
  }

  without-IsValid :
      (v : KcpServer lib) (id r : ℕ)
      → IsValid lib v
      → v.sessions id ≡ some r
      → IsValid lib (without v id r)
  without-IsValid v id r h e =
      quiet lib (record v { heap = set_at v.heap r none; sessions = set_at v.sessions id none })
        v.buffer (v.calls ++ (closed r ∷ [])) (remove lib v id r h e)

  close_id_lem :
      (v : KcpServer lib) (id r : ℕ) (s : KcpSession lib)
      → v.sessions id ≡ some r
      → v.heap r ≡ some s
      → close_id lib v r id ≡ some (without v id r)
  unfolding close_id erase
  close_id_lem v id r s e k = rw (close_id, e) (release_lem (erase lib v id) r s k)

  close_session-Keeps :
      (v : KcpServer lib) (r : ℕ) (s : KcpSession lib)
      → IsValid lib v
      → v.heap r ≡ some s
      → Keeps v (close_session lib v r)
  unfolding close_session get_session_id
  close_session-Keeps v r s h e =
      let f = found_lem v r s h e in
      let i : get_session_id lib s ≡ f.id = rw (get_session_id, f.has_kcp) f.has_id in
      (
        without v f.id r,
        rw (close_session, e) (ap (close_id lib v r) i ∙ close_id_lem v f.id r s f.at e),
        (without-IsValid v f.id r h f.at, omega arith),
      )

  accept-Keeps :
      (v : KcpServer lib) (clock : ℕ)
      → IsValid lib v
      → suc v.session_id < 2 ^ 32
      → Keeps v (some (accept lib v clock))
  unfolding accept
  accept-Keeps v clock h l =
      let i : (v.session_id + 1) % 2 ^ 32 ≡ suc v.session_id = omega arith in
      let s = new_session lib (suc v.session_id) clock in
      let calls =
        v.calls
        ++ (replied (word_bytes 4 (suc v.session_id) ++ (setup_session_code ∷ []))
            ∷ accepted v.next_ref
            ∷ []) in
      let w = record v {
        session_id = suc v.session_id;
        sessions = set_at v.sessions (suc v.session_id) (some v.next_ref);
        heap = set_at v.heap v.next_ref (some s);
        next_ref = suc v.next_ref;
      } in
      let a =
        add lib v s (lib.create (suc v.session_id)) h (unfold new_session in refl)
          (laws.conv_create (suc v.session_id) l) (unfold new_session in refl) in
      (record w { calls = calls }, rw i refl, (quiet lib w v.buffer calls a, omega arith))

  -- A datagram for a session
  take_input-Keeps :
      (v : KcpServer lib) (id r : ℕ) (s : KcpSession lib) (k : lib.Kcp) (n clock : ℕ)
      → IsValid lib v
      → v.sessions id ≡ some r
      → lib.conv k ≡ id
      → s.timer_on ≡ true
      → Keeps v (take_input lib v id r s k n clock)
  unfolding take_input erase
  take_input-Keeps v id r s k n clock h e c t =
      elim (n == 0) as (λ b. (n == 0) ≡ b → Keeps v (take_input lib v id r s k n clock)) [
        | true ↦ λ z.
            let s' = record s { kcp = some k } in
            let (s'', p, q, (u, ty)) = update_kcp_lem lib laws s' k clock refl in
            let w = record v { heap = set_at v.heap r (some s'') } in
            let (calls, g) = hand_on_lem w r p ty in
            (
              record w { calls = calls },
              rw (z, q, g) refl,
              (Updated-IsValid v r s' s'' k id calls h e c t u, omega arith),
            )
        | false ↦ λ z.
            let s' = record s { kcp = some k } in
            let w = record v { heap = set_at v.heap r (some s') } in
            let g = replace lib v id r s' k h e refl c t in
            (
              without w id r,
              rw (z, release_lem w r s' (set_at_same v.heap r (some s'))) refl,
              (without-IsValid w id r g e, omega arith),
            )
      ]
        refl

  input_session_lem :
      (v : KcpServer lib) (id r : ℕ) (bytes : Bytes) (clock : ℕ) (s : KcpSession lib) (k : lib.Kcp)
      → s.kcp ≡ some k
      → input_session lib v id r bytes clock s
        ≡ take_input lib v id r s (lib.input k bytes).0 (lib.input k bytes).1 clock
  unfolding input_session
  input_session_lem v id r bytes clock s k e =
      ap
        (λ o. elim o [
          | none ↦ none
          | some k ↦ take_input lib v id r s (lib.input k bytes).0 (lib.input k bytes).1 clock
        ])
        e

  on_known-Keeps :
      (v : KcpServer lib) (id : ℕ) (bytes : Bytes) (clock : ℕ)
      → IsValid lib v
      → (o : Option ℕ) → v.sessions id ≡ o
      → Keeps v (on_known lib v id bytes clock)
  unfolding on_known on_session
  on_known-Keeps v id bytes clock h none e = (v, rw (on_known, e) refl, (h, omega arith))
  on_known-Keeps v id bytes clock h (some r) e =
      let g = h.known id r e in
      let (v', q, w) =
        take_input-Keeps v id r g.session (lib.input g.kcp bytes).0 (lib.input g.kcp bytes).1 clock
          h e (laws.conv_input g.kcp bytes ∙ g.has_id) g.timer in
      (
        v',
        rw (on_known, e, on_session, g.at)
            (input_session_lem v id r bytes clock g.session g.kcp g.has_kcp ∙ q),
        w,
      )

  on_message-Keeps :
      (v : KcpServer lib) (bytes : Bytes) (clock : ℕ)
      → IsValid lib v
      → suc v.session_id < 2 ^ 32
      → Keeps v (on_message lib v bytes clock)
  unfolding on_message
  on_message-Keeps v bytes clock h l =
      let buff = overwrite 0 bytes v.buffer in
      let w = record v { buffer = buff } in
      let g = quiet lib v buff v.calls h in
      let known =
        on_known-Keeps w (head_conv buff) bytes clock g (w.sessions (head_conv buff)) refl in
      let new = accept-Keeps w clock g l in
      elim (length bytes == 0)
        as (λ b. Keeps v (
          if b
          then some w
          else (if is_setup buff bytes
              then some (accept lib w clock)
              else on_known lib w (head_conv buff) bytes clock))) [
                | true ↦ (w, refl, (g, omega arith))
                | false ↦
                    elim (is_setup buff bytes)
                      as (λ b. Keeps v (
                        if b
                        then some (accept lib w clock)
                        else on_known lib w (head_conv buff) bytes clock)) [
                          | true ↦ new
                          | false ↦ known
                        ]
              ]

  -- In a server whose map, memory and ikcp agree, and which has not given out all session ids, no
  -- event faults, but for the closing of a session that is gone; and they agree after it: each
  -- session that the map knows is in memory, with a running timer and the ikcp of its id, each
  -- session in memory is known, and the ids in use go from 1 to the last one given out.
  pub handle-Keeps :
      (v : KcpServer lib) (e : Event)
      → IsValid lib v
      → IsAllowed v e
      → suc v.session_id < 2 ^ 32
      → Keeps v (handle lib v e)
  unfolding handle
  handle-Keeps v (datagram bytes clock) h a l = on_message-Keeps v bytes clock h l
  handle-Keeps v (tick r clock) h a l = on_timer-Keeps v r clock h (v.heap r) refl
  handle-Keeps v (close_call r) h (s, e) l = close_session-Keeps v r s h e

  -- A datagram of less than 24 bytes, but for the request for a session, closes the session whose id
  -- stands in the first 4 bytes of the receive buffer: of the datagram, or, where that is shorter, of
  -- what earlier ones have left there.
  pub on_message_closes :
      (v : KcpServer lib) (bytes : Bytes) (clock r : ℕ)
      → IsValid lib v
      → 0 < length bytes
      → length bytes < 24
      → is_setup (overwrite 0 bytes v.buffer) bytes ≡ false
      → v.sessions (head_conv (overwrite 0 bytes v.buffer)) ≡ some r
      → (v' : KcpServer lib) × (on_message lib v bytes clock ≡ some v')
        × (v'.heap r ≡ none)
        × (v'.sessions (head_conv (overwrite 0 bytes v.buffer)) ≡ none)
        × (v'.calls ≡ v.calls ++ (closed r ∷ []))
  unfolding on_message on_known on_session take_input erase
  on_message_closes v bytes clock r h p l not_setup e =
      let buff = overwrite 0 bytes v.buffer in
      let id = head_conv buff in
      let w = record v { buffer = buff } in
      let g = h.known id r e in
      let k = (lib.input g.kcp bytes).0 in
      let s' = record (g.session) { kcp = some k } in
      let any : (length bytes == 0) ≡ false = ground arith in
      let z : ((lib.input g.kcp bytes).1 == 0) ≡ false =
        ground (arith, laws.short_input g.kcp bytes l) in
      let w' = record w { heap = set_at v.heap r (some s') } in
      let taken : take_input lib w id r g.session k (lib.input g.kcp bytes).1 clock
          ≡ some (without w' id r) =
        rw (z, release_lem w' r s' (set_at_same v.heap r (some s'))) refl in
      (
        without w' id r,
        rw (any, not_setup, on_known, e, on_session, g.at)
            (input_session_lem w id r bytes clock g.session g.kcp g.has_kcp ∙ taken),
        set_at_same w'.heap r none,
        set_at_same v.sessions id none,
        refl,
      )
