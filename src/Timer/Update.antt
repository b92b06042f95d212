-- ===== src/Timer/Update.antt =====
-- What one `update` of the timers does.
use lua_server.Common.{
  ℕ, suc, ◌+◌, ◌≤◌, ◌<◌, ◌≡◌, ◌⊎◌, inl, inr, refl, ap, sym, subst, true, false, Option, none, some,
  List, [], ◌∷◌, leb, dec_lt, le→leb, length, take, arith,
}
use lua_server.Timer.{HeapLib, Timers, fire, round, update_rounds, update}
use lua_server.Timer.Valid.{IsHeap, IsValid, runs_now}
use lua_server.Timer.Events.{
  AreClocks, add_clocks, taken-AreClocks, IsHandler, fire-IsValid, not_due,
}

module _ (lib : HeapLib) (laws : IsHeap lib) where
  none_runs :
      (limit : ℕ) (s : Timers lib)
      → IsValid lib laws limit s
      → lib.heap_min s.root_heap ≡ none
      → (x : ℕ) → (s.timers x).time ≡ 0
  unfolding runs_now
  none_runs limit s h e x = ground (arith, h.running x, laws.none_held s.root_heap x e)

  -- A round breaks only where no timer is due, and else calls one.
  round_cases :
      (limit least now later : ℕ) (run : ℕ → ℕ → Timers lib → Timers lib) (s : Timers lib) (x : ℕ)
      (node : Option ℕ)
      → IsHandler lib laws limit run
      → least ≤ now
      → later ≤ limit
      → IsValid lib laws limit s
      → lib.heap_min s.root_heap ≡ node
      → ((round lib run now later s ≡ none)
          × (((s.timers x).time ≡ 0) ⊎ (least < (s.timers x).time)))
        ⊎ ((s' : Timers lib) × (round lib run now later s ≡ some s')
            × (IsValid lib laws limit s')
            × (length s'.calls ≡ suc (length s.calls)))
  unfolding round
  round_cases limit least now later run s x none handler a b h e =
      inl (rw (round, e) refl, inl (none_runs limit s h e x))
  round_cases limit least now later run s x (some r) handler a b h e =
      elim (dec_lt now (s.timers r).time) [
        | yes l ↦
            (let c : leb (s.timers r).time now ≡ false = ground arith in
              inl (rw (round, e, c) refl, not_due lib laws limit least now r s h e a l x))
        | no d ↦
            (let c : leb (s.timers r).time now ≡ true =
                le→leb (s.timers r).time now (omega (arith, d)) in
              let (v, n) = fire-IsValid lib laws limit r later run s handler h e b in
              inr (fire lib run r later s, rw (round, e, c) refl, v, n))
      ]

  breaks :
      (now later : ℕ) (clocks : List (ℕ × ℕ)) (run : ℕ → ℕ → Timers lib → Timers lib)
      (s : Timers lib)
      → round lib run now later s ≡ none
      → s ≡ update_rounds lib run ((now, later) ∷ clocks) s
  unfolding update_rounds
  breaks now later clocks run s e =
      sym (ap (λ o. elim o [ none ↦ s | some s' ↦ update_rounds lib run clocks s' ]) e)

  goes_on :
      (now later : ℕ) (clocks : List (ℕ × ℕ)) (run : ℕ → ℕ → Timers lib → Timers lib)
      (s s' : Timers lib)
      → round lib run now later s ≡ some s'
      → update_rounds lib run clocks s' ≡ update_rounds lib run ((now, later) ∷ clocks) s
  unfolding update_rounds
  goes_on now later clocks run s s' e =
      sym (ap (λ o. elim o [ none ↦ s | some s' ↦ update_rounds lib run clocks s' ]) e)

  -- All calls were made, or no timer is due.
  abbrev HasServed : ℕ → ℕ → ℕ → ℕ → ℕ → Timers lib → Type 0
  HasServed limit least m n x q =
      IsValid lib laws limit q
      × ((length q.calls ≡ m + n) ⊎ (((q.timers x).time ≡ 0) ⊎ (least < (q.timers x).time)))

  rounds_lem :
      (limit least : ℕ) (clocks : List (ℕ × ℕ)) (run : ℕ → ℕ → Timers lib → Timers lib)
      (s : Timers lib) (x : ℕ)
      → IsHandler lib laws limit run
      → AreClocks least limit clocks
      → IsValid lib laws limit s
      → HasServed limit least (length s.calls) (length clocks) x (update_rounds lib run clocks s)
  unfolding update_rounds
  rounds_lem limit least [] run s x handler c h = (h, inl (omega arith))
  rounds_lem limit least (_ ∷ _) run s x handler (add_clocks now later clocks a b c) h =
      elim (round_cases limit least now later run s x (lib.heap_min s.root_heap) handler a b h
        refl) [
          | inl (e, w) ↦
              subst (HasServed limit least (length s.calls) (suc (length clocks)) x)
                (breaks now later clocks run s e) (h, inr w)
          | inr (s', e, v, n) ↦
              (let (u, w) = rounds_lem limit least clocks run s' x handler c v in
                subst (HasServed limit least (length s.calls) (suc (length clocks)) x)
                  (goes_on now later clocks run s s' e)
                  (u, elim w [ inl l ↦ inl (omega (arith, l, n)) | inr k ↦ inr k ]))
        ]

  -- An update keeps the timers valid: those with a time other than 0 are the nodes of the heap, and
  -- ordered by it. And it makes as many calls as it has rounds, ten at most, or when it is over no
  -- timer that runs is due at the time that it began. Callbacks start and stop timers as they may,
  -- and the clock stays below a limit at which no repeating timer's time wraps.
  pub update_lem :
      (limit least : ℕ) (clocks : List (ℕ × ℕ)) (run : ℕ → ℕ → Timers lib → Timers lib)
      (s : Timers lib) (x : ℕ)
      → IsHandler lib laws limit run
      → AreClocks least limit clocks
      → IsValid lib laws limit s
      → IsValid lib laws limit (update lib run clocks s)
        × ((length (update lib run clocks s).calls ≡ length s.calls + length (take 10 clocks))
            ⊎ ((((update lib run clocks s).timers x).time ≡ 0)
                ⊎ (least < ((update lib run clocks s).timers x).time)))
  unfolding update
  update_lem limit least clocks run s x handler c h =
      rounds_lem limit least (take 10 clocks) run s x handler
        (taken-AreClocks least limit 10 clocks c) h
