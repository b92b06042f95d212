-- ===== src/Timer/Events.antt =====
-- Starting, stopping and calling timers.
use lua_server.Common.{
  ℕ, zero, suc, ◌+◌, ◌-◌, ◌%◌, ◌^◌, ◌≤◌, ◌<◌, ◌≡◌, ◌≢◌, ◌⊎◌, inl, inr, refl, ap, true, false, some,
  List, [], ◌∷◌, ◌++◌, ltb, ◌==◌, ==_iff, if◌then◌else◌, ℕ_discrete, dec_lt, lt→ltb, length, take,
  length-append, arith,
}
use lua_server.Timer.{
  HeapLib, Timer, Timers, time_of, put_timer, start, stop, take_due, repeat_due, call_due, fire,
}
use lua_server.Timer.Valid.{
  IsHeap, IsValid, runs_now, put_other, put_same, inserted-IsValid, removed-IsValid,
}

-- Readings of the clock in one `update`, from the first on
pub data AreClocks (least limit : ℕ) : List (ℕ × ℕ) → Type 0 where
  no_clocks : AreClocks least limit []
  add_clocks :
      (now later : ℕ) (clocks : List (ℕ × ℕ))
      → least ≤ now
      → later ≤ limit
      → AreClocks least limit clocks
      → AreClocks least limit ((now, later) ∷ clocks)

pub taken-AreClocks :
    (least limit n : ℕ) (clocks : List (ℕ × ℕ))
    → AreClocks least limit clocks
    → AreClocks least limit (take n clocks)
taken-AreClocks least limit zero clocks h = no_clocks
taken-AreClocks least limit (suc n) [] h = no_clocks
taken-AreClocks least limit (suc n) (_ ∷ _) (add_clocks now later clocks a b h) =
    add_clocks now later (take n clocks) a b (taken-AreClocks least limit n clocks h)

module _ (lib : HeapLib) (laws : IsHeap lib) where
  pub start-IsValid :
      (limit r callback timeout repeat clock : ℕ) (s : Timers lib)
      → IsValid lib laws limit s
      → (s.timers r).time ≡ 0
      → 0 < (timeout + clock) % 2 ^ 32
      → repeat % 2 ^ 32 < 2 ^ 32 - limit
      → IsValid lib laws limit (start lib r callback timeout repeat clock s)
  unfolding start
  start-IsValid limit r callback timeout repeat clock s h e p b =
      inserted-IsValid lib laws limit s r
        (record {
          time = (timeout + clock) % 2 ^ 32;
          repeat = repeat % 2 ^ 32;
          callback = callback;
        })
        h e p b

  stop-IsValid :
      (limit r : ℕ) (s : Timers lib)
      → IsValid lib laws limit s
      → IsValid lib laws limit (stop lib r s)
  unfolding stop
  stop-IsValid limit r s h = elim (ℕ_discrete (s.timers r).time 0) [
    | yes e ↦ (let b : ((s.timers r).time == 0) ≡ true = (==_iff (s.timers r).time 0).1 e in rw b h)
    | no d ↦
        (let b : ((s.timers r).time == 0) ≡ false = ground (arith, d) in
          rw b (
            removed-IsValid lib laws limit s r
              (time_of (put_timer s.timers r (record (s.timers r) { time = 0 }))) h d
              (put_other s.timers r (record (s.timers r) { time = 0 }))))
  ]

  -- What a callback may do: start timers that are stopped, and stop others; it does not call one.
  pub record IsHandler (limit : ℕ) (run : ℕ → ℕ → Timers lib → Timers lib) : Type 0 where
    pub keeps :
        (callback r : ℕ) (s : Timers lib)
        → IsValid lib laws limit s
        → IsValid lib laws limit (run callback r s)
    pub silent : (callback r : ℕ) (s : Timers lib) → (run callback r s).calls ≡ s.calls

  min-runs :
      (limit r : ℕ) (s : Timers lib)
      → IsValid lib laws limit s
      → lib.heap_min s.root_heap ≡ some r
      → (s.timers r).time ≢ 0
  unfolding runs_now
  min-runs limit r s h e = ground (arith, h.running r, laws.min_held s.root_heap r e)

  repeated-IsValid :
      (limit r clock : ℕ) (s : Timers lib)
      → IsValid lib laws limit s
      → (s.timers r).time ≡ 0
      → clock ≤ limit
      → IsValid lib laws limit (repeat_due lib r clock s)
  unfolding repeat_due
  repeated-IsValid limit r clock s h e l =
      let b = h.bounded r in
      elim (dec_lt 0 (s.timers r).repeat) [
        | yes p ↦
            (let t : Timer = record (s.timers r) {
              time = ((s.timers r).repeat + clock) % 2 ^ 32;
            } in
              let c : ltb 0 (s.timers r).repeat ≡ true = lt→ltb 0 (s.timers r).repeat p in
              let u : 0 < t.time = omega arith in
              rw c (inserted-IsValid lib laws limit s r t h e u b))
        | no d ↦ (let c : ltb 0 (s.timers r).repeat ≡ false = ground (arith, d) in rw c h)
      ]

  repeat_due_calls : (r clock : ℕ) (s : Timers lib) → (repeat_due lib r clock s).calls ≡ s.calls
  unfolding repeat_due
  repeat_due_calls r clock s =
      elim (ltb 0 (s.timers r).repeat)
        as (λ b.
          (if b
            then (let t = record (s.timers r) { time = ((s.timers r).repeat + clock) % 2 ^ 32 } in
                let timers = put_timer s.timers r t in
                record s {
                  timers = timers;
                  root_heap = lib.heap_insert (time_of timers) r s.root_heap;
                })
            else s).calls
          ≡ s.calls) [ true ↦ refl | false ↦ refl ]

  pub fire-IsValid :
      (limit r later : ℕ) (run : ℕ → ℕ → Timers lib → Timers lib) (s : Timers lib)
      → IsHandler limit run
      → IsValid lib laws limit s
      → lib.heap_min s.root_heap ≡ some r
      → later ≤ limit
      → IsValid lib laws limit (fire lib run r later s)
        × (length (fire lib run r later s).calls ≡ suc (length s.calls))
  unfolding fire call_due take_due
  fire-IsValid limit r later run s handler h e l =
      let s₁ = take_due lib r s in
      let v₁ =
        removed-IsValid lib laws limit s r (time_of s.timers) h (min-runs limit r s h e)
          (λ x d. refl) in
      let z = put_same s.timers r (record (s.timers r) { time = 0 }) in
      let s₂ = repeat_due lib r later s₁ in
      let v₂ = repeated-IsValid limit r later s₁ v₁ z l in
      let s₃ : Timers lib = record s₂ { calls = s₂.calls ++ ((r, (s₂.timers r).callback) ∷ []) } in
      let c = handler.silent (s₂.timers r).callback r s₃ in
      (
        handler.keeps (s₂.timers r).callback r s₃
            (record { running = v₂.running; ordered = v₂.ordered; bounded = v₂.bounded }),
        omega (
          arith,
          ap length c,
          ap length (repeat_due_calls r later s₁),
          length-append s₂.calls ((r, (s₂.timers r).callback) ∷ []),
        ),
      )

  -- What a round that calls no timer shows
  pub not_due :
      (limit least now r : ℕ) (s : Timers lib)
      → IsValid lib laws limit s
      → lib.heap_min s.root_heap ≡ some r
      → least ≤ now
      → now < (s.timers r).time
      → (x : ℕ) → ((s.timers x).time ≡ 0) ⊎ (least < (s.timers x).time)
  unfolding runs_now
  not_due limit least now r s h e a b x = elim (ℕ_discrete (s.timers x).time 0) [
    | yes z ↦ inl z
    | no d ↦
        (let i : 0 < laws.held s.root_heap x = ground (arith, h.running x, d) in
          inr (omega (arith, laws.min_least (time_of s.timers) s.root_heap r x h.ordered e i)))
  ]
