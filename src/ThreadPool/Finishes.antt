-- ===== src/ThreadPool/Finishes.antt =====
-- What a thread in its loop brings to an end.
use lua_server.Common.{
  ℕ, zero, suc, ◌+◌, ◌≡◌, ◌≢◌, refl, ap, sym, ◌∙◌, true, false, List, ◌∷◌, ◌++◌, ◌==◌, ==_iff,
  if◌then◌else◌, ℕ_discrete, arith,
}
use lua_server.ThreadPool.{
  QueueLib, looping, holding, ran, CThread, popped, ThreadPool, new_pool, process, push_complete,
  complete_task, pops, runs, pushes, Step, turns, updates, Run, here, next,
}
use lua_server.ThreadPool.Counts.{IsQueue, count, total, to_run, to_push}
use lua_server.ThreadPool.Runs.{Run-IsBalanced}

-- What a queue that no one else uses promises besides: try_dequeue finds what is there.
pub record IsServed (lib : QueueLib) (laws : IsQueue lib) : Type 0 where
  pub size : lib.Queue → ℕ
  pub none_left : (q : lib.Queue) (x : ℕ) → size q ≡ 0 → laws.count_in x q ≡ 0
  pub can_take :
      (q : lib.Queue) (n : ℕ)
      → size q ≡ suc n
      → (x : ℕ) × (q' : lib.Queue) × (lib.Takes q x q') × (size q' ≡ n)

null_lem : (x : ℕ) → x ≡ 0 → (if x == 0 then looping else holding x) ≡ looping
null_lem x h = let e : (x == 0) ≡ true = (==_iff x 0).1 h in rw e refl

task_lem : (x : ℕ) → x ≢ 0 → (if x == 0 then looping else holding x) ≡ holding x
task_lem x h = let e : (x == 0) ≡ false = ground (arith, h) in rw e refl

module _ (lib : QueueLib) (laws : IsQueue lib) (served : IsServed lib laws) where
  append-Run : (p q r : ThreadPool lib) → Run lib p q → Run lib q r → Run lib p r
  append-Run p q r u here = u
  append-Run p q r u (next s r' v k) = next s r (append-Run p q s u v) k

  -- `update`, for each task that waits for it
  complete_all :
      (n : ℕ) (p : ThreadPool lib)
      → served.size p.complete_tasks ≡ n
      → (q : ThreadPool lib) × (Run lib p q)
        × (served.size q.complete_tasks ≡ 0)
        × (q.wait_tasks ≡ p.wait_tasks)
        × (q.added ≡ p.added)
        × (q.threads ≡ p.threads)
  unfolding complete_task
  complete_all zero p e = (p, here, e, refl, refl, refl)
  complete_all (suc n) p e =
      let (x, rest, k, l) = served.can_take p.complete_tasks n e in
      let p₁ = complete_task lib p x rest in
      let (q, u, c, w, a, t) = complete_all n p₁ l in
      (q, append-Run p p₁ q (next p p₁ here (updates x rest k)) u, c, w, a, t)

  -- A thread in its loop takes one task, runs it if it is not NULL, and is back in its loop.
  take_one :
      (p : ThreadPool lib) (before after : List CThread) (t : CThread) (x : ℕ) (rest : lib.Queue)
      → p.threads ≡ before ++ (t ∷ after)
      → t.is_run ≡ true
      → t.place ≡ looping
      → lib.Takes p.wait_tasks x rest
      → (q : ThreadPool lib) × (Run lib p q)
        × (q.wait_tasks ≡ rest)
        × (q.added ≡ p.added)
        × (q.threads ≡ before ++ (t ∷ after))
  unfolding popped process push_complete
  take_one p before after t x rest e r l k =
      let looped : record t { place = looping } ≡ t = ap (λ o. record t { place = o }) (sym l) in
      let back = ap (λ (o : CThread). before ++ (o ∷ after)) looped in
      let p₁ : ThreadPool lib = record p {
        wait_tasks = rest;
        threads = before ++ (popped t x ∷ after);
      } in
      let u =
        turns before after t (popped t x) (record p { wait_tasks = rest }) e (pops x rest l r k) in
      elim (ℕ_discrete x 0) [
        | yes h ↦
            (let i : popped t x ≡ record t { place = looping } =
                ap (λ o. record t { place = o }) (null_lem x h) in
              (
                p₁,
                next p p₁ here u,
                refl,
                refl,
                ap (λ (o : CThread). before ++ (o ∷ after)) i ∙ back,
              ))
        | no h ↦
            (let i : (popped t x).place ≡ holding x = task_lem x h in
              let t₂ : CThread = record t { place = ran x } in
              let t₃ : CThread = record t { place = looping } in
              let p₂ : ThreadPool lib = record (process lib p₁ x) {
                threads = before ++ (t₂ ∷ after);
              } in
              let p₃ : ThreadPool lib = record (push_complete lib p₂ x) {
                threads = before ++ (t₃ ∷ after);
              } in
              let u₂ : Step lib p₁ p₂ =
                turns before after (popped t x) t₂ (process lib p₁ x) refl (runs x i) in
              let u₃ : Step lib p₂ p₃ =
                turns before after t₂ t₃ (push_complete lib p₂ x) refl (pushes x refl) in
              (p₃, next p₂ p₃ (next p₁ p₂ (next p p₁ here u) u₂) u₃, refl, refl, back))
      ]

  take_all_waiting :
      (n : ℕ) (p : ThreadPool lib) (before after : List CThread) (t : CThread)
      → served.size p.wait_tasks ≡ n
      → p.threads ≡ before ++ (t ∷ after)
      → t.is_run ≡ true
      → t.place ≡ looping
      → (q : ThreadPool lib) × (Run lib p q)
        × (served.size q.wait_tasks ≡ 0)
        × (q.added ≡ p.added)
        × (q.threads ≡ before ++ (t ∷ after))
  take_all_waiting zero p before after t n e r l = (p, here, n, refl, e)
  take_all_waiting (suc n) p before after t m e r l =
      let (x, rest, k, s) = served.can_take p.wait_tasks n m in
      let (p₁, u, w, a, e₁) = take_one p before after t x rest e r l k in
      let (q, v, d, b, f) = take_all_waiting n p₁ before after t (ap served.size w ∙ s) e₁ r l in
      (q, append-Run p p₁ q u v, d, b ∙ a, f)

  -- From every state that a new pool can get to in which some thread is in its loop and was not
  -- stopped, the pool can get, with no further call of addTask, to one in which each task but NULL
  -- was completed as often as it was added, but for those that the threads held at the start.
  pub finishes_all :
      (x : ℕ) (p : ThreadPool lib) (before after : List CThread) (t : CThread)
      → x ≢ 0
      → Run lib (new_pool lib) p
      → p.threads ≡ before ++ (t ∷ after)
      → t.is_run ≡ true
      → t.place ≡ looping
      → (q : ThreadPool lib) × (Run lib p q)
        × (q.added ≡ p.added)
        × (count x p.added
            ≡ total (to_run x) p.threads + total (to_push x) p.threads + count x q.completed)
  finishes_all x p before after t h u e r l =
      let (p₁, u₁, w, a, e₁) =
        take_all_waiting (served.size p.wait_tasks) p before after t refl e r l in
      let (q, u₂, c, w₂, a₂, e₂) = complete_all (served.size p₁.complete_tasks) p₁ refl in
      let v = append-Run p p₁ q u₁ u₂ in
      let b = Run-IsBalanced lib laws x q h (append-Run (new_pool lib) p q u v) in
      let n₁ = served.none_left q.wait_tasks x (ap served.size w₂ ∙ w) in
      let n₂ = served.none_left q.complete_tasks x c in
      let same : q.threads ≡ p.threads = e₂ ∙ e₁ ∙ sym e in
      let s₁ = ap (total (to_run x)) same in
      let s₂ = ap (total (to_push x)) same in
      let s₃ = ap (count x) (a₂ ∙ a) in
      (q, v, a₂ ∙ a, omega (arith, b.waiting, b.returning, n₁, n₂, s₁, s₂, s₃))
