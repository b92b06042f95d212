-- ===== src/ThreadPool/Runs.antt =====
-- The runs of a pool, in every order of its threads.
use lua_server.Common.{ℕ, ◌≡◌, ◌≢◌, ap, List, [], ◌∷◌, ◌++◌, arith}
use lua_server.ThreadPool.{
  QueueLib, CThread, new_thread, ThreadPool, new_pool, add_task, complete_task, create_thread, Step,
  adds, creates, turns, updates, update_finds_none, stops, deletes, Run, here, next,
}
use lua_server.ThreadPool.Counts.{
  IsQueue, IsBalanced, IsMove, count, total, to_run, to_push, total-append, total_middle,
  turn-IsMove,
}

module _ (lib : QueueLib) (laws : IsQueue lib) where
  turns-IsBalanced :
      (x : ℕ) (p : ThreadPool lib) (before after : List CThread) (t t' : CThread)
      (p' : ThreadPool lib)
      → IsBalanced lib laws x p
      → p.threads ≡ before ++ (t ∷ after)
      → IsMove lib laws x t p t' p'
      → IsBalanced lib laws x (record p' { threads = before ++ (t' ∷ after) })
  turns-IsBalanced x p before after t t' p' b e m =
      let a = ap (count x) m.same_added in
      let c = ap (count x) m.same_completed in
      let r = ap (total (to_run x)) e in
      let s = ap (total (to_push x)) e in
      let r₁ = total_middle (to_run x) before t after in
      let r₂ = total_middle (to_run x) before t' after in
      let s₁ = total_middle (to_push x) before t after in
      let s₂ = total_middle (to_push x) before t' after in
      record {
        waiting = omega (arith, a, r, r₁, r₂, b.waiting, m.waits);
        returning = omega (arith, c, s, s₁, s₂, b.returning, m.returns);
      }

  Step-IsBalanced :
      (x : ℕ) (p q : ThreadPool lib)
      → x ≢ 0
      → IsBalanced lib laws x p
      → Step lib p q
      → IsBalanced lib laws x q
  unfolding count total add_task create_thread complete_task
  Step-IsBalanced x p q h b (adds y) = record {
    waiting = omega (arith, b.waiting, laws.count_enqueue x p.wait_tasks y);
    returning = b.returning;
  }
  Step-IsBalanced x p q h b creates = record {
    waiting = omega (arith, b.waiting, total-append (to_run x) p.threads (new_thread ∷ []));
    returning = omega (arith, b.returning, total-append (to_push x) p.threads (new_thread ∷ []));
  }
  Step-IsBalanced x p q h b (turns before after t t' p' e u) =
      turns-IsBalanced x p before after t t' p' b e (turn-IsMove lib laws x t p t' p' h u)
  Step-IsBalanced x p q h b (updates y rest k) = record {
    waiting = b.waiting;
    returning = omega (arith, b.returning, laws.count_taken x p.complete_tasks y rest k);
  }
  Step-IsBalanced x p q h b update_finds_none = b
  Step-IsBalanced x p q h b (stops t rest e) = record {
    waiting = omega (arith, b.waiting, ap (total (to_run x)) e);
    returning = omega (arith, b.returning, ap (total (to_push x)) e);
  }
  Step-IsBalanced x p q h b (deletes t rest e r l) = record {
    waiting = omega (arith, b.waiting, ap (total (to_run x)) e, ap (to_run x) l);
    returning = omega (arith, b.returning, ap (total (to_push x)) e, ap (to_push x) l);
  }

  -- In every order of the calls, of the threads and of exit, no task is lost or done twice: of each
  -- task but NULL, the calls of addTask are as many as it waits, is held by a thread that has not
  -- run it, or was processed; and the calls of process as many as it is held by a thread that has
  -- run it, waits for update, or was completed.
  pub Run-IsBalanced :
      (x : ℕ) (p : ThreadPool lib) → x ≢ 0 → Run lib (new_pool lib) p → IsBalanced lib laws x p
  unfolding count total
  Run-IsBalanced x p h here = record {
    waiting = omega (arith, laws.count_empty x);
    returning = omega (arith, laws.count_empty x);
  }
  Run-IsBalanced x p h (next q r u s) = Step-IsBalanced x q p h (Run-IsBalanced x q h u) s
