-- ===== src/ThreadPool/Tests.antt =====
-- Runs of ThreadPool.cpp with a queue that keeps its order.
use lua_server.Common.{ℕ, suc, ◌+◌, ◌≡◌, refl, ap, List, [], ◌∷◌, ◌++◌, length, arith}
use lua_server.ThreadPool.{
  QueueLib, CThread, new_thread, looping, holding, ThreadPool, new_pool, add_task, create_thread,
  starts, pops, Step, adds, creates, turns, Run, here, next, popped,
}
use lua_server.ThreadPool.Counts.{IsQueue, IsBalanced, one_if, count, total, to_run, to_push}
use lua_server.ThreadPool.Runs.{Run-IsBalanced}
use lua_server.ThreadPool.Finishes.{IsServed, finishes_all}

abbrev fifo : QueueLib
fifo = record {
  Queue = List ℕ;
  empty = [];
  enqueue = λ q x. q ++ (x ∷ []);
  Takes = λ q x q'. q ≡ x ∷ q';
}

count_enqueued : (x : ℕ) (q : List ℕ) (y : ℕ) → count x (q ++ (y ∷ [])) ≡ one_if x y + count x q
unfolding count
count_enqueued x [] y = refl
count_enqueued x (z ∷ q) y = omega (arith, count_enqueued x q y)

fifo-IsQueue : IsQueue fifo
unfolding count
fifo-IsQueue = record {
  count_in = count;
  count_empty = λ x. refl;
  count_enqueue = count_enqueued;
  count_taken = λ x q y q' e. ap (count x) e;
}

none_counted : (q : List ℕ) (x : ℕ) → length q ≡ 0 → count x q ≡ 0
unfolding count
none_counted [] x e = refl
none_counted (y ∷ q) x e = absurd (omega arith)

first_taken :
    (q : List ℕ) (n : ℕ)
    → length q ≡ suc n
    → (x : ℕ) × (q' : List ℕ) × (q ≡ x ∷ q') × (length q' ≡ n)
first_taken [] n e = absurd (omega arith)
first_taken (y ∷ q) n e = (y, q, refl, omega arith)

fifo-IsServed : IsServed fifo fifo-IsQueue
unfolding fifo-IsQueue
fifo-IsServed = record { size = length; none_left = none_counted; can_take = first_taken }

-- Two threads, and the tasks 5 and 6; the first thread holds the task 5, the second is in its loop.
abbrev in_loop : CThread
in_loop = record new_thread { place = looping }

abbrev holds_5 : CThread
holds_5 = record new_thread { place = holding 5 }

abbrev two_tasks : ThreadPool fifo
two_tasks = record (new_pool fifo) { wait_tasks = 5 ∷ 6 ∷ []; added = 6 ∷ 5 ∷ [] }

abbrev busy : ThreadPool fifo
busy = record two_tasks { wait_tasks = 6 ∷ []; threads = holds_5 ∷ in_loop ∷ [] }

busy-Run : Run fifo (new_pool fifo) busy
unfolding add_task create_thread popped
busy-Run =
    let p = new_pool fifo in
    let p₁ = add_task fifo p 5 in
    let p₂ = record two_tasks { threads = new_thread ∷ [] } in
    let p₃ = record two_tasks { threads = new_thread ∷ new_thread ∷ [] } in
    let p₄ = record two_tasks { threads = in_loop ∷ new_thread ∷ [] } in
    let p₅ = record two_tasks { threads = in_loop ∷ in_loop ∷ [] } in
    let s₁ : Step fifo p p₁ = adds 5 in
    let s₂ : Step fifo p₁ two_tasks = adds 6 in
    let s₃ : Step fifo two_tasks p₂ = creates in
    let s₄ : Step fifo p₂ p₃ = creates in
    let s₅ : Step fifo p₃ p₄ =
      turns [] (new_thread ∷ []) new_thread in_loop p₃ refl (starts refl) in
    let s₆ : Step fifo p₄ p₅ = turns (in_loop ∷ []) [] new_thread in_loop p₄ refl (starts refl) in
    let s₇ : Step fifo p₅ busy =
      turns [] (in_loop ∷ []) in_loop holds_5 (record p₅ { wait_tasks = 6 ∷ [] }) refl
        (pops 5 (6 ∷ []) refl refl refl) in
    next p₅ busy
      (next p₄ p₅
        (next p₃ p₄
          (next p₂ p₃ (next two_tasks p₂ (next p₁ two_tasks (next p p₁ here s₁) s₂) s₃) s₄) s₅)
        s₆)
      s₇

Run-IsBalanced_example : IsBalanced fifo fifo-IsQueue 5 busy
Run-IsBalanced_example = Run-IsBalanced fifo fifo-IsQueue 5 busy (omega arith) busy-Run

finishes_all_example :
    (q : ThreadPool fifo) × (Run fifo busy q)
    × (q.added ≡ 6 ∷ 5 ∷ [])
    × (count 6 (6 ∷ 5 ∷ [])
        ≡ total (to_run 6) (holds_5 ∷ in_loop ∷ [])
          + total (to_push 6) (holds_5 ∷ in_loop ∷ [])
          + count 6 q.completed)
finishes_all_example =
    finishes_all fifo fifo-IsQueue fifo-IsServed 6 busy (holds_5 ∷ []) [] in_loop (omega arith)
      busy-Run refl refl refl
