-- ===== src/ThreadPool.antt =====
-- src/common/ThreadPool.cpp and ThreadPool.h, over the queue behind TQueue.h.
pub mod Counts
pub mod Runs
pub mod Finishes
mod Tests
use lua_server.Common.{ℕ, ◌≡◌, Bool, true, false, List, [], ◌∷◌, ◌++◌, ◌==◌, if◌then◌else◌}

-- What TQueue uses of the concurrent queue. `Takes q x q'` holds where try_dequeue may take x from q
-- and leave q'; it may also find nothing, whatever there is.
pub record QueueLib : Type 1 where
  pub Queue : Type 0
  pub empty : Queue
  pub enqueue : Queue → ℕ → Queue
  pub Takes : Queue → ℕ → Queue → Type 0

-- Where a thread stands in `backfunc`: before the loop, at its test, between popWaitTask and `run`,
-- between `run` and the push, and behind `onEnd`.
pub data Place : Type 0 where
  starting : Place
  looping : Place
  holding : ℕ → Place
  ran : ℕ → Place
  ended : Place

pub record CThread : Type 0 where
  pub is_run : Bool
  pub place : Place

abbrev pub new_thread : CThread
new_thread = record { is_run = true; place = starting }

-- The test `if (task)` of `backfunc`. A task is its address, and NULL is 0.
unfoldable pub popped : CThread → ℕ → CThread
popped t task = record t { place = if task == 0 then looping else holding task }

module _ (lib : QueueLib) where
  -- `added`, `processed` and `completed` list the calls of addTask, process, and of complete with
  -- completeTask.
  pub record ThreadPool : Type 0 where
    pub threads : List CThread
    pub wait_tasks : lib.Queue
    pub complete_tasks : lib.Queue
    pub added : List ℕ
    pub processed : List ℕ
    pub completed : List ℕ

  abbrev pub new_pool : ThreadPool
  new_pool = record {
    threads = [];
    wait_tasks = lib.empty;
    complete_tasks = lib.empty;
    added = [];
    processed = [];
    completed = [];
  }

  unfoldable pub add_task : ThreadPool → ℕ → ThreadPool
  add_task p task = record p { wait_tasks = lib.enqueue p.wait_tasks task; added = task ∷ p.added }

  -- `run`
  unfoldable pub process : ThreadPool → ℕ → ThreadPool
  process p task = record p { processed = task ∷ p.processed }

  unfoldable pub push_complete : ThreadPool → ℕ → ThreadPool
  push_complete p task = record p { complete_tasks = lib.enqueue p.complete_tasks task }

  -- `update`, when it finds a task
  unfoldable pub complete_task : ThreadPool → ℕ → lib.Queue → ThreadPool
  complete_task p task rest = record p { complete_tasks = rest; completed = task ∷ p.completed }

  -- One round of `create`
  unfoldable pub create_thread : ThreadPool → ThreadPool
  create_thread p = record p { threads = p.threads ++ (new_thread ∷ []) }

  -- What one thread does next, in `backfunc`
  pub data Turn (t : CThread) (p : ThreadPool) : CThread → ThreadPool → Type 0 where
    starts : t.place ≡ starting → Turn t p (record t { place = looping }) p
    leaves : t.place ≡ looping → t.is_run ≡ false → Turn t p (record t { place = ended }) p
    pops :
        (task : ℕ) (rest : lib.Queue)
        → t.place ≡ looping
        → t.is_run ≡ true
        → lib.Takes p.wait_tasks task rest
        → Turn t p (popped t task) (record p { wait_tasks = rest })
    sleeps : t.place ≡ looping → t.is_run ≡ true → Turn t p t p
    runs :
        (task : ℕ)
        → t.place ≡ holding task
        → Turn t p (record t { place = ran task }) (process p task)
    pushes :
        (task : ℕ)
        → t.place ≡ ran task
        → Turn t p (record t { place = looping }) (push_complete p task)

  -- What the pool does next: a call from outside, a turn of any thread, and a round of `exit`, which
  -- stops its first thread, waits for its end and deletes it.
  pub data Step (p : ThreadPool) : ThreadPool → Type 0 where
    adds : (task : ℕ) → Step p (add_task p task)
    creates : Step p (create_thread p)
    turns :
        (before after : List CThread) (t t' : CThread) (p' : ThreadPool)
        → p.threads ≡ before ++ (t ∷ after)
        → Turn t p t' p'
        → Step p (record p' { threads = before ++ (t' ∷ after) })
    updates :
        (task : ℕ) (rest : lib.Queue)
        → lib.Takes p.complete_tasks task rest
        → Step p (complete_task p task rest)
    update_finds_none : Step p p
    stops :
        (t : CThread) (rest : List CThread)
        → p.threads ≡ t ∷ rest
        → Step p (record p { threads = record t { is_run = false } ∷ rest })
    deletes :
        (t : CThread) (rest : List CThread)
        → p.threads ≡ t ∷ rest
        → t.is_run ≡ false
        → t.place ≡ ended
        → Step p (record p { threads = rest })

  pub data Run (p : ThreadPool) : ThreadPool → Type 0 where
    here : Run p p
    next : (q r : ThreadPool) → Run p q → Step q r → Run p r
