-- ===== src/ThreadPool/Counts.antt =====
-- Where the tasks of a pool are, counted.
use lua_server.Common.{ℕ, ◌+◌, ◌≡◌, ◌≢◌, refl, ap, List, [], ◌∷◌, ◌++◌, ◌==◌, if◌then◌else◌, arith}
use lua_server.ThreadPool.{
  QueueLib, Place, starting, looping, holding, ran, ended, CThread, popped, ThreadPool, process,
  push_complete, Turn, starts, leaves, pops, sleeps, runs, pushes,
}

unfoldable pub one_if : ℕ → ℕ → ℕ
one_if x y = if x == y then 1 else 0

unfoldable pub count : ℕ → List ℕ → ℕ
count x [] = 0
count x (y ∷ ys) = one_if x y + count x ys

-- What a queue promises: what is put in is taken out once, in whatever order.
pub record IsQueue (lib : QueueLib) : Type 0 where
  pub count_in : ℕ → lib.Queue → ℕ
  pub count_empty : (x : ℕ) → count_in x lib.empty ≡ 0
  pub count_enqueue :
      (x : ℕ) (q : lib.Queue) (y : ℕ) → count_in x (lib.enqueue q y) ≡ one_if x y + count_in x q
  pub count_taken :
      (x : ℕ) (q : lib.Queue) (y : ℕ) (q' : lib.Queue)
      → lib.Takes q y q'
      → count_in x q ≡ one_if x y + count_in x q'

-- Whether a thread has a task that it has not run, and one that it has run and not pushed
abbrev pub to_run : ℕ → Place → ℕ
to_run x starting = 0
to_run x looping = 0
to_run x (holding y) = one_if x y
to_run x (ran y) = 0
to_run x ended = 0

abbrev pub to_push : ℕ → Place → ℕ
to_push x starting = 0
to_push x looping = 0
to_push x (holding y) = 0
to_push x (ran y) = one_if x y
to_push x ended = 0

unfoldable pub total : (Place → ℕ) → List CThread → ℕ
total f [] = 0
total f (t ∷ ts) = f t.place + total f ts

pub total-append :
    (f : Place → ℕ) (xs ys : List CThread) → total f (xs ++ ys) ≡ total f xs + total f ys
unfolding total
total-append f [] ys = omega arith
total-append f (t ∷ xs) ys = omega (arith, total-append f xs ys)

pub total_middle :
    (f : Place → ℕ) (xs : List CThread) (t : CThread) (ys : List CThread)
    → total f (xs ++ (t ∷ ys)) ≡ f t.place + total f (xs ++ ys)
unfolding total
total_middle f xs t ys = omega (arith, total-append f xs (t ∷ ys), total-append f xs ys)

null_lem : (x : ℕ) → x ≢ 0 → one_if x 0 ≡ 0
unfolding one_if
null_lem x h = ground (arith, h)

module _ (lib : QueueLib) (laws : IsQueue lib) where
  -- Each task that was added waits, is held by one thread, or was run; and each that was run is to
  -- be pushed by one thread, waits to be completed, or was completed: as often as it was added.
  pub record IsBalanced (x : ℕ) (p : ThreadPool lib) : Type 0 where
    pub waiting :
        count x p.added
        ≡ laws.count_in x p.wait_tasks + total (to_run x) p.threads + count x p.processed
    pub returning :
        count x p.processed
        ≡ total (to_push x) p.threads + laws.count_in x p.complete_tasks + count x p.completed

  -- A turn moves a task from one place to the next, for each of the two sums
  pub record IsMove (x : ℕ) (t : CThread) (p : ThreadPool lib) (t' : CThread) (p' : ThreadPool lib)
      : Type 0 where
    pub same_added : p'.added ≡ p.added
    pub same_completed : p'.completed ≡ p.completed
    pub waits :
        laws.count_in x p.wait_tasks + to_run x t.place + count x p.processed
        ≡ laws.count_in x p'.wait_tasks + to_run x t'.place + count x p'.processed
    pub returns :
        to_push x t.place + laws.count_in x p.complete_tasks + count x p'.processed
        ≡ to_push x t'.place + laws.count_in x p'.complete_tasks + count x p.processed

  popped_lem :
      (x : ℕ) (t : CThread) (y : ℕ)
      → x ≢ 0
      → (to_run x (popped t y).place ≡ one_if x y) × (to_push x (popped t y).place ≡ 0)
  unfolding popped one_if
  popped_lem x t y h = ground (arith, h)

  pub turn-IsMove :
      (x : ℕ) (t : CThread) (p : ThreadPool lib) (t' : CThread) (p' : ThreadPool lib)
      → x ≢ 0
      → Turn lib t p t' p'
      → IsMove x t p t' p'
  unfolding count process push_complete
  turn-IsMove x t p t' p' h (starts e) = record {
    same_added = refl;
    same_completed = refl;
    waits = omega (arith, ap (to_run x) e);
    returns = omega (arith, ap (to_push x) e);
  }
  turn-IsMove x t p t' p' h (leaves e r) = record {
    same_added = refl;
    same_completed = refl;
    waits = omega (arith, ap (to_run x) e);
    returns = omega (arith, ap (to_push x) e);
  }
  turn-IsMove x t p t' p' h (pops y rest e r k) =
      let (a, b) = popped_lem x t y h in
      let c = laws.count_taken x p.wait_tasks y rest k in
      record {
        same_added = refl;
        same_completed = refl;
        waits = omega (arith, a, c, ap (to_run x) e);
        returns = omega (arith, b, ap (to_push x) e);
      }
  turn-IsMove x t p t' p' h (sleeps e r) = record {
    same_added = refl;
    same_completed = refl;
    waits = refl;
    returns = refl;
  }
  turn-IsMove x t p t' p' h (runs y e) = record {
    same_added = refl;
    same_completed = refl;
    waits = omega (arith, ap (to_run x) e);
    returns = omega (arith, ap (to_push x) e);
  }
  turn-IsMove x t p t' p' h (pushes y e) = record {
    same_added = refl;
    same_completed = refl;
    waits = omega (arith, ap (to_run x) e);
    returns = omega (arith, ap (to_push x) e, laws.count_enqueue x p.complete_tasks y);
  }
