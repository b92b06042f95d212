-- ===== src/Timer/Valid.antt =====
-- The timers that run are the nodes of the heap.
use lua_server.Common.{
  ℕ, ◌+◌, ◌^◌, ◌≤◌, ◌<◌, ◌≡◌, ◌≢◌, refl, ap, ◌∙◌, true, false, none, some, ◌==◌, ==_iff,
  if◌then◌else◌, ℕ_discrete, arith, ◌-◌,
}
use lua_server.Timer.{HeapLib, Timer, Timers, time_of, put_timer}

unfoldable pub one_if : ℕ → ℕ → ℕ
one_if x y = if x == y then 1 else 0

-- What the heap promises: it holds what was put in and not removed; a key that differs at no node
-- held changes nothing, and the node removed is compared with none; its minimum is one.
pub record IsHeap (lib : HeapLib) : Type 1 where
  pub held : lib.Heap → ℕ → ℕ
  pub IsOrdered : (ℕ → ℕ) → lib.Heap → Type 0
  pub held_init : (x : ℕ) → held lib.heap_init x ≡ 0
  pub held_insert :
      (key : ℕ → ℕ) (r : ℕ) (h : lib.Heap) (x : ℕ)
      → held (lib.heap_insert key r h) x ≡ one_if x r + held h x
  pub held_remove :
      (key : ℕ → ℕ) (r : ℕ) (h : lib.Heap) (x : ℕ)
      → 0 < held h r
      → held h x ≡ one_if x r + held (lib.heap_remove key r h) x
  pub ordered_init : (key : ℕ → ℕ) → IsOrdered key lib.heap_init
  pub ordered_insert :
      (key key' : ℕ → ℕ) (r : ℕ) (h : lib.Heap)
      → IsOrdered key h
      → held h r ≡ 0
      → ((x : ℕ) → x ≢ r → key' x ≡ key x)
      → IsOrdered key' (lib.heap_insert key' r h)
  pub ordered_remove :
      (key key' key'' : ℕ → ℕ) (r : ℕ) (h : lib.Heap)
      → IsOrdered key h
      → held h r ≡ 1
      → ((x : ℕ) → x ≢ r → key' x ≡ key x)
      → ((x : ℕ) → x ≢ r → key'' x ≡ key x)
      → IsOrdered key'' (lib.heap_remove key' r h)
  pub none_held : (h : lib.Heap) (x : ℕ) → lib.heap_min h ≡ none → held h x ≡ 0
  pub min_held : (h : lib.Heap) (r : ℕ) → lib.heap_min h ≡ some r → 0 < held h r
  pub min_least :
      (key : ℕ → ℕ) (h : lib.Heap) (r x : ℕ)
      → IsOrdered key h
      → lib.heap_min h ≡ some r
      → 0 < held h x
      → key r ≤ key x

unfoldable pub runs_now : ℕ → ℕ
runs_now time = if time == 0 then 0 else 1

put_time :
    (timers : ℕ → Timer) (r : ℕ) (t : Timer) (x : ℕ)
    → (put_timer timers r t x).time ≡ (if x == r then t.time else (timers x).time)
unfolding put_timer
put_time timers r t x = elim (ℕ_discrete x r) [
  | yes q ↦ (let e : (x == r) ≡ true = (==_iff x r).1 q in rw e refl)
  | no d ↦ (let e : (x == r) ≡ false = ground (arith, d) in rw e refl)
]

put_bound :
    (timers : ℕ → Timer) (r : ℕ) (t : Timer) (m : ℕ)
    → t.repeat < m
    → ((x : ℕ) → (timers x).repeat < m)
    → (x : ℕ) → (put_timer timers r t x).repeat < m
unfolding put_timer
put_bound timers r t m h k x = elim (ℕ_discrete x r) [
  | yes q ↦ (let e : (x == r) ≡ true = (==_iff x r).1 q in rw e h)
  | no d ↦ (let e : (x == r) ≡ false = ground (arith, d) in rw e (k x))
]

pub put_other :
    (timers : ℕ → Timer) (r : ℕ) (t : Timer) (x : ℕ)
    → x ≢ r
    → (put_timer timers r t x).time ≡ (timers x).time
unfolding put_timer
put_other timers r t x d = let e : (x == r) ≡ false = ground (arith, d) in rw e refl

pub put_same : (timers : ℕ → Timer) (r : ℕ) (t : Timer) → (put_timer timers r t r).time ≡ t.time
unfolding put_timer
put_same timers r t = let e : (r == r) ≡ true = (==_iff r r).1 refl in rw e refl

insert_num :
    (x r n n' time time' u : ℕ)
    → n' ≡ one_if x r + n
    → n ≡ runs_now time
    → time' ≡ (if x == r then u else time)
    → (x ≡ r → time ≡ 0)
    → 0 < u
    → n' ≡ runs_now time'
unfolding one_if runs_now
insert_num x r n n' time time' u a b c d e = ground (arith, d)

remove_num :
    (x r n n' time time' : ℕ)
    → n ≡ one_if x r + n'
    → n ≡ runs_now time
    → time' ≡ (if x == r then 0 else time)
    → n' ≡ runs_now time'
unfolding one_if runs_now
remove_num x r n n' time time' a b c = ground arith

module _ (lib : HeapLib) (laws : IsHeap lib) where
  -- A timer is in the heap once if its time is not 0, and else not; the heap is ordered by times;
  -- and no timer repeats after so long that its next time wraps while the clock is below the limit.
  pub record IsValid (limit : ℕ) (s : Timers lib) : Type 0 where
    pub running : (x : ℕ) → laws.held s.root_heap x ≡ runs_now (s.timers x).time
    pub ordered : laws.IsOrdered (time_of s.timers) s.root_heap
    pub bounded : (x : ℕ) → (s.timers x).repeat < 2 ^ 32 - limit

  -- Putting a stopped timer into the heap, and taking one out
  pub inserted-IsValid :
      (limit : ℕ) (s : Timers lib) (r : ℕ) (t : Timer)
      → IsValid limit s
      → (s.timers r).time ≡ 0
      → 0 < t.time
      → t.repeat < 2 ^ 32 - limit
      → IsValid limit (record s {
        timers = put_timer s.timers r t;
        root_heap = lib.heap_insert (time_of (put_timer s.timers r t)) r s.root_heap;
      })
  unfolding runs_now
  inserted-IsValid limit s r t h e p b =
      let timers = put_timer s.timers r t in
      let free : laws.held s.root_heap r ≡ 0 = ground (arith, h.running r, e) in
      record {
        running = λ x.
            insert_num x r (laws.held s.root_heap x)
              (laws.held (lib.heap_insert (time_of timers) r s.root_heap) x) (s.timers x).time
              (timers x).time t.time (laws.held_insert (time_of timers) r s.root_heap x)
              (h.running x) (put_time s.timers r t x) (λ q. ap (λ y. (s.timers y).time) q ∙ e) p;
        ordered =
            laws.ordered_insert (time_of s.timers) (time_of timers) r s.root_heap h.ordered free
              (put_other s.timers r t);
        bounded = put_bound s.timers r t (2 ^ 32 - limit) b h.bounded;
      }

  pub removed-IsValid :
      (limit : ℕ) (s : Timers lib) (r : ℕ) (key : ℕ → ℕ)
      → IsValid limit s
      → (s.timers r).time ≢ 0
      → ((x : ℕ) → x ≢ r → key x ≡ (s.timers x).time)
      → IsValid limit (record s {
        timers = put_timer s.timers r (record (s.timers r) { time = 0 });
        root_heap = lib.heap_remove key r s.root_heap;
      })
  unfolding runs_now
  removed-IsValid limit s r key h e k =
      let t : Timer = record (s.timers r) { time = 0 } in
      let timers = put_timer s.timers r t in
      let one : laws.held s.root_heap r ≡ 1 = ground (arith, h.running r, e) in
      record {
        running = λ x.
            remove_num x r (laws.held s.root_heap x)
              (laws.held (lib.heap_remove key r s.root_heap) x) (s.timers x).time (timers x).time
              (laws.held_remove key r s.root_heap x (omega (arith, one))) (h.running x)
              (put_time s.timers r t x);
        ordered =
            laws.ordered_remove (time_of s.timers) key (time_of timers) r s.root_heap h.ordered one
              k (put_other s.timers r t);
        bounded = put_bound s.timers r t (2 ^ 32 - limit) (h.bounded r) h.bounded;
      }
