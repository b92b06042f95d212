-- ===== src/Timer.antt =====
-- src/common/Timer.cpp: one-shot and repeated calls, over the heap of common/Heap.h.
pub mod Valid
pub mod Events
pub mod Update
mod Sorted
mod Tests
use lua_server.Common.{
  take, ℕ, ◌+◌, ◌%◌, ◌^◌, Option, none, some, List, [], ◌∷◌, ◌++◌, leb, ltb, ◌==◌, if◌then◌else◌,
}

-- What Timer uses of the heap: nodes are the addresses of their timers, and the comparison reads the
-- m_time of two of them at the time of the call.
pub record HeapLib : Type 1 where
  pub Heap : Type 0
  pub heap_init : Heap
  pub heap_min : Heap → Option ℕ
  pub heap_insert : (ℕ → ℕ) → ℕ → Heap → Heap
  pub heap_remove : (ℕ → ℕ) → ℕ → Heap → Heap

-- `callback` is a function, by its name; `time` and `repeat` are uint32.
pub record Timer : Type 0 where
  pub time : ℕ
  pub repeat : ℕ
  pub callback : ℕ

-- `compare_fn` puts the node with the smaller time first.
abbrev pub time_of : (ℕ → Timer) → ℕ → ℕ
time_of timers r = (timers r).time

unfoldable pub put_timer : (ℕ → Timer) → ℕ → Timer → ℕ → Timer
put_timer timers r t x = if x == r then t else timers x

module _ (lib : HeapLib) where
  -- `timers` are the timers in memory, by address, and `calls` the callbacks called so far with the
  -- addresses of their timers.
  pub record Timers : Type 0 where
    pub timers : ℕ → Timer
    pub root_heap : lib.Heap
    pub calls : List (ℕ × ℕ)

  -- `start`. `clock` is what XTime::iclock gives.
  unfoldable pub start : ℕ → ℕ → ℕ → ℕ → ℕ → Timers → Timers
  start r callback timeout repeat clock s =
      let t : Timer = record {
        time = (timeout + clock) % 2 ^ 32;
        repeat = repeat % 2 ^ 32;
        callback = callback;
      } in
      let timers = put_timer s.timers r t in
      record s { timers = timers; root_heap = lib.heap_insert (time_of timers) r s.root_heap }

  -- `stop`
  unfoldable pub stop : ℕ → Timers → Timers
  stop r s =
      if (s.timers r).time == 0
      then s
      else (let timers = put_timer s.timers r (record (s.timers r) { time = 0 }) in
          record s { timers = timers; root_heap = lib.heap_remove (time_of timers) r s.root_heap })

  -- In `update`, a due timer is taken from the heap,
  unfoldable pub take_due : ℕ → Timers → Timers
  take_due r s = record s {
    root_heap = lib.heap_remove (time_of s.timers) r s.root_heap;
    timers = put_timer s.timers r (record (s.timers r) { time = 0 });
  }

  -- started again if it repeats,
  unfoldable pub repeat_due : ℕ → ℕ → Timers → Timers
  repeat_due r clock s =
      if ltb 0 (s.timers r).repeat
      then (let t = record (s.timers r) { time = ((s.timers r).repeat + clock) % 2 ^ 32 } in
          let timers = put_timer s.timers r t in
          record s { timers = timers; root_heap = lib.heap_insert (time_of timers) r s.root_heap })
      else s

  -- and its callback is called, which does what `run` says.
  unfoldable pub call_due : (ℕ → ℕ → Timers → Timers) → ℕ → Timers → Timers
  call_due run r s =
      run (s.timers r).callback r
        (record s { calls = s.calls ++ ((r, (s.timers r).callback) ∷ []) })

  unfoldable pub fire : (ℕ → ℕ → Timers → Timers) → ℕ → ℕ → Timers → Timers
  fire run r clock s = call_due run r (repeat_due r clock (take_due r s))

  -- One round of `update`, with what its two calls of iclock give; `none` is `break`.
  unfoldable pub round : (ℕ → ℕ → Timers → Timers) → ℕ → ℕ → Timers → Option Timers
  round run now later s = elim (lib.heap_min s.root_heap) [
    | none ↦ none
    | some r ↦ if leb (s.timers r).time now then some (fire run r later s) else none
  ]

  unfoldable pub update_rounds : (ℕ → ℕ → Timers → Timers) → List (ℕ × ℕ) → Timers → Timers
  update_rounds run [] s = s
  update_rounds run ((now, later) ∷ clocks) s = elim (round run now later s) [
    | none ↦ s
    | some s' ↦ update_rounds run clocks s'
  ]

  unfoldable pub update : (ℕ → ℕ → Timers → Timers) → List (ℕ × ℕ) → Timers → Timers
  update run clocks s = update_rounds run (take 10 clocks) s
