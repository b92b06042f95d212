-- ===== src/Timer/Tests.antt =====
-- A run of Timer.cpp.
use lua_server.Common.{ℕ, ◌+◌, ◌<◌, ◌≡◌, ◌⊎◌, refl, List, [], ◌∷◌, length, take, arith}
use lua_server.Timer.{Timers, start, update}
use lua_server.Timer.Valid.{IsValid, runs_now}
use lua_server.Timer.Events.{no_clocks, add_clocks, IsHandler, start-IsValid}
use lua_server.Timer.Sorted.{sorted_list, sorted_list-IsHeap}
use lua_server.Timer.Update.{update_lem}

abbrev stopped : Timers sorted_list
stopped = record {
  timers = λ r. record { time = 0; repeat = 0; callback = 0 };
  root_heap = [];
  calls = [];
}

stopped-IsValid : IsValid sorted_list sorted_list-IsHeap 1000 stopped
unfolding runs_now
stopped-IsValid = record {
  running = sorted_list-IsHeap.held_init;
  ordered = sorted_list-IsHeap.ordered_init (λ x. 0);
  bounded = λ x. omega arith;
}

-- The timer 3 calls 7 after 20 milliseconds, and then every 10.
abbrev one_timer : Timers sorted_list
one_timer = start sorted_list 3 7 20 10 100 stopped

one_timer-IsValid : IsValid sorted_list sorted_list-IsHeap 1000 one_timer
one_timer-IsValid =
    start-IsValid sorted_list sorted_list-IsHeap 1000 3 7 20 10 100 stopped stopped-IsValid refl
      (omega arith) (omega arith)

-- A callback that does nothing to the timers
idle : IsHandler sorted_list sorted_list-IsHeap 1000 (λ callback r s. s)
idle = record { keeps = λ callback r s h. h; silent = λ callback r s. refl }

abbrev two_readings : List (ℕ × ℕ)
two_readings = (125, 126) ∷ (127, 127) ∷ []

update_lem_example :
    IsValid sorted_list sorted_list-IsHeap 1000
      (update sorted_list (λ callback r s. s) two_readings one_timer)
    × ((length (update sorted_list (λ callback r s. s) two_readings one_timer).calls
          ≡ length one_timer.calls + length (take 10 two_readings))
        ⊎ ((((update sorted_list (λ callback r s. s) two_readings one_timer).timers 3).time ≡ 0)
            ⊎ (125
                < ((update sorted_list (λ callback r s. s) two_readings one_timer).timers 3).time)))
update_lem_example =
    update_lem sorted_list sorted_list-IsHeap 1000 125 two_readings (λ callback r s. s) one_timer 3
      idle
      (add_clocks 125 126 ((127, 127) ∷ []) (omega arith) (omega arith)
        (add_clocks 127 127 [] (omega arith) (omega arith) no_clocks))
      one_timer-IsValid
