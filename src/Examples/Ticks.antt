-- ===== src/Examples/Ticks.antt =====
-- Ticks of the timer in functions that hold the lock of the x86-64 scheduler.
use jericho_os.Base.{◌≡◌, refl, ◌↔◌, ◌&&◌, true, false, none, some, List, [], ◌∷◌, arith}
use jericho_os.Interrupts.Locks.{
  Processor, Way, task_yield_locks, brief_locks, Event, advance, tick, returns_early, to_switch,
  interleave, deliver_tick, timer_tick, run_alone, execute,
}
use jericho_os.Interrupts.Deadlock.{is_early, interleave-task_yield_locks}

abbrev second_tick : Processor
second_tick = record { timer_ticks = 1; enabled = true; saved = false; held = false }

-- A tick right after the lock has been taken.
stops_in_brief_locks : interleave (advance ∷ tick to_switch ∷ []) brief_locks second_tick ≡ none
unfolding interleave deliver_tick timer_tick run_alone execute
stops_in_brief_locks = refl

-- A tick between `enable` and the drop of the guard.
stops_in_task_yield :
    interleave
      (advance ∷ advance ∷ advance ∷ advance ∷ tick to_switch ∷ [])
      (task_yield_locks returns_early)
      second_tick
    ≡ none
unfolding interleave deliver_tick timer_tick run_alone execute
stops_in_task_yield = refl

-- The same ticks on the way to a switch.
goes_on_to_switch :
    interleave
      (advance ∷ tick to_switch ∷ advance ∷ advance ∷ tick to_switch ∷ advance ∷ advance ∷ [])
      (task_yield_locks to_switch)
      second_tick
    ≡ some ([], record { timer_ticks = 2; enabled = true; saved = true; held = false })
unfolding interleave deliver_tick timer_tick run_alone execute
goes_on_to_switch = refl

interleave-task_yield_locks_example :
    ((way : Way)
      → ((es : List Event) × (interleave es (task_yield_locks way) second_tick ≡ none))
        ↔ ((true && is_early way) ≡ true))
    × (((es : List Event) × (interleave es brief_locks second_tick ≡ none)) ↔ (true ≡ true))
interleave-task_yield_locks_example = interleave-task_yield_locks second_tick (omega arith) refl
