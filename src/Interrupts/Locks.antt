-- ===== src/Interrupts/Locks.antt =====
-- The lock of the static SCHEDULER of src/scheduler.rs and the timer interrupt of src/interrupts.rs: what a function
-- does with the interrupt flag and the lock, as a list of instructions, and its run with ticks of the timer in between.
-- The lock is a spin lock on one processor, so to wait for a lock that is held is to wait for ever; `none` is that.
use jericho_os.Base.{
  ℕ, ◌+◌, ◌%◌, ◌^◌, Bool, true, false, Option, none, some, List, [], ◌∷◌, ltb, if◌then◌else◌,
}

-- `are_enabled` into a variable, `disable`, `lock`, the drop of the guard, and `enable` if the variable is set.
pub data Instruction : Type 0 where
  saves disables locks unlocks restores : Instruction

-- The tick counter, the interrupt flag, the variable `interrupts_enabled` of the function, and the lock.
pub record Processor : Type 0 where
  pub timer_ticks : ℕ
  pub enabled : Bool
  pub saved : Bool
  pub held : Bool

unfoldable pub execute : Instruction → Processor → Option Processor
execute saves p = some (record p { saved = p.enabled })
execute disables p = some (record p { enabled = false })
execute locks p = if p.held then none else some (record p { held = true })
execute unlocks p = some (record p { held = false })
execute restores p = some (if p.saved then record p { enabled = true } else p)

-- How a call of `task_yield` goes: to an early return, or to a switch.
pub data Way : Type 0 where
  returns_early to_switch : Way

-- The four early returns call `enable` while the guard lives: it is dropped on return, after that call.
abbrev pub task_yield_locks : Way → List Instruction
task_yield_locks returns_early = saves ∷ disables ∷ locks ∷ restores ∷ unlocks ∷ []
task_yield_locks to_switch = saves ∷ disables ∷ locks ∷ unlocks ∷ restores ∷ []

-- The other functions that take the lock: `scheduler::init`, `current_task_cspace`, `current_task_id`,
-- `terminate_current_task`, the wakeups of `send_message`, the block of `receive_message_blocking`, and
-- `test_scheduler`.
abbrev pub brief_locks : List Instruction
brief_locks = locks ∷ unlocks ∷ []

unfoldable pub run_alone : List Instruction → Processor → Option Processor
unfolding execute
run_alone [] p = some p
run_alone (i ∷ is) p = elim (execute i p) [ none ↦ none | some p' ↦ run_alone is p' ]

-- The handler of a tick: interrupts are off while it runs, and the return from it puts the flag back. It yields,
-- except at the first tick.
unfoldable pub timer_tick : Way → Processor → Option Processor
unfolding run_alone
timer_tick way p =
    let counted : Processor = record p { timer_ticks = (p.timer_ticks + 1) % 2 ^ 64 } in
    if ltb 0 p.timer_ticks
    then elim (run_alone (task_yield_locks way) (record counted { enabled = false })) [
      | none ↦ none
      | some after ↦ some (record counted { held = after.held })
    ]
    else some counted

-- What happens next: an instruction of the function, or a tick, which waits while interrupts are off.
pub data Event : Type 0 where
  advance : Event
  tick : Way → Event

unfoldable pub deliver_tick : Way → Processor → Option Processor
unfolding timer_tick
deliver_tick way p = if p.enabled then timer_tick way p else some p

-- What is left of the function, and the processor, after these events.
unfoldable pub interleave :
    List Event → List Instruction → Processor → Option (List Instruction × Processor)
unfolding execute deliver_tick
interleave [] is p = some (is, p)
interleave (advance ∷ es) [] p = interleave es [] p
interleave (advance ∷ es) (i ∷ is) p = elim (execute i p) [
  | none ↦ none
  | some p' ↦ interleave es is p'
]
interleave (tick way ∷ es) is p = elim (deliver_tick way p) [
  | none ↦ none
  | some p' ↦ interleave es is p'
]
