-- ===== src/Interrupts/Timer.antt =====
-- What the timer handler of src/interrupts.rs ends in.
use jericho_os.Base.{
  ◌+◌, ◌%◌, ◌^◌, ◌<◌, ◌≡◌, refl, false, some, [], ◌∷◌, ◌++◌, ltb, Bool-cases, inl, inr, arith,
}
use jericho_os.Scheduler.{Scheduler}
use jericho_os.Scheduler.Invariant.{IsValid}
use jericho_os.Scheduler.Yield.{
  Yielded, returns, switches, panics, Yields, task_yield, task_yield-Yields, resume,
}
use jericho_os.Interrupts.{
  Cpu, notify_end_of_interrupt, Handled, done, away, panicked, yield_and_end,
  timer_interrupt_handler, resume_handler,
}

-- The handler counts the tick. If it comes back, the interrupt is over, and interrupts are enabled
-- as they were. If it switches to another task, the interrupt is not over: its end is told only when the
-- old task is switched back to, which also restores the flag.
abbrev pub HandlerEnds : Cpu → Handled → Type 0
HandlerEnds c (done c') =
    (c'.timer_ticks ≡ (c.timer_ticks + 1) % 2 ^ 64)
    × (c'.ended ≡ c.ended ++ 32 ∷ [])
    × (c'.machine.interrupts ≡ c.machine.interrupts)
HandlerEnds c (away c' old new enabled) =
    (c'.timer_ticks ≡ (c.timer_ticks + 1) % 2 ^ 64)
    × (c'.ended ≡ c.ended)
    × (0 < c.timer_ticks)
    × Yields c.machine (switches c'.machine old new enabled)
    × ((later : Cpu)
        → later.machine.interrupts ≡ false
        → ((resume_handler enabled later).ended ≡ later.ended ++ 32 ∷ [])
          × ((resume_handler enabled later).machine.interrupts ≡ c.machine.interrupts))
HandlerEnds c panicked = ⊥

yield_and_end_lem :
    (c : Cpu) (y : Yielded)
    → 0 < c.timer_ticks
    → task_yield c.machine ≡ y
    → Yields c.machine y
    → HandlerEnds c (yield_and_end (record c { timer_ticks = (c.timer_ticks + 1) % 2 ^ 64 }))
unfolding yield_and_end notify_end_of_interrupt resume_handler resume
yield_and_end_lem c (returns m) some_ticks e h = rw (e, yield_and_end) (refl, refl, h)
yield_and_end_lem c (switches m old new enabled) some_ticks e h =
    rw (e, yield_and_end) (refl, refl, some_ticks, h, λ later off. (refl, ground (arith, h.1)))
yield_and_end_lem c panics some_ticks e h = absurd h

-- With a valid scheduler, or none, the timer handler never panics. It counts the tick, and it comes back
-- with the end of the interrupt told to the controller and interrupts as they were, or it switches to
-- another task. In a switch, which the first tick never makes, the end of the interrupt is not told: only when the old
-- task is switched back to, the handler tells it, and gives the interrupt flag back.
pub timer_interrupt_handler-HandlerEnds :
    (c : Cpu)
    → ((s : Scheduler) → c.machine.scheduler ≡ some s → IsValid s)
    → HandlerEnds c (timer_interrupt_handler c)
unfolding timer_interrupt_handler notify_end_of_interrupt
timer_interrupt_handler-HandlerEnds c v = elim (Bool-cases (ltb 0 c.timer_ticks)) [
  | inl later ↦
      rw (later, timer_interrupt_handler)
        (yield_and_end_lem c (task_yield c.machine) (ground arith) refl
          (task_yield-Yields c.machine v))
  | inr first ↦ rw (first, timer_interrupt_handler) (refl, refl, refl)
]
