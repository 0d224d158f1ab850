-- ===== src/Arm64/Ticks.antt =====
-- The timer interrupts of src/arch/aarch64/exceptions.rs: how often they switch tasks.
use jericho_os.Base.{ℕ, suc, ◌+◌, ◌-◌, ◌/◌, ◌%◌, ◌<◌, ◌≡◌, ◌⊎◌, true, false, some, ◌==◌}
use jericho_os.Arm64.Context.{ExceptionFrame}
use jericho_os.Arm64.Scheduler.{Scheduler, running, update}
use jericho_os.Arm64.Search.{IsValid, IsNearest}
use jericho_os.Arm64.Switch.{Interrupts, next_u64, set_state, interrupted, interrupt, handle_irq}

-- `n` timer interrupts, none of which panics, one after the other, at any place of the code.
pub data Interrupted (start : Interrupts) : ℕ → Interrupts → Type 0 where
  at_start : Interrupted start 0 start
  tick :
      {n : ℕ} {i i' : Interrupts} (frame_ptr : ℕ) (frame : ExceptionFrame) (ptr' : ℕ)
      (frame' : ExceptionFrame)
      → Interrupted start n i
      → handle_irq i frame_ptr frame ≡ some (i', ptr', frame')
      → Interrupted start (suc n) i'

-- What an interrupt of code with this frame that switches tasks does to the scheduler: the current task is
-- saved and ready again, and the nearest ready task in round robin order becomes current and runs.
pub record IsSwitch (frame : ExceptionFrame) (s s' : Scheduler) : Type 0 where
  pub valid : IsValid s'
  pub tasks_kept : s'.num_tasks ≡ s.num_tasks
  pub chosen : IsNearest (interrupt s frame) s.current_task s'.current_task
  pub runs :
      s'.tasks
      ≡ update s'.current_task
          (set_state running)
          (update s.current_task (interrupted frame) s.tasks)

-- As many switches, one after the other.
pub data Switched (start : Scheduler) : ℕ → Scheduler → Type 0 where
  none_yet : Switched start 0 start
  one_more :
      {n : ℕ} {s s' : Scheduler} (frame : ExceptionFrame)
      → Switched start n s
      → IsSwitch frame s s'
      → Switched start (suc n) s'

-- One interrupt, with the scheduler enabled and a task to run: every tenth tick switches tasks, and each
-- other one leaves the scheduler alone.
record IsTick (frame : ExceptionFrame) (i i' : Interrupts) : Type 0 where
  enabled : i'.scheduler_enabled ≡ true
  ticks : i'.timer_ticks ≡ next_u64 i.timer_ticks
  moves :
      (((next_u64 i.timer_ticks % 10 == 0) ≡ true)
        × (i'.switch_counter ≡ next_u64 i.switch_counter)
        × IsSwitch frame i.scheduler i'.scheduler)
      ⊎ (((next_u64 i.timer_ticks % 10 == 0) ≡ false)
          × (i'.switch_counter ≡ i.switch_counter)
          × (i'.scheduler ≡ i.scheduler))

-- What `n` interrupts leave.
pub record AfterTicks (start : Interrupts) (n : ℕ) (i : Interrupts) : Type 0 where
  pub enabled : i.scheduler_enabled ≡ true
  pub valid : IsValid i.scheduler
  pub some_tasks : 0 < i.scheduler.num_tasks
  pub ticks : i.timer_ticks ≡ start.timer_ticks + n
  pub number : ℕ
  pub passed : number ≡ (start.timer_ticks + n) / 10 - start.timer_ticks / 10
  pub counted : i.switch_counter ≡ start.switch_counter + number
  pub switched : Switched start.scheduler number i.scheduler
