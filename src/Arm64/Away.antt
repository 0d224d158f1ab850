-- ===== src/Arm64/Away.antt =====
-- Histories of switches by the timer interrupt in src/arch/aarch64/scheduler.rs, from the interruption
-- of a task to its resumption.
use jericho_os.Base.{ℕ, ◌<◌, ◌≡◌, ◌≢◌, refl, sym, ◌∙◌, ap, subst, some, ==_self, arith}
use mathlib.Core.Option.{some-injective}
use mathlib.Core.Option
use jericho_os.Arm64.Context.{TaskContext, ExceptionFrame, save, restore, restore-save}
use jericho_os.Arm64.Scheduler.{Scheduler}
use jericho_os.Arm64.Switch.{frame_address, Resumed, interrupt, scheduler_switch_task}
use jericho_os.Arm64.Search.{IsValid}
use jericho_os.Arm64.Resume.{context_at, context_at-interrupt, interrupt_same, switch-IsResumed}

-- Switches, none of which interrupts task `i`.
pub data Away (i : ℕ) (start : Resumed) : Resumed → Type 0 where
  here : Away i start start
  later :
      {r r' : Resumed} (frame : ExceptionFrame)
      → Away i start r
      → r.scheduler.current_task ≢ i
      → scheduler_switch_task r.scheduler frame ≡ some r'
      → Away i start r'

-- A valid scheduler that has just resumed a task, with the context of task `i` as given.
record Holds (i : ℕ) (ctx : TaskContext) (r : Resumed) : Type 0 where
  valid : IsValid r.scheduler
  some_tasks : 0 < r.scheduler.num_tasks
  held : context_at r.scheduler i ≡ some ctx
  current : TaskContext
  resumed : context_at r.scheduler r.scheduler.current_task ≡ some current
  frame_restored : r.frame ≡ restore current
  place : r.address ≡ frame_address current.sp

switch-Holds :
    (i : ℕ) (ctx : TaskContext) (s : Scheduler) (frame : ExceptionFrame) (r : Resumed)
    → IsValid s
    → 0 < s.num_tasks
    → context_at (interrupt s frame) i ≡ some ctx
    → scheduler_switch_task s frame ≡ some r
    → Holds i ctx r
switch-Holds i ctx s frame r v some_tasks held e =
    let (r', e', d) = switch-IsResumed s frame v some_tasks in
    subst (Holds i ctx) (some-injective r' r (sym e' ∙ e)) (record {
      valid = d.valid;
      some_tasks = omega (arith, d.tasks_kept, interrupt_same s frame);
      held = d.contexts i ∙ held;
      current = d.ctx;
      resumed = d.resumed;
      frame_restored = d.frame_restored;
      place = d.place;
    })

-- The interruption of another task keeps the context.
other_kept :
    (i : ℕ) (s : Scheduler) (frame : ExceptionFrame)
    → IsValid s
    → 0 < s.num_tasks
    → s.current_task ≢ i
    → context_at (interrupt s frame) i ≡ context_at s i
other_kept i s frame v some_tasks other =
    ground (arith, context_at-interrupt s frame i (omega (arith, v.current)))

Away-Holds :
    {i : ℕ} {start r : Resumed} (ctx : TaskContext)
    → Holds i ctx start
    → Away i start r
    → Holds i ctx r
Away-Holds ctx h here = h
Away-Holds {i} ctx h (later {r} {r'} frame away other e) =
    let h' = Away-Holds ctx h away in
    switch-Holds i ctx r.scheduler frame r' h'.valid h'.some_tasks
      (other_kept i r.scheduler frame h'.valid h'.some_tasks other ∙ h'.held) e

own_saved :
    (s : Scheduler) (frame : ExceptionFrame) (ctx : TaskContext)
    → IsValid s
    → 0 < s.num_tasks
    → context_at s s.current_task ≡ some ctx
    → context_at (interrupt s frame) s.current_task ≡ some (save ctx frame)
own_saved s frame ctx v some_tasks e =
    context_at-interrupt s frame s.current_task (omega (arith, v.current))
    ∙ (rw (==_self s.current_task) (ap (Option.map (λ c. save c frame)) e))

-- A task that the timer interrupts goes on, however many switches between other tasks come before,
-- with all the registers, the program counter and the processor state that it was interrupted with.
-- Its stack pointer, however, and so the place of its frame, are those that its context had before the
-- interruption.
pub Away-restores :
    (s : Scheduler) (frame : ExceptionFrame) (ctx : TaskContext) (r r' : Resumed)
    → IsValid s
    → 0 < s.num_tasks
    → context_at s s.current_task ≡ some ctx
    → scheduler_switch_task s frame ≡ some r
    → Away s.current_task r r'
    → r'.scheduler.current_task ≡ s.current_task
    → (r'.frame ≡ record frame { sp_el0 = ctx.sp }) × (r'.address ≡ frame_address ctx.sp)
Away-restores s frame ctx r r' v some_tasks e switched away back =
    let h =
      Away-Holds (save ctx frame)
        (switch-Holds s.current_task (save ctx frame) s frame r v some_tasks
          (own_saved s frame ctx v some_tasks e) switched)
        away in
    let same : save ctx frame ≡ h.current =
      some-injective _ _ (sym h.held ∙ ap (context_at r'.scheduler) (sym back) ∙ h.resumed) in
    (
      h.frame_restored ∙ ap restore (sym same) ∙ restore-save ctx frame,
      h.place ∙ ap (λ c. frame_address c.sp) (sym same) ∙ ap frame_address (sp_saved ctx frame),
    )
  where
    sp_saved : (ctx : TaskContext) (frame : ExceptionFrame) → (save ctx frame).sp ≡ ctx.sp
    sp_saved ctx frame = unfold save in refl
