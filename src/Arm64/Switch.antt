-- ===== src/Arm64/Switch.antt =====
-- The switches of src/arch/aarch64/scheduler.rs: `switch_to_next`, up to `switch_context`, and
-- `scheduler_switch_task`, which the timer interrupt of src/arch/aarch64/exceptions.rs calls.
use jericho_os.Base.{
  ℕ, ◌+◌, ◌-◌, ◌%◌, ◌^◌, Bool, ◌&&◌, Option, none, some, get_elem?, leb, ltb, ◌==◌, if◌then◌else◌,
}
use jericho_os.Arm64.Context.{ExceptionFrame, save, restore}
use jericho_os.Arm64.Scheduler.{
  Scheduler, Task, TaskState, ready, running, same_state, update, schedule,
}

unfoldable pub set_state : TaskState → Task → Task
set_state state t = record t { state = state }

-- How `switch_to_next` goes on: it returns, or it switches between the contexts of two tasks, or an
-- index is out of range.
pub data Switch : Type 0 where
  returns : Scheduler → Switch
  switches : Scheduler → ℕ → ℕ → Switch
  panics : Switch

-- A running task becomes ready.
unfoldable pub pause : Task → Task
unfolding set_state
pause t = if same_state t.state running then set_state ready t else t

unfoldable pub switch_from : ℕ → Option Scheduler → Switch
unfolding set_state
switch_from prev_task none = panics
switch_from prev_task (some s) =
    let s' : Scheduler = record s { tasks = update s.current_task (set_state running) s.tasks } in
    elim (get_elem? s.tasks s.current_task) [
      | none ↦ panics
      | some t ↦
          if prev_task == s.current_task then returns s' else switches s' prev_task s.current_task
    ]

unfoldable pub switch_to_next : Scheduler → Switch
unfolding switch_from pause
switch_to_next s =
    if leb s.num_tasks 1 then returns s else elim (get_elem? s.tasks s.current_task) [
      | none ↦ panics
      | some t ↦
          switch_from s.current_task
            (schedule (record s { tasks = update s.current_task pause s.tasks }))
    ]

-- The current task with the interrupted registers in its context, ready again.
unfoldable pub interrupted : ExceptionFrame → Task → Task
unfolding save
interrupted frame t = record t { context = save t.context frame; state = ready }

-- `sp - 272` on u64: the place of the frame on the stack of the next task.
unfoldable pub frame_address : ℕ → ℕ
frame_address sp = (sp + (2 ^ 64 - 272)) % 2 ^ 64

-- The scheduler, the place of the frame that the exception returns from, and this frame.
pub record Resumed : Type 0 where
  pub scheduler : Scheduler
  pub address : ℕ
  pub frame : ExceptionFrame

unfoldable pub resume : Option Scheduler → Option Resumed
unfolding set_state restore frame_address
resume none = none
resume (some s) = elim (get_elem? s.tasks s.current_task) [
  | none ↦ none
  | some t ↦ some (record {
    scheduler = record s { tasks = update s.current_task (set_state running) s.tasks };
    address = frame_address t.context.sp;
    frame = restore t.context;
  })
]

unfoldable pub interrupt : Scheduler → ExceptionFrame → Scheduler
unfolding interrupted
interrupt s frame =
    if ltb s.current_task s.num_tasks
    then record s { tasks = update s.current_task (interrupted frame) s.tasks }
    else s

-- `none` is an index out of range.
unfoldable pub scheduler_switch_task : Scheduler → ExceptionFrame → Option Resumed
unfolding interrupt resume
scheduler_switch_task s frame = resume (schedule (interrupt s frame))

-- The statics of exceptions.rs, and the counter of switches of scheduler.rs.
pub record Interrupts : Type 0 where
  pub timer_ticks : ℕ
  pub scheduler_enabled : Bool
  pub switch_counter : ℕ
  pub scheduler : Scheduler

abbrev pub next_u64 : ℕ → ℕ
next_u64 n = (n + 1) % 2 ^ 64

unfoldable pub enable_scheduler : Interrupts → Interrupts
enable_scheduler i = record i { scheduler_enabled = Bool.true }

-- The timer interrupt with the frame of the interrupted code at an address: the frame that it
-- returns from.
unfoldable pub handle_irq :
    Interrupts → ℕ → ExceptionFrame → Option (Interrupts × ℕ × ExceptionFrame)
unfolding scheduler_switch_task
handle_irq i frame_ptr frame =
    let ticked : Interrupts = record i { timer_ticks = next_u64 i.timer_ticks } in
    if i.scheduler_enabled && (ticked.timer_ticks % 10 == 0)
    then elim (scheduler_switch_task i.scheduler frame) [
      | none ↦ none
      | some r ↦ some (
        record ticked { switch_counter = next_u64 i.switch_counter; scheduler = r.scheduler },
        r.address,
        r.frame,
      )
    ]
    else some (ticked, frame_ptr, frame)
