-- ===== src/Arm64/Resume.antt =====
-- Switches by the timer interrupt in src/arch/aarch64/scheduler.rs: a task that was interrupted goes on
-- with its registers.
use jericho_os.Base.{
  ℕ, zero, suc, ◌<◌, ◌≡◌, refl, ◌∙◌, ap, inl, inr, true, Option, none, some, List, [], ◌∷◌,
  get_elem?, length, ltb, ◌==◌, if◌then◌else◌, Bool-cases, Option-cases, arith,
}
use mathlib.Core.Option
use jericho_os.Arm64.Context.{TaskContext, ExceptionFrame, save, restore}
use jericho_os.Arm64.Scheduler.{Scheduler, Task, TaskState, running, schedule, update}
use jericho_os.Arm64.Switch.{
  set_state, interrupted, interrupt, frame_address, Resumed, resume, scheduler_switch_task,
}
use jericho_os.Arm64.Search.{IsValid, get-in_range, schedule-IsNearest}

pub length-update : (i : ℕ) (f : Task → Task) (ts : List Task) → length (update i f ts) ≡ length ts
unfolding update
length-update i f [] = refl
length-update zero f (t ∷ ts) = refl
length-update (suc i) f (t ∷ ts) = omega (arith, length-update i f ts)

pub get-update :
    (i j : ℕ) (f : Task → Task) (ts : List Task)
    → get_elem? (update i f ts) j
      ≡ (if i == j then Option.map f (get_elem? ts j) else get_elem? ts j)
unfolding update
get-update i j f [] = ground arith
get-update zero zero f (t ∷ ts) = refl
get-update zero (suc j) f (t ∷ ts) = ground arith
get-update (suc i) zero f (t ∷ ts) = ground arith
get-update (suc i) (suc j) f (t ∷ ts) = ground (arith, get-update i j f ts)

-- The saved context of a task.
unfoldable pub context_at : Scheduler → ℕ → Option TaskContext
context_at s i = Option.map (λ t. t.context) (get_elem? s.tasks i)

map_context :
    (f : Task → Task) (g : TaskContext → TaskContext)
    → ((t : Task) → (f t).context ≡ g t.context)
    → (o : Option Task)
    → Option.map (λ t. t.context) (Option.map f o) ≡ Option.map g (Option.map (λ t. t.context) o)
map_context f g same none = refl
map_context f g same (some t) = ap some (same t)

-- A change of one task, on the contexts.
context_at-update :
    (i j : ℕ) (f : Task → Task) (g : TaskContext → TaskContext) (s : Scheduler)
    → ((t : Task) → (f t).context ≡ g t.context)
    → context_at (record s { tasks = update i f s.tasks }) j
      ≡ (if i == j then Option.map g (context_at s j) else context_at s j)
unfolding context_at
context_at-update i j f g s same =
    ground (arith, get-update i j f s.tasks, map_context f g same (get_elem? s.tasks j))

pub interrupt-IsValid :
    (s : Scheduler) (frame : ExceptionFrame) → IsValid s → IsValid (interrupt s frame)
unfolding interrupt
interrupt-IsValid s frame v = elim (Bool-cases (ltb s.current_task s.num_tasks)) [
  | inl e ↦
      rw (interrupt, e)
        (record {
          eight = length-update s.current_task (interrupted frame) s.tasks ∙ v.eight;
          used = v.used;
          current = v.current;
        })
  | inr e ↦ rw (interrupt, e) v
]

-- The interrupt saves the registers of the current task, and touches no other context.
pub context_at-interrupt :
    (s : Scheduler) (frame : ExceptionFrame) (j : ℕ)
    → s.current_task < s.num_tasks
    → context_at (interrupt s frame) j ≡ (
        if s.current_task == j
        then Option.map (λ ctx. save ctx frame) (context_at s j)
        else context_at s j)
unfolding interrupt interrupted
context_at-interrupt s frame j h =
    let in_use : ltb s.current_task s.num_tasks ≡ true = ground arith in
    rw (interrupt, in_use)
      (context_at-update s.current_task j (interrupted frame) (λ ctx. save ctx frame) s (λ t. refl))

set_state_keeps :
    (i j : ℕ) (state : TaskState) (s : Scheduler)
    → context_at (record s { tasks = update i (set_state state) s.tasks }) j ≡ context_at s j
unfolding set_state
set_state_keeps i j state s = elim (Option-cases (context_at s j)) [
  | inl e ↦ ground (arith, context_at-update i j (set_state state) (λ ctx. ctx) s (λ t. refl))
  | inr (ctx, e) ↦
      ground (arith, context_at-update i j (set_state state) (λ ctx. ctx) s (λ t. refl))
]

-- What the second half of a switch leaves: the contexts as they were, and the frame made from the
-- context of the task that is now current.
pub record IsResumed (s : Scheduler) (r : Resumed) : Type 0 where
  pub valid : IsValid r.scheduler
  pub tasks_kept : r.scheduler.num_tasks ≡ s.num_tasks
  pub contexts : (j : ℕ) → context_at r.scheduler j ≡ context_at s j
  pub ctx : TaskContext
  pub resumed : context_at r.scheduler r.scheduler.current_task ≡ some ctx
  pub frame_restored : r.frame ≡ restore ctx
  pub place : r.address ≡ frame_address ctx.sp

pub interrupt_same :
    (s : Scheduler) (frame : ExceptionFrame)
    → ((interrupt s frame).num_tasks ≡ s.num_tasks)
      × ((interrupt s frame).current_task ≡ s.current_task)
unfolding interrupt
interrupt_same s frame = ground arith

pub resume-some :
    (s : Scheduler)
    → s.current_task < length s.tasks
    → (t : Task) × (get_elem? s.tasks s.current_task ≡ some t)
      × (resume (some s)
          ≡ some (record {
            scheduler = record s { tasks = update s.current_task (set_state running) s.tasks };
            address = frame_address t.context.sp;
            frame = restore t.context;
          }))
unfolding resume
resume-some s h = let (t, e) = get-in_range s.tasks s.current_task h in (t, e, rw (e, resume) refl)

context_at-get :
    (s : Scheduler) (i : ℕ) (t : Task)
    → get_elem? s.tasks i ≡ some t
    → context_at s i ≡ some t.context
unfolding context_at
context_at-get s i t e = ap (Option.map (λ t. t.context)) e

context_same :
    (s : Scheduler) (k j : ℕ) → context_at (record s { current_task = k }) j ≡ context_at s j
unfolding context_at
context_same s k j = refl

schedule-IsResumed :
    (s : Scheduler)
    → IsValid s
    → 0 < s.num_tasks
    → (r : Resumed) × (resume (schedule s) ≡ some r) × IsResumed s r
schedule-IsResumed s v some_tasks =
    let (k, chosen, near) = schedule-IsNearest s v some_tasks in
    let next : Scheduler = record s { current_task = k } in
    let (t, there, resumes) = resume-some next (omega (arith, near.in_use, v.used, v.eight)) in
    (
      _,
      ap resume chosen ∙ resumes,
      record {
        valid = record {
          eight = length-update k (set_state running) s.tasks ∙ v.eight;
          used = v.used;
          current = omega (arith, near.in_use);
        };
        tasks_kept = refl;
        contexts = λ j. set_state_keeps k j running next ∙ context_same s k j;
        ctx = t.context;
        resumed = set_state_keeps k k running next ∙ context_at-get next k t there;
        frame_restored = refl;
        place = refl;
      },
    )

-- With a valid scheduler that has tasks, a switch never reads outside the array.
pub switch-IsResumed :
    (s : Scheduler) (frame : ExceptionFrame)
    → IsValid s
    → 0 < s.num_tasks
    → (r : Resumed) × (scheduler_switch_task s frame ≡ some r) × IsResumed (interrupt s frame) r
unfolding scheduler_switch_task
switch-IsResumed s frame v some_tasks =
    schedule-IsResumed (interrupt s frame) (interrupt-IsValid s frame v)
      (omega (arith, interrupt_same s frame))
