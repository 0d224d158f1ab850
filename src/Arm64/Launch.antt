-- ===== src/Arm64/Launch.antt =====
-- The tasks that `kernel_main` of src/main_aarch64.rs starts with, and its jump into the first one. The
-- entry points are the linker's.
use jericho_os.Base.{
  ℕ, ◌+◌, ◌≡◌, refl, Bool, true, false, none, some, List, [], ◌∷◌, get_elem?, ltb, if◌then◌else◌,
  length, arith,
}
use jericho_os.Arm64.Context
use jericho_os.Arm64.Scheduler.{
  Scheduler, running, new, new_task, update, spawned, spawn, task_stack_size,
}
use jericho_os.Arm64.Switch.{set_state}
use jericho_os.Arm64.Reach.{History, boot, spawns, starts_first}

pub record Entries : Type 0 where
  pub task1 : ℕ
  pub task2 : ℕ
  pub task3 : ℕ
  pub bench_task_a : ℕ
  pub bench_task_b : ℕ

-- Through with the boot: it waits for ever without a task, or it jumps, with the program counter, the stack pointer
-- and the processor state that it loads. `panics` is an index out of range.
pub data Launched : Type 0 where
  waits panics : Launched
  jumps : Scheduler → ℕ → ℕ → ℕ → Launched

unfoldable pub spawn_all : Scheduler → List ℕ → Scheduler
unfolding spawn
spawn_all s [] = s
spawn_all s (entry_point ∷ entries) = spawn_all (spawn s entry_point).0 entries

-- The constant RUN_BENCHMARK chooses the tasks.
abbrev pub first_tasks : Bool → Entries → List ℕ
first_tasks run_benchmark e =
    if run_benchmark then e.bench_task_a ∷ e.bench_task_b ∷ [] else e.task1 ∷ e.task2 ∷ e.task3 ∷ []

unfoldable pub launch : Scheduler → Launched
unfolding update set_state
launch s =
    if ltb 0 s.num_tasks
    then elim (get_elem? s.tasks 0) [
      | none ↦ panics
      | some t ↦
          jumps (record s { tasks = update 0 (set_state running) s.tasks }) t.context.pc
            t.context.sp t.context.pstate
    ]
    else waits

unfoldable pub kernel_main : Bool → Entries → Scheduler → Launched
unfolding spawn_all launch
kernel_main run_benchmark e s = launch (spawn_all s (first_tasks run_benchmark e))

-- The jump: into the first task, at the end of its stack, in EL1h with interrupts enabled; the first task runs and the others are ready.
abbrev pub JumpsInto : ℕ → ℕ → ℕ → Launched → Type 0
JumpsInto entry_point stack count waits = ⊥
JumpsInto entry_point stack count panics = ⊥
JumpsInto entry_point stack count (jumps s pc sp pstate) =
    (pc ≡ entry_point)
    × (sp ≡ stack + task_stack_size)
    × (pstate ≡ 5)
    × History s
    × (s.num_tasks ≡ count)
    × (s.current_task ≡ 0)

-- The boot ends with the jump into the first of its tasks, `task1` or `bench_task_a`, at the end of the first
-- stack, in EL1h with interrupts enabled. There are three tasks, or two, the first is the current one, and the
-- scheduler has one of the histories of `History`.
pub kernel_main-JumpsInto :
    (e : Entries) (run_benchmark : Bool) (stack : ℕ) (stacks : List ℕ)
    → length stacks ≡ 7
    → JumpsInto
        (if run_benchmark then e.bench_task_a else e.task1)
        stack
        (if run_benchmark then 2 else 3)
        (kernel_main run_benchmark e (new (stack ∷ stacks)))
unfolding kernel_main spawn_all spawn launch new new_task update spawned Context.init Context.new
kernel_main-JumpsInto e true stack stacks seven = (
  refl,
  refl,
  refl,
  starts_first (spawns e.bench_task_b (spawns e.bench_task_a (boot (stack ∷ stacks) (omega arith))))
      refl,
  refl,
  refl,
)
kernel_main-JumpsInto e false stack stacks seven = (
  refl,
  refl,
  refl,
  starts_first
      (spawns e.task3 (spawns e.task2 (spawns e.task1 (boot (stack ∷ stacks) (omega arith))))) refl,
  refl,
  refl,
)
