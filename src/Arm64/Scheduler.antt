-- ===== src/Arm64/Scheduler.antt =====
-- The tasks of src/arch/aarch64/scheduler.rs, and the search for the next one. The array of eight tasks
-- is a list; an index that is not in it, which panics, is `none`. A stack is the address of its 16 KiB.
use jericho_os.Base.{
  ℕ, zero, suc, ◌+◌, ◌%◌, Bool, Option, none, some, List, [], ◌∷◌, get_elem?, map, leb, ◌==◌,
  if◌then◌else◌,
}
use jericho_os.Arm64.Context.{TaskContext, init}
use jericho_os.Arm64.Context

abbrev pub max_tasks : ℕ
max_tasks = 8

abbrev pub task_stack_size : ℕ
task_stack_size = 16384

pub data TaskState : Type 0 where
  ready running blocked : TaskState

abbrev pub discriminant : TaskState → ℕ
discriminant ready = 0
discriminant running = 1
discriminant blocked = 2

abbrev pub same_state : TaskState → TaskState → Bool
same_state a b = discriminant a == discriminant b

pub record Task : Type 0 where
  pub context : TaskContext
  pub stack : ℕ
  pub state : TaskState
  pub id : ℕ

pub record Scheduler : Type 0 where
  pub tasks : List Task
  pub num_tasks : ℕ
  pub current_task : ℕ

-- A task that is not in use, at the address of its stack.
unfoldable pub new_task : ℕ → Task
unfolding Context.new
new_task stack = record { context = Context.new; stack = stack; state = blocked; id = 0 }

-- The scheduler at the start, from the addresses of the stacks.
unfoldable pub new : List ℕ → Scheduler
unfolding new_task
new stacks = record { tasks = map new_task stacks; num_tasks = 0; current_task = 0 }

-- `f` on the entry at an index.
unfoldable pub update : ℕ → (Task → Task) → List Task → List Task
update i f [] = []
update zero f (t ∷ ts) = f t ∷ ts
update (suc i) f (t ∷ ts) = t ∷ update i f ts

unfoldable pub spawned : ℕ → ℕ → Task → Task
unfolding init
spawned task_id entry_point t = record t {
  id = task_id;
  state = ready;
  context = init entry_point (t.stack + task_stack_size);
}

unfoldable pub spawn : Scheduler → ℕ → Scheduler × Option ℕ
unfolding update spawned
spawn s entry_point = if leb max_tasks s.num_tasks then (s, none) else (
  record s {
    tasks = update s.num_tasks (spawned s.num_tasks entry_point) s.tasks;
    num_tasks = suc s.num_tasks;
  },
  some s.num_tasks,
)

-- The loop of `schedule`, on fuel: the index where it stops. `none` is an index out of range, or
-- fuel that ran out.
unfoldable pub search : ℕ → Scheduler → ℕ → ℕ → Option ℕ
search zero s start current = none
search (suc fuel) s start current =
    let next = (current + 1) % s.num_tasks in
    let rest = search fuel s start next in
    elim (get_elem? s.tasks next) [
      | none ↦ none
      | some t ↦
          if same_state t.state ready then some next else if next == start then some next else rest
    ]

unfoldable pub schedule : Scheduler → Option Scheduler
unfolding search
schedule s =
    if s.num_tasks == 0 then some s else elim (search max_tasks s s.current_task s.current_task) [
      | none ↦ none
      | some next ↦ some (record s { current_task = next })
    ]
