-- ===== src/Boot/Launch.antt =====
-- `test_scheduler` of src/main.rs: the first four tasks, their capabilities, and the jump into the
-- first one. The addresses of the functions and of the stacks are the linker's and the heap's, and
-- the value of the static NEXT_ID is an argument.
use jericho_os.Base.{ℕ, true, false, Option, none, some, List, [], ◌∷◌}
use jericho_os.Capability.Rights.{read_only}
use jericho_os.Capability.Token.{Capability, endpoint}
use jericho_os.Capability.Space.{CSpace}
use jericho_os.Capability.Space
use jericho_os.Task.{Task, normal, task_stack_size, running}
use jericho_os.Task
use jericho_os.Task.Context.{TaskContext}
use jericho_os.Scheduler.{Scheduler, add_task, schedule, get_task}

-- Where a task starts, and its stack.
pub record Place : Type 0 where
  pub entry_point : ℕ
  pub stack : ℕ

pub record Places : Type 0 where
  pub wrapper : ℕ
  pub receiver : Place
  pub sender : Place
  pub bencher : Place
  pub third : Place

abbrev pub receiver_cap : Capability
receiver_cap = record { id = 1; resource_type = endpoint; resource_id = 100; rights = read_only }

abbrev pub sender_cap : Capability
sender_cap = record {
  id = 1;
  resource_type = endpoint;
  resource_id = 100;
  rights = record { read = false; write = true; execute = false; grant = false };
}

-- `task.cspace_mut().insert(cap)`.
unfoldable pub grant_to : Task → Capability → Task
unfolding Space.insert
grant_to task cap = record task { cspace = (Space.insert task.cspace cap).0 }

-- The four tasks, in the order of their making.
unfoldable pub new_tasks : Places → ℕ → List Task
unfolding Task.new grant_to
new_tasks p next_id =
    let (receiver, n₁) =
      Task.new "ipc_receiver" p.receiver.entry_point p.wrapper normal p.receiver.stack next_id in
    let (sender, n₂) =
      Task.new "ipc_sender" p.sender.entry_point p.wrapper normal p.sender.stack n₁ in
    let (bencher, n₃) =
      Task.new "benchmark" p.bencher.entry_point p.wrapper normal p.bencher.stack n₂ in
    let (third, n₄) = Task.new "task3" p.third.entry_point p.wrapper normal p.third.stack n₃ in
    grant_to receiver receiver_cap ∷ grant_to sender sender_cap ∷ bencher ∷ third ∷ []

unfoldable pub add_all : Scheduler → List Task → Scheduler
unfolding add_task
add_all s [] = s
add_all s (t ∷ ts) = add_all (add_task s t).0 ts

-- It panics, or it jumps: the scheduler, and the context that `switch_context` is given.
pub data Launched : Type 0 where
  panics : Launched
  jumps : Scheduler → TaskContext → Launched

-- The context of the current task, with an `unwrap` at each step.
unfoldable pub first_task_context : Scheduler → Launched
unfolding get_task
first_task_context s = elim s.current_task [
  | none ↦ panics
  | some current_id ↦ elim (get_task s current_id) [
    | none ↦ panics
    | some task ↦ jumps s task.context
  ]
]

unfoldable pub test_scheduler : Option Scheduler → Places → ℕ → Launched
unfolding new_tasks add_all schedule first_task_context
test_scheduler none p next_id = panics
test_scheduler (some s) p next_id =
    first_task_context (schedule (add_all s (new_tasks p next_id))).0
