-- ===== src/Scheduler.antt =====
-- scheduler.rs: the round-robin scheduler of the x86-64 kernel, its state and its methods.
-- `Yield` models `task_yield`, `Switch` the assembly of `switch_context`; `Invariant`, `Rounds`
-- and `Blocking` prove what the methods guarantee.
pub mod Invariant
pub mod Blocking
pub mod Rounds
pub mod Reach
pub mod Yield
pub mod Assembly
pub mod Resumption
use jericho_os.Base.{
  ℕ, ◌≡◌, Bool, true, false, Option, none, some, List, [], ◌∷◌, ◌++◌, without, if◌then◌else◌,
}
use jericho_os.Capability.Space.{CSpace}
use jericho_os.Task.{Task, ready, running, blocked, terminated, same_state}
use jericho_os.Task.Table.{TaskList, set_state_in}
use jericho_os.Task.Table

pub record Scheduler : Type 0 where
  pub tasks : TaskList
  pub current_task : Option ℕ
  pub ready_queue : List ℕ

unfoldable pub new : Scheduler
unfolding Table.new
new = record { tasks = Table.new; current_task = none; ready_queue = [] }

unfoldable pub add_task : Scheduler → Task → Scheduler × ℕ
add_task s task = (
  record s { tasks = (Table.add s.tasks task).0; ready_queue = s.ready_queue ++ task.id ∷ [] },
  task.id,
)

unfoldable pub task_count : Scheduler → ℕ
task_count s = Table.length s.tasks

unfoldable pub get_task : Scheduler → ℕ → Option Task
get_task s id = Table.get s.tasks id

-- Mark the previous task as ready, if it was running.
unfoldable pub mark_previous : Scheduler → Scheduler
mark_previous s = elim s.current_task [
  | none ↦ s
  | some current_id ↦ elim (Table.get s.tasks current_id) [
    | none ↦ s
    | some current ↦
        if same_state current.state running
        then record s { tasks = set_state_in s.tasks current_id ready }
        else s
  ]
]

-- Mark the task from the head of the queue as running, and queue it for the next round.
unfoldable pub mark_next : Scheduler → ℕ → Scheduler × Option ℕ
mark_next s next_id = elim (Table.get s.tasks next_id) [
  | none ↦ (s, none)
  | some next ↦
      if same_state next.state ready
      then (
        record s {
          tasks = set_state_in s.tasks next_id running;
          current_task = some next_id;
          ready_queue = s.ready_queue ++ next_id ∷ [];
        },
        some next_id,
      )
      else (s, none)
]

unfoldable pub schedule : Scheduler → Scheduler × Option ℕ
schedule s = elim s.ready_queue [
  | [] ↦ (s, none)
  | next_id ∷ rest ↦ mark_next (mark_previous (record s { ready_queue = rest })) next_id
]

unfoldable pub yield_cpu : Scheduler → Scheduler
yield_cpu s = (schedule s).0

unfoldable pub block_current : Scheduler → Scheduler
block_current s = elim s.current_task [
  | none ↦ s
  | some current_id ↦
      (schedule (record s {
        tasks = set_state_in s.tasks current_id blocked;
        ready_queue = without current_id s.ready_queue;
      })).0
]

unfoldable pub unblock_task : Scheduler → ℕ → Scheduler
unblock_task s task_id = elim (Table.get s.tasks task_id) [
  | none ↦ s
  | some task ↦
      if same_state task.state blocked
      then record s {
        tasks = set_state_in s.tasks task_id ready;
        ready_queue = s.ready_queue ++ task_id ∷ [];
      }
      else s
]

unfoldable pub terminate_current : Scheduler → Scheduler
terminate_current s = elim s.current_task [
  | none ↦ s
  | some current_id ↦
      (schedule (record s {
        tasks = set_state_in s.tasks current_id terminated;
        current_task = none;
        ready_queue = without current_id s.ready_queue;
      })).0
]

-- The static SCHEDULER, `None` until `init`.
unfoldable pub init : Option Scheduler
unfolding new
init = some new

unfoldable pub current_task_cspace : Option Scheduler → Option CSpace
current_task_cspace none = none
current_task_cspace (some s) = elim s.current_task [
  | none ↦ none
  | some current_id ↦ elim (get_task s current_id) [ none ↦ none | some task ↦ some task.cspace ]
]

unfoldable pub current_task_id : Option Scheduler → Option ℕ
current_task_id none = none
current_task_id (some s) = s.current_task
