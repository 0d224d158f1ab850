-- ===== src/Task.antt =====
-- task.rs: tasks of the x86-64 kernel, their saved registers and their capability space.
-- `Task::new` takes the addresses that the linker and the heap give it, and the value of the
-- static counter NEXT_ID, as arguments. A stack is the address of its 64 KiB.
pub mod Context
pub mod Table
use jericho_os.Base.{ℕ, ◌+◌, ◌*◌, ◌%◌, ◌^◌, Bool, String, ◌==◌}
use jericho_os.Capability.Space.{CSpace}
use jericho_os.Capability.Space
use jericho_os.Task.Context.{TaskContext}
use jericho_os.Task.Context

pub data TaskState : Type 0 where
  ready running blocked terminated : TaskState

-- The discriminants, which the derived equality compares.
abbrev pub discriminant : TaskState → ℕ
discriminant ready = 0
discriminant running = 1
discriminant blocked = 2
discriminant terminated = 3

abbrev pub same_state : TaskState → TaskState → Bool
same_state a b = discriminant a == discriminant b

pub data Priority : Type 0 where
  low normal high realtime : Priority

abbrev pub task_stack_size : ℕ
task_stack_size = 64 * 1024

pub record Task : Type 0 where
  pub id : ℕ
  pub state : TaskState
  pub context : TaskContext
  pub stack : ℕ
  pub cspace : CSpace
  pub priority : Priority
  pub name : String

-- The registers of a task that has not run yet.
unfoldable pub initial_context : ℕ → ℕ → ℕ → TaskContext
unfolding Context.new
initial_context wrapper entry_point stack =
    let top = (stack + task_stack_size) % 2 ^ 64 in
    let fresh : TaskContext = Context.new in
    record fresh { rip = wrapper; rdi = entry_point; rsp = top; rbp = top; rflags = 0x200 }

-- Gives the task and the next value of NEXT_ID, which `fetch_add` wraps.
unfoldable pub new : String → ℕ → ℕ → Priority → ℕ → ℕ → Task × ℕ
unfolding initial_context Space.new
new name entry_point wrapper priority stack next_id = (
  record {
    id = next_id;
    state = ready;
    context = initial_context wrapper entry_point stack;
    stack = stack;
    cspace = Space.new;
    priority = priority;
    name = name;
  },
  (next_id + 1) % 2 ^ 64,
)

unfoldable pub set_state : Task → TaskState → Task
set_state t state = record t { state = state }
