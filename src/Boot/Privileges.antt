-- ===== src/Boot/Privileges.antt =====
-- What `test_scheduler` of src/main.rs leaves when it jumps into the first task.
use jericho_os.Base.{ℕ, ◌+◌, ◌%◌, ◌^◌, ◌≡◌, ◌↔◌, some, List, [], ◌∷◌, ◌==◌, if◌then◌else◌}
use jericho_os.Base.Assoc
use jericho_os.Capability.Rights.{Rights}
use jericho_os.Capability.Token.{Capability}
use jericho_os.Capability.Space.{CSpace}
use jericho_os.Capability.Space
use jericho_os.Task.{Task, task_stack_size, running}
use jericho_os.Task
use jericho_os.Task.Context.{TaskContext}
use jericho_os.Task.Context
use jericho_os.Task.Table
use jericho_os.Scheduler.{Scheduler, get_task}
use jericho_os.Scheduler
use jericho_os.Scheduler.Invariant.{IsValid}
use jericho_os.Ipc.Checks.{Allows}
use jericho_os.Boot.Launch.{Places, receiver_cap, sender_cap, new_tasks}

-- The scheduler that the jump leaves: the receiver runs and is queued for its next round.
abbrev launched : Places → ℕ → Scheduler
launched p n = record {
  tasks = record { tasks = by_tasks (new_tasks p n) };
  current_task = some n;
  ready_queue =
      (n + 1) % 2 ^ 64
      ∷ ((n + 1) % 2 ^ 64 + 1) % 2 ^ 64
      ∷ (((n + 1) % 2 ^ 64 + 1) % 2 ^ 64 + 1) % 2 ^ 64
      ∷ n
      ∷ [];
}
  where
    by_tasks : List Task → List Task
    by_tasks [] = []
    by_tasks (t ∷ ts) = record t { state = running } ∷ ts

-- The space of a task that was granted one capability.
abbrev pub granted : Capability → CSpace
granted c = record { capabilities = (c.id, c) ∷ []; next_id = 1 }

-- The four spaces.
abbrev spaces : ℕ → ℕ → CSpace
spaces n k =
    if k == n then granted receiver_cap else if k == n + 1 then granted sender_cap else Space.new

-- The kernel after `test_scheduler` of a kernel whose NEXT_ID was `n`, with the context `c` that the
-- jump loads. Each of the four tasks is known, the receiver runs; only the receiver may read, only the
-- sender may write, and both only at endpoint 100, by their capability 1.
pub record IsLaunched (p : Places) (n : ℕ) (s : Scheduler) (c : TaskContext) : Type 0 where
  pub valid : IsValid s
  pub current : s.current_task ≡ some n
  pub order : s.ready_queue ≡ (n + 1) ∷ (n + 2) ∷ (n + 3) ∷ n ∷ []
  pub code : (c.rip ≡ p.wrapper) × (c.rdi ≡ p.receiver.entry_point)
  pub stack : c.rsp ≡ (p.receiver.stack + task_stack_size) % 2 ^ 64
  pub interrupts : c.rflags ≡ 0x200
  pub reads :
      (k number target : ℕ) (t : Task)
      → get_task s k ≡ some t
      → Allows (λ r. r.read) t.cspace number target ↔ ((k ≡ n) × (number ≡ 1) × (target ≡ 100))
  pub writes :
      (k number target : ℕ) (t : Task)
      → get_task s k ≡ some t
      → Allows (λ r. r.write) t.cspace number target ↔ ((k ≡ n + 1) × (number ≡ 1) × (target ≡ 100))
