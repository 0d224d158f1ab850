-- ===== src/Examples/Tasks.antt =====
-- Two tasks under the scheduler of scheduler.rs.
use jericho_os.Base.{ℕ, ◌≡◌, refl, some, true, [], ◌∷◌, subst, arith}
use mathlib.Core.Option.{some-injective}
use jericho_os.Task.{Task, normal, ready, running}
use jericho_os.Task
use jericho_os.Task.Table
use jericho_os.Task.Table.{state_of, set_state_in}
use jericho_os.Scheduler.{Scheduler, new, add_task, schedule, mark_previous, mark_next}
use jericho_os.Scheduler.Invariant.{IsValid}
use jericho_os.Scheduler.Rounds.{rounds, rounds_fair}
use jericho_os.Scheduler.Reach.{System, Reach, Reach-IsSound, IsSound, boot, next, spawn, round}
use jericho_os.Scheduler.Yield.{Machine, Yields, task_yield, task_yield-Yields}

-- After boot, two new tasks, and the first round.
abbrev started : System
unfolding new Table.new
started = record { scheduler = new; next_id = 1 }

abbrev pub task : ℕ → Task
unfolding Task.new
task id = (Task.new "task" 4096 8192 normal 65536 id).0

abbrev pub two_tasks : Scheduler
two_tasks = (add_task (add_task new (task 1)).0 (task 2)).0

two_tasks-Reach : Reach (record { scheduler = two_tasks; next_id = 3 })
unfolding Task.new
two_tasks-Reach =
    next (next boot (spawn "task" 4096 8192 normal 65536 (omega arith)))
      (spawn "task" 4096 8192 normal 65536 (omega arith))

abbrev pub first_runs : Scheduler
first_runs = (schedule two_tasks).0

first_runs-Reach : Reach (record { scheduler = first_runs; next_id = 3 })
first_runs-Reach = next two_tasks-Reach round

Reach-IsSound_example : IsSound (record { scheduler = first_runs; next_id = 3 })
Reach-IsSound_example = Reach-IsSound first_runs-Reach

pub two_tasks-IsValid : IsValid two_tasks
two_tasks-IsValid = (Reach-IsSound two_tasks-Reach).valid

pub first_runs-IsValid : IsValid first_runs
first_runs-IsValid = (Reach-IsSound first_runs-Reach).valid

rounds_fair_example :
    let (s', chosen) = schedule (rounds 1 two_tasks) in
    (chosen ≡ some 2) × (s'.current_task ≡ some 2) × (s'.ready_queue ≡ 1 ∷ 2 ∷ [])
unfolding new Table.new add_task Table.add Task.new
rounds_fair_example = rounds_fair two_tasks (1 ∷ []) 2 [] two_tasks-IsValid refl

abbrev machine : Machine
machine = record { interrupts = true; scheduler = some first_runs }

task_yield-Yields_example : Yields machine (task_yield machine)
task_yield-Yields_example =
    task_yield-Yields machine
      (λ s e. subst IsValid (some-injective first_runs s e) first_runs-IsValid)

pub first_runs_current : first_runs.current_task ≡ some 1
unfolding new Table.new add_task Table.add Task.new schedule mark_previous mark_next Table.get
    Table.find Table.set_state_in Table.get_mut Table.modify Task.set_state
first_runs_current = refl

pub second_is_ready : state_of first_runs.tasks 2 ≡ some ready
unfolding new Table.new add_task Table.add Task.new schedule mark_previous mark_next Table.get
    Table.find Table.set_state_in Table.get_mut Table.modify Task.set_state state_of
second_is_ready = refl
