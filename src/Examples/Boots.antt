-- ===== src/Examples/Boots.antt =====
-- The first tasks of main.rs, and what they do.
use jericho_os.Base.{ℕ, ◌≡◌, refl, true, false, some, List, [], ◌∷◌, ◌++◌, arith}
use jericho_os.Base.Assoc
use jericho_os.Capability.Rights.{all_rights}
use jericho_os.Capability.Token.{Capability, memory}
use jericho_os.Capability.Space
use jericho_os.Task.Table
use jericho_os.Task
use jericho_os.Scheduler.{Scheduler, new, add_task, schedule, mark_previous, mark_next, get_task}
use jericho_os.Scheduler
use jericho_os.Syscall.{SyscallContext}
use jericho_os.Boot.SelfTest.{test_capability_system, test_created, test_capability_system_lem}
use jericho_os.Boot.Launch.{Places, new_tasks, add_all, grant_to}
use jericho_os.Boot.Exchange.{Exchange, Turn, of_sender, of_receiver, take_turns, at_start}
use jericho_os.Boot.Turns.{Fits, message}
use jericho_os.Boot.Progress.{senders, receivers}
use jericho_os.Boot.Arrival.{printed, take_turns-printed}

abbrev places : Places
places = record {
  wrapper = 4096;
  receiver = record { entry_point = 8192; stack = 1048576 };
  sender = record { entry_point = 12288; stack = 2097152 };
  bencher = record { entry_point = 16384; stack = 3145728 };
  third = record { entry_point = 20480; stack = 4194304 };
}

-- The scheduler with the receiver as its current task, and with the sender.
abbrev receiver_runs : Scheduler
receiver_runs = (schedule (add_all new (new_tasks places 1))).0

abbrev sender_runs : Scheduler
sender_runs = (schedule receiver_runs).0

receiver-Fits : Fits 2 1 (of_receiver receiver_runs)
unfolding new Table.new add_all new_tasks grant_to add_task Table.add schedule mark_previous
    mark_next Table.get Table.find Table.set_state_in Table.get_mut Table.modify Task.set_state
    Task.new Space.new Space.insert Assoc.insert Scheduler.current_task_id
    Scheduler.current_task_cspace get_task
receiver-Fits = (refl, refl)

sender-Fits : Fits 2 1 (of_sender sender_runs)
unfolding new Table.new add_all new_tasks grant_to add_task Table.add schedule mark_previous
    mark_next Table.get Table.find Table.set_state_in Table.get_mut Table.modify Task.set_state
    Task.new Space.new Space.insert Assoc.insert Scheduler.current_task_id
    Scheduler.current_task_cspace get_task
sender-Fits = (refl, refl)

abbrev early : List Turn
early =
    of_sender sender_runs
    ∷ of_sender sender_runs
    ∷ of_receiver receiver_runs
    ∷ of_sender sender_runs
    ∷ of_sender sender_runs
    ∷ of_receiver receiver_runs
    ∷ of_sender sender_runs
    ∷ of_sender sender_runs
    ∷ []

abbrev late : List Turn
late = of_receiver receiver_runs ∷ of_receiver receiver_runs ∷ of_receiver receiver_runs ∷ []

take_turns-printed_example :
    (x : Exchange) × (take_turns (of_receiver receiver_runs ∷ early ++ late) at_start ≡ some x)
    × (printed x.receiver ≡ message 2 0 ∷ message 2 1 ∷ message 2 2 ∷ [])
unfolding senders receivers
take_turns-printed_example =
    take_turns-printed 2 1 receiver_runs receiver-Fits early late
      (
        sender-Fits,
        (
          sender-Fits,
          (
            receiver-Fits,
            (sender-Fits, (sender-Fits, (receiver-Fits, (sender-Fits, (sender-Fits, tt))))),
          ),
        ),
      )
      (receiver-Fits, (receiver-Fits, (receiver-Fits, tt))) (omega arith) (omega arith)

-- A context whose capability 1 is for memory, with all rights.
abbrev first_cap : Capability
first_cap = record { id = 1; resource_type = memory; resource_id = 4096; rights = all_rights }

abbrev context : SyscallContext
context = record { cspace = record { capabilities = (1, first_cap) ∷ []; next_id = 2 } }

test_capability_system_lem_example :
    let (ctx', lines) = test_created context 1 in
    (test_capability_system context ≡ (context, false ∷ []))
    × (lines ≡ true ∷ true ∷ true ∷ true ∷ true ∷ [])
    × ((id : ℕ) → Space.get ctx'.cspace id ≡ Space.get context.cspace id)
    × (ctx'.cspace.next_id ≡ 4)
unfolding Space.get Assoc.lookup
test_capability_system_lem_example = test_capability_system_lem context 1 first_cap refl refl refl
