-- ===== src/Examples/Messages.antt =====
-- Messages between the two tasks, through an endpoint (ipc.rs).
use jericho_os.Base.{ℕ, ◌≢◌, arith, ◌≡◌, refl, none, some, [], ◌∷◌, ◌++◌, contains}
use jericho_os.Base.Assoc
use jericho_os.Capability.Rights.{all_rights}
use jericho_os.Capability.Token.{endpoint}
use jericho_os.Capability.Space.{CSpace}
use jericho_os.Capability.Space
use jericho_os.Task.Table.{state_of}
use jericho_os.Task.{ready, blocked}
use jericho_os.Scheduler.{Scheduler, block_current, unblock_task}
use jericho_os.Scheduler.Invariant.{IsValid}
use jericho_os.Ipc.Message.{Message, ok, err}
use jericho_os.Ipc.Message
use jericho_os.Ipc.Endpoint
use jericho_os.Ipc.Registry.{IpcRegistry, create_endpoint, get_endpoint}
use jericho_os.Ipc.Registry
use jericho_os.Ipc.Checks.{Allows}
use jericho_os.Ipc.Queues.{pending}
use jericho_os.Ipc.History.{
  History, History-fifo, IsBounded, History-IsBounded, boot, create, send, receive,
}
use jericho_os.Ipc.Sending.{
  SendEnds, send_message-SendEnds, ReceiveEnds, try_receive_message-ReceiveEnds,
}
use jericho_os.Ipc.Wakeup.{Waits, wait_for-Waits, Waits-send_message}
use jericho_os.Ipc.{
  Kernel, finished, authorize, enqueue, dequeue, wake_all, send_message, try_receive_message,
  undisturbed, block, wait_for, receive_round,
}
use jericho_os.Ipc.Blocking.{receive_round_blocks_next}
use jericho_os.Examples.Tasks.{first_runs, first_runs-IsValid, first_runs_current, second_is_ready}

-- The space of a task that may do everything with endpoint 100, under number 1.
abbrev space : CSpace
space = record {
  capabilities =
      (1, record { id = 1; resource_type = endpoint; resource_id = 100; rights = all_rights }) ∷ [];
  next_id = 2;
}

abbrev one_endpoint : IpcRegistry
one_endpoint = (create_endpoint Registry.new 100).0

abbrev kernel : Kernel
kernel = record { registry = some one_endpoint; scheduler = some first_runs }

may_write : Allows (λ r. r.write) space 1 100
unfolding Space.get Assoc.lookup
may_write = record {
  held = record { id = 1; resource_type = endpoint; resource_id = 100; rights = all_rights };
  there = refl;
  kind = refl;
  right = refl;
  names = refl;
}

send_message-SendEnds_example :
    SendEnds kernel 2 space 1 (65 ∷ 48 ∷ []) (send_message kernel 2 space 1 (65 ∷ 48 ∷ []))
send_message-SendEnds_example =
    send_message-SendEnds kernel first_runs 2 space 1 (65 ∷ 48 ∷ []) refl

try_receive_message-ReceiveEnds_example :
    ReceiveEnds kernel space 1 (try_receive_message kernel 1 space 1)
try_receive_message-ReceiveEnds_example = try_receive_message-ReceiveEnds kernel 1 space 1

-- The message goes to the endpoint.
abbrev holding : IpcRegistry
holding = Registry.put one_endpoint 100 (record {
  id = 100;
  messages = record { sender = 2; bytes = 65 ∷ []; transferred_cap = none } ∷ [];
  waiting_tasks = [];
  max_queue_size = 16;
})

accepted : enqueue (some one_endpoint) 2 space 1 (65 ∷ []) ≡ ok (holding, [])
unfolding enqueue Registry.new Registry.create_endpoint Registry.get_endpoint Registry.find
    Registry.put Registry.replace Endpoint.new Endpoint.send Endpoint.take_waiters Message.new
    Space.get Assoc.lookup
accepted = refl

names_endpoint : authorize (λ r. r.write) space 1 ≡ ok 100
unfolding authorize Space.get Assoc.lookup
names_endpoint = refl

one_message :
    History 100 holding (record { sender = 2; bytes = 65 ∷ []; transferred_cap = none } ∷ []) []
one_message = send 2 space 1 (65 ∷ []) (create 100 boot) names_endpoint accepted

-- It is received again.
takes_back :
    dequeue (some holding) space 1
    ≡ ok (one_endpoint, some (record { sender = 2; bytes = 65 ∷ []; transferred_cap = none }))
unfolding dequeue Registry.new Registry.create_endpoint Registry.get_endpoint Registry.find
    Registry.put Registry.replace Endpoint.new Endpoint.try_receive Space.get Assoc.lookup
takes_back = refl

reads_endpoint : authorize (λ r. r.read) space 1 ≡ ok 100
unfolding authorize Space.get Assoc.lookup
reads_endpoint = refl

one_received :
    History 100 one_endpoint
      (record { sender = 2; bytes = 65 ∷ []; transferred_cap = none } ∷ [])
      (record { sender = 2; bytes = 65 ∷ []; transferred_cap = none } ∷ [])
one_received = receive space 1 one_message reads_endpoint takes_back

History-fifo_example :
    record { sender = 2; bytes = 65 ∷ []; transferred_cap = none } ∷ []
    ≡ (record { sender = 2; bytes = 65 ∷ []; transferred_cap = none } ∷ [])
      ++ pending one_endpoint 100
History-fifo_example = History-fifo one_received

History-IsBounded_example : IsBounded holding
History-IsBounded_example = History-IsBounded one_message

-- Task 1 finds no message and waits.
abbrev waiting : Kernel
waiting = record {
  registry = some (
      Registry.put one_endpoint 100
        (record { id = 100; messages = []; waiting_tasks = 1 ∷ []; max_queue_size = 16 }));
  scheduler = some (block_current first_runs);
}

waits : wait_for undisturbed kernel 1 100 ≡ finished waiting (ok none)
unfolding wait_for block Registry.new Registry.create_endpoint Registry.get_endpoint Registry.find
    Registry.put Registry.replace Endpoint.new Endpoint.add_waiter contains
waits = refl

receiver_waits : Waits waiting 1 100
receiver_waits =
    wait_for-Waits kernel waiting first_runs 1 100 refl first_runs-IsValid first_runs_current waits

-- Task 2 sends, and task 1 is woken.
abbrev sent : Kernel
sent = record {
  registry = some holding;
  scheduler = some (unblock_task (block_current first_runs) 1);
}

sends : send_message waiting 2 space 1 (65 ∷ []) ≡ finished sent (ok tt)
unfolding send_message Registry.new Registry.create_endpoint Registry.get_endpoint Registry.find
    Registry.put Registry.replace Endpoint.new Endpoint.send Endpoint.take_waiters Message.new
    Space.get Assoc.lookup wake_all
sends = refl

Waits-send_message_example :
    (r' : IpcRegistry) × (sched : Scheduler) × (sent.registry ≡ some r')
    × (sent.scheduler ≡ some sched)
    × IsValid sched
    × (state_of sched.tasks 1 ≡ some ready)
    × (pending r' 100
        ≡ pending receiver_waits.registry 100
          ++ record { sender = 2; bytes = 65 ∷ []; transferred_cap = none } ∷ [])
Waits-send_message_example =
    Waits-send_message waiting sent 1 100 receiver_waits 2 space 1 (65 ∷ []) may_write sends

-- The loop of task 1 goes on, and its second round blocks task 2.
abbrev waiting_again : Kernel
waiting_again = record waiting { scheduler = some (block_current (block_current first_runs)) }

round : receive_round undisturbed kernel 1 space 1 100 ≡ finished waiting (ok none)
unfolding receive_round wait_for block try_receive_message Registry.new Registry.create_endpoint
    Registry.get_endpoint Registry.find Registry.put Registry.replace Endpoint.new
    Endpoint.add_waiter Endpoint.try_receive contains Space.get Assoc.lookup
round = refl

round_again : receive_round undisturbed waiting 1 space 1 100 ≡ finished waiting_again (ok none)
unfolding receive_round wait_for block try_receive_message Registry.new Registry.create_endpoint
    Registry.get_endpoint Registry.find Registry.put Registry.replace Endpoint.new
    Endpoint.add_waiter Endpoint.try_receive contains Space.get Assoc.lookup
round_again = refl

receive_round_blocks_next_example :
    (next : ℕ) × (s' : Scheduler) × ((block_current first_runs).current_task ≡ some next)
    × (next ≢ 1)
    × (waiting_again.scheduler ≡ some s')
    × (state_of s'.tasks next ≡ some blocked)
    × (state_of s'.tasks 1 ≡ some blocked)
receive_round_blocks_next_example =
    receive_round_blocks_next kernel waiting waiting_again first_runs 1 space 1 100 2 refl
      first_runs-IsValid first_runs_current (λ same. absurd (omega (arith, same))) second_is_ready
      round round_again
