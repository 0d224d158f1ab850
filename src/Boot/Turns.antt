-- ===== src/Boot/Turns.antt =====
-- One turn of the two tasks of src/main.rs that talk to each other, once both are at work.
use jericho_os.Base.{
  ℕ, zero, suc, ◌+◌, ◌-◌, ◌<◌, ◌≤◌, ◌≡◌, refl, Option, none, some, List, [], ◌∷◌, ◌++◌, length,
  length-append, append-nil, take, drop, ltb, if◌then◌else◌, arith,
}
use jericho_os.Base.Assoc
use jericho_os.Capability.Space.{CSpace}
use jericho_os.Capability.Space
use jericho_os.Scheduler.{Scheduler, current_task_cspace, current_task_id}
use jericho_os.Ipc.Message.{Message, ok, err, ok_or, require}
use jericho_os.Ipc.Message
use jericho_os.Ipc.Endpoint
use jericho_os.Ipc.Registry.{IpcRegistry}
use jericho_os.Ipc.Registry
use jericho_os.Ipc.{
  Kernel, send_message, enqueue, authorize, wake_all, try_receive_message, dequeue,
}
use jericho_os.Boot.Launch.{receiver_cap, sender_cap}
use jericho_os.Boot.Privileges.{granted}
use jericho_os.Boot.Exchange.{
  Sender, waiting, sending, idle, receiving, message_data, send_one, begin_sending, ipc_sender_main,
  receive_one, ipc_receiver_main, Exchange, Turn, of_sender, of_receiver, take_turn,
}

-- The registry with endpoint 100 alone, and these messages in its queue.
abbrev pub holding : List Message → IpcRegistry
holding ms = record {
  endpoints = record { id = 100; messages = ms; waiting_tasks = []; max_queue_size = 16 } ∷ [];
}

abbrev pub message : ℕ → ℕ → Message
message sender_id i = record { sender = sender_id; bytes = message_data i; transferred_cap = none }

-- The first `n` messages of the sender.
unfoldable pub first_messages : ℕ → ℕ → List Message
first_messages sender_id zero = []
first_messages sender_id (suc n) = first_messages sender_id n ++ message sender_id n ∷ []

pub length-first_messages : (sender_id n : ℕ) → length (first_messages sender_id n) ≡ n
unfolding first_messages
length-first_messages sender_id zero = refl
length-first_messages sender_id (suc n) = ground (
  arith,
  length-append (first_messages sender_id n) (message sender_id n ∷ []),
  length-first_messages sender_id n,
)

-- A send that finds the queue not full.
send_one_lem :
    (s : Option Scheduler) (ms : List Message) (sender_id i : ℕ)
    → length ms < 16
    → send_one
        (record { registry = some (holding ms); scheduler = s })
        sender_id
        (granted sender_cap)
        i
      ≡ some (
        record { registry = some (holding (ms ++ message sender_id i ∷ [])); scheduler = s },
        if ltb (i + 1) 3 then sending sender_id (granted sender_cap) (i + 1) else idle,
      )
unfolding send_one send_message enqueue authorize wake_all Space.get Assoc.lookup
    Registry.get_endpoint Registry.find Registry.put Registry.replace Message.new Endpoint.send
    Endpoint.take_waiters
send_one_lem s ms sender_id i room = ground arith

receive_some :
    (s : Option Scheduler) (m : Message) (ms : List Message) (receiver_id : ℕ) (got : List Message)
    → receive_one
        (record { registry = some (holding (m ∷ ms)); scheduler = s })
        receiver_id
        (granted receiver_cap)
        got
      ≡ (
        record { registry = some (holding ms); scheduler = s },
        receiving receiver_id (granted receiver_cap) (got ++ m ∷ []),
      )
unfolding receive_one try_receive_message dequeue authorize Space.get Assoc.lookup
    Registry.get_endpoint Registry.find Registry.put Registry.replace Endpoint.try_receive
receive_some s m ms receiver_id got = refl

receive_none :
    (s : Option Scheduler) (receiver_id : ℕ) (got : List Message)
    → receive_one
        (record { registry = some (holding []); scheduler = s })
        receiver_id
        (granted receiver_cap)
        got
      ≡ (
        record { registry = some (holding []); scheduler = s },
        receiving receiver_id (granted receiver_cap) got,
      )
unfolding receive_one try_receive_message dequeue authorize Space.get Assoc.lookup
    Registry.get_endpoint Registry.find Registry.put Registry.replace Endpoint.try_receive
receive_none s receiver_id got = refl

-- The place of the sender after `t` turns: three yields, then three messages.
abbrev place : ℕ → ℕ → Sender
place sender_id t =
    if ltb t 4
    then waiting (3 - t)
    else if ltb t 6
    then sending sender_id (granted sender_cap) (t - 3)
    else idle

-- Both tasks at work: the sender after `t` turns, the receiver with what it has got.
abbrev pub underway : ℕ → ℕ → Option Scheduler → ℕ → List Message → List Message → Exchange
underway sender_id receiver_id s t got ms = record {
  kernel = record { registry = some (holding ms); scheduler = s };
  sender = place sender_id t;
  receiver = receiving receiver_id (granted receiver_cap) got;
}

-- What the queue holds after a turn of the sender, which has had `t` turns before.
abbrev pub grown : ℕ → ℕ → List Message → List Message
grown sender_id t ms =
    if ltb t 3 then ms else if ltb t 6 then ms ++ message sender_id (t - 3) ∷ [] else ms

-- The scheduler that a task finds has the task as its current one, with the space that it was given.
abbrev pub Fits : ℕ → ℕ → Turn → Type 0
Fits sender_id receiver_id (of_sender s) =
    (current_task_id (some s) ≡ some sender_id)
    × (current_task_cspace (some s) ≡ some (granted sender_cap))
Fits sender_id receiver_id (of_receiver s) =
    (current_task_id (some s) ≡ some receiver_id)
    × (current_task_cspace (some s) ≡ some (granted receiver_cap))

begin_sending_lem :
    (k : Kernel) (sender_id : ℕ) (space : CSpace)
    → current_task_id k.scheduler ≡ some sender_id
    → current_task_cspace k.scheduler ≡ some space
    → begin_sending k ≡ send_one k sender_id space 0
unfolding begin_sending
begin_sending_lem k sender_id space e f = ground arith

module _ (sender_id receiver_id : ℕ) where
  pub take_turn-sender :
      (s : Scheduler) (o : Option Scheduler) (t : ℕ) (got ms : List Message)
      → Fits sender_id receiver_id (of_sender s)
      → t ≤ 6
      → length ms < 16
      → take_turn (of_sender s) (underway sender_id receiver_id o t got ms)
        ≡ some (
            underway sender_id receiver_id
              (some s)
              (if ltb t 6 then t + 1 else t)
              got
              (grown sender_id t ms))
  unfolding take_turn ipc_sender_main begin_sending
  take_turn-sender s o zero got ms fits small room = refl
  take_turn-sender s o (suc zero) got ms fits small room = refl
  take_turn-sender s o (suc (suc zero)) got ms fits small room = refl
  take_turn-sender s o (suc (suc (suc zero))) got ms fits small room = ground (
    arith,
    begin_sending_lem (record { registry = some (holding ms); scheduler = some s }) sender_id
        (granted sender_cap) fits.0 fits.1,
    send_one_lem (some s) ms sender_id 0 room,
  )
  take_turn-sender s o (suc (suc (suc (suc zero)))) got ms fits small room =
      ground (arith, send_one_lem (some s) ms sender_id 1 room)
  take_turn-sender s o (suc (suc (suc (suc (suc zero))))) got ms fits small room =
      ground (arith, send_one_lem (some s) ms sender_id 2 room)
  take_turn-sender s o (suc (suc (suc (suc (suc (suc zero)))))) got ms fits small room = refl
  take_turn-sender s o (suc (suc (suc (suc (suc (suc (suc n))))))) got ms fits small room =
      absurd (omega arith)

  pub take_turn-receiver :
      (s : Scheduler) (o : Option Scheduler) (t : ℕ) (got ms : List Message)
      → length got + length ms ≤ 3
      → take_turn (of_receiver s) (underway sender_id receiver_id o t got ms)
        ≡ some (underway sender_id receiver_id (some s) t (got ++ take 1 ms) (drop 1 ms))
  unfolding take_turn ipc_receiver_main
  take_turn-receiver s o t got [] small =
      ground (arith, receive_none (some s) receiver_id got, append-nil got)
  take_turn-receiver s o t got (m ∷ ms) small =
      ground (arith, receive_some (some s) m ms receiver_id got)
