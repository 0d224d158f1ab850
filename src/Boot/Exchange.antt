-- ===== src/Boot/Exchange.antt =====
-- `ipc_sender_main` and `ipc_receiver_main` of src/main.rs, the two tasks of the kernel that talk to
-- each other. A step of a task is one round of its loop, with the kernel call that it makes; yields
-- only end a step, and printing is left out. Which task makes the next step is not fixed: a turn
-- names the task, and gives the scheduler that it then finds.
use jericho_os.Base.{
  ℕ, zero, suc, ◌+◌, ◌%◌, Option, none, some, List, [], ◌∷◌, ◌++◌, length, ltb, if◌then◌else◌,
}
use jericho_os.Capability.Space.{CSpace}
use jericho_os.Scheduler.{Scheduler, current_task_cspace, current_task_id}
use jericho_os.Ipc.Message.{Message, ok, err}
use jericho_os.Ipc.{Kernel, finished, panicked, create_endpoint, send_message, try_receive_message}

-- The sender yields some times more before it starts; or it is in round `i` of its loop, with its
-- identifier and the copy of its space; or it is done.
pub data Sender : Type 0 where
  waiting : ℕ → Sender
  sending : ℕ → CSpace → ℕ → Sender
  idle : Sender

-- The receiver has not started; or it could not make its endpoint; or it receives, with the messages
-- that it has printed. Its counter `received` is their number.
pub data Receiver : Type 0 where
  starting failed : Receiver
  receiving : ℕ → CSpace → List Message → Receiver

-- `vec![b'A' + i, b'0' + i, 0]`.
abbrev pub message_data : ℕ → List ℕ
message_data i = (65 + i) % 256 ∷ (48 + i) % 256 ∷ 0 ∷ []

-- A round of the loop that sends. `none` is a panic.
unfoldable pub send_one : Kernel → ℕ → CSpace → ℕ → Option (Kernel × Sender)
unfolding send_message
send_one k sender_id sender_cspace i =
    elim (send_message k sender_id sender_cspace 1 (message_data i)) [
      | panicked ↦ none
      | finished k' result ↦
          some (k', if ltb (i + 1) 3 then sending sender_id sender_cspace (i + 1) else idle)
    ]

-- The sender gets its identifier and a copy of its space, and sends the first message.
unfoldable pub begin_sending : Kernel → Option (Kernel × Sender)
unfolding send_one
begin_sending k = elim (current_task_id k.scheduler) [
  | none ↦ none
  | some sender_id ↦ elim (current_task_cspace k.scheduler) [
    | none ↦ none
    | some sender_cspace ↦ send_one k sender_id sender_cspace 0
  ]
]

unfoldable pub ipc_sender_main : Kernel → Sender → Option (Kernel × Sender)
unfolding begin_sending send_one
ipc_sender_main k (waiting (suc n)) = some (k, waiting n)
ipc_sender_main k (waiting zero) = begin_sending k
ipc_sender_main k (sending sender_id sender_cspace i) = send_one k sender_id sender_cspace i
ipc_sender_main k idle = some (k, idle)

-- The receiver gets its identifier and a copy of its space, and makes endpoint 100.
unfoldable pub begin_receiving : Kernel → Option (Kernel × Receiver)
begin_receiving k = elim (current_task_id k.scheduler) [
  | none ↦ none
  | some receiver_id ↦ elim (current_task_cspace k.scheduler) [
    | none ↦ none
    | some receiver_cspace ↦
        let (k', created) = create_endpoint k 100 in
        elim created [
          | ok id ↦ some (k', receiving receiver_id receiver_cspace [])
          | err e ↦ some (k', failed)
        ]
  ]
]

-- A round of `while received < 3`.
unfoldable pub receive_one : Kernel → ℕ → CSpace → List Message → Kernel × Receiver
receive_one k receiver_id receiver_cspace got =
    let (k', received) = try_receive_message k receiver_id receiver_cspace 1 in
    elim received [
      | ok (some msg) ↦ (k', receiving receiver_id receiver_cspace (got ++ msg ∷ []))
      | ok none ↦ (k', receiving receiver_id receiver_cspace got)
      | err e ↦ (k', receiving receiver_id receiver_cspace got)
    ]

unfoldable pub ipc_receiver_main : Kernel → Receiver → Option (Kernel × Receiver)
unfolding begin_receiving receive_one
ipc_receiver_main k starting = begin_receiving k
ipc_receiver_main k failed = some (k, failed)
ipc_receiver_main k (receiving receiver_id receiver_cspace got) =
    if ltb (length got) 3
    then some (receive_one k receiver_id receiver_cspace got)
    else some (k, receiving receiver_id receiver_cspace got)

-- The kernel and the places of the two tasks.
pub record Exchange : Type 0 where
  pub kernel : Kernel
  pub sender : Sender
  pub receiver : Receiver

pub data Turn : Type 0 where
  of_sender of_receiver : Scheduler → Turn

unfoldable pub take_turn : Turn → Exchange → Option Exchange
unfolding ipc_sender_main ipc_receiver_main
take_turn (of_sender s) x =
    elim (ipc_sender_main (record { registry = x.kernel.registry; scheduler = some s }) x.sender) [
      | none ↦ none
      | some (k, sender) ↦ some (record x { kernel = k; sender = sender })
    ]
take_turn (of_receiver s) x =
    elim (ipc_receiver_main (record { registry = x.kernel.registry; scheduler = some s })
      x.receiver) [
        | none ↦ none
        | some (k, receiver) ↦ some (record x { kernel = k; receiver = receiver })
      ]

-- The turns of a list, in order. `none` is a panic.
unfoldable pub take_turns : List Turn → Exchange → Option Exchange
unfolding take_turn
take_turns [] x = some x
take_turns (t ∷ ts) x = elim (take_turn t x) [ none ↦ none | some x' ↦ take_turns ts x' ]

-- Before the first turn: the registry is empty, and the sender has three yields before it.
abbrev pub at_start : Exchange
at_start = record {
  kernel = record { registry = some (record { endpoints = [] }); scheduler = none };
  sender = waiting 3;
  receiver = starting;
}
