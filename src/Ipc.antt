-- ===== src/Ipc.antt =====
-- ipc.rs: message passing between tasks, through endpoints that capabilities name. `Endpoint` and
-- `Registry` are the structures, this file the calls; `Checks`, `Sending`, `Queues`, `History`, `Wakeup`,
-- `Blocking` and `Lost` prove what the calls guarantee, and what they do not. The statics IPC_REGISTRY and
-- SCHEDULER are the fields of `Kernel`.
pub mod Message
pub mod Endpoint
pub mod Registry
pub mod Checks
pub mod Sending
pub mod Queues
pub mod History
pub mod Wakeup
pub mod Blocking
pub mod Lost
use jericho_os.Base.{ℕ, Bool, Option, none, some, List, [], ◌∷◌, if◌then◌else◌}
use jericho_os.Capability.Rights.{Rights}
use jericho_os.Capability.Token.{Capability, endpoint, same_type}
use jericho_os.Capability.Space.{CSpace}
use jericho_os.Capability.Space
use jericho_os.Scheduler.{Scheduler, unblock_task, block_current}
use Message.{
  Result, ok, err, IpcError, endpoint_not_found, permission_denied, ◌>>=◌, ok_or, require, ◌>>◌,
}
use Endpoint.{IpcEndpoint}
use Registry.{IpcRegistry}

pub record Kernel : Type 0 where
  pub registry : Option IpcRegistry
  pub scheduler : Option Scheduler

-- A call that comes back, with the kernel that it leaves, or an `unwrap` of `None`.
pub data Outcome {ℓ} (A : Type ℓ) : Type ℓ where
  finished : Kernel → Result A → Outcome A
  panicked : Outcome A

unfoldable pub init : Kernel → Kernel
init k = record k { registry = some Registry.new }

unfoldable pub create_endpoint : Kernel → ℕ → Kernel × Result ℕ
create_endpoint k cap_id = elim k.registry [
  | none ↦ (k, err endpoint_not_found)
  | some r ↦
      let (r', id) = Registry.create_endpoint r cap_id in (record k { registry = some r' }, ok id)
]

-- The checks that the three calls begin with: the capability is there, is for an endpoint, and has
-- the right that the call needs. They give the endpoint that it is for.
unfoldable pub authorize : (Rights → Bool) → CSpace → ℕ → Result ℕ
authorize needed cspace endpoint_cap = do
  cap ← ok_or (Space.get cspace endpoint_cap) permission_denied
  require permission_denied (same_type cap.resource_type endpoint)
  require permission_denied (needed cap.rights)
  ok cap.resource_id

-- `send_message` up to the wake-ups: the registry that it leaves, and the tasks to wake.
unfoldable pub enqueue :
    Option IpcRegistry → ℕ → CSpace → ℕ → List ℕ → Result (IpcRegistry × List ℕ)
unfolding authorize
enqueue registry sender sender_cspace endpoint_cap bytes = do
  target ← authorize (λ r. r.write) sender_cspace endpoint_cap
  r ← ok_or registry endpoint_not_found
  e ← ok_or (Registry.get_endpoint r target) endpoint_not_found
  message ← Message.new sender bytes
  e' ← Endpoint.send e message
  ok (Registry.put r target (Endpoint.take_waiters e').0, (Endpoint.take_waiters e').1)

-- `SCHEDULER.lock().as_mut().unwrap().unblock_task(id)` for each of the tasks; `none` is the panic.
unfoldable pub wake_all : Option Scheduler → List ℕ → Option (Option Scheduler)
wake_all scheduler [] = some scheduler
wake_all none (id ∷ ids) = none
wake_all (some s) (id ∷ ids) = wake_all (some (unblock_task s id)) ids

unfoldable pub send_message : Kernel → ℕ → CSpace → ℕ → List ℕ → Outcome (Unit {0})
unfolding enqueue
send_message k sender sender_cspace endpoint_cap bytes =
    elim (enqueue k.registry sender sender_cspace endpoint_cap bytes) [
      | err e ↦ finished k (err e)
      | ok (r, waiters) ↦ elim (wake_all k.scheduler waiters) [
        | none ↦ panicked
        | some s ↦ finished (record { registry = some r; scheduler = s }) (ok tt)
      ]
    ]

-- The registry that is left, and the message, if there was one.
unfoldable pub dequeue :
    Option IpcRegistry → CSpace → ℕ → Result (IpcRegistry × Option Message.Message)
unfolding authorize
dequeue registry receiver_cspace endpoint_cap = do
  target ← authorize (λ r. r.read) receiver_cspace endpoint_cap
  r ← ok_or registry endpoint_not_found
  e ← ok_or (Registry.get_endpoint r target) endpoint_not_found
  ok (Registry.put r target (Endpoint.try_receive e).0, (Endpoint.try_receive e).1)

unfoldable pub try_receive_message :
    Kernel → ℕ → CSpace → ℕ → Kernel × Result (Option Message.Message)
unfolding dequeue
try_receive_message k receiver receiver_cspace endpoint_cap =
    elim (dequeue k.registry receiver_cspace endpoint_cap) [
      | err e ↦ (k, err e)
      | ok (r, message) ↦ (record k { registry = some r }, ok message)
    ]

-- The registry with the receiver among the waiters of the endpoint.
unfoldable pub await : Option IpcRegistry → ℕ → ℕ → Result IpcRegistry
await registry receiver target = do
  r ← ok_or registry endpoint_not_found
  e ← ok_or (Registry.get_endpoint r target) endpoint_not_found
  ok (Registry.put r target (Endpoint.add_waiter e receiver))

-- What the other tasks and interrupts do to the kernel while a round of the blocking receive holds no lock:
-- between `try_receive` and `add_waiter`, between `add_waiter` and `block_current`, and from then until the
-- next round.
pub record Others : Type 0 where
  pub before_wait : Kernel → Kernel
  pub before_block : Kernel → Kernel
  pub before_next : Kernel → Kernel

-- Nothing happens in between.
abbrev pub undisturbed : Others
undisturbed = record { before_wait = λ k. k; before_block = λ k. k; before_next = λ k. k }

-- `SCHEDULER.lock().as_mut().unwrap().block_current()`. `ok none` goes round the loop again.
unfoldable pub block : Kernel → Outcome (Option Message.Message)
block k = elim k.scheduler [
  | none ↦ panicked
  | some s ↦ finished (record k { scheduler = some (block_current s) }) (ok none)
]

-- The branch without a message: register as a waiter, under the lock of the registry, and then block, under
-- that of the scheduler.
unfoldable pub wait_for : Others → Kernel → ℕ → ℕ → Outcome (Option Message.Message)
unfolding await block
wait_for others k receiver target = elim (await k.registry receiver target) [
  | err e ↦ finished k (err e)
  | ok r ↦ block (others.before_block (record k { registry = some r }))
]

-- One round of the loop of `receive_message_blocking`.
unfoldable pub receive_round :
    Others → Kernel → ℕ → CSpace → ℕ → ℕ → Outcome (Option Message.Message)
unfolding try_receive_message wait_for
receive_round others k receiver receiver_cspace endpoint_cap target =
    let (k', received) = try_receive_message k receiver receiver_cspace endpoint_cap in
    elim received [
      | err e ↦ finished k' (err e)
      | ok (some message) ↦ finished k' (ok (some message))
      | ok none ↦ wait_for others (others.before_wait k') receiver target
    ]

-- `receive_message_blocking`, against what the others do in each of its rounds. `none` means that the list
-- ends while it still waits.
unfoldable pub receive_loop :
    List Others → Kernel → ℕ → CSpace → ℕ → ℕ → Option (Outcome Message.Message)
unfolding receive_round
receive_loop [] k receiver receiver_cspace endpoint_cap target = none
receive_loop (others ∷ rest) k receiver receiver_cspace endpoint_cap target =
    elim (receive_round others k receiver receiver_cspace endpoint_cap target) [
      | panicked ↦ some panicked
      | finished k' (err e) ↦ some (finished k' (err e))
      | finished k' (ok (some message)) ↦ some (finished k' (ok message))
      | finished k' (ok none) ↦
          receive_loop rest (others.before_next k') receiver receiver_cspace endpoint_cap target
    ]

unfoldable pub receive_message_blocking :
    List Others → Kernel → ℕ → CSpace → ℕ → Option (Outcome Message.Message)
unfolding authorize receive_loop
receive_message_blocking others k receiver receiver_cspace endpoint_cap =
    elim (authorize (λ r. r.read) receiver_cspace endpoint_cap) [
      | err e ↦ some (finished k (err e))
      | ok target ↦ receive_loop others k receiver receiver_cspace endpoint_cap target
    ]
