-- ===== src/Ipc/Endpoint.antt =====
-- `IpcEndpoint` of src/ipc.rs: a bounded queue of messages and the tasks that wait for one.
use jericho_os.Base.{
  ℕ, Bool, not, Option, none, some, List, [], ◌∷◌, ◌++◌, length, is_empty, contains, leb,
  if◌then◌else◌,
}
use jericho_os.Ipc.Message.{Message, Result, ok, err, queue_full}

pub record IpcEndpoint : Type 0 where
  pub id : ℕ
  pub messages : List Message
  pub waiting_tasks : List ℕ
  pub max_queue_size : ℕ

unfoldable pub new : ℕ → IpcEndpoint
new id = record { id = id; messages = []; waiting_tasks = []; max_queue_size = 16 }

unfoldable pub send : IpcEndpoint → Message → Result IpcEndpoint
send e message =
    if leb e.max_queue_size (length e.messages)
    then err queue_full
    else ok (record e { messages = e.messages ++ message ∷ [] })

unfoldable pub try_receive : IpcEndpoint → IpcEndpoint × Option Message
try_receive e = elim e.messages [
  | [] ↦ (e, none)
  | m ∷ rest ↦ (record e { messages = rest }, some m)
]

unfoldable pub has_messages : IpcEndpoint → Bool
has_messages e = not (is_empty e.messages)

unfoldable pub add_waiter : IpcEndpoint → ℕ → IpcEndpoint
add_waiter e task =
    if contains e.waiting_tasks task
    then e
    else record e { waiting_tasks = e.waiting_tasks ++ task ∷ [] }

unfoldable pub take_waiters : IpcEndpoint → IpcEndpoint × List ℕ
take_waiters e = (record e { waiting_tasks = [] }, e.waiting_tasks)
