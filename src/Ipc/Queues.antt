-- ===== src/Ipc/Queues.antt =====
-- The message queues of src/ipc.rs over whole histories: bounds, and first in, first out.
use jericho_os.Base.{
  ℕ, ◌≡◌, ◌∙◌, Option, none, some, List, [], ◌∷◌, ◌++◌, ◌==◌, if◌then◌else◌, arith,
}
use jericho_os.Capability.Space.{CSpace}
use jericho_os.Ipc.Message.{Message, ok, bind-ok, ok_or-ok}
use jericho_os.Ipc.Endpoint.{IpcEndpoint}
use jericho_os.Ipc.Endpoint
use jericho_os.Ipc.Registry.{
  IpcRegistry, get_endpoint, put, create_endpoint, get_endpoint-put, get_endpoint_id,
  get_endpoint-create,
}
use jericho_os.Ipc.Checks.{Sent, Received, received}
use jericho_os.Ipc.{await}

-- What waits at an endpoint, oldest first.
unfoldable pub pending : IpcRegistry → ℕ → List Message
pending r id = elim (get_endpoint r id) [ none ↦ [] | some e ↦ e.messages ]

pending-put :
    (r : IpcRegistry) (id k : ℕ) (e e' : IpcEndpoint)
    → get_endpoint r id ≡ some e
    → e'.id ≡ id
    → pending (put r id e') k ≡ (if id == k then e'.messages else pending r k)
unfolding pending
pending-put r id k e e' there same = ground (arith, get_endpoint-put r id k e e' there same)

pending-found :
    (r : IpcRegistry) (id : ℕ) (e : IpcEndpoint)
    → get_endpoint r id ≡ some e
    → pending r id ≡ e.messages
unfolding pending
pending-found r id e there = ground arith

pub pending-create : (r : IpcRegistry) (id k : ℕ) → pending (create_endpoint r id).0 k ≡ pending r k
unfolding pending Endpoint.new
pending-create r id k = ground (arith, get_endpoint-create r id k)

pub pending-enqueue :
    (registry : Option IpcRegistry) (sender : ℕ) (s : CSpace) (cap : ℕ) (bytes : List ℕ)
    (r' : IpcRegistry) (waiters : List ℕ) (d : Sent registry sender s cap bytes r' waiters) (k : ℕ)
    → pending r' k ≡ (
        if d.target == k
        then pending d.before k
          ++ record { sender = sender; bytes = bytes; transferred_cap = none } ∷ []
        else pending d.before k)
pending-enqueue registry sender s cap bytes r' waiters d k = ground (
  arith,
  pending-found d.before d.target d.queue d.found,
  pending-put d.before d.target k d.queue
      (record d.queue {
        messages =
            d.queue.messages
            ++ record { sender = sender; bytes = bytes; transferred_cap = none } ∷ [];
        waiting_tasks = [];
      })
      d.found (get_endpoint_id d.before d.target d.queue d.found),
)

pub pending-dequeue :
    (r : IpcRegistry) (s : CSpace) (cap : ℕ) (r' : IpcRegistry) (message : Option Message)
    (d : Received (some r) s cap r' message) (k : ℕ)
    → pending r k ≡ (if d.target == k then received message ++ pending r' k else pending r' k)
pending-dequeue r s cap r' message d k = ground (
  arith,
  pending-found d.before d.target d.queue d.found,
  d.takes,
  d.after,
  pending-put d.before d.target k d.queue (record d.queue { messages = d.left }) d.found
      (get_endpoint_id d.before d.target d.queue d.found),
)

add_waiter_id : (e : IpcEndpoint) (task : ℕ) → (Endpoint.add_waiter e task).id ≡ e.id
unfolding Endpoint.add_waiter
add_waiter_id e task = ground arith

pub pending-await :
    (r : IpcRegistry) (receiver target : ℕ) (r' : IpcRegistry)
    → await (some r) receiver target ≡ ok r'
    → (k : ℕ) → pending r' k ≡ pending r k
unfolding await Endpoint.add_waiter
pending-await r receiver target r' h k =
    let (e, there, last) = bind-ok _ _ h in
    let found : get_endpoint r target ≡ some e = ok_or-ok _ _ there in
    ground (
      arith,
      pending-found r target e found,
      pending-put r target k e (Endpoint.add_waiter e receiver) found
          (add_waiter_id e receiver ∙ get_endpoint_id r target e found),
    )
