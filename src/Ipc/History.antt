-- ===== src/Ipc/History.antt =====
-- Histories of the registry of src/ipc.rs: what was sent to an endpoint comes out in that order, and
-- no queue grows past its bound.
use jericho_os.Base.{
  ℕ, ◌≤◌, ◌≡◌, refl, sym, ◌∙◌, ap, Option, none, some, List, [], ◌∷◌, ◌++◌, length, append_assoc,
  length-append, All, All-append, subst, ◌==◌, if◌then◌else◌, Option-cases, Bool-cases, inl, inr,
  arith,
}
use mathlib.Core.Option.{some-injective}
use jericho_os.Capability.Space.{CSpace}
use jericho_os.Ipc.Message.{Message, ok, max_message_size, bind-ok, ok_or-ok}
use jericho_os.Ipc.Endpoint.{IpcEndpoint}
use jericho_os.Ipc.Endpoint
use jericho_os.Ipc.Registry.{
  IpcRegistry, get_endpoint, put, create_endpoint, get_endpoint-put, get_endpoint_id,
  get_endpoint-create,
}
use jericho_os.Ipc.Registry
use jericho_os.Ipc.Checks.{
  Sent, Received, received, Allows-one, authorize_ok, enqueue-Sent, dequeue-Received,
}
use jericho_os.Ipc.Queues.{pending, pending-create, pending-enqueue, pending-dequeue, pending-await}
use jericho_os.Ipc.{authorize, enqueue, dequeue, await}

-- The calls that succeed, from an empty registry on, with the messages sent to the endpoint `id` and
-- those received from it, oldest first.
pub data History (id : ℕ) : IpcRegistry → List Message → List Message → Type 0 where
  boot : History id Registry.new [] []
  create :
      {r : IpcRegistry} {sent got : List Message} (new_id : ℕ)
      → History id r sent got
      → History id (create_endpoint r new_id).0 sent got
  send :
      {r r' : IpcRegistry} {sent got : List Message} {waiters : List ℕ} {target : ℕ} (sender : ℕ)
      (s : CSpace) (cap : ℕ) (bytes : List ℕ)
      → History id r sent got
      → authorize (λ r. r.write) s cap ≡ ok target
      → enqueue (some r) sender s cap bytes ≡ ok (r', waiters)
      → History id r'
          (if target == id
            then sent ++ record { sender = sender; bytes = bytes; transferred_cap = none } ∷ []
            else sent)
          got
  receive :
      {r r' : IpcRegistry} {sent got : List Message} {message : Option Message} {target : ℕ}
      (s : CSpace) (cap : ℕ)
      → History id r sent got
      → authorize (λ r. r.read) s cap ≡ ok target
      → dequeue (some r) s cap ≡ ok (r', message)
      → History id r' sent (if target == id then got ++ received message else got)
  await_message :
      {r r' : IpcRegistry} {sent got : List Message} (receiver target : ℕ)
      → History id r sent got
      → await (some r) receiver target ≡ ok r'
      → History id r' sent got

-- An endpoint is a queue: the messages sent to it are those received from it followed by those that
-- wait there, in order; none is lost, doubled or overtaken.
pub History-fifo :
    {id : ℕ} {r : IpcRegistry} {sent got : List Message}
    → History id r sent got
    → sent ≡ got ++ pending r id
History-fifo {id} boot = unfold pending get_endpoint Registry.new Registry.find in refl
History-fifo {id} (create {r} new_id h) = rw (pending-create r new_id id) (History-fifo h)
History-fifo {id} (send {r} {r'} {sent} {got} {waiters} {target} sender s cap bytes h names e) =
    let d = enqueue-Sent (some r) sender s cap bytes r' waiters e in
    let same = Allows-one _ s cap d.target target d.allowed (authorize_ok _ s cap target names) in
    ground (
      arith,
      same,
      pending-enqueue (some r) sender s cap bytes r' waiters d id,
      History-fifo h,
      append_assoc got (pending r id)
          (record { sender = sender; bytes = bytes; transferred_cap = none } ∷ []),
    )
History-fifo {id} (receive {r} {r'} {sent} {got} {message} {target} s cap h names e) =
    let d = dequeue-Received (some r) s cap r' message e in
    let same = Allows-one _ s cap d.target target d.allowed (authorize_ok _ s cap target names) in
    ground (
      arith,
      same,
      pending-dequeue r s cap r' message d id,
      History-fifo h,
      append_assoc got (received message) (pending r' id),
    )
History-fifo {id} (await_message {r} {r'} receiver target h e) =
    rw (pending-await r receiver target r' e id) (History-fifo h)

-- Each message that waits there has at most 4096 bytes.
abbrev pub IsSmall : IpcEndpoint → Type 0
IsSmall e = All (λ m. length m.bytes ≤ max_message_size) e.messages

-- The queue of an endpoint is within its bound, which is 16 for all of them, and each message in it
-- within 4096 bytes.
pub record IsBounded (r : IpcRegistry) : Type 0 where
  pub queues :
      (id : ℕ) (e : IpcEndpoint)
      → get_endpoint r id ≡ some e
      → (e.max_queue_size ≡ 16) × (length e.messages ≤ 16)
  pub messages : (id : ℕ) (e : IpcEndpoint) → get_endpoint r id ≡ some e → IsSmall e

create-IsBounded : (r : IpcRegistry) (id : ℕ) → IsBounded r → IsBounded (create_endpoint r id).0
unfolding Endpoint.new
create-IsBounded r id b = record {
  queues = λ k e h. ground (arith, get_endpoint-create r id k, b.queues k e);
  messages = λ k e h. elim (Option-cases (get_endpoint r k)) [
    | inr (x, old) ↦ b.messages k e (ground (arith, get_endpoint-create r id k))
    | inl unknown ↦
        let fresh : Endpoint.new id ≡ e = ground (arith, get_endpoint-create r id k) in
        subst IsSmall fresh tt
  ];
}

-- A changed endpoint that is within its bounds leaves the registry within them.
put-IsBounded :
    (r : IpcRegistry) (id : ℕ) (e e' : IpcEndpoint)
    → IsBounded r
    → get_endpoint r id ≡ some e
    → e'.id ≡ id
    → e'.max_queue_size ≡ 16
    → length e'.messages ≤ 16
    → IsSmall e'
    → IsBounded (put r id e')
put-IsBounded r id e e' b there same size short small = record {
  queues = λ k x h. ground (arith, get_endpoint-put r id k e e' there same, b.queues k x);
  messages = λ k x h. elim (Bool-cases (id == k)) [
    | inl hit ↦
        let changed : e' ≡ x = ground (arith, get_endpoint-put r id k e e' there same) in
        subst IsSmall changed small
    | inr miss ↦ b.messages k x (ground (arith, get_endpoint-put r id k e e' there same))
  ];
}

-- What is left when a message is taken is no longer and no larger.
left-bounded :
    (ms : List Message) (message : Option Message) (left : List Message)
    → ms ≡ received message ++ left
    → All (λ m. length m.bytes ≤ max_message_size) ms
    → (length left ≤ length ms) × All (λ m. length m.bytes ≤ max_message_size) left
left-bounded ms none left e small =
    (omega (arith, ap length e), subst (All (λ m. length m.bytes ≤ max_message_size)) e small)
left-bounded ms (some m) left e small =
    let whole : All (λ m. length m.bytes ≤ max_message_size) (m ∷ left) =
      subst (All (λ m. length m.bytes ≤ max_message_size)) e small in
    (omega (arith, ap length e), whole.1)

add_waiter_same :
    (e : IpcEndpoint) (task : ℕ)
    → ((Endpoint.add_waiter e task).max_queue_size ≡ e.max_queue_size)
      × ((Endpoint.add_waiter e task).messages ≡ e.messages)
      × ((Endpoint.add_waiter e task).id ≡ e.id)
unfolding Endpoint.add_waiter
add_waiter_same e task = ground arith

await-IsBounded :
    (r : IpcRegistry) (receiver target : ℕ) (r' : IpcRegistry)
    → IsBounded r
    → await (some r) receiver target ≡ ok r'
    → IsBounded r'
unfolding await
await-IsBounded r receiver target r' b h =
    let (e, there, last) = bind-ok _ _ h in
    let found : get_endpoint r target ≡ some e = ok_or-ok _ _ there in
    let same = add_waiter_same e receiver in
    subst IsBounded (ground arith) (
      put-IsBounded r target e (Endpoint.add_waiter e receiver) b found
        (same.2 ∙ get_endpoint_id r target e found) (same.0 ∙ (b.queues target e found).0)
        (omega (arith, ap length same.1, (b.queues target e found).1))
        (subst (λ ms. All (λ m. length m.bytes ≤ max_message_size) ms) (sym same.1)
          (b.messages target e found)))

Sent-IsBounded :
    (r : IpcRegistry) (sender : ℕ) (s : CSpace) (cap : ℕ) (bytes : List ℕ) (r' : IpcRegistry)
    (waiters : List ℕ)
    → IsBounded r
    → Sent (some r) sender s cap bytes r' waiters
    → IsBounded r'
Sent-IsBounded r sender s cap bytes r' waiters h d = subst IsBounded (sym d.after) (
    put-IsBounded d.before d.target d.queue _ b d.found
      (get_endpoint_id d.before d.target d.queue d.found) (b.queues d.target d.queue d.found).0
      (omega (
        arith,
        d.room,
        b.queues d.target d.queue d.found,
        length-append d.queue.messages
            (record { sender = sender; bytes = bytes; transferred_cap = none } ∷ []),
      ))
      (All-append _ d.queue.messages _ (b.messages d.target d.queue d.found) (d.small, tt)))
  where
    b : IsBounded d.before
    b = subst IsBounded (some-injective r d.before d.running) h

Received-IsBounded :
    (r : IpcRegistry) (s : CSpace) (cap : ℕ) (r' : IpcRegistry) (message : Option Message)
    → IsBounded r
    → Received (some r) s cap r' message
    → IsBounded r'
Received-IsBounded r s cap r' message h d =
    let b : IsBounded d.before = subst IsBounded (some-injective r d.before d.running) h in
    let (fewer, small) =
      left-bounded d.queue.messages message d.left d.takes (b.messages d.target d.queue d.found) in
    subst IsBounded (sym d.after) (
      put-IsBounded d.before d.target d.queue (record d.queue { messages = d.left }) b d.found
        (get_endpoint_id d.before d.target d.queue d.found) (b.queues d.target d.queue d.found).0
        (omega (arith, fewer, (b.queues d.target d.queue d.found).1)) small)

-- Whatever sequence of these calls is made, no queue holds more than 16 messages, and no message in it more
-- than 4096 bytes.
pub History-IsBounded :
    {id : ℕ} {r : IpcRegistry} {sent got : List Message} → History id r sent got → IsBounded r
History-IsBounded boot =
    unfold get_endpoint Registry.new Registry.find in
    record { queues = λ k e h. cc; messages = λ k e h. cc }
History-IsBounded (create {r} new_id h) = create-IsBounded r new_id (History-IsBounded h)
History-IsBounded (send {r} {r'} {sent} {got} {waiters} sender s cap bytes h names e) =
    Sent-IsBounded r sender s cap bytes r' waiters (History-IsBounded h)
      (enqueue-Sent (some r) sender s cap bytes r' waiters e)
History-IsBounded (receive {r} {r'} {sent} {got} {message} s cap h names e) =
    Received-IsBounded r s cap r' message (History-IsBounded h)
      (dequeue-Received (some r) s cap r' message e)
History-IsBounded (await_message {r} {r'} receiver target h e) =
    await-IsBounded r receiver target r' (History-IsBounded h) e
