-- ===== src/Ipc/Checks.antt =====
-- The access checks of the calls of src/ipc.rs, and what a send that passes them does.
use jericho_os.Base.{
  ℕ, ◌≤◌, ◌<◌, ◌≡◌, Bool, true, Option, none, some, List, [], ◌∷◌, ◌++◌, length, Option-cases, inl,
  inr, refl, ap, ◌∙◌, arith,
}
use jericho_os.Capability.Rights.{Rights}
use jericho_os.Capability.Token.{Capability, endpoint, same_type_iff}
use jericho_os.Capability.Space.{CSpace}
use jericho_os.Capability.Space
use jericho_os.Ipc.Message.{
  Message, Result, ok, err, IpcError, endpoint_not_found, permission_denied, max_message_size,
  ◌>>=◌, ok_or, require, ◌>>◌, bind-ok, ok_or-ok,
}
use jericho_os.Ipc.Message
use jericho_os.Ipc.Endpoint.{IpcEndpoint}
use jericho_os.Ipc.Endpoint
use jericho_os.Ipc.Registry.{IpcRegistry, get_endpoint, put}
use jericho_os.Ipc.{authorize, enqueue, dequeue, await}

-- The capability that lets its holder use the endpoint `target` with the right that is needed.
pub record Allows (needed : Rights → Bool) (s : CSpace) (cap target : ℕ) : Type 0 where
  pub held : Capability
  pub there : Space.get s cap ≡ some held
  pub kind : held.resource_type ≡ endpoint
  pub right : needed held.rights ≡ true
  pub names : held.resource_id ≡ target

-- A capability names one endpoint.
pub Allows-one :
    (needed : Rights → Bool) (s : CSpace) (cap target target' : ℕ)
    → Allows needed s cap target
    → Allows needed s cap target'
    → target ≡ target'
Allows-one needed s cap target target' a b = ground arith

pub authorize_ok :
    (needed : Rights → Bool) (s : CSpace) (cap target : ℕ)
    → authorize needed s cap ≡ ok target
    → Allows needed s cap target
unfolding authorize
authorize_ok needed s cap target h = elim (Option-cases (Space.get s cap)) [
  | inl absent ↦ absurd (ground arith)
  | inr (c, there) ↦ record {
    held = c;
    there = there;
    kind = ground (arith, same_type_iff c.resource_type endpoint);
    right = ground arith;
    names = ground arith;
  }
]

authorize_allowed :
    (needed : Rights → Bool) (s : CSpace) (cap target : ℕ)
    → Allows needed s cap target
    → authorize needed s cap ≡ ok target
unfolding authorize
authorize_allowed needed s cap target a = ground arith

authorize_err :
    (needed : Rights → Bool) (s : CSpace) (cap : ℕ) {e : IpcError}
    → authorize needed s cap ≡ err e
    → e ≡ permission_denied
unfolding authorize
authorize_err needed s cap h = ground arith

-- A send that is accepted: what allowed it, and what it leaves.
pub record Sent (registry : Option IpcRegistry) (sender : ℕ) (s : CSpace) (cap : ℕ) (bytes : List ℕ)
    (r' : IpcRegistry) (waiters : List ℕ) : Type 0 where
  pub target : ℕ
  pub before : IpcRegistry
  pub queue : IpcEndpoint
  pub allowed : Allows (λ r. r.write) s cap target
  pub running : registry ≡ some before
  pub found : get_endpoint before target ≡ some queue
  pub small : length bytes ≤ max_message_size
  pub room : length queue.messages < queue.max_queue_size
  pub woken : waiters ≡ queue.waiting_tasks
  pub after :
      r'
      ≡ put before target (record queue {
        messages =
            queue.messages
            ++ record { sender = sender; bytes = bytes; transferred_cap = none } ∷ [];
        waiting_tasks = [];
      })

pub enqueue-Sent :
    (registry : Option IpcRegistry) (sender : ℕ) (s : CSpace) (cap : ℕ) (bytes : List ℕ)
    (r' : IpcRegistry) (waiters : List ℕ)
    → enqueue registry sender s cap bytes ≡ ok (r', waiters)
    → Sent registry sender s cap bytes r' waiters
unfolding enqueue Message.new Endpoint.send Endpoint.take_waiters
enqueue-Sent registry sender s cap bytes r' waiters h =
    let (target, allowed, h₁) = bind-ok _ _ h in
    let (before, running, h₂) = bind-ok _ _ h₁ in
    let (queue, found, h₃) = bind-ok _ _ h₂ in
    record {
      target = target;
      before = before;
      queue = queue;
      allowed = authorize_ok _ s cap target allowed;
      running = ok_or-ok _ _ running;
      found = ok_or-ok _ _ found;
      small = ground arith;
      room = ground arith;
      woken = ground arith;
      after = ground arith;
    }

pub Sent-enqueue :
    (registry : Option IpcRegistry) (sender : ℕ) (s : CSpace) (cap : ℕ) (bytes : List ℕ)
    (r' : IpcRegistry) (waiters : List ℕ)
    → Sent registry sender s cap bytes r' waiters
    → enqueue registry sender s cap bytes ≡ ok (r', waiters)
unfolding enqueue Message.new Endpoint.send Endpoint.take_waiters
Sent-enqueue registry sender s cap bytes r' waiters d =
    rw (authorize_allowed _ s cap d.target d.allowed, d.running, d.found) (ground arith)

abbrev pub received : Option Message → List Message
received none = []
received (some m) = m ∷ []

-- A receive that is accepted: what allowed it, and what it takes. It gives the message at the head of the
-- queue, and leaves the rest; it gives none exactly when the queue is empty.
pub record Received (registry : Option IpcRegistry) (s : CSpace) (cap : ℕ) (r' : IpcRegistry)
    (message : Option Message) : Type 0 where
  pub target : ℕ
  pub before : IpcRegistry
  pub queue : IpcEndpoint
  pub left : List Message
  pub allowed : Allows (λ r. r.read) s cap target
  pub running : registry ≡ some before
  pub found : get_endpoint before target ≡ some queue
  pub takes : queue.messages ≡ received message ++ left
  pub empty : message ≡ none → left ≡ []
  pub after : r' ≡ put before target (record queue { messages = left })

-- What `try_receive` does to a queue with these messages.
try_receive-left :
    (queue : IpcEndpoint) (messages : List Message)
    → queue.messages ≡ messages
    → (left : List Message) × (message : Option Message) × (Endpoint.try_receive queue
        ≡ (record queue { messages = left }, message))
      × (messages ≡ received message ++ left)
      × (message ≡ none → left ≡ [])
unfolding Endpoint.try_receive
try_receive-left queue [] e = (
  [],
  none,
  rw (e, Endpoint.try_receive) (ap (λ ms. (record queue { messages = ms }, none)) e),
  refl,
  λ _. refl,
)
try_receive-left queue (m ∷ rest) e =
    (rest, some m, rw (e, Endpoint.try_receive) refl, refl, λ absent. absurd (ground arith))

-- A queue whose head and rest are these is received from in this way, and in no other.
try_receive-takes :
    (queue : IpcEndpoint) (message : Option Message) (left : List Message)
    → queue.messages ≡ received message ++ left
    → (message ≡ none → left ≡ [])
    → Endpoint.try_receive queue ≡ (record queue { messages = left }, message)
unfolding Endpoint.try_receive
try_receive-takes queue (some m) left e empty = rw (e, Endpoint.try_receive) refl
try_receive-takes queue none left e empty =
    let nothing : queue.messages ≡ [] = e ∙ empty refl in
    rw (nothing, Endpoint.try_receive) (ap (λ ms. (record queue { messages = ms }, none)) e)

pub dequeue-Received :
    (registry : Option IpcRegistry) (s : CSpace) (cap : ℕ) (r' : IpcRegistry)
    (message : Option Message)
    → dequeue registry s cap ≡ ok (r', message)
    → Received registry s cap r' message
unfolding dequeue
dequeue-Received registry s cap r' message h =
    let (target, allowed, h₁) = bind-ok _ _ h in
    let (before, running, h₂) = bind-ok _ _ h₁ in
    let (queue, found, h₃) = bind-ok _ _ h₂ in
    let (left, message', taken, takes, empty) = try_receive-left queue queue.messages refl in
    let same : message' ≡ message = ground (arith, ap (λ x. x.1) taken) in
    record {
      target = target;
      before = before;
      queue = queue;
      left = left;
      allowed = authorize_ok _ s cap target allowed;
      running = ok_or-ok _ _ running;
      found = ok_or-ok _ _ found;
      takes = takes ∙ ap (λ m. received m ++ left) same;
      empty = λ absent. empty (same ∙ absent);
      after = ground (arith, ap (λ x. x.0) taken);
    }

pub Received-dequeue :
    (registry : Option IpcRegistry) (s : CSpace) (cap : ℕ) (r' : IpcRegistry)
    (message : Option Message)
    → Received registry s cap r' message
    → dequeue registry s cap ≡ ok (r', message)
unfolding dequeue
Received-dequeue registry s cap r' message d =
    let taken = try_receive-takes d.queue message d.left d.takes d.empty in
    rw (authorize_allowed _ s cap d.target d.allowed, d.running, d.found)
      (ground (arith, ap (λ x. x.0) taken, ap (λ x. x.1) taken, d.after))

-- A receiver that is put on the list of an endpoint.
pub record Awaited (registry : Option IpcRegistry) (receiver target : ℕ) (r' : IpcRegistry)
    : Type 0 where
  pub before : IpcRegistry
  pub queue : IpcEndpoint
  pub running : registry ≡ some before
  pub found : get_endpoint before target ≡ some queue
  pub after : r' ≡ put before target (Endpoint.add_waiter queue receiver)

pub await-Awaited :
    (registry : Option IpcRegistry) (receiver target : ℕ) (r' : IpcRegistry)
    → await registry receiver target ≡ ok r'
    → Awaited registry receiver target r'
unfolding await
await-Awaited registry receiver target r' h =
    let (before, running, h₁) = bind-ok _ _ h in
    let (queue, found, h₂) = bind-ok _ _ h₁ in
    record {
      before = before;
      queue = queue;
      running = ok_or-ok _ _ running;
      found = ok_or-ok _ _ found;
      after = ground arith;
    }
