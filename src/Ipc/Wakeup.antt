-- ===== src/Ipc/Wakeup.antt =====
-- The blocking receive of src/ipc.rs: who waits is woken by the next message, and finds it.
use jericho_os.Base.{
  ℕ, ◌≡◌, ◌∙◌, true, none, some, List, [], ◌∷◌, ◌++◌, contains, contains_nil, contains_cons,
  contains-append_self, ◌==◌, subst, Bool-cases, ◌⊎◌, inl, inr, arith,
}
use jericho_os.Capability.Space.{CSpace}
use jericho_os.Task.{ready, blocked}
use jericho_os.Task.Table.{state_of}
use jericho_os.Scheduler.{Scheduler, unblock_task, block_current}
use jericho_os.Scheduler.Invariant.{IsValid}
use jericho_os.Scheduler.Blocking.{
  state_of-unblock_task, state_of-block_current, block_current-IsValid, unblock_task-IsValid,
}
use jericho_os.Ipc.Message.{ok}
use jericho_os.Ipc.Endpoint.{IpcEndpoint}
use jericho_os.Ipc.Endpoint
use jericho_os.Ipc.Registry.{IpcRegistry, get_endpoint, get_endpoint-put, get_endpoint_id}
use jericho_os.Ipc.Checks.{Allows, Allows-one, await-Awaited}
use jericho_os.Ipc.Queues.{pending, pending-enqueue}
use jericho_os.Ipc.Sending.{wake_all-some, Result-cases, send_message-Sent}
use jericho_os.Ipc.{Kernel, finished, await, wake_all, send_message, undisturbed, block, wait_for}

-- Waking a list of tasks keeps the scheduler valid, wakes each task of the list, and leaves ready
-- tasks ready.
pub wake_all-IsValid :
    (s s' : Scheduler) (ids : List ℕ)
    → IsValid s
    → wake_all (some s) ids ≡ some (some s')
    → IsValid s'
unfolding wake_all
wake_all-IsValid s s' [] v h = subst IsValid (ground arith) v
wake_all-IsValid s s' (id ∷ ids) v h =
    wake_all-IsValid (unblock_task s id) s' ids (unblock_task-IsValid s id v) h

wake_all_ready :
    (s s' : Scheduler) (ids : List ℕ) (k : ℕ)
    → wake_all (some s) ids ≡ some (some s')
    → (state_of s.tasks k ≡ some ready)
      ⊎ ((state_of s.tasks k ≡ some blocked) × (contains ids k ≡ true))
    → state_of s'.tasks k ≡ some ready
unfolding wake_all
wake_all_ready s s' [] k h (inl awake) = ground arith
wake_all_ready s s' [] k h (inr (asleep, listed)) = ground (arith, contains_nil k)
wake_all_ready s s' (id ∷ ids) k h o = wake_all_ready (unblock_task s id) s' ids k h (one_step o)
  where
    one_step :
        (state_of s.tasks k ≡ some ready)
          ⊎ ((state_of s.tasks k ≡ some blocked) × (contains (id ∷ ids) k ≡ true))
        → (state_of (unblock_task s id).tasks k ≡ some ready)
          ⊎ ((state_of (unblock_task s id).tasks k ≡ some blocked) × (contains ids k ≡ true))
    one_step (inl awake) = inl (ground (arith, state_of-unblock_task s id k))
    one_step (inr (asleep, listed)) = elim (Bool-cases (id == k)) [
      | inl hit ↦ inl (ground (arith, state_of-unblock_task s id k))
      | inr miss ↦
          inr (ground (arith, state_of-unblock_task s id k), ground (arith, contains_cons id k ids))
    ]

-- What a receiver leaves that waits at an endpoint: it is blocked, and it is on the endpoint's list.
pub record Waits (k : Kernel) (receiver target : ℕ) : Type 0 where
  pub registry : IpcRegistry
  pub scheduler : Scheduler
  pub queue : IpcEndpoint
  pub running : k.registry ≡ some registry
  pub scheduling : k.scheduler ≡ some scheduler
  pub valid : IsValid scheduler
  pub found : get_endpoint registry target ≡ some queue
  pub listed : contains queue.waiting_tasks receiver ≡ true
  pub asleep : state_of scheduler.tasks receiver ≡ some blocked

add_waiter_listed :
    (e : IpcEndpoint) (task : ℕ)
    → (contains (Endpoint.add_waiter e task).waiting_tasks task ≡ true)
      × ((Endpoint.add_waiter e task).id ≡ e.id)
unfolding Endpoint.add_waiter
add_waiter_listed e task = ground (arith, contains-append_self task e.waiting_tasks)

-- A receiver that finds no message, and is the current task of a valid scheduler, waits, when nothing happens
-- between its registration and its block.
pub wait_for-Waits :
    (k k' : Kernel) (s : Scheduler) (receiver target : ℕ)
    → k.scheduler ≡ some s
    → IsValid s
    → s.current_task ≡ some receiver
    → wait_for undisturbed k receiver target ≡ finished k' (ok none)
    → Waits k' receiver target
wait_for-Waits k k' s receiver target e v now h =
    elim (Result-cases (await k.registry receiver target)) [
      | inr (error, q) ↦ absurd (unfold wait_for in ground arith)
      | inl (r', q) ↦
          let a = await-Awaited k.registry receiver target r' q in
          let changed = Endpoint.add_waiter a.queue receiver in
          let same = add_waiter_listed a.queue receiver in
          record {
            registry = r';
            scheduler = block_current s;
            queue = changed;
            running = unfold wait_for block in ground arith;
            scheduling = unfold wait_for block in ground arith;
            valid = block_current-IsValid s v;
            found = ground (
              arith,
              get_endpoint-put a.before target target a.queue changed a.found
                  (same.1 ∙ get_endpoint_id a.before target a.queue a.found),
            );
            listed = same.0;
            asleep = state_of-block_current s receiver v now;
          }
    ]

-- Let a receiver be blocked and on the list of an endpoint. A send that succeeds, under a capability
-- for writing to this endpoint, makes the receiver ready to run, and leaves its message last in the
-- queue there; the scheduler stays valid.
pub Waits-send_message :
    (k k' : Kernel) (receiver target : ℕ) (w : Waits k receiver target) (sender : ℕ) (s : CSpace)
    (cap : ℕ) (bytes : List ℕ)
    → Allows (λ r. r.write) s cap target
    → send_message k sender s cap bytes ≡ finished k' (ok tt)
    → (r' : IpcRegistry) × (sched : Scheduler) × (k'.registry ≡ some r')
      × (k'.scheduler ≡ some sched)
      × IsValid sched
      × (state_of sched.tasks receiver ≡ some ready)
      × (pending r' target
          ≡ pending w.registry target
            ++ record { sender = sender; bytes = bytes; transferred_cap = none } ∷ [])
Waits-send_message k k' receiver target w sender s cap bytes allowed h =
    let (r', waiters, d, left, woke) = send_message-Sent k k' sender s cap bytes h in
    let (sched, all_woken) = wake_all-some w.scheduler waiters in
    let same : d.target ≡ target = Allows-one _ s cap d.target target d.allowed allowed in
    (
      r',
      sched,
      left,
      ground arith,
      wake_all-IsValid w.scheduler sched waiters w.valid all_woken,
      wake_all_ready w.scheduler sched waiters receiver all_woken (inr (w.asleep, ground arith)),
      ground (arith, pending-enqueue k.registry sender s cap bytes r' waiters d target),
    )
