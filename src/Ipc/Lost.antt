-- ===== src/Ipc/Lost.antt =====
-- The race in the loop of `receive_message_blocking` of src/ipc.rs: it gives the lock of the registry back before
-- it takes that of the scheduler.
use jericho_os.Base.{ℕ, ◌≡◌, refl, ◌∙◌, ap, none, some, List, [], ◌∷◌, ◌++◌, inl, inr, arith}
use jericho_os.Capability.Space.{CSpace}
use jericho_os.Task.{blocked}
use jericho_os.Task.Table.{state_of}
use jericho_os.Scheduler.{Scheduler, unblock_task, block_current}
use jericho_os.Scheduler.Invariant.{IsValid}
use jericho_os.Scheduler.Blocking.{
  state_of-block_current, block_current-IsValid, unblock_task_lem, state_cases,
}
use jericho_os.Ipc.Message.{Message, ok}
use jericho_os.Ipc.Endpoint.{IpcEndpoint}
use jericho_os.Ipc.Registry.{IpcRegistry, get_endpoint, get_endpoint-put, get_endpoint_id}
use jericho_os.Ipc.Checks.{Allows, Allows-one}
use jericho_os.Ipc.Sending.{wake_all-some, send_message-Sent}
use jericho_os.Ipc.Wakeup.{wake_all-IsValid}
use jericho_os.Ipc.{Kernel, Others, finished, await, wake_all, block, wait_for, send_message}

-- A receiver that sleeps at an endpoint where a message waits for it, and that is not on the endpoint's list.
pub record IsLost (k : Kernel) (receiver target : ℕ) (message : Message) : Type 0 where
  pub registry : IpcRegistry
  pub scheduler : Scheduler
  pub queue : IpcEndpoint
  pub older : List Message
  pub running : k.registry ≡ some registry
  pub scheduling : k.scheduler ≡ some scheduler
  pub valid : IsValid scheduler
  pub found : get_endpoint registry target ≡ some queue
  pub waits : queue.messages ≡ older ++ message ∷ []
  pub unlisted : queue.waiting_tasks ≡ []
  pub asleep : state_of scheduler.tasks receiver ≡ some blocked

unblock_task_current : (s : Scheduler) (id : ℕ) → (unblock_task s id).current_task ≡ s.current_task
unblock_task_current s id = elim (state_cases (state_of s.tasks id)) [
  | inl asleep ↦ ap (λ (x : Scheduler). x.current_task) ((unblock_task_lem s id).0 asleep)
  | inr awake ↦ ap (λ (x : Scheduler). x.current_task) ((unblock_task_lem s id).1 awake)
]

wake_all_current :
    (s s' : Scheduler) (ids : List ℕ)
    → wake_all (some s) ids ≡ some (some s')
    → s'.current_task ≡ s.current_task
unfolding wake_all
wake_all_current s s' [] h = ground arith
wake_all_current s s' (id ∷ ids) h =
    wake_all_current (unblock_task s id) s' ids h ∙ unblock_task_current s id

block-some :
    (k : Kernel) (s : Scheduler)
    → k.scheduler ≡ some s
    → block k ≡ finished (record k { scheduler = some (block_current s) }) (ok none)
unfolding block
block-some k s e = ground arith

wait_for_blocks :
    (k : Kernel) (others : Others) (receiver target : ℕ) (r : IpcRegistry)
    → await k.registry receiver target ≡ ok r
    → wait_for others k receiver target
      ≡ block (others.before_block (record k { registry = some r }))
unfolding wait_for
wait_for_blocks k others receiver target r e = rw (e, wait_for) refl

-- Let the receiver, the current task, find no message, and let a send to the endpoint succeed between its
-- registration as a waiter and its block. The receiver then blocks all the same, with the message in the queue, and
-- is no longer on the list of the endpoint.
pub wait_for-IsLost :
    (k k₂ : Kernel) (others : Others) (s : Scheduler) (r : IpcRegistry) (receiver target sender : ℕ)
    (cspace : CSpace) (cap : ℕ) (bytes : List ℕ)
    → k.scheduler ≡ some s
    → IsValid s
    → s.current_task ≡ some receiver
    → await k.registry receiver target ≡ ok r
    → Allows (λ x. x.write) cspace cap target
    → send_message (record k { registry = some r }) sender cspace cap bytes ≡ finished k₂ (ok tt)
    → others.before_block (record k { registry = some r }) ≡ k₂
    → (k' : Kernel) × (wait_for others k receiver target ≡ finished k' (ok none))
      × IsLost k' receiver target
          (record { sender = sender; bytes = bytes; transferred_cap = none })
wait_for-IsLost k k₂ others s r receiver target sender cspace cap bytes e v now listed allowed sent
      between =
    let (r', waiters, d, left, woke) =
      send_message-Sent (record k { registry = some r }) k₂ sender cspace cap bytes sent in
    let (sched, all_woken) = wake_all-some s waiters in
    let after : k₂.scheduler ≡ some sched = ground arith in
    let same : d.target ≡ target = Allows-one _ cspace cap d.target target d.allowed allowed in
    let current = wake_all_current s sched waiters all_woken ∙ now in
    let valid = wake_all-IsValid s sched waiters v all_woken in
    let queue : IpcEndpoint = record d.queue {
      messages =
          d.queue.messages
          ++ record { sender = sender; bytes = bytes; transferred_cap = none } ∷ [];
      waiting_tasks = [];
    } in
    (
      record k₂ { scheduler = some (block_current sched) },
      wait_for_blocks k others receiver target r listed
          ∙ ap block between
          ∙ block-some k₂ sched after,
      record {
        registry = r';
        scheduler = block_current sched;
        queue = queue;
        older = d.queue.messages;
        running = left;
        scheduling = refl;
        valid = block_current-IsValid sched valid;
        found = ground (
          arith,
          same,
          d.after,
          get_endpoint-put d.before d.target target d.queue queue d.found
              (get_endpoint_id d.before d.target d.queue d.found),
        );
        waits = refl;
        unlisted = refl;
        asleep = state_of-block_current sched receiver valid current;
      },
    )

-- No later send to the endpoint wakes such a receiver.
pub IsLost-send_message :
    (k k' : Kernel) (receiver target : ℕ) (message : Message) (w : IsLost k receiver target message)
    (sender : ℕ) (s : CSpace) (cap : ℕ) (bytes : List ℕ)
    → Allows (λ x. x.write) s cap target
    → send_message k sender s cap bytes ≡ finished k' (ok tt)
    → IsLost k' receiver target (record { sender = sender; bytes = bytes; transferred_cap = none })
IsLost-send_message k k' receiver target message w sender s cap bytes allowed sent =
    let (r', waiters, d, left, woke) = send_message-Sent k k' sender s cap bytes sent in
    let same : d.target ≡ target = Allows-one _ s cap d.target target d.allowed allowed in
    let nobody : waiters ≡ [] =
      ground (arith, d.woken, d.found, d.running, w.running, w.found, w.unlisted, same) in
    let queue : IpcEndpoint = record d.queue {
      messages =
          d.queue.messages
          ++ record { sender = sender; bytes = bytes; transferred_cap = none } ∷ [];
      waiting_tasks = [];
    } in
    record {
      registry = r';
      scheduler = w.scheduler;
      queue = queue;
      older = d.queue.messages;
      running = left;
      scheduling =
          unfold wake_all in ground (arith, ap (wake_all k.scheduler) nobody, w.scheduling, woke);
      valid = w.valid;
      found = ground (
        arith,
        same,
        d.after,
        get_endpoint-put d.before d.target target d.queue queue d.found
            (get_endpoint_id d.before d.target d.queue d.found),
      );
      waits = refl;
      unlisted = refl;
      asleep = w.asleep;
    }
