-- ===== src/Ipc/Blocking.antt =====
-- The loop of `receive_message_blocking` in src/ipc.rs, which blocks a task but does not switch to
-- another one.
use jericho_os.Base.{ℕ, ◌≡◌, ◌≢◌, ◌∙◌, sym, ap, refl, none, some, Option, inl, inr, arith}
use jericho_os.Capability.Space.{CSpace}
use jericho_os.Task.{ready, blocked}
use jericho_os.Task.Table.{state_of}
use jericho_os.Scheduler.{Scheduler, block_current}
use jericho_os.Scheduler.Invariant.{IsValid}
use jericho_os.Scheduler.Blocking.{
  state_of-block_current, block_current-IsValid, block_current_next, block_current_stays,
}
use jericho_os.Ipc.Registry.{IpcRegistry}
use jericho_os.Ipc.Message.{Message, Result, ok, err}
use jericho_os.Ipc.Sending.{Result-cases}
use jericho_os.Ipc.{
  Kernel, finished, await, dequeue, block, wait_for, receive_round, undisturbed,
  try_receive_message,
}

-- A wait that goes round the loop has blocked the current task, whoever that is.
wait_for-scheduler :
    (k k' : Kernel) (s : Scheduler) (receiver target : ℕ)
    → k.scheduler ≡ some s
    → wait_for undisturbed k receiver target ≡ finished k' (ok none)
    → k'.scheduler ≡ some (block_current s)
unfolding wait_for block
wait_for-scheduler k k' s receiver target e h =
    elim (Result-cases (await k.registry receiver target)) [
      | inr (error, q) ↦ absurd (ground arith)
      | inl (r', q) ↦ ground arith
    ]

-- A round that finds no message waits.
receive_round_empty :
    (k : Kernel) (r : IpcRegistry) (receiver : ℕ) (cspace : CSpace) (cap target : ℕ)
    → dequeue k.registry cspace cap ≡ ok (r, none)
    → receive_round undisturbed k receiver cspace cap target
      ≡ wait_for undisturbed (record k { registry = some r }) receiver target
unfolding receive_round try_receive_message
receive_round_empty k r receiver cspace cap target q =
    let empty : try_receive_message k receiver cspace cap
        ≡ (record k { registry = some r }, ok none) =
      rw (q, try_receive_message) refl in
    ap
      (λ (p : Kernel × Result (Option Message)). elim p.1 [
        | err e ↦ finished p.0 (err e)
        | ok (some message) ↦ finished p.0 (ok (some message))
        | ok none ↦ wait_for undisturbed p.0 receiver target
      ])
      empty

-- So has a round that goes on.
receive_round-scheduler :
    (k k' : Kernel) (s : Scheduler) (receiver : ℕ) (cspace : CSpace) (cap target : ℕ)
    → k.scheduler ≡ some s
    → receive_round undisturbed k receiver cspace cap target ≡ finished k' (ok none)
    → k'.scheduler ≡ some (block_current s)
unfolding receive_round try_receive_message
receive_round-scheduler k k' s receiver cspace cap target e h =
    elim (Result-cases (dequeue k.registry cspace cap)) [
      | inr (error, q) ↦ absurd (ground arith)
      | inl ((r, some m), q) ↦ absurd (ground arith)
      | inl ((r, none), q) ↦
          wait_for-scheduler (record k { registry = some r }) k' s receiver target e
            (sym (receive_round_empty k r receiver cspace cap target q) ∙ h)
    ]

-- Let the receiver be the current task of a valid scheduler, and some other task be ready. When two rounds of its
-- loop find no message, with nothing else in between, then the second one has blocked a task other than the
-- receiver: the one that the first block made current, although this task has not called anything. The receiver
-- is blocked too.
pub receive_round_blocks_next :
    (k k' k'' : Kernel) (s : Scheduler) (receiver : ℕ) (cspace : CSpace) (cap target other : ℕ)
    → k.scheduler ≡ some s
    → IsValid s
    → s.current_task ≡ some receiver
    → other ≢ receiver
    → state_of s.tasks other ≡ some ready
    → receive_round undisturbed k receiver cspace cap target ≡ finished k' (ok none)
    → receive_round undisturbed k' receiver cspace cap target ≡ finished k'' (ok none)
    → (next : ℕ) × (s' : Scheduler) × ((block_current s).current_task ≡ some next)
      × (next ≢ receiver)
      × (k''.scheduler ≡ some s')
      × (state_of s'.tasks next ≡ some blocked)
      × (state_of s'.tasks receiver ≡ some blocked)
receive_round_blocks_next k k' k'' s receiver cspace cap target other e v now differs awake first
      second =
    let (next, current, runs, another) = block_current_next s receiver other v now differs awake in
    let v' = block_current-IsValid s v in
    (
      next,
      block_current (block_current s),
      current,
      another,
      receive_round-scheduler k' k'' (block_current s) receiver cspace cap target
          (receive_round-scheduler k k' s receiver cspace cap target e first) second,
      state_of-block_current (block_current s) next v' current,
      block_current_stays (block_current s) receiver v' (state_of-block_current s receiver v now),
    )
