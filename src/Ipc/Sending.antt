-- ===== src/Ipc/Sending.antt =====
-- `send_message` and `try_receive_message` of src/ipc.rs as a whole: when they succeed, what they
-- then do, and that a failure does nothing.
use jericho_os.Base.{ℕ, ◌≡◌, refl, Option, some, List, [], ◌∷◌, ◌⊎◌, inl, inr, arith}
use jericho_os.Capability.Space.{CSpace}
use jericho_os.Scheduler.{Scheduler, unblock_task}
use jericho_os.Ipc.Message.{Message, Result, ok, err, IpcError}
use jericho_os.Ipc.Registry.{IpcRegistry}
use jericho_os.Ipc.Checks.{
  Sent, Received, enqueue-Sent, Sent-enqueue, dequeue-Received, Received-dequeue,
}
use jericho_os.Ipc.{
  Kernel, Outcome, finished, panicked, enqueue, dequeue, wake_all, send_message,
  try_receive_message,
}

-- The wake-ups go through when there is a scheduler.
pub wake_all-some :
    (s : Scheduler) (ids : List ℕ) → (s' : Scheduler) × (wake_all (some s) ids ≡ some (some s'))
unfolding wake_all
wake_all-some s [] = (s, refl)
wake_all-some s (id ∷ ids) = wake_all-some (unblock_task s id) ids

pub Result-cases {ℓ} :
    {A : Type ℓ} (r : Result A) → ((a : A) × (r ≡ ok a)) ⊎ ((e : IpcError) × (r ≡ err e))
Result-cases (ok a) = inl (a, refl)
Result-cases (err e) = inr (e, refl)

-- A send that succeeds was accepted, and has woken the waiters.
pub send_message-Sent :
    (k k' : Kernel) (sender : ℕ) (s : CSpace) (cap : ℕ) (bytes : List ℕ)
    → send_message k sender s cap bytes ≡ finished k' (ok tt)
    → (r' : IpcRegistry) × (waiters : List ℕ) × Sent k.registry sender s cap bytes r' waiters
      × (k'.registry ≡ some r')
      × (wake_all k.scheduler waiters ≡ some k'.scheduler)
unfolding send_message
send_message-Sent k k' sender s cap bytes h =
    elim (Result-cases (enqueue k.registry sender s cap bytes)) [
      | inl ((r', waiters), e) ↦ (
        r',
        waiters,
        enqueue-Sent k.registry sender s cap bytes r' waiters e,
        ground arith,
        ground arith,
      )
      | inr (error, e) ↦ absurd (ground arith)
    ]

-- Some send of these bytes under this capability is accepted by the registry.
abbrev pub Accepted : Kernel → ℕ → CSpace → ℕ → List ℕ → Type 0
Accepted k sender s cap bytes =
    (r' : IpcRegistry) × (waiters : List ℕ) × Sent k.registry sender s cap bytes r' waiters

-- What a send may end in: success, with the message at its endpoint and the waiters woken, or an
-- error, which means that it was not acceptable, with the kernel as it was.
abbrev pub SendEnds : Kernel → ℕ → CSpace → ℕ → List ℕ → Outcome (Unit {0}) → Type 0
SendEnds k sender s cap bytes (finished k' (ok _)) =
    (r' : IpcRegistry) × (waiters : List ℕ) × Sent k.registry sender s cap bytes r' waiters
    × (k'.registry ≡ some r')
    × (wake_all k.scheduler waiters ≡ some k'.scheduler)
SendEnds k sender s cap bytes (finished k' (err e)) = (k' ≡ k) × (¬ Accepted k sender s cap bytes)
SendEnds k sender s cap bytes panicked = ⊥

not-Accepted :
    (k : Kernel) (sender : ℕ) (s : CSpace) (cap : ℕ) (bytes : List ℕ) (e : IpcError)
    → enqueue k.registry sender s cap bytes ≡ err e
    → ¬ Accepted k sender s cap bytes
not-Accepted k sender s cap bytes e h (r', waiters, d) =
    cc (Sent-enqueue k.registry sender s cap bytes r' waiters d, h)

sends :
    (k : Kernel) (sender : ℕ) (s : CSpace) (cap : ℕ) (bytes : List ℕ) (r' : IpcRegistry)
    (waiters : List ℕ) (sched' : Option Scheduler)
    → enqueue k.registry sender s cap bytes ≡ ok (r', waiters)
    → wake_all k.scheduler waiters ≡ some sched'
    → send_message k sender s cap bytes
      ≡ finished (record { registry = some r'; scheduler = sched' }) (ok tt)
unfolding send_message
sends k sender s cap bytes r' waiters sched' q woke = ground arith

fails :
    (k : Kernel) (sender : ℕ) (s : CSpace) (cap : ℕ) (bytes : List ℕ) (e : IpcError)
    → enqueue k.registry sender s cap bytes ≡ err e
    → send_message k sender s cap bytes ≡ finished k (err e)
unfolding send_message
fails k sender s cap bytes e q = ground arith

-- Once the scheduler runs, no `unwrap` in `send_message` fails; waits for locks are not part of this. It
-- succeeds exactly when the sender holds an endpoint capability with the write right under the number
-- that it gives, the endpoint that this capability names exists and has room, and the message has at
-- most 4096 bytes; the message then stands last in the queue of that endpoint, and the tasks that waited
-- there are woken. When it fails, the kernel is as it was.
pub send_message-SendEnds :
    (k : Kernel) (sched : Scheduler) (sender : ℕ) (s : CSpace) (cap : ℕ) (bytes : List ℕ)
    → k.scheduler ≡ some sched
    → SendEnds k sender s cap bytes (send_message k sender s cap bytes)
send_message-SendEnds k sched sender s cap bytes e =
    elim (Result-cases (enqueue k.registry sender s cap bytes)) [
      | inl ((r', waiters), q) ↦
          let (sched', woke) = wake_all-some sched waiters in
          let d = enqueue-Sent k.registry sender s cap bytes r' waiters q in
          let all_woken : wake_all k.scheduler waiters ≡ some (some sched') = ground arith in
          rw (sends k sender s cap bytes r' waiters (some sched') q all_woken)
            (r', waiters, d, refl, all_woken)
      | inr (error, q) ↦
          rw (fails k sender s cap bytes error q) (refl, not-Accepted k sender s cap bytes error q)
    ]

-- Some receive under this capability is accepted by the registry.
abbrev pub Readable : Kernel → CSpace → ℕ → Type 0
Readable k s cap =
    (r' : IpcRegistry) × (message : Option Message) × Received k.registry s cap r' message

-- What a receive without waiting may end in.
abbrev pub ReceiveEnds : Kernel → CSpace → ℕ → Kernel × Result (Option Message) → Type 0
ReceiveEnds k s cap (k', ok message) =
    (r' : IpcRegistry) × Received k.registry s cap r' message
    × (k' ≡ record k { registry = some r' })
ReceiveEnds k s cap (k', err e) = (k' ≡ k) × (¬ Readable k s cap)

not-Readable :
    (k : Kernel) (s : CSpace) (cap : ℕ) (e : IpcError)
    → dequeue k.registry s cap ≡ err e
    → ¬ Readable k s cap
not-Readable k s cap e h (r', message, d) = cc (Received-dequeue k.registry s cap r' message d, h)

-- `try_receive_message` succeeds exactly when the receiver holds an endpoint capability with the read
-- right under the number that it gives, and the endpoint that this capability names exists; it then
-- gives the oldest message of that endpoint, if there is one, and takes it out of the queue. When it
-- fails, the kernel is as it was.
pub try_receive_message-ReceiveEnds :
    (k : Kernel) (receiver : ℕ) (s : CSpace) (cap : ℕ)
    → ReceiveEnds k s cap (try_receive_message k receiver s cap)
unfolding try_receive_message
try_receive_message-ReceiveEnds k receiver s cap = elim (Result-cases (dequeue k.registry s cap)) [
  | inl ((r', m), e) ↦
      rw (e, try_receive_message) (r', dequeue-Received k.registry s cap r' m e, refl)
  | inr (error, e) ↦ rw (e, try_receive_message) (refl, not-Readable k s cap error e)
]
