-- ===== src/Scheduler/Yield.antt =====
-- `task_yield` of src/scheduler.rs: scheduling with interrupts disabled, up to the context switch.
-- `resume` is what is left of the call when the task is switched back to.
use jericho_os.Base.{
  ℕ, ◌≡◌, ◌≢◌, refl, Bool, true, false, Option, none, some, List, [], ◌∷◌, is_some, ◌==◌,
  if◌then◌else◌, Option-cases, Bool-cases, inl, inr, arith,
}
use jericho_os.Task.{running}
use jericho_os.Task.Table.{state_of}
use jericho_os.Scheduler.{Scheduler, schedule, get_task}
use jericho_os.Scheduler.Invariant.{IsValid, Round, paused, schedule-Round, state_of-missing}

-- The interrupt flag of the processor and the static SCHEDULER.
pub record Machine : Type 0 where
  pub interrupts : Bool
  pub scheduler : Option Scheduler

-- `switches m old new enabled` stops in `switch_context` from the context of `old` to that of `new`;
-- `enabled` is the flag that the call keeps on its stack. `panics` is a failing `unwrap`.
pub data Yielded : Type 0 where
  returns : Machine → Yielded
  switches : Machine → ℕ → ℕ → Bool → Yielded
  panics : Yielded

-- `if interrupts_enabled { interrupts::enable(); }`.
unfoldable pub resume : Bool → Machine → Machine
resume enabled m = if enabled then record m { interrupts = true } else m

-- The pointers to the two contexts: both tasks must be in the list.
unfoldable pub extract : Machine → Scheduler → ℕ → ℕ → Bool → Yielded
extract m s old_id new_id enabled =
    if is_some (get_task s old_id)
    then (if is_some (get_task s new_id) then switches m old_id new_id enabled else panics)
    else panics

-- The part under the lock, once there is a scheduler and a current task.
unfoldable pub yield_from : Machine → Scheduler → ℕ → Bool → Yielded
unfolding extract resume
yield_from m s old_id enabled =
    let (s', chosen) = schedule s in
    let m' : Machine = record m { scheduler = some s' } in
    elim chosen [
      | none ↦ returns (resume enabled m')
      | some new_id ↦
          if old_id == new_id
          then returns (resume enabled m')
          else extract m' s' old_id new_id enabled
    ]

unfoldable pub task_yield : Machine → Yielded
unfolding yield_from resume
task_yield m =
    let interrupts_enabled = m.interrupts in
    let off : Machine = record m { interrupts = false } in
    elim m.scheduler [
      | none ↦ returns (resume interrupts_enabled off)
      | some s ↦ elim s.current_task [
        | none ↦ returns (resume interrupts_enabled off)
        | some old_id ↦ yield_from off s old_id interrupts_enabled
      ]
    ]

-- What a call may end in: it returns with the interrupt flag that it found, or it switches, with
-- interrupts off, from the task that was current to another, which is now current and running, while
-- the old one, if it ran, is ready.
abbrev pub Yields : Machine → Yielded → Type 0
Yields m (returns m') = m'.interrupts ≡ m.interrupts
Yields m (switches m' old new enabled) =
    (m'.interrupts ≡ false)
    × (enabled ≡ m.interrupts)
    × (old ≢ new)
    × ((s : Scheduler) × (s' : Scheduler) × (m.scheduler ≡ some s)
        × (m'.scheduler ≡ some s')
        × (s.current_task ≡ some old)
        × (s'.current_task ≡ some new)
        × (state_of s'.tasks new ≡ some running)
        × (state_of s'.tasks old ≡ paused (state_of s.tasks old)))
Yields m panics = ⊥

get-known : (s : Scheduler) (k : ℕ) → state_of s.tasks k ≢ none → is_some (get_task s k) ≡ true
unfolding get_task
get-known s k h = elim (Option-cases (get_task s k)) [
  | inl absent ↦ absurd (h (state_of-missing s.tasks k absent))
  | inr (t, there) ↦ ground arith
]

extract_lem :
    (m : Machine) (s : Scheduler) (old new : ℕ) (enabled : Bool)
    → state_of s.tasks old ≢ none
    → state_of s.tasks new ≢ none
    → extract m s old new enabled ≡ switches m old new enabled
unfolding extract
extract_lem m s old new enabled h k = rw (get-known s old h, get-known s new k)

resume_interrupts :
    (enabled : Bool) (m : Machine) → m.interrupts ≡ false → (resume enabled m).interrupts ≡ enabled
unfolding resume
resume_interrupts true m h = refl
resume_interrupts false m h = h

switch-Yields :
    (m : Machine) (s : Scheduler) (old n : ℕ) (rest : List ℕ)
    → IsValid s
    → m.scheduler ≡ some s
    → s.current_task ≡ some old
    → old ≢ n
    → Round s n rest (schedule s)
    → Yields m (
        extract
          (record { interrupts = false; scheduler = some (schedule s).0 })
          (schedule s).0
          old
          n
          m.interrupts)
switch-Yields m s old n rest v there now other r =
    rw
      (extract_lem _ (schedule s).0 old n m.interrupts (λ h. v.known old now (kept h))
        (λ h. ground (arith, r.states n)))
      (refl, refl, other, (s, (schedule s).0, there, refl, now, r.current, runs, left))
  where
    kept : state_of (schedule s).0.tasks old ≡ none → state_of s.tasks old ≡ none
    kept h = ground (arith, r.states old, other)

    runs : state_of (schedule s).0.tasks n ≡ some running
    runs = ground (arith, r.states n)

    left : state_of (schedule s).0.tasks old ≡ paused (state_of s.tasks old)
    left = ground (arith, r.states old, other)

yield_from-Yields :
    (m : Machine) (s : Scheduler) (old : ℕ)
    → IsValid s
    → m.scheduler ≡ some s
    → s.current_task ≡ some old
    → Yields m (yield_from (record m { interrupts = false }) s old m.interrupts)
unfolding yield_from
yield_from-Yields m s old v there now = by_queue s.ready_queue refl
  where
    by_queue :
        (q : List ℕ)
        → s.ready_queue ≡ q
        → Yields m (yield_from (record m { interrupts = false }) s old m.interrupts)
    by_queue [] e =
        let none_chosen : (schedule s).1 ≡ none = unfold schedule in rw (e, schedule) in
        rw (none_chosen, yield_from) (resume_interrupts m.interrupts _ refl)
    by_queue (n ∷ rest) e =
        let r = schedule-Round s n rest v e in
        elim (Bool-cases (old == n)) [
          | inl same ↦ rw (r.chosen, yield_from, same) (resume_interrupts m.interrupts _ refl)
          | inr other ↦
              rw (r.chosen, yield_from, other)
                (switch-Yields m s old n rest v there now (ground arith) r)
        ]

task_yield_starts :
    (m : Machine) (s : Scheduler) (old : ℕ)
    → m.scheduler ≡ some s
    → s.current_task ≡ some old
    → task_yield m ≡ yield_from (record m { interrupts = false }) s old m.interrupts
unfolding task_yield
task_yield_starts m s old e now = ground arith

task_yield_idle :
    (m : Machine) (s : Scheduler)
    → m.scheduler ≡ some s
    → s.current_task ≡ none
    → task_yield m ≡ returns (resume m.interrupts (record m { interrupts = false }))
unfolding task_yield
task_yield_idle m s e idle = ground arith

-- With a valid scheduler, or none, a yield never fails to find its tasks: it comes back with the
-- interrupt flag as it was, or it switches, with interrupts off, from the current task to another,
-- which then is the current one and runs, and leaves the old one ready if it ran.
pub task_yield-Yields :
    (m : Machine) → ((s : Scheduler) → m.scheduler ≡ some s → IsValid s) → Yields m (task_yield m)
unfolding task_yield
task_yield-Yields m v = elim (Option-cases m.scheduler) [
  | inl e ↦ rw (e, task_yield) (resume_interrupts m.interrupts _ refl)
  | inr (s, e) ↦ elim (Option-cases s.current_task) [
    | inl idle ↦ rw (task_yield_idle m s e idle) (resume_interrupts m.interrupts _ refl)
    | inr (old, now) ↦
        rw (task_yield_starts m s old e now) (yield_from-Yields m s old (v s e) e now)
  ]
]
