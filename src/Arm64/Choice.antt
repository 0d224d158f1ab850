-- ===== src/Arm64/Choice.antt =====
-- `switch_to_next` of src/arch/aarch64/scheduler.rs: which task it chooses, and the states that it leaves.
use jericho_os.Base.{
  ℕ, ◌≤◌, ◌<◌, ◌≡◌, ◌≢◌, refl, sym, ◌∙◌, ap, subst, ◌⊎◌, inl, inr, true, some, get_elem?, length,
  leb, ◌==◌, if◌then◌else◌, Bool-cases, Option-cases, ==_self, arith,
}
use mathlib.Core.Option
use jericho_os.Arm64.Scheduler.{Scheduler, Task, TaskState, ready, running, schedule, update}
use jericho_os.Arm64.Switch.{
  set_state, pause, Switch, returns, switches, panics, switch_from, switch_to_next,
}
use jericho_os.Arm64.Search.{
  IsValid, IsNearest, ready?, get-in_range, schedule-IsNearest, distance, distance-le,
  distance_self, distance-injective,
}
use jericho_os.Arm64.Resume.{length-update}
use jericho_os.Arm64.States.{
  state_at, state_at-update, paused, pause-paused, ready-state_at, with_paused,
}

with_paused-IsValid : (s : Scheduler) → IsValid s → IsValid (with_paused s)
with_paused-IsValid s v = record {
  eight = length-update s.current_task pause s.tasks ∙ v.eight;
  used = v.used;
  current = v.current;
}

-- The scheduler after `switch_to_next` has chosen the task `k`.
abbrev pub chosen : Scheduler → ℕ → Scheduler
chosen s k = record s {
  tasks = update k (set_state running) (update s.current_task pause s.tasks);
  current_task = k;
}

switch_from-chosen :
    (s : Scheduler) (k : ℕ)
    → k < length s.tasks
    → switch_from s.current_task (some (record (with_paused s) { current_task = k })) ≡ (
        if s.current_task == k
        then returns (chosen s k)
        else switches (chosen s k) s.current_task k)
unfolding switch_from
switch_from-chosen s k h =
    let (t, e) =
      get-in_range (update s.current_task pause s.tasks) k
        (omega (arith, length-update s.current_task pause s.tasks)) in
    ground arith

-- What `switch_to_next` comes to, with the choice made by `schedule` on the paused scheduler.
pub switch_to_next-chosen :
    (s : Scheduler)
    → IsValid s
    → 1 < s.num_tasks
    → (k : ℕ) × IsNearest (with_paused s) s.current_task k
      × (switch_to_next s ≡ (
          if s.current_task == k
          then returns (chosen s k)
          else switches (chosen s k) s.current_task k))
unfolding switch_to_next
switch_to_next-chosen s v several =
    let (t, e) = get-in_range s.tasks s.current_task (omega (arith, v.current, v.eight, v.used)) in
    let (k, found, near) =
      schedule-IsNearest (with_paused s) (with_paused-IsValid s v) (omega arith) in
    (
      k,
      near,
      starts s t e several
          ∙ ap (switch_from s.current_task) found
          ∙ switch_from-chosen s k (omega (arith, near.in_use, v.eight, v.used)),
    )
  where
    starts :
        (s : Scheduler) (t : Task)
        → get_elem? s.tasks s.current_task ≡ some t
        → 1 < s.num_tasks
        → switch_to_next s ≡ switch_from s.current_task (schedule (with_paused s))
    starts s t e several = unfold switch_to_next in ground arith

-- The states then: the chosen task runs, the one that was current is paused, the others are as they
-- were.
pub state_at-chosen :
    (s : Scheduler) (k j : ℕ)
    → state_at (chosen s k) j ≡ (
        if k == j
        then Option.map (λ _. running) (state_at (with_paused s) j)
        else if s.current_task == j
        then Option.map paused (state_at s j)
        else state_at s j)
unfolding set_state state_at
state_at-chosen s k j = ground (
  arith,
  state_at-update k j (set_state running) (λ _. running) (with_paused s) (λ t. refl),
  state_at-update s.current_task j pause paused s pause-paused,
)

with_paused_states :
    (s : Scheduler) (j : ℕ)
    → state_at (with_paused s) j
      ≡ (if s.current_task == j then Option.map paused (state_at s j) else state_at s j)
with_paused_states s j = state_at-update s.current_task j pause paused s pause-paused

in_range-state :
    (s : Scheduler) (j : ℕ) → j < length s.tasks → (x : TaskState) × (state_at s j ≡ some x)
unfolding state_at
in_range-state s j h =
    let (t, e) = get-in_range s.tasks j h in (t.state, ap (Option.map (λ t. t.state)) e)

-- The chosen task runs.
pub chosen_runs :
    (s : Scheduler) (k : ℕ) → k < length s.tasks → state_at (chosen s k) k ≡ some running
chosen_runs s k h =
    let (x, e) =
      in_range-state (with_paused s) k
        (omega (arith, length-update s.current_task pause s.tasks)) in
    ground (arith, state_at-chosen s k k, ==_self k)

-- What `switch_to_next` may end in. It returns because there is no other task, or because none was
-- ready but the current one may be, which then runs; or it switches to another task, which was ready
-- and now runs, and the old one is ready if it ran, and else as it was.
abbrev pub SwitchEnds : Scheduler → Switch → Type 0
SwitchEnds s (returns s') =
    ((s.num_tasks ≤ 1) × (s' ≡ s))
    ⊎ ((s'.current_task ≡ s.current_task)
        × (state_at s' s.current_task ≡ some running)
        × ((j : ℕ) → j < s.num_tasks → j ≢ s.current_task → state_at s j ≢ some ready))
SwitchEnds s (switches s' prev next) =
    (prev ≡ s.current_task)
    × (next ≡ s'.current_task)
    × (prev ≢ next)
    × (state_at s next ≡ some ready)
    × (state_at s' next ≡ some running)
    × (state_at s' prev ≡ Option.map paused (state_at s prev))
SwitchEnds s panics = ⊥

state_at-ready : (s : Scheduler) (i : ℕ) → state_at s i ≡ some ready → ready? s i ≡ true
unfolding state_at ready?
state_at-ready s i h = elim (Option-cases (get_elem? s.tasks i)) [
  | inl e ↦ absurd (ground arith)
  | inr (t, e) ↦ ground arith
]

-- When the search is back at the start, every ready task is the start.
last_of_all :
    (s : Scheduler) (k j : ℕ)
    → IsValid s
    → k ≡ s.current_task
    → IsNearest (with_paused s) s.current_task k
    → j < s.num_tasks
    → ready? (with_paused s) j ≡ true
    → j ≡ s.current_task
last_of_all s k j v e near hj ready_j =
    let hs : s.current_task < s.num_tasks = omega (arith, near.in_use, e) in
    let far = near.nearest j hj ready_j in
    distance-injective s.num_tasks s.current_task j s.current_task hs hj hs (
      omega (
        arith,
        far.0,
        distance-le s.num_tasks s.current_task j hs hj,
        distance_self s.num_tasks s.current_task hs,
        ap (distance s.num_tasks s.current_task) e,
      ))

stays :
    (s : Scheduler) (k : ℕ)
    → IsValid s
    → k ≡ s.current_task
    → IsNearest (with_paused s) s.current_task k
    → SwitchEnds s (returns (chosen s k))
stays s k v e near = inr (
  e,
  subst (λ i. state_at (chosen s k) i ≡ some running) e
      (chosen_runs s k (omega (arith, near.in_use, v.eight, v.used))),
  λ j hj other ready_j. other (
      last_of_all s k j v e near hj
        (state_at-ready (with_paused s) j (ground (arith, with_paused_states s j)))),
)

moves :
    (s : Scheduler) (k : ℕ)
    → IsValid s
    → s.current_task ≢ k
    → IsNearest (with_paused s) s.current_task k
    → SwitchEnds s (switches (chosen s k) s.current_task k)
moves s k v other near = (
  refl,
  refl,
  other,
  was_ready near.chosen,
  chosen_runs s k (omega (arith, near.in_use, v.eight, v.used)),
  ground (arith, state_at-chosen s k s.current_task, ==_self s.current_task),
)
  where
    was_ready :
        ((ready? (with_paused s) k ≡ true) ⊎ (k ≡ s.current_task)) → state_at s k ≡ some ready
    was_ready (inl r) =
        let found = ready-state_at (with_paused s) k r in ground (arith, with_paused_states s k)
    was_ready (inr e) = absurd (other (sym e))

-- With a valid scheduler, `switch_to_next` never reads outside the array. It returns because there is
-- no other task, or because no other task is ready, and the current task then runs; or it switches to
-- another task, which was ready and now is current and runs, and the old one is ready if it ran, and
-- else in the state that it was in.
pub switch_to_next-SwitchEnds : (s : Scheduler) → IsValid s → SwitchEnds s (switch_to_next s)
switch_to_next-SwitchEnds s v = elim (Bool-cases (leb s.num_tasks 1)) [
  | inl alone ↦ subst (SwitchEnds s) (sym (stays_alone s alone)) (inl (ground arith, refl))
  | inr several ↦
      let (k, near, e) = switch_to_next-chosen s v (ground arith) in
      elim (Bool-cases (s.current_task == k)) [
        | inl same ↦
            let back : switch_to_next s ≡ returns (chosen s k) = ground arith in
            subst (SwitchEnds s) (sym back) (stays s k v (ground arith) near)
        | inr other ↦
            let away : switch_to_next s ≡ switches (chosen s k) s.current_task k = ground arith in
            subst (SwitchEnds s) (sym away) (moves s k v (ground arith) near)
      ]
]
  where
    stays_alone : (s : Scheduler) → leb s.num_tasks 1 ≡ true → switch_to_next s ≡ returns s
    stays_alone s alone = unfold switch_to_next in ground arith
