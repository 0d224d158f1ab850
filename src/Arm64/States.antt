-- ===== src/Arm64/States.antt =====
-- The states of the tasks in src/arch/aarch64/scheduler.rs under its switches.
use jericho_os.Base.{
  ℕ, ◌≡◌, refl, ◌∙◌, ap, inl, inr, true, Option, none, some, get_elem?, ◌==◌, if◌then◌else◌,
  Option-cases, arith,
}
use mathlib.Core.Option
use jericho_os.Arm64.Scheduler.{
  Scheduler, Task, TaskState, ready, running, blocked, same_state, update,
}
use jericho_os.Arm64.Switch.{set_state, pause}
use jericho_os.Arm64.Search.{ready?}
use jericho_os.Arm64.Resume.{get-update}

unfoldable pub state_at : Scheduler → ℕ → Option TaskState
state_at s i = Option.map (λ t. t.state) (get_elem? s.tasks i)

map_state :
    (f : Task → Task) (g : TaskState → TaskState)
    → ((t : Task) → (f t).state ≡ g t.state)
    → (o : Option Task)
    → Option.map (λ t. t.state) (Option.map f o) ≡ Option.map g (Option.map (λ t. t.state) o)
map_state f g same none = refl
map_state f g same (some t) = ap some (same t)

-- A change of one task, on the states.
pub state_at-update :
    (i j : ℕ) (f : Task → Task) (g : TaskState → TaskState) (s : Scheduler)
    → ((t : Task) → (f t).state ≡ g t.state)
    → state_at (record s { tasks = update i f s.tasks }) j
      ≡ (if i == j then Option.map g (state_at s j) else state_at s j)
unfolding state_at
state_at-update i j f g s same =
    ground (arith, get-update i j f s.tasks, map_state f g same (get_elem? s.tasks j))

-- What `switch_to_next` makes of the state of the task that was current.
unfoldable pub paused : TaskState → TaskState
paused running = ready
paused ready = ready
paused blocked = blocked

pub pause-paused : (t : Task) → (pause t).state ≡ paused t.state
unfolding pause set_state paused
pause-paused t = by_state t.state refl
  where
    by_state : (state : TaskState) → t.state ≡ state → (pause t).state ≡ paused t.state
    by_state running e = rw (e, pause, paused) refl
    by_state ready e = rw (e, pause, paused) refl
    by_state blocked e = rw (e, pause, paused) refl

same_state_ready : (x : TaskState) → same_state x ready ≡ true → x ≡ ready
same_state_ready ready h = refl
same_state_ready running h = absurd (ground arith)
same_state_ready blocked h = absurd (ground arith)

pub ready-state_at : (s : Scheduler) (i : ℕ) → ready? s i ≡ true → state_at s i ≡ some ready
unfolding ready? state_at
ready-state_at s i h = elim (Option-cases (get_elem? s.tasks i)) [
  | inl e ↦ absurd (ground arith)
  | inr (t, e) ↦
      ap (Option.map (λ t. t.state)) e ∙ ap some (same_state_ready t.state (ground arith))
]

-- The scheduler with its current task paused.
abbrev pub with_paused : Scheduler → Scheduler
with_paused s = record s { tasks = update s.current_task pause s.tasks }
