-- ===== src/Arm64/Sound.antt =====
-- Single calls on the scheduler of src/arch/aarch64/scheduler.rs: they keep it valid, and let no task run
-- but the current one.
use jericho_os.Base.{
  ℕ, zero, suc, ◌-◌, ◌≤◌, ◌≡◌, ◌≢◌, refl, sym, ◌∙◌, ap, subst, inl, inr, Option, none, some, List,
  [], ◌∷◌, length, leb, ltb, ◌==◌, Bool-cases, arith,
}
use mathlib.Core.Option.{some-injective}
use mathlib.Core.Option
use jericho_os.Arm64.Context.{ExceptionFrame}
use jericho_os.Arm64.Scheduler.{
  Scheduler, Task, TaskState, ready, running, new, new_task, schedule, update, spawn, spawned,
}
use jericho_os.Arm64.Switch.{
  set_state, interrupted, interrupt, Resumed, resume, scheduler_switch_task,
}
use jericho_os.Arm64.Search.{IsValid, schedule-IsNearest}
use jericho_os.Arm64.Resume.{length-update, resume-some, interrupt-IsValid, interrupt_same}
use jericho_os.Arm64.States.{state_at, state_at-update}

pub record IsSound (s : Scheduler) : Type 0 where
  pub valid : IsValid s
  pub others_wait : (j : ℕ) → j ≢ s.current_task → state_at s j ≢ some running

new_states : (stacks : List ℕ) (j : ℕ) → state_at (new stacks) j ≢ some running
unfolding new new_task state_at
new_states [] j e = absurd (ground arith)
new_states (x ∷ xs) zero e = absurd (ground arith)
new_states (x ∷ xs) (suc j) e = new_states xs j e

length-new : (stacks : List ℕ) → length (new stacks).tasks ≡ length stacks
unfolding new
length-new [] = refl
length-new (x ∷ xs) = ap suc (length-new xs)

pub new-IsSound : (stacks : List ℕ) → length stacks ≡ 8 → IsSound (new stacks)
new-IsSound stacks e = record {
  valid = record {
    eight = length-new stacks ∙ e;
    used = unfold new in omega arith;
    current = unfold new in omega arith;
  };
  others_wait = λ j _. new_states stacks j;
}

pub map_running :
    (g : TaskState → TaskState)
    → ((x : TaskState) → g x ≢ running)
    → (o : Option TaskState) → Option.map g o ≢ some running
map_running g never none e = absurd (ground arith)
map_running g never (some x) e = never x (some-injective _ _ e)

-- A change to a state that is not running makes no task run.
update_waits :
    (i j : ℕ) (f : Task → Task) (g : TaskState → TaskState) (s : Scheduler)
    → ((t : Task) → (f t).state ≡ g t.state)
    → ((x : TaskState) → g x ≢ running)
    → ((i ≢ j) → state_at s j ≢ some running)
    → state_at (record s { tasks = update i f s.tasks }) j ≢ some running
update_waits i j f g s same never old e = elim (Bool-cases (i == j)) [
  | inl hit ↦ map_running g never (state_at s j) (ground (arith, state_at-update i j f g s same))
  | inr miss ↦ old (ground arith) (ground (arith, state_at-update i j f g s same))
]

-- The states depend on the tasks only.
same_states :
    (s : Scheduler) (tasks : List Task) (n k j : ℕ)
    → state_at (record { tasks = tasks; num_tasks = n; current_task = k }) j
      ≡ state_at (record s { tasks = tasks }) j
unfolding state_at
same_states s tasks n k j = refl

ready-running : ready ≢ running
ready-running e = absurd (ground arith)

pub spawn-IsSound : (s : Scheduler) (entry_point : ℕ) → IsSound s → IsSound (spawn s entry_point).0
unfolding spawn spawned
spawn-IsSound s entry_point h = elim (Bool-cases (leb 8 s.num_tasks)) [
  | inl full ↦ rw (spawn, full) h
  | inr room ↦
      rw (spawn, room)
        (record {
          valid = record {
            eight =
                length-update s.num_tasks (spawned s.num_tasks entry_point) s.tasks ∙ h.valid.eight;
            used = ground arith;
            current = omega (arith, h.valid.current);
          };
          others_wait = λ j other e.
              update_waits s.num_tasks j (spawned s.num_tasks entry_point) (λ _. ready) s
                (λ t. refl) (λ _. ready-running) (λ _. h.others_wait j other)
                (sym (
                    same_states s (update s.num_tasks (spawned s.num_tasks entry_point) s.tasks)
                      (suc s.num_tasks) s.current_task j)
                  ∙ e);
        })
]

schedule-some :
    (s : Scheduler)
    → IsValid s
    → (k : ℕ) × (schedule s ≡ some (record s { current_task = k })) × (k ≤ s.num_tasks - 1)
unfolding schedule
schedule-some s v = elim (Bool-cases (s.num_tasks == 0)) [
  | inl nothing ↦ (s.current_task, ground arith, v.current)
  | inr several ↦
      let (k, e, near) = schedule-IsNearest s v (ground arith) in (k, e, omega (arith, near.in_use))
]

interrupt-waits :
    (s : Scheduler) (frame : ExceptionFrame) (j : ℕ)
    → IsSound s
    → (s.num_tasks ≡ 0 → j ≢ s.current_task)
    → state_at (interrupt s frame) j ≢ some running
unfolding interrupt interrupted
interrupt-waits s frame j h empty = elim (Bool-cases (ltb s.current_task s.num_tasks)) [
  | inl in_use ↦
      rw (interrupt, in_use)
        (update_waits s.current_task j (interrupted frame) (λ _. ready) s (λ t. refl)
          (λ _. ready-running) (λ other. h.others_wait j (λ e. other (sym e))))
  | inr unused ↦ rw (interrupt, unused) (h.others_wait j (empty (ground (arith, h.valid.current))))
]

-- A task set to run is the only one that changes.
pub set_running_keeps :
    (s : Scheduler) (k n current j : ℕ)
    → j ≢ k
    → state_at
        (record {
          tasks = update k (set_state running) s.tasks;
          num_tasks = n;
          current_task = current;
        })
        j
      ≡ state_at s j
unfolding set_state
set_running_keeps s k n current j other =
    same_states s (update k (set_state running) s.tasks) n current j
    ∙ ground (arith, state_at-update k j (set_state running) (λ _. running) s (λ t. refl))

resume-IsSound :
    (s : Scheduler) (k : ℕ)
    → IsValid s
    → k ≤ s.num_tasks - 1
    → ((j : ℕ) → j ≢ k → state_at s j ≢ some running)
    → (r : Resumed) × (resume (some (record s { current_task = k })) ≡ some r) × IsSound r.scheduler
resume-IsSound s k v hk wait =
    let next : Scheduler = record s { current_task = k } in
    let (t, there, e) = resume-some next (omega (arith, v.eight, v.used)) in
    (
      _,
      e,
      record {
        valid = record {
          eight = length-update k (set_state running) s.tasks ∙ v.eight;
          used = v.used;
          current = hk;
        };
        others_wait = λ j other running_j.
            wait j other (sym (set_running_keeps s k s.num_tasks k j other) ∙ running_j);
      },
    )

pub switch-IsSound :
    (s : Scheduler) (frame : ExceptionFrame) (r : Resumed)
    → IsSound s
    → scheduler_switch_task s frame ≡ some r
    → IsSound r.scheduler
unfolding scheduler_switch_task
switch-IsSound s frame r h e =
    let (k, chosen, small) =
      schedule-some (interrupt s frame) (interrupt-IsValid s frame h.valid) in
    let (r', e', sound) =
      resume-IsSound (interrupt s frame) k (interrupt-IsValid s frame h.valid) small (λ j other.
        interrupt-waits s frame j h (λ none_yet same.
          other (omega (arith, none_yet, same, small, interrupt_same s frame, h.valid.current)))) in
    subst (λ x. IsSound x.scheduler) (some-injective r' r (sym e' ∙ sym (ap resume chosen) ∙ e))
      sound
