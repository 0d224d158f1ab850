-- ===== src/Arm64/Reach.antt =====
-- Histories of the scheduler of src/arch/aarch64/scheduler.rs: it stays valid, and no task runs but the
-- current one.
use jericho_os.Base.{
  ℕ, ◌<◌, ◌≡◌, ◌≢◌, sym, ◌∙◌, subst, inl, inr, true, some, List, length, leb, ◌==◌, Bool-cases,
  arith,
}
use jericho_os.Arm64.Context.{ExceptionFrame}
use jericho_os.Arm64.Scheduler.{Scheduler, TaskState, ready, running, blocked, new, update, spawn}
use jericho_os.Arm64.Switch.{
  set_state, pause, Switch, returns, switches, panics, switch_to_next, Resumed,
  scheduler_switch_task,
}
use jericho_os.Arm64.Resume.{length-update}
use jericho_os.Arm64.States.{state_at, paused, with_paused}
use jericho_os.Arm64.Choice.{chosen, state_at-chosen, switch_to_next-chosen}
use jericho_os.Arm64.Sound.{
  IsSound, new-IsSound, spawn-IsSound, switch-IsSound, map_running, set_running_keeps,
}

-- The calls on a scheduler, from the start on, with what they return.
pub data History : Scheduler → Type 0 where
  boot : (stacks : List ℕ) → length stacks ≡ 8 → History (new stacks)
  spawns : {s : Scheduler} (entry_point : ℕ) → History s → History (spawn s entry_point).0
  starts_first :
      {s : Scheduler}
      → History s
      → s.current_task ≡ 0
      → History (record s { tasks = update 0 (set_state running) s.tasks })
  stays : {s s' : Scheduler} → History s → switch_to_next s ≡ returns s' → History s'
  switches_over :
      {s s' : Scheduler} {prev next : ℕ}
      → History s
      → switch_to_next s ≡ switches s' prev next
      → History s'
  is_interrupted :
      {s : Scheduler} {r : Resumed} (frame : ExceptionFrame)
      → History s
      → scheduler_switch_task s frame ≡ some r
      → History r.scheduler

paused-running : (x : TaskState) → paused x ≢ running
unfolding paused
paused-running ready e = absurd (ground arith)
paused-running running e = absurd (ground arith)
paused-running blocked e = absurd (ground arith)

chosen-IsSound : (s : Scheduler) (k : ℕ) → IsSound s → k < s.num_tasks → IsSound (chosen s k)
chosen-IsSound s k h small = record {
  valid = record {
    eight =
        length-update k (set_state running) (with_paused s).tasks
        ∙ length-update s.current_task pause s.tasks
        ∙ h.valid.eight;
    used = h.valid.used;
    current = omega arith;
  };
  others_wait = λ j other e. elim (Bool-cases (s.current_task == j)) [
    | inl old ↦
        map_running paused paused-running (state_at s j) (ground (arith, state_at-chosen s k j))
    | inr miss ↦ h.others_wait j (ground arith) (ground (arith, state_at-chosen s k j))
  ];
}

switch_to_next-alone : (s : Scheduler) → leb s.num_tasks 1 ≡ true → switch_to_next s ≡ returns s
unfolding switch_to_next
switch_to_next-alone s h = ground arith

-- The scheduler after a call of `switch_to_next`.
abbrev left : Scheduler → Switch → Scheduler
left s (returns s') = s'
left s (switches s' prev next) = s'
left s panics = s

switch_to_next-IsSound : (s : Scheduler) → IsSound s → IsSound (left s (switch_to_next s))
switch_to_next-IsSound s h = elim (Bool-cases (leb s.num_tasks 1)) [
  | inl alone ↦ rw (switch_to_next-alone s alone) h
  | inr several ↦
      let (k, near, e) = switch_to_next-chosen s h.valid (ground arith) in
      let sound = chosen-IsSound s k h near.in_use in
      elim (Bool-cases (s.current_task == k)) [
        | inl same ↦
            let ends : switch_to_next s ≡ returns (chosen s k) = ground arith in rw ends sound
        | inr other ↦
            let ends : switch_to_next s ≡ switches (chosen s k) s.current_task k = ground arith in
            rw ends sound
      ]
]

first-IsSound :
    (s : Scheduler)
    → IsSound s
    → s.current_task ≡ 0
    → IsSound (record s { tasks = update 0 (set_state running) s.tasks })
first-IsSound s h e = record {
  valid = record {
    eight = length-update 0 (set_state running) s.tasks ∙ h.valid.eight;
    used = h.valid.used;
    current = h.valid.current;
  };
  others_wait = λ j other running_j. h.others_wait j other (
      sym (set_running_keeps s 0 s.num_tasks s.current_task j (λ z. other (z ∙ sym e)))
      ∙ running_j);
}

-- After any history of new tasks, the start of the first task, switches and timer interrupts, the scheduler is
-- valid: it has eight places, of which no more are in use, and the current task is one of those in
-- use, or the first when none is. No task but the current one is in the state of running.
pub History-IsSound : {s : Scheduler} → History s → IsSound s
History-IsSound (boot stacks e) = new-IsSound stacks e
History-IsSound (spawns {s} entry_point h) = spawn-IsSound s entry_point (History-IsSound h)
History-IsSound (starts_first {s} h e) = first-IsSound s (History-IsSound h) e
History-IsSound (stays {s} {s'} h e) =
    subst (λ x. IsSound (left s x)) e (switch_to_next-IsSound s (History-IsSound h))
History-IsSound (switches_over {s} {s'} h e) =
    subst (λ x. IsSound (left s x)) e (switch_to_next-IsSound s (History-IsSound h))
History-IsSound (is_interrupted {s} {r} frame h e) = switch-IsSound s frame r (History-IsSound h) e
