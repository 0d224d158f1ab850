-- ===== src/Scheduler/Reach.antt =====
-- The histories of the scheduler of src/scheduler.rs, with the counter that gives out identifiers.
use jericho_os.Base.{
  ℕ, suc, ◌+◌, ◌^◌, ◌<◌, ◌≡◌, refl, none, List, [], ◌∷◌, String, Option-cases, inl, inr, arith,
}
use jericho_os.Task.{Task, TaskState, Priority, ready, running, blocked, terminated}
use jericho_os.Task
use jericho_os.Task.Table
use jericho_os.Task.Table.{state_of, set_state_in, replaced, state_of-set_state_in, state_of-add}
use jericho_os.Scheduler.{
  Scheduler, new, add_task, schedule, block_current, unblock_task, terminate_current,
}
use jericho_os.Scheduler.Invariant.{IsValid, head_ready, schedule-Round, schedule-IsValid}
use jericho_os.Scheduler.Blocking.{
  new-IsValid, set_aside-IsValid, add_task-IsValid, block_current-IsValid,
  terminate_current-IsValid, unblock_task-IsValid, unblock_task_lem, state_cases,
}

pub record System : Type 0 where
  pub scheduler : Scheduler
  pub next_id : ℕ

-- A new task, a round, a wait, a wake-up or the end of the current task.
pub data Step (a : System) : System → Type 0 where
  spawn :
      (name : String) (entry_point wrapper : ℕ) (priority : Priority) (stack : ℕ)
      → a.next_id + 1 < 2 ^ 64
      → Step a (record {
        scheduler =
            (add_task a.scheduler (Task.new name entry_point wrapper priority stack a.next_id).0).0;
        next_id = (Task.new name entry_point wrapper priority stack a.next_id).1;
      })
  round : Step a (record a { scheduler = (schedule a.scheduler).0 })
  wait : Step a (record a { scheduler = block_current a.scheduler })
  wake : (id : ℕ) → Step a (record a { scheduler = unblock_task a.scheduler id })
  stop : Step a (record a { scheduler = terminate_current a.scheduler })

pub data Reach : System → Type 0 where
  boot : Reach (record { scheduler = new; next_id = 1 })
  next : {a b : System} → Reach a → Step a b → Reach b

-- The identifiers in use are below the counter.
pub record IsSound (a : System) : Type 0 where
  pub valid : IsValid a.scheduler
  pub fresh : (k : ℕ) → a.next_id < suc k → state_of a.scheduler.tasks k ≡ none

schedule_absent :
    (s : Scheduler) (k : ℕ)
    → IsValid s
    → state_of s.tasks k ≡ none
    → state_of (schedule s).0.tasks k ≡ none
schedule_absent s k v h = by_queue s.ready_queue refl
  where
    by_queue : (q : List ℕ) → s.ready_queue ≡ q → state_of (schedule s).0.tasks k ≡ none
    by_queue [] e = unfold schedule in rw (e, schedule) h
    by_queue (n ∷ rest) e =
        ground (arith, (schedule-Round s n rest v e).states k, head_ready s n rest v e)

block_current_absent :
    (s : Scheduler) (k : ℕ)
    → IsValid s
    → state_of s.tasks k ≡ none
    → state_of (block_current s).tasks k ≡ none
unfolding block_current
block_current_absent s k v h = elim (Option-cases s.current_task) [
  | inl e ↦ rw (e, block_current) h
  | inr (c, e) ↦
      rw (e, block_current)
        (schedule_absent _ k (set_aside-IsValid s c blocked s.current_task v e refl (inr e))
          (ground (arith, state_of-set_state_in s.tasks c blocked k)))
]

terminate_current_absent :
    (s : Scheduler) (k : ℕ)
    → IsValid s
    → state_of s.tasks k ≡ none
    → state_of (terminate_current s).tasks k ≡ none
unfolding terminate_current
terminate_current_absent s k v h = elim (Option-cases s.current_task) [
  | inl e ↦ rw (e, terminate_current) h
  | inr (c, e) ↦
      rw (e, terminate_current)
        (schedule_absent _ k (set_aside-IsValid s c terminated none v e refl (inl refl))
          (ground (arith, state_of-set_state_in s.tasks c terminated k)))
]

unblock_task_absent :
    (s : Scheduler) (id k : ℕ)
    → state_of s.tasks k ≡ none
    → state_of (unblock_task s id).tasks k ≡ none
unblock_task_absent s id k h = elim (state_cases (state_of s.tasks id)) [
  | inl asleep ↦
      rw ((unblock_task_lem s id).0 asleep)
        (ground (arith, state_of-set_state_in s.tasks id ready k))
  | inr awake ↦ rw ((unblock_task_lem s id).1 awake) h
]

add_task_absent :
    (s : Scheduler) (t : Task) (k : ℕ)
    → state_of s.tasks t.id ≡ none
    → t.id < k
    → state_of s.tasks k ≡ none
    → state_of (add_task s t).0.tasks k ≡ none
unfolding add_task
add_task_absent s t k unused above h = ground (arith, state_of-add s.tasks t k unused)

Step-IsSound : {a b : System} → IsSound a → Step a b → IsSound b
Step-IsSound {a} h (spawn name entry_point wrapper priority stack room) =
    unfold Task.new in
    record {
      valid =
          add_task-IsValid a.scheduler
            (Task.new name entry_point wrapper priority stack a.next_id).0 h.valid refl
            (h.fresh a.next_id (omega arith));
      fresh = λ k above.
          add_task_absent a.scheduler (Task.new name entry_point wrapper priority stack a.next_id).0
            k (h.fresh a.next_id (omega arith)) (omega arith) (h.fresh k (omega arith));
    }
Step-IsSound {a} h round = record {
  valid = schedule-IsValid a.scheduler h.valid;
  fresh = λ k above. schedule_absent a.scheduler k h.valid (h.fresh k above);
}
Step-IsSound {a} h wait = record {
  valid = block_current-IsValid a.scheduler h.valid;
  fresh = λ k above. block_current_absent a.scheduler k h.valid (h.fresh k above);
}
Step-IsSound {a} h (wake id) = record {
  valid = unblock_task-IsValid a.scheduler id h.valid;
  fresh = λ k above. unblock_task_absent a.scheduler id k (h.fresh k above);
}
Step-IsSound {a} h stop = record {
  valid = terminate_current-IsValid a.scheduler h.valid;
  fresh = λ k above. terminate_current_absent a.scheduler k h.valid (h.fresh k above);
}

-- After any history of new tasks, rounds, waits, wake-ups and ends: ready and running tasks, and no
-- others, stand in the queue, each once; only the current task runs, and it is in the list; and no
-- identifier from the counter on is in use.
pub Reach-IsSound : {a : System} → Reach a → IsSound a
Reach-IsSound boot = record {
  valid = new-IsValid;
  fresh = λ k _. unfold new Table.new state_of Table.get Table.find in refl;
}
Reach-IsSound (next r st) = Step-IsSound (Reach-IsSound r) st
