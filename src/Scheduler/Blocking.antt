-- ===== src/Scheduler/Blocking.antt =====
-- Adding, blocking, waking and ending tasks in src/scheduler.rs: each keeps the invariant.
use jericho_os.Base.{
  count, ap, ℕ, ◌≡◌, ◌≢◌, refl, Option, none, some, List, [], ◌∷◌, ◌++◌, without, count-append,
  count-without, count_one, count_nil, ◌==◌, if◌then◌else◌, Option-cases, ◌⊎◌, inl, inr, arith,
}
use jericho_os.Task.{Task, TaskState, ready, running, blocked, terminated}
use jericho_os.Task.Table.{
  TaskList, set_state_in, state_of, replaced, state_of-set_state_in, state_of-add,
}
use jericho_os.Task.Table
use jericho_os.Scheduler.{
  Scheduler, add_task, schedule, block_current, unblock_task, terminate_current, new,
}
use jericho_os.Scheduler.Invariant.{
  IsValid, places, schedule-Round, head_ready, schedule-IsValid, state_of-found, state_of-missing,
}

pub new-IsValid : IsValid new
unfolding new Table.new state_of Table.get Table.find
new-IsValid = record { queued = λ k. count_nil k; runs = λ k h. cc; known = λ k h. cc }

-- A task with a new identifier.
pub add_task-IsValid :
    (s : Scheduler) (t : Task)
    → IsValid s
    → t.state ≡ ready
    → state_of s.tasks t.id ≡ none
    → IsValid (add_task s t).0
unfolding add_task
add_task-IsValid s t v is_ready fresh = record {
  queued = λ k. ground (
    arith,
    count-append k s.ready_queue (t.id ∷ []),
    count_one t.id k,
    v.queued k,
    state_of-add s.tasks t k fresh,
  );
  runs = λ k h. ground (arith, state_of-add s.tasks t k fresh, v.runs k);
  known = λ k h. ground (arith, state_of-add s.tasks t k fresh, v.known k);
}

-- What a task that is taken off the queue leaves: neither blocked nor terminated tasks are queued.
pub set_aside-IsValid :
    (s : Scheduler) (c : ℕ) (state : TaskState) (current : Option ℕ)
    → IsValid s
    → s.current_task ≡ some c
    → places (some state) ≡ 0
    → ((current ≡ none) ⊎ (current ≡ some c))
    → IsValid (record s {
      tasks = set_state_in s.tasks c state;
      current_task = current;
      ready_queue = without c s.ready_queue;
    })
set_aside-IsValid s c state current v now idle kept = record {
  queued = λ k.
      ground (
        arith,
        count-without c k s.ready_queue,
        v.queued k,
        state_of-set_state_in s.tasks c state k,
      );
  runs = λ k h. ground (arith, state_of-set_state_in s.tasks c state k, v.runs k);
  known = λ k h. ground (arith, state_of-set_state_in s.tasks c state k, v.known k);
}

pub block_current-IsValid : (s : Scheduler) → IsValid s → IsValid (block_current s)
unfolding block_current
block_current-IsValid s v = elim (Option-cases s.current_task) [
  | inl e ↦ rw (e, block_current) v
  | inr (c, e) ↦
      rw (e, block_current)
        (schedule-IsValid _ (set_aside-IsValid s c blocked s.current_task v e refl (inr e)))
]

pub terminate_current-IsValid : (s : Scheduler) → IsValid s → IsValid (terminate_current s)
unfolding terminate_current
terminate_current-IsValid s v = elim (Option-cases s.current_task) [
  | inl e ↦ rw (e, terminate_current) v
  | inr (c, e) ↦
      rw (e, terminate_current)
        (schedule-IsValid _ (set_aside-IsValid s c terminated none v e refl (inl refl)))
]

woken-IsValid :
    (s : Scheduler) (id : ℕ)
    → IsValid s
    → state_of s.tasks id ≡ some blocked
    → IsValid
        (record s { tasks = set_state_in s.tasks id ready; ready_queue = s.ready_queue ++ id ∷ [] })
woken-IsValid s id v asleep = record {
  queued = λ k. ground (
    arith,
    count-append k s.ready_queue (id ∷ []),
    count_one id k,
    v.queued k,
    asleep,
    state_of-set_state_in s.tasks id ready k,
  );
  runs = λ k h. ground (arith, state_of-set_state_in s.tasks id ready k, v.runs k);
  known = λ k h. ground (arith, state_of-set_state_in s.tasks id ready k, v.known k);
}

-- `unblock_task` wakes a blocked task, and does nothing to any other.
pub unblock_task_lem :
    (s : Scheduler) (id : ℕ)
    → (state_of s.tasks id ≡ some blocked
        → unblock_task s id ≡ record s {
          tasks = set_state_in s.tasks id ready;
          ready_queue = s.ready_queue ++ id ∷ [];
        })
      × (state_of s.tasks id ≢ some blocked → unblock_task s id ≡ s)
unfolding unblock_task
unblock_task_lem s id = elim (Option-cases (Table.get s.tasks id)) [
  | inl absent ↦ (λ h. ground (arith, state_of-missing s.tasks id absent), λ h. ground arith)
  | inr (t, there) ↦
      let known : state_of s.tasks id ≡ some t.state = state_of-found s.tasks id t there in
      (λ h. ground arith, λ h. ground arith)
]

pub state_cases : (o : Option TaskState) → (o ≡ some blocked) ⊎ (o ≢ some blocked)
state_cases none = inr (λ h. cc)
state_cases (some blocked) = inl refl
state_cases (some ready) = inr (λ h. cc)
state_cases (some running) = inr (λ h. cc)
state_cases (some terminated) = inr (λ h. cc)

pub unblock_task-IsValid : (s : Scheduler) (id : ℕ) → IsValid s → IsValid (unblock_task s id)
unblock_task-IsValid s id v = elim (state_cases (state_of s.tasks id)) [
  | inl asleep ↦ rw ((unblock_task_lem s id).0 asleep) (woken-IsValid s id v asleep)
  | inr awake ↦ rw ((unblock_task_lem s id).1 awake) v
]

-- What a wake-up makes of a task's state.
abbrev pub woken : Option TaskState → Option TaskState
woken (some blocked) = some ready
woken (some ready) = some ready
woken (some running) = some running
woken (some terminated) = some terminated
woken none = none

pub state_of-unblock_task :
    (s : Scheduler) (id k : ℕ)
    → state_of (unblock_task s id).tasks k
      ≡ (if id == k then woken (state_of s.tasks k) else state_of s.tasks k)
state_of-unblock_task s id k = elim (state_cases (state_of s.tasks id)) [
  | inl asleep ↦
      ground
        (arith, (unblock_task_lem s id).0 asleep, state_of-set_state_in s.tasks id ready k, asleep)
  | inr awake ↦ ground (arith, (unblock_task_lem s id).1 awake, awake)
]

schedule_blocked :
    (s : Scheduler) (k : ℕ)
    → IsValid s
    → state_of s.tasks k ≡ some blocked
    → state_of (schedule s).0.tasks k ≡ some blocked
schedule_blocked s k v h = by_queue s.ready_queue refl
  where
    by_queue : (q : List ℕ) → s.ready_queue ≡ q → state_of (schedule s).0.tasks k ≡ some blocked
    by_queue [] e = unfold schedule in rw (e, schedule) h
    by_queue (n ∷ rest) e =
        ground (arith, (schedule-Round s n rest v e).states k, head_ready s n rest v e)

-- A valid scheduler that blocks its current task has it blocked, whatever runs next.
pub state_of-block_current :
    (s : Scheduler) (c : ℕ)
    → IsValid s
    → s.current_task ≡ some c
    → state_of (block_current s).tasks c ≡ some blocked
unfolding block_current
state_of-block_current s c v e =
    rw (e, block_current)
      (schedule_blocked _ c (set_aside-IsValid s c blocked s.current_task v e refl (inr e))
        (ground (arith, state_of-set_state_in s.tasks c blocked c, v.known c e)))

-- A task that is blocked stays so when the current task is blocked.
pub block_current_stays :
    (s : Scheduler) (k : ℕ)
    → IsValid s
    → state_of s.tasks k ≡ some blocked
    → state_of (block_current s).tasks k ≡ some blocked
unfolding block_current
block_current_stays s k v h = elim (Option-cases s.current_task) [
  | inl e ↦ rw (e, block_current) h
  | inr (c, e) ↦
      rw (e, block_current)
        (schedule_blocked _ k (set_aside-IsValid s c blocked s.current_task v e refl (inr e))
          (ground (arith, state_of-set_state_in s.tasks c blocked k, h)))
]

-- When another task is ready, the block of the current task makes some other task current.
pub block_current_next :
    (s : Scheduler) (c other : ℕ)
    → IsValid s
    → s.current_task ≡ some c
    → other ≢ c
    → state_of s.tasks other ≡ some ready
    → (n : ℕ) × ((block_current s).current_task ≡ some n)
      × (state_of (block_current s).tasks n ≡ some running)
      × (n ≢ c)
unfolding block_current
block_current_next s c other v e differs awake = rw (e, block_current) (by_queue t.ready_queue refl)
  where
    t : Scheduler
    t = record s { tasks = set_state_in s.tasks c blocked; ready_queue = without c s.ready_queue }

    valid : IsValid t
    valid = set_aside-IsValid s c blocked s.current_task v e refl (inr e)

    asleep : state_of (schedule t).0.tasks c ≡ some blocked
    asleep =
        schedule_blocked t c valid
          (ground (arith, state_of-set_state_in s.tasks c blocked c, v.known c e))

    waits : count other t.ready_queue ≡ 1
    waits = ground (arith, count-without c other s.ready_queue, v.queued other, awake, differs)

    by_queue :
        (q : List ℕ)
        → t.ready_queue ≡ q
        → (n : ℕ) × ((schedule t).0.current_task ≡ some n)
          × (state_of (schedule t).0.tasks n ≡ some running)
          × (n ≢ c)
    by_queue [] h = absurd (ground (arith, waits, ap (count other) h, count_nil other))
    by_queue (n ∷ rest) h =
        let round = schedule-Round t n rest valid h in
        let runs : state_of (schedule t).0.tasks n ≡ some running =
          ground (arith, round.states n) in
        (n, round.current, runs, λ same. absurd (ground (arith, same, runs, asleep)))
