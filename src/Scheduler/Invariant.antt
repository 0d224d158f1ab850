-- ===== src/Scheduler/Invariant.antt =====
-- The invariant of the scheduler of src/scheduler.rs, and that its methods keep it.
use jericho_os.Base.{
  ℕ, ◌≡◌, ◌≢◌, refl, ◌∙◌, inl, inr, Option, none, some, List, [], ◌∷◌, ◌++◌, count, count-append,
  ap, ◌<◌, count_head, count_one, count_cons, ◌==◌, if◌then◌else◌, Option-cases, arith,
}
use jericho_os.Task.{Task, TaskState, ready, running, blocked, terminated}
use jericho_os.Task.Table.{
  TaskList, set_state_in, state_of, replaced, state_of-set_state_in, state_of-add,
}
use jericho_os.Task.Table
use jericho_os.Scheduler.{Scheduler, mark_previous, mark_next, schedule}

-- How often a task with this state stands in the ready queue: a running task is queued for its next
-- round already.
abbrev pub places : Option TaskState → ℕ
places (some ready) = 1
places (some running) = 1
places (some blocked) = 0
places (some terminated) = 0
places none = 0

-- Ready and running tasks, and no others, stand in the queue, each once; only the current task
-- runs; the current task is in the task list.
pub record IsValid (s : Scheduler) : Type 0 where
  pub queued : (k : ℕ) → count k s.ready_queue ≡ places (state_of s.tasks k)
  pub runs : (k : ℕ) → state_of s.tasks k ≡ some running → s.current_task ≡ some k
  pub known : (k : ℕ) → s.current_task ≡ some k → state_of s.tasks k ≢ none

-- The same while a task is between the head of the queue and the processor.
abbrev pub paused : Option TaskState → Option TaskState
paused (some running) = some ready
paused (some ready) = some ready
paused (some blocked) = some blocked
paused (some terminated) = some terminated
paused none = none

pub state_of-found :
    (l : TaskList) (k : ℕ) (t : Task) → Table.get l k ≡ some t → state_of l k ≡ some t.state
unfolding state_of Table.get
state_of-found l k t e = rw e

pub state_of-missing : (l : TaskList) (k : ℕ) → Table.get l k ≡ none → state_of l k ≡ none
unfolding state_of Table.get
state_of-missing l k e = rw e

-- Where nothing but the current task runs, `mark_previous` pauses every task.
mark_previous-paused :
    (s : Scheduler)
    → ((k : ℕ) → state_of s.tasks k ≡ some running → s.current_task ≡ some k)
    → (k : ℕ) → state_of (mark_previous s).tasks k ≡ paused (state_of s.tasks k)
unfolding mark_previous
mark_previous-paused s runs k = elim (Option-cases s.current_task) [
  | inl e ↦ ground (arith, runs k)
  | inr (c, e) ↦ elim (Option-cases (Table.get s.tasks c)) [
    | inl absent ↦ ground (arith, runs k, state_of-missing s.tasks c absent)
    | inr (t, there) ↦
        ground
          (arith, runs k, state_of-found s.tasks c t there, state_of-set_state_in s.tasks c ready k)
  ]
]

mark_previous-ready_queue : (s : Scheduler) → (mark_previous s).ready_queue ≡ s.ready_queue
unfolding mark_previous
mark_previous-ready_queue s = ground arith

mark_previous-current_task : (s : Scheduler) → (mark_previous s).current_task ≡ s.current_task
unfolding mark_previous
mark_previous-current_task s = ground arith

-- What `mark_next` does with a task that is ready.
mark_next_lem :
    (s : Scheduler) (n : ℕ)
    → state_of s.tasks n ≡ some ready
    → mark_next s n ≡ (
      record s {
        tasks = set_state_in s.tasks n running;
        current_task = some n;
        ready_queue = s.ready_queue ++ n ∷ [];
      },
      some n,
    )
unfolding mark_next
mark_next_lem s n h = elim (Option-cases (Table.get s.tasks n)) [
  | inl absent ↦ ground (arith, state_of-missing s.tasks n absent)
  | inr (t, there) ↦ ground (arith, state_of-found s.tasks n t there)
]

-- One round: the head of the queue runs next and goes to its end, the task that ran is ready.
pub record Round (s : Scheduler) (n : ℕ) (rest : List ℕ) (r : Scheduler × Option ℕ) : Type 0 where
  pub chosen : r.1 ≡ some n
  pub current : r.0.current_task ≡ some n
  pub rotated : r.0.ready_queue ≡ rest ++ n ∷ []
  pub states :
      (k : ℕ)
      → state_of r.0.tasks k ≡ (if n == k then some running else paused (state_of s.tasks k))

schedule_uncons :
    (s : Scheduler) (n : ℕ) (rest : List ℕ)
    → s.ready_queue ≡ n ∷ rest
    → schedule s ≡ mark_next (mark_previous (record s { ready_queue = rest })) n
unfolding schedule
schedule_uncons s n rest e = rw (e, schedule)

places_pos : (o : Option TaskState) → 0 < places o → paused o ≡ some ready
places_pos o h = ground arith

-- The head of the queue of a valid scheduler is ready once the running task is paused.
pub head_ready :
    (s : Scheduler) (n : ℕ) (rest : List ℕ)
    → IsValid s
    → s.ready_queue ≡ n ∷ rest
    → paused (state_of s.tasks n) ≡ some ready
head_ready s n rest v e =
    places_pos (state_of s.tasks n) (omega (arith, v.queued n, ap (count n) e, count_head n rest))

pub schedule-Round :
    (s : Scheduler) (n : ℕ) (rest : List ℕ)
    → IsValid s
    → s.ready_queue ≡ n ∷ rest
    → Round s n rest (schedule s)
schedule-Round s n rest v e =
    rw (schedule_uncons s n rest e, mark_next_lem t n is_ready)
      (record {
        chosen = refl;
        current = refl;
        rotated = ap (λ q. q ++ n ∷ []) (mark_previous-ready_queue _);
        states = λ k.
            state_of-set_state_in t.tasks n running k
            ∙ ground (arith, all_paused k, head_ready s n rest v e);
      })
  where
    t : Scheduler
    t = mark_previous (record s { ready_queue = rest })

    all_paused : (k : ℕ) → state_of t.tasks k ≡ paused (state_of s.tasks k)
    all_paused = mark_previous-paused (record s { ready_queue = rest }) v.runs

    is_ready : state_of t.tasks n ≡ some ready
    is_ready = all_paused n ∙ head_ready s n rest v e

places-paused : (o : Option TaskState) → places (paused o) ≡ places o
places-paused o = ground arith

paused_ready : (o : Option TaskState) → paused o ≡ some ready → places o ≡ 1
paused_ready o h = ground arith

paused-none : (o : Option TaskState) → paused o ≡ none → o ≡ none
paused-none o h = ground arith

paused_running : (o : Option TaskState) → paused o ≢ some running
paused_running o h = ground arith

count_rotated : (k n : ℕ) (xs : List ℕ) → count k (xs ++ n ∷ []) ≡ count k (n ∷ xs)
count_rotated k n xs = omega (arith, count-append k xs (n ∷ []), count_one n k, count_cons n k xs)

Round-IsValid :
    (s : Scheduler) (n : ℕ) (rest : List ℕ) (r : Scheduler × Option ℕ)
    → IsValid s
    → s.ready_queue ≡ n ∷ rest
    → Round s n rest r
    → IsValid r.0
Round-IsValid s n rest r v e d = record {
  queued = λ k. ground (
    arith,
    ap (count k) d.rotated,
    ap (count k) e,
    count_rotated k n rest,
    v.queued k,
    d.states k,
    places-paused (state_of s.tasks k),
    paused_ready (state_of s.tasks n) (head_ready s n rest v e),
  );
  runs = λ k h. ground (arith, d.states k, d.current, paused_running (state_of s.tasks k));
  known = λ k h. ground (arith, d.states k, d.current);
}

pub schedule-IsValid : (s : Scheduler) → IsValid s → IsValid (schedule s).0
schedule-IsValid s v = by_queue s.ready_queue refl
  where
    by_queue : (q : List ℕ) → s.ready_queue ≡ q → IsValid (schedule s).0
    by_queue [] e = unfold schedule in rw (e, schedule) v
    by_queue (n ∷ rest) e = Round-IsValid s n rest _ v e (schedule-Round s n rest v e)
