-- ===== src/Scheduler/Rounds.antt =====
-- Rounds of `schedule` of src/scheduler.rs: nobody in the queue is passed over.
use jericho_os.Base.{
  ℕ, zero, suc, ◌≡◌, ◌↔◌, refl, ◌∙◌, none, some, List, [], ◌∷◌, ◌++◌, append-nil, append_assoc,
  length, arith,
}
use jericho_os.Scheduler.{Scheduler, schedule}
use jericho_os.Scheduler.Invariant.{IsValid, Round, schedule-Round, schedule-IsValid}

unfoldable pub rounds : ℕ → Scheduler → Scheduler
rounds zero s = s
rounds (suc n) s = rounds n (schedule s).0

pub rounds-IsValid : (n : ℕ) (s : Scheduler) → IsValid s → IsValid (rounds n s)
unfolding rounds
rounds-IsValid zero s v = v
rounds-IsValid (suc n) s v = rounds-IsValid n (schedule s).0 (schedule-IsValid s v)

-- After as many rounds as stand before it the rest of the queue is at the front.
rounds-rotate :
    (s : Scheduler) (before after : List ℕ)
    → IsValid s
    → s.ready_queue ≡ before ++ after
    → (rounds (length before) s).ready_queue ≡ after ++ before
unfolding rounds
rounds-rotate s [] after v e = rw append-nil e
rounds-rotate s (n ∷ before) after v e =
    rounds-rotate (schedule s).0 before (after ++ n ∷ []) (schedule-IsValid s v)
      ((schedule-Round s n (before ++ after) v e).rotated ∙ append_assoc before after (n ∷ []))
    ∙ append_assoc after (n ∷ []) before

-- Round robin: a task with `n` tasks before it in the queue is the one chosen by the round after `n`
-- rounds, it then runs, and the queue is the old one, rotated past it.
pub rounds_fair :
    (s : Scheduler) (before : List ℕ) (id : ℕ) (after : List ℕ)
    → IsValid s
    → s.ready_queue ≡ before ++ id ∷ after
    → let (s', chosen) = schedule (rounds (length before) s) in
      (chosen ≡ some id)
      × (s'.current_task ≡ some id)
      × (s'.ready_queue ≡ (after ++ before) ++ id ∷ [])
rounds_fair s before id after v e = (turn.chosen, turn.current, turn.rotated)
  where
    front : (rounds (length before) s).ready_queue ≡ id ∷ (after ++ before)
    front = rounds-rotate s before (id ∷ after) v e

    turn :
        Round (rounds (length before) s) id (after ++ before) (schedule (rounds (length before) s))
    turn = schedule-Round _ id (after ++ before) (rounds-IsValid (length before) s v) front

-- A round of a valid scheduler chooses nobody exactly when the queue is empty, and then changes
-- nothing.
pub schedule-none :
    (s : Scheduler)
    → IsValid s
    → ((schedule s).1 ≡ none) ↔ ((s.ready_queue ≡ []) × ((schedule s).0 ≡ s))
schedule-none s v = by_queue s.ready_queue refl
  where
    by_queue :
        (q : List ℕ)
        → s.ready_queue ≡ q
        → ((schedule s).1 ≡ none) ↔ ((s.ready_queue ≡ []) × ((schedule s).0 ≡ s))
    by_queue [] e = unfold schedule in (λ _. (e, ground arith), λ _. ground arith)
    by_queue (n ∷ rest) e =
        let r = schedule-Round s n rest v e in (λ h. ground (arith, r.chosen), λ h. ground arith)
