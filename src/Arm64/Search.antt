-- ===== src/Arm64/Search.antt =====
-- The search of `schedule` in src/arch/aarch64/scheduler.rs: it ends, at the nearest ready task.
use jericho_os.Base.{
  ℕ, zero, suc, ◌+◌, ◌-◌, ◌%◌, ◌≤◌, ◌<◌, ◌≡◌, ◌≢◌, refl, ◌∙◌, ap, ◌⊎◌, inl, inr, Bool, true, false,
  Option, none, some, List, [], ◌∷◌, get_elem?, length, ltb, ◌==◌, if◌then◌else◌, Bool-cases, arith,
}
use native.Mathlib.Nat.{mod-eq_of_lt, mod_self}
use jericho_os.Arm64.Scheduler.{Scheduler, ready, same_state, search, schedule}

-- Eight tasks, of which the first `num_tasks` are in use, one of them current when there is one.
pub record IsValid (s : Scheduler) : Type 0 where
  pub eight : length s.tasks ≡ 8
  pub used : s.num_tasks ≤ 8
  pub current : s.current_task ≤ s.num_tasks - 1

pub get-in_range :
    {A : Type 0} (xs : List A) (i : ℕ) → i < length xs → (x : A) × (get_elem? xs i ≡ some x)
get-in_range [] i h = absurd (omega arith)
get-in_range (x ∷ xs) zero h = (x, refl)
get-in_range (x ∷ xs) (suc i) h = get-in_range xs i (omega arith)

-- The task with this index is ready.
unfoldable pub ready? : Scheduler → ℕ → Bool
ready? s i = elim (get_elem? s.tasks i) [ none ↦ false | some t ↦ same_state t.state ready ]

-- How many steps the round robin takes from one task to another, from 1 to the number of tasks.
unfoldable pub distance : ℕ → ℕ → ℕ → ℕ
distance n i j = if ltb i j then j - i else j + n - i

next_wraps : (n i : ℕ) → i < n → (i + 1) % n ≡ (if i + 1 == n then 0 else i + 1)
next_wraps n i h = elim (Bool-cases (i + 1 == n)) [
  | inl e ↦ let last : i + 1 ≡ n = ground arith in rw e (ap (λ x. x % n) last ∙ mod_self n)
  | inr e ↦ rw e (mod-eq_of_lt (ground arith))
]

-- The search stands at `i` after `steps` steps from `start`.
abbrev At : ℕ → ℕ → ℕ → ℕ → Type 0
At n start i steps =
    (i < n) × (((steps ≡ 0) × (i ≡ start)) ⊎ ((steps < n) × (distance n start i ≡ steps)))

next-At :
    (n start i steps : ℕ)
    → start < n
    → At n start i steps
    → ((i + 1) % n < n) × (distance n start ((i + 1) % n) ≡ suc steps)
unfolding distance
next-At n start i steps h (small, inl (e, e')) = ground (arith, next_wraps n i small)
next-At n start i steps h (small, inr (less, e)) = ground (arith, next_wraps n i small)

pub distance-injective :
    (n start i j : ℕ) → start < n → i < n → j < n → distance n start i ≡ distance n start j → i ≡ j
unfolding distance
distance-injective n start i j hs hi hj e = ground arith

pub distance-le : (n start i : ℕ) → start < n → i < n → distance n start i ≤ n
unfolding distance
distance-le n start i hs hi = ground arith

pub distance_self : (n start : ℕ) → start < n → distance n start start ≡ n
unfolding distance
distance_self n start h = ground arith

-- The index of the nearest ready task after the current one, which comes last itself, or the current
-- one when no task is ready.
pub record IsNearest (s : Scheduler) (start k : ℕ) : Type 0 where
  pub in_use : k < s.num_tasks
  pub chosen : (ready? s k ≡ true) ⊎ (k ≡ start)
  pub nearest :
      (j : ℕ)
      → j < s.num_tasks
      → ready? s j ≡ true
      → (distance s.num_tasks start k ≤ distance s.num_tasks start j) × (ready? s k ≡ true)

-- No ready task is within `steps` steps of the start.
abbrev NoneWithin : Scheduler → ℕ → ℕ → Type 0
NoneWithin s start steps =
    (j : ℕ) → j < s.num_tasks → ready? s j ≡ true → steps < distance s.num_tasks start j

-- One step of the loop, when the index is in range.
search_step :
    (fuel : ℕ) (s : Scheduler) (start i : ℕ)
    → (i + 1) % s.num_tasks < length s.tasks
    → search (suc fuel) s start i ≡ (
        if ready? s ((i + 1) % s.num_tasks)
        then some ((i + 1) % s.num_tasks)
        else if (i + 1) % s.num_tasks == start
        then some ((i + 1) % s.num_tasks)
        else search fuel s start ((i + 1) % s.num_tasks))
unfolding search ready?
search_step fuel s start i fits =
    let (t, there) = get-in_range s.tasks ((i + 1) % s.num_tasks) fits in ground arith

-- Where the loop stops, no ready task is nearer.
stop-IsNearest :
    (s : Scheduler) (start k steps : ℕ)
    → start < s.num_tasks
    → k < s.num_tasks
    → distance s.num_tasks start k ≡ suc steps
    → NoneWithin s start steps
    → ready? s k ≡ true
    → IsNearest s start k
stop-IsNearest s start k steps hs hk e far is_ready = record {
  in_use = hk;
  chosen = inl is_ready;
  nearest = λ j hj ready_j. (omega (arith, e, far j hj ready_j), is_ready);
}

-- A task that is not ready extends the range without ready tasks.
none_further :
    (s : Scheduler) (start k steps : ℕ)
    → start < s.num_tasks
    → k < s.num_tasks
    → distance s.num_tasks start k ≡ suc steps
    → NoneWithin s start steps
    → ready? s k ≡ false
    → NoneWithin s start (suc steps)
none_further s start k steps hs hk e far idle j hj ready_j =
    elim (Bool-cases (distance s.num_tasks start j == suc steps)) [
      | inl same ↦
          let j_is_k : j ≡ k = distance-injective s.num_tasks start j k hs hj hk (ground arith) in
          absurd (ground (arith, ap (ready? s) j_is_k))
      | inr other ↦ ground (arith, far j hj ready_j)
    ]

back-IsNearest :
    (s : Scheduler) (start k steps : ℕ)
    → start < s.num_tasks
    → k ≡ start
    → distance s.num_tasks start k ≡ suc steps
    → NoneWithin s start (suc steps)
    → IsNearest s start k
back-IsNearest s start k steps hs e at far = record {
  in_use = omega arith;
  chosen = inr e;
  nearest = λ j hj ready_j. absurd (
      omega (
        arith,
        far j hj ready_j,
        distance-le s.num_tasks start j hs hj,
        distance_self s.num_tasks start hs,
        ap (distance s.num_tasks start) e,
        at,
      ));
}

-- The search goes on only before it is back at the start.
goes_on :
    (n start next steps : ℕ)
    → start < n
    → next < n
    → distance n start next ≡ suc steps
    → next ≢ start
    → At n start next (suc steps)
goes_on n start next steps hs small e away = elim (Bool-cases (ltb (suc steps) n)) [
  | inl less ↦ (small, inr (ground arith, e))
  | inr all ↦
      let at_end : n ≤ suc steps = ground arith in
      let whole : distance n start next ≡ distance n start start =
        omega (arith, distance-le n start next hs small, distance_self n start hs, e, at_end) in
      absurd (away (distance-injective n start next start hs small hs whole))
]

from_step :
    (found_by : Option ℕ) (rest : Option ℕ) (s : Scheduler) (start next steps : ℕ)
    → start < s.num_tasks
    → next < s.num_tasks
    → distance s.num_tasks start next ≡ suc steps
    → NoneWithin s start steps
    → found_by ≡ (if ready? s next then some next else if next == start then some next else rest)
    → (next ≢ start
        → NoneWithin s start (suc steps)
        → (k : ℕ) × (rest ≡ some k) × IsNearest s start k)
    → (k : ℕ) × (found_by ≡ some k) × IsNearest s start k
from_step found_by rest s start next steps hs small e far step further =
    elim (Bool-cases (ready? s next)) [
      | inl hit ↦ (next, ground arith, stop-IsNearest s start next steps hs small e far hit)
      | inr idle ↦
          let farther = none_further s start next steps hs small e far idle in
          elim (Bool-cases (next == start)) [
            | inl back ↦
                (next, ground arith, back-IsNearest s start next steps hs (ground arith) e farther)
            | inr away ↦
                let (k, found, near) = further (ground arith) farther in (k, ground arith, near)
          ]
    ]

pub search-IsNearest :
    (fuel : ℕ) (s : Scheduler) (start i steps : ℕ)
    → s.num_tasks ≤ length s.tasks
    → start < s.num_tasks
    → At s.num_tasks start i steps
    → s.num_tasks ≤ fuel + steps
    → NoneWithin s start steps
    → (k : ℕ) × (search fuel s start i ≡ some k) × IsNearest s start k
search-IsNearest zero s start i steps fits hs at_i enough far = absurd (ground arith)
search-IsNearest (suc fuel) s start i steps fits hs at_i enough far =
    let (small, e) = next-At s.num_tasks start i steps hs at_i in
    let next : ℕ = (i + 1) % s.num_tasks in
    from_step (search (suc fuel) s start i) (search fuel s start next) s start next steps hs small e
      far (search_step fuel s start i (omega (arith, small)))
      (λ away farther.
        search-IsNearest fuel s start next (suc steps) fits hs
          (goes_on s.num_tasks start next steps hs small e away) (omega arith) farther)

distance_positive : (n start j : ℕ) → start < n → 0 < distance n start j
unfolding distance
distance_positive n start j h = ground arith

-- The schedule of a valid scheduler with tasks ends, within eight steps of its loop. It makes the
-- nearest ready task after the current one current, in the order of the round robin, in which the
-- current task comes last; when no task is ready, the current one stays. It changes nothing else.
pub schedule-IsNearest :
    (s : Scheduler)
    → IsValid s
    → 0 < s.num_tasks
    → (k : ℕ) × (schedule s ≡ some (record s { current_task = k })) × IsNearest s s.current_task k
unfolding schedule
schedule-IsNearest s v some_tasks =
    let (k, found, near) =
      search-IsNearest 8 s s.current_task s.current_task 0 (omega (arith, v.eight, v.used))
        (omega (arith, v.current)) (omega (arith, v.current), inl (refl, refl))
        (omega (arith, v.used))
        (λ j hj ready_j.
          distance_positive s.num_tasks s.current_task j (omega (arith, v.current))) in
    (k, ground arith, near)
