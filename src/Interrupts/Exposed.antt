-- ===== src/Interrupts/Exposed.antt =====
-- Functions that a tick of the timer can stop for ever on x86-64, since they hold the lock of SCHEDULER.
use jericho_os.Base.{
  ℕ, ◌+◌, ◌%◌, ◌^◌, ◌<◌, ◌≡◌, ◌≢◌, refl, sym, ap, ◌∙◌, ◌↔◌, Bool, true, false, ◌&&◌, ◌||◌,
  Bool-cases, Option, none, some, Option-cases, List, [], ◌∷◌, ltb, inl, inr, arith,
}
use jericho_os.Interrupts.Locks.{
  Instruction, saves, disables, locks, unlocks, restores, Processor, execute, Way, returns_early,
  to_switch, run_alone, timer_tick, Event, advance, tick, deliver_tick, interleave,
}

-- Whether a function, run alone, waits for the lock, or is at some point in possession of the lock with
-- interrupts enabled.
unfoldable pub exposed : List Instruction → Processor → Bool
unfolding execute
exposed [] p = p.enabled && p.held
exposed (i ∷ is) p =
    (p.enabled && p.held) || elim (execute i p) [ none ↦ true | some p' ↦ exposed is p' ]

abbrev pub processor : ℕ → Bool → Bool → Bool → Processor
processor t enabled saved held = record {
  timer_ticks = t;
  enabled = enabled;
  saved = saved;
  held = held;
}

-- The tick counter does not matter to that.
exposed_ticks :
    (is : List Instruction) (t u : ℕ) (e s h : Bool)
    → exposed is (processor t e s h) ≡ exposed is (processor u e s h)
unfolding exposed execute
exposed_ticks [] t u e s h = refl
exposed_ticks (saves ∷ is) t u e s h = ap (◌||◌ (e && h)) (exposed_ticks is t u e e h)
exposed_ticks (disables ∷ is) t u e s h = ap (◌||◌ (e && h)) (exposed_ticks is t u false s h)
exposed_ticks (unlocks ∷ is) t u e s h = ap (◌||◌ (e && h)) (exposed_ticks is t u e s false)
exposed_ticks (locks ∷ is) t u e s true = refl
exposed_ticks (locks ∷ is) t u e s false = ap (◌||◌ (e && false)) (exposed_ticks is t u e s true)
exposed_ticks (restores ∷ is) t u e true h = ap (◌||◌ (e && h)) (exposed_ticks is t u true true h)
exposed_ticks (restores ∷ is) t u e false h = ap (◌||◌ (e && h)) (exposed_ticks is t u e false h)

-- A tick while the lock is free changes no more than the counter.
timer_tick-free :
    (way : Way) (t : ℕ) (e s : Bool)
    → timer_tick way (processor t e s false) ≡ some (processor ((t + 1) % 2 ^ 64) e s false)
unfolding timer_tick run_alone execute
timer_tick-free returns_early t e s = elim (Bool-cases (ltb 0 t)) [
  | inl h ↦ rw h refl
  | inr h ↦ rw h refl
]
timer_tick-free to_switch t e s = elim (Bool-cases (ltb 0 t)) [
  | inl h ↦ rw h refl
  | inr h ↦ rw h refl
]

-- A tick while the lock is held, but the first one, never ends.
timer_tick-held :
    (way : Way) (t : ℕ) (e s : Bool) → 0 < t → timer_tick way (processor t e s true) ≡ none
unfolding timer_tick run_alone execute
timer_tick-held returns_early t e s h = let later : ltb 0 t ≡ true = ground arith in rw later refl
timer_tick-held to_switch t e s h = let later : ltb 0 t ≡ true = ground arith in rw later refl

exposed_now :
    (is : List Instruction) (p : Processor) → exposed is p ≡ false → (p.enabled && p.held) ≡ false
unfolding exposed
exposed_now [] p h = h
exposed_now (i ∷ is) p h = grind arith

-- What comes of an instruction, when the function is not exposed after it.
next_of :
    (is : List Instruction) (o : Option Processor)
    → elim o [ none ↦ true | some p ↦ exposed is p ] ≡ false
    → (p : Processor) × (o ≡ some p) × (exposed is p ≡ false)
next_of is none h = absurd (ground arith)
next_of is (some p) h = (p, refl, h)

or-false : (a b : Bool) → (a || b) ≡ false → b ≡ false
or-false true b h = absurd (ground arith)
or-false false b h = h

exposed_next :
    (i : Instruction) (is : List Instruction) (p : Processor)
    → exposed (i ∷ is) p ≡ false
    → (p' : Processor) × (execute i p ≡ some p') × (exposed is p' ≡ false)
unfolding exposed
exposed_next i is p h = next_of is (execute i p) (or-false (p.enabled && p.held) _ h)

deliver_tick-safe :
    (way : Way) (is : List Instruction) (t : ℕ) (e s h : Bool)
    → exposed is (processor t e s h) ≡ false
    → (u : ℕ) × (deliver_tick way (processor t e s h) ≡ some (processor u e s h))
unfolding deliver_tick
deliver_tick-safe way is t false s h safe = (t, refl)
deliver_tick-safe way is t true s true safe =
    absurd (ground (arith, exposed_now is (processor t true s true) safe))
deliver_tick-safe way is t true s false safe = ((t + 1) % 2 ^ 64, timer_tick-free way t true s)

-- A function that is not exposed never waits for ever, whenever the ticks come.
interleave-safe :
    (es : List Event) (is : List Instruction) (p : Processor)
    → exposed is p ≡ false
    → interleave es is p ≢ none
unfolding interleave
interleave-safe [] is p safe = λ stuck. absurd (ground arith)
interleave-safe (advance ∷ es) [] p safe = interleave-safe es [] p safe
interleave-safe (advance ∷ es) (i ∷ is) p safe =
    let (p', e, safe') = exposed_next i is p safe in
    rw (e, interleave) (interleave-safe es is p' safe')
interleave-safe (tick way ∷ es) is p safe =
    let (u, e) = deliver_tick-safe way is p.timer_ticks p.enabled p.saved p.held safe in
    rw (e, interleave)
      (interleave-safe es is (processor u p.enabled p.saved p.held)
        (exposed_ticks is u p.timer_ticks p.enabled p.saved p.held ∙ safe))

-- The tick counter of a result, or this number.
abbrev ticks_or : ℕ → Option Processor → ℕ
ticks_or t none = t
ticks_or t (some p) = p.timer_ticks

-- An instruction leaves the tick counter alone.
execute_ticks :
    (i : Instruction) (t : ℕ) (e s h : Bool) → ticks_or t (execute i (processor t e s h)) ≡ t
unfolding execute
execute_ticks saves t e s h = refl
execute_ticks disables t e s h = refl
execute_ticks unlocks t e s h = refl
execute_ticks locks t e s true = refl
execute_ticks locks t e s false = refl
execute_ticks restores t e true h = refl
execute_ticks restores t e false h = refl

-- A tick at a point where the lock is held and interrupts are on.
exposed_here :
    (is : List Instruction) (t : ℕ) (e s h : Bool)
    → 0 < t
    → (e && h) ≡ true
    → interleave (tick returns_early ∷ []) is (processor t e s h) ≡ none
unfolding interleave deliver_tick
exposed_here is t true s true later now =
    rw (timer_tick-held returns_early t true s later, interleave) refl
exposed_here is t true s false later now = absurd (ground arith)
exposed_here is t false s h later now = absurd (ground arith)

-- For a function that is exposed there are times of ticks at which it waits for ever, after the first tick.
interleave-stuck :
    (is : List Instruction) (p : Processor)
    → 0 < p.timer_ticks
    → exposed is p ≡ true
    → (es : List Event) × (interleave es is p ≡ none)
unfolding interleave exposed
interleave-stuck [] p later h =
    (tick returns_early ∷ [], exposed_here [] p.timer_ticks p.enabled p.saved p.held later h)
interleave-stuck (i ∷ is) p later h = elim (Bool-cases (p.enabled && p.held)) [
  | inl now ↦ (
    tick returns_early ∷ [],
    exposed_here (i ∷ is) p.timer_ticks p.enabled p.saved p.held later now,
  )
  | inr not_now ↦ elim (Option-cases (execute i p)) [
    | inl e ↦ (advance ∷ [], rw (e, interleave) refl)
    | inr (p', e) ↦
        let same =
          sym (execute_ticks i p.timer_ticks p.enabled p.saved p.held)
          ∙ ap (ticks_or p.timer_ticks) e in
        let (es, stuck) =
          interleave-stuck is p' (omega (arith, same)) (rw (exposed, not_now, e) at h) in
        (advance ∷ es, rw (e, interleave) stuck)
  ]
]

-- Exactly the functions that are exposed can be stopped for ever by ticks after the first one.
pub interleave-exposed_iff :
    (is : List Instruction) (p : Processor)
    → 0 < p.timer_ticks
    → ((es : List Event) × (interleave es is p ≡ none)) ↔ (exposed is p ≡ true)
interleave-exposed_iff is p later = (
  (λ (es, stuck). elim (Bool-cases (exposed is p)) [
    | inl h ↦ h
    | inr safe ↦ absurd (interleave-safe es is p safe stuck)
  ]),
  interleave-stuck is p later,
)
