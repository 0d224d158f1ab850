-- ===== src/Interrupts/Deadlock.antt =====
-- When a tick of the timer can stop the x86-64 kernel for ever, since a function holds the lock of SCHEDULER.
use jericho_os.Base.{ℕ, ◌<◌, ◌≡◌, refl, sym, ap, ◌∙◌, ◌↔◌, Bool, true, false, ◌&&◌, none, List}
use jericho_os.Interrupts.Locks.{
  Instruction, Processor, execute, Way, returns_early, to_switch, task_yield_locks, brief_locks,
  Event, interleave,
}
use jericho_os.Interrupts.Exposed.{exposed, processor, interleave-exposed_iff}

-- Whether a call ends in an early return.
abbrev pub is_early : Way → Bool
is_early returns_early = true
is_early to_switch = false

task_yield_locks-exposed :
    (way : Way) (t : ℕ) (e s : Bool)
    → exposed (task_yield_locks way) (processor t e s false) ≡ (e && is_early way)
unfolding exposed execute
task_yield_locks-exposed returns_early t true s = refl
task_yield_locks-exposed returns_early t false s = refl
task_yield_locks-exposed to_switch t true s = refl
task_yield_locks-exposed to_switch t false s = refl

brief_locks-exposed : (t : ℕ) (e s : Bool) → exposed brief_locks (processor t e s false) ≡ e
unfolding exposed execute
brief_locks-exposed t true s = refl
brief_locks-exposed t false s = refl

exposed_free :
    (is : List Instruction) (p : Processor)
    → p.held ≡ false
    → exposed is p ≡ exposed is (processor p.timer_ticks p.enabled p.saved false)
exposed_free is p free = ap (λ h. exposed is (processor p.timer_ticks p.enabled p.saved h)) free

-- Let the lock be free and the first tick be over. There are times of ticks at which a call of `task_yield` waits for
-- the lock for ever if and only if interrupts are enabled at the call and it ends in an early return. For each of the
-- other functions that take the lock there are such times if and only if interrupts are enabled.
pub interleave-task_yield_locks :
    (p : Processor)
    → 0 < p.timer_ticks
    → p.held ≡ false
    → ((way : Way)
        → ((es : List Event) × (interleave es (task_yield_locks way) p ≡ none))
          ↔ ((p.enabled && is_early way) ≡ true))
      × (((es : List Event) × (interleave es brief_locks p ≡ none)) ↔ (p.enabled ≡ true))
interleave-task_yield_locks p later free =
    let yielding : (way : Way) → exposed (task_yield_locks way) p ≡ (p.enabled && is_early way) =
      λ way.
        exposed_free (task_yield_locks way) p free
        ∙ task_yield_locks-exposed way p.timer_ticks p.enabled p.saved in
    let brief =
      exposed_free brief_locks p free ∙ brief_locks-exposed p.timer_ticks p.enabled p.saved in
    (
      (λ way. (
        (λ stuck.
            sym (yielding way) ∙ (interleave-exposed_iff (task_yield_locks way) p later).0 stuck),
        (λ h. (interleave-exposed_iff (task_yield_locks way) p later).1 (yielding way ∙ h)),
      )),
      (
        (λ stuck. sym brief ∙ (interleave-exposed_iff brief_locks p later).0 stuck),
        (λ h. (interleave-exposed_iff brief_locks p later).1 (brief ∙ h)),
      ),
    )
