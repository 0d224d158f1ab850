-- ===== src/Boot/Measure.antt =====
-- The task `benchmark_task` of src/main.rs. A turn is what a task does between two yields; each gets
-- the readings of the cycle counter, of the timer ticks and of BOOT_CYCLES that it would make.
use jericho_os.Base.{
  ℕ, zero, suc, ◌+◌, ◌-◌, ◌/◌, ◌%◌, ◌^◌, ◌≡◌, refl, ◌∙◌, ap, Option, none, some, arith,
}
use jericho_os.Benchmarks.{
  Counters, BenchmarkResults, record_context_switch, collect_results, get_context_switch_stats,
}

-- How many yields are left of a loop, with the first reading while it is measured.
pub data Phase : Type 0 where
  waits settles : ℕ → Phase
  measures : ℕ → ℕ → Phase
  idles : Phase

pub record Bench : Type 0 where
  pub phase : Phase
  pub counters : Counters
  pub results : Option BenchmarkResults

pub record Reading : Type 0 where
  pub rdtsc : ℕ
  pub timer_ticks : ℕ
  pub boot_cycles : ℕ

-- `(end - start) / iterations`, with ten iterations; the difference wraps as in a release build.
abbrev pub avg_cycles : ℕ → ℕ → ℕ
avg_cycles start end = (end + 2 ^ 64 - start) % 2 ^ 64 / 10

unfoldable pub benchmark_turn : Reading → Phase → Bench → Bench
unfolding record_context_switch collect_results
benchmark_turn now (waits (suc n)) b = record b { phase = waits n }
benchmark_turn now (waits zero) b = record b { phase = measures 9 now.rdtsc }
benchmark_turn now (measures (suc n) start) b = record b { phase = measures n start }
benchmark_turn now (measures zero start) b = record b {
  phase = settles 4;
  counters = record_context_switch b.counters (avg_cycles start now.rdtsc);
}
benchmark_turn now (settles (suc n)) b = record b { phase = settles n }
benchmark_turn now (settles zero) b = record b {
  phase = idles;
  results = some (collect_results b.counters now.timer_ticks now.boot_cycles);
}
benchmark_turn now idles b = b

-- The task after `n` turns.
unfoldable pub benchmark_task : (ℕ → Reading) → Counters → ℕ → Bench
unfolding benchmark_turn
benchmark_task now c zero = record { phase = waits 2; counters = c; results = none }
benchmark_task now c (suc n) = let b = benchmark_task now c n in benchmark_turn (now n) b.phase b

-- The task with its results, from the readings in the turns numbered 2, 12 and 17.
abbrev pub finished : (ℕ → Reading) → Counters → Bench
finished now c =
    let c' = record_context_switch c (avg_cycles (now 2).rdtsc (now 12).rdtsc) in
    record {
      phase = idles;
      counters = c';
      results = some (collect_results c' (now 17).timer_ticks (now 17).boot_cycles);
    }

-- From the eighteenth turn on the task has its results, and does no more than yield.
pub benchmark_task-finished :
    (now : ℕ → Reading) (c : Counters) (n : ℕ) → benchmark_task now c (n + 18) ≡ finished now c
unfolding benchmark_task benchmark_turn
benchmark_task-finished now c zero = refl
benchmark_task-finished now c (suc n) =
    let next : benchmark_task now c (suc (n + 18)) ≡ finished now c =
      ap (λ b. benchmark_turn (now (n + 18)) b.phase b) (benchmark_task-finished now c n) in
    let same : suc n + 18 ≡ suc (n + 18) = omega arith in ap (benchmark_task now c) same ∙ next

-- The results speak of one context switch, if none was recorded before, however many there were, and its time is a
-- tenth of the time that ten yields took.
pub benchmark_task_reports :
    (now : ℕ → Reading) (n : ℕ)
    → (r : BenchmarkResults) × ((benchmark_task now
          (record { count = 0; cycles = 0 })
          (n + 18)).results
        ≡ some r)
      × (r.context_switches ≡ 1)
      × (r.avg_context_switch_ns ≡ avg_cycles (now 2).rdtsc (now 12).rdtsc / 3)
unfolding collect_results record_context_switch get_context_switch_stats
benchmark_task_reports now n = (
  _,
  ap (λ (b : Bench). b.results) (benchmark_task-finished now (record { count = 0; cycles = 0 }) n),
  refl,
  omega arith,
)
