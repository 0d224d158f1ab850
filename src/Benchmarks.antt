-- ===== src/Benchmarks.antt =====
-- benchmark.rs and arch/aarch64/benchmark.rs: the counters of the context switches and what is computed
-- from them, and the conversions of the counters of the processors, whose values are arguments. What is
-- printed is left out, but for the verdicts, which are `true` for "PASS". `Averages` and `Conversions` prove.
pub mod Averages
pub mod Conversions
use jericho_os.Base.{
  ℕ, ◌+◌, ◌-◌, ◌*◌, ◌/◌, ◌%◌, ◌^◌, Bool, Option, none, some, List, [], ◌∷◌, ltb, leb, ◌==◌,
  if◌then◌else◌,
}

abbrev pub cycles_to_us : ℕ → ℕ
cycles_to_us cycles = cycles / 3000

abbrev pub cycles_to_ns : ℕ → ℕ
cycles_to_ns cycles = cycles / 3

-- The statics CONTEXT_SWITCH_COUNT and CONTEXT_SWITCH_CYCLES, which `fetch_add` wraps.
pub record Counters : Type 0 where
  pub count : ℕ
  pub cycles : ℕ

unfoldable pub record_context_switch : Counters → ℕ → Counters
record_context_switch c cycles = record {
  count = (c.count + 1) % 2 ^ 64;
  cycles = (c.cycles + cycles) % 2 ^ 64;
}

unfoldable pub get_context_switch_stats : Counters → ℕ × ℕ × ℕ
get_context_switch_stats c = (c.count, c.cycles, if ltb 0 c.count then c.cycles / c.count else 0)

pub record BenchmarkResults : Type 0 where
  pub boot_time_us : ℕ
  pub boot_time_cycles : ℕ
  pub context_switches : ℕ
  pub avg_context_switch_ns : ℕ
  pub timer_ticks : ℕ
  pub uptime_ms : ℕ

abbrev pub boot_pass : BenchmarkResults → Bool
boot_pass r = ltb r.boot_time_us 10000

abbrev pub switch_pass : BenchmarkResults → Bool
switch_pass r = ltb r.avg_context_switch_ns 5000

unfoldable pub collect_results : Counters → ℕ → ℕ → BenchmarkResults
unfolding get_context_switch_stats
collect_results c ticks boot_cycles =
    let (switches, total_cycles, avg_cycles) = get_context_switch_stats c in
    record {
      boot_time_us = cycles_to_us boot_cycles;
      boot_time_cycles = boot_cycles;
      context_switches = switches;
      avg_context_switch_ns = cycles_to_ns avg_cycles;
      timer_ticks = ticks;
      uptime_ms = ticks * 10 % 2 ^ 64;
    }

-- `end.wrapping_sub(start) / iterations`; `none` is the panic of a division by zero.
unfoldable pub average : ℕ → ℕ → ℕ → Option ℕ
average start end iterations =
    if iterations == 0 then none else some ((end + 2 ^ 64 - start) % 2 ^ 64 / iterations)

-- The times of `run_benchmark_suite` in nanoseconds and its verdicts, from the four readings of the
-- counter in the two measurements.
pub record Summary : Type 0 where
  pub syscall_ns : ℕ
  pub ipc_ns : ℕ
  pub syscall_pass : Bool
  pub switch_pass : Bool

unfoldable pub run_benchmark_suite : Counters → ℕ → ℕ → ℕ → ℕ → Option Summary
unfolding average get_context_switch_stats
run_benchmark_suite c start end start' end' = elim (average start end 10000) [
  | none ↦ none
  | some syscall_cycles ↦ elim (average start' end' 10000) [
    | none ↦ none
    | some ipc_cycles ↦
        let (switches, total, avg_switch_cycles) = get_context_switch_stats c in
        some (record {
          syscall_ns = cycles_to_ns syscall_cycles;
          ipc_ns = cycles_to_ns ipc_cycles;
          syscall_pass = ltb (cycles_to_ns syscall_cycles) 1000;
          switch_pass = ltb (cycles_to_ns avg_switch_cycles) 5000;
        })
  ]
]

-- The conversion on ARM64, for a counter with the frequency that is read from CNTFRQ_EL0. The product wraps
-- as in a release build; `none` is the panic for a frequency of 0.
unfoldable pub convert : ℕ → ℕ → ℕ → Option ℕ
convert scale freq ticks = if freq == 0 then none else some (ticks * scale % 2 ^ 64 / freq)

unfoldable pub ticks_to_us : ℕ → ℕ → Option ℕ
unfolding convert
ticks_to_us freq ticks = convert 1000000 freq ticks

unfoldable pub ticks_to_ns : ℕ → ℕ → Option ℕ
unfolding convert
ticks_to_ns freq ticks = convert 1000000000 freq ticks

-- The unit is the number of Hz in it.
unfoldable pub get_counter_info : ℕ → ℕ × ℕ
get_counter_info freq =
    if leb 1000000000 freq
    then (freq / 1000000000, 1000000000)
    else if leb 1000000 freq
    then (freq / 1000000, 1000000)
    else if leb 1000 freq
    then (freq / 1000, 1000)
    else (freq, 1)
