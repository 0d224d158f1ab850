-- ===== src/Benchmarks/Averages.antt =====
-- What the counters of src/benchmark.rs hold after any number of recorded switches.
use jericho_os.Base.{
  ℕ, suc, ◌+◌, ◌*◌, ◌/◌, ◌^◌, ◌≤◌, ◌<◌, ◌≡◌, refl, true, List, [], ◌∷◌, length, All, ltb, arith,
}
use native.Mathlib.Nat.{le-div_iff_mul-le, div-lt_iff_lt-mul, div-mul-le_self, lt-div-mul-add}
use jericho_os.Benchmarks.{Counters, record_context_switch, get_context_switch_stats}

unfoldable pub record_all : Counters → List ℕ → Counters
unfolding record_context_switch
record_all c [] = c
record_all c (cycles ∷ more) = record_all (record_context_switch c cycles) more

unfoldable pub sum : List ℕ → ℕ
sum [] = 0
sum (x ∷ xs) = x + sum xs

abbrev pub none_yet : Counters
none_yet = record { count = 0; cycles = 0 }

record_all_lem :
    (cs : List ℕ) (c : Counters)
    → c.count + length cs < 2 ^ 64
    → c.cycles + sum cs < 2 ^ 64
    → ((record_all c cs).count ≡ c.count + length cs)
      × ((record_all c cs).cycles ≡ c.cycles + sum cs)
unfolding record_all sum record_context_switch
record_all_lem [] c h h' = (omega arith, omega arith)
record_all_lem (x ∷ xs) c h h' =
    let rest = record_all_lem xs (record_context_switch c x) (omega arith) (omega arith) in
    (omega (arith, rest.0), omega (arith, rest.1))

-- The total of numbers between two bounds.
sum_bounds :
    (low high : ℕ) (cs : List ℕ)
    → All (λ c. (low ≤ c) × (c ≤ high)) cs
    → (low * length cs ≤ sum cs) × (sum cs ≤ high * length cs)
unfolding sum
sum_bounds low high [] h = (omega arith, omega arith)
sum_bounds low high (x ∷ xs) (h, rest) =
    let more = sum_bounds low high xs rest in (grind (arith, more, h), grind (arith, more, h))

average_bounds :
    (total count low high : ℕ)
    → 0 < count
    → low * count ≤ total
    → total ≤ high * count
    → (low ≤ total / count)
      × (total / count ≤ high)
      × (total / count * count ≤ total)
      × (total < total / count * count + count)
average_bounds total count low high some_count enough few = (
  (le-div_iff_mul-le some_count).1 enough,
  below ((div-lt_iff_lt-mul {k = count} {x = total} {y = suc high} some_count).1 more),
  div-mul-le_self total count,
  lt-div-mul-add some_count,
)
  where
    below : total / count < suc high → total / count ≤ high
    below h = omega (arith, h)

    more : total < suc high * count
    more = grind (arith, few, some_count)

-- After any recorded switches, one at least, as long as the counters do not wrap: the statistics give their
-- number and their total, and an average that lies between the shortest and the longest, and is the exact one
-- rounded down.
pub get_context_switch_stats_lem :
    (x : ℕ) (xs : List ℕ) (low high : ℕ)
    → All (λ c. (low ≤ c) × (c ≤ high)) (x ∷ xs)
    → length (x ∷ xs) < 2 ^ 64
    → sum (x ∷ xs) < 2 ^ 64
    → let (count, total, avg) = get_context_switch_stats (record_all none_yet (x ∷ xs)) in
      (count ≡ length (x ∷ xs))
      × (total ≡ sum (x ∷ xs))
      × (low ≤ avg)
      × (avg ≤ high)
      × (avg * count ≤ total)
      × (total < avg * count + count)
unfolding get_context_switch_stats
get_context_switch_stats_lem x xs low high within few small =
    let counted = record_all_lem (x ∷ xs) none_yet (omega arith) (omega arith) in
    let count : (record_all none_yet (x ∷ xs)).count ≡ length (x ∷ xs) = omega (arith, counted.0) in
    let total : (record_all none_yet (x ∷ xs)).cycles ≡ sum (x ∷ xs) = omega (arith, counted.1) in
    let bounds = sum_bounds low high (x ∷ xs) within in
    let averages =
      average_bounds (sum (x ∷ xs)) (length (x ∷ xs)) low high (omega arith) bounds.0 bounds.1 in
    let positive : ltb 0 (length (x ∷ xs)) ≡ true = ground arith in
    rw (count, total, positive) (refl, refl, averages.0, averages.1, averages.2, averages.3)
