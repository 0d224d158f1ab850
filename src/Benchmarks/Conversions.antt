-- ===== src/Benchmarks/Conversions.antt =====
-- The conversion of counter values in src/arch/aarch64/benchmark.rs.
use jericho_os.Base.{
  ℕ, ◌+◌, ◌*◌, ◌/◌, ◌%◌, ◌^◌, ◌≤◌, ◌<◌, ◌≡◌, refl, false, some, leb, ◌==◌, arith, ◌⊎◌, inl, inr,
  Bool-cases,
}
use native.Mathlib.Nat.{div-mul-le_self, lt-div-mul-add}
use jericho_os.Benchmarks.{convert, get_counter_info}

-- Up to an overflow of the product, the result is the exact value rounded down.
pub convert_lem :
    (scale freq ticks : ℕ)
    → 0 < freq
    → ticks * scale < 2 ^ 64
    → (result : ℕ) × (convert scale freq ticks ≡ some result)
      × (result * freq ≤ ticks * scale)
      × (ticks * scale < result * freq + freq)
unfolding convert
convert_lem scale freq ticks some_freq small =
    let whole : ticks * scale % 2 ^ 64 ≡ ticks * scale = omega arith in
    let runs : (freq == 0) ≡ false = ground arith in
    (
      ticks * scale / freq,
      rw (runs, whole) refl,
      div-mul-le_self (ticks * scale) freq,
      lt-div-mul-add some_freq,
    )

-- The frequency is the value in the unit, rounded down, and the value is below 1000 for all units but
-- the largest.
pub get_counter_info_lem :
    (freq : ℕ)
    → let (value, unit) = get_counter_info freq in
      (value * unit ≤ freq) × (freq < value * unit + unit) × ((value < 1000) ⊎ (unit ≡ 1000000000))
unfolding get_counter_info
get_counter_info_lem freq = elim (Bool-cases (leb 1000000000 freq)) [
  | inl giga ↦ rw giga (omega arith, omega arith, inr refl)
  | inr less ↦ elim (Bool-cases (leb 1000000 freq)) [
    | inl mega ↦ rw (less, mega) (omega arith, omega arith, inl (ground arith))
    | inr small ↦ elim (Bool-cases (leb 1000 freq)) [
      | inl kilo ↦ rw (less, small, kilo) (omega arith, omega arith, inl (ground arith))
      | inr single ↦ rw (less, small, single) (omega arith, omega arith, inl (ground arith))
    ]
  ]
]
