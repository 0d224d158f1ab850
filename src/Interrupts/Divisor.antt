-- ===== src/Interrupts/Divisor.antt =====
-- The interval timer that `init_timer` of src/interrupts.rs sets: a 16-bit counter that counts down
-- from the divisor at 1193182 Hz, for which 0 stands for 65536.
use jericho_os.Base.{
  ℕ, ◌+◌, ◌*◌, ◌/◌, ◌≤◌, ◌<◌, ◌≡◌, refl, Option, none, some, [], ◌∷◌, ◌++◌, true, bit_and_byte,
  Bool, Bool-cases, inl, inr, ◌⊎◌, ltb, leb, passes_below, passes_below-lt, ◌==◌, if◌then◌else◌,
  arith,
}
use native.Mathlib.Nat.{
  div-eq_of_lt, div-mul-le_self, le-div_iff_mul-le, div-lt_iff_lt-mul, lt-div-mul-add,
}
use jericho_os.Interrupts.{Cpu, pit_frequency, low_byte, high_byte, init_timer}

-- The oscillations between two interrupts, for the two bytes that were written.
abbrev pub interval : ℕ → ℕ → ℕ
interval low high = if low + 256 * high == 0 then 65536 else low + 256 * high

-- The two bytes hold a divisor up to 65535.
interval_lem : (d : ℕ) → 0 < d → d < 65536 → interval (low_byte d) (high_byte d) ≡ d
interval_lem d h h' = ground (arith, bit_and_byte d, bit_and_byte (d / 256))

abbrev loses : ℕ → Bool
loses hz =
    let d = pit_frequency / hz in
    if hz == 0 then true else leb (interval (low_byte d) (high_byte d) + 65536) d

loses_table : passes_below loses 19 ≡ true
unfolding passes_below
loses_table = refl

loses_bits :
    (hz : ℕ)
    → 0 < hz
    → hz < 19
    → let d = pit_frequency / hz in interval (low_byte d) (high_byte d) + 65536 ≤ d
loses_bits hz h h' =
    let checked : loses hz ≡ true = passes_below-lt loses 19 loses_table hz h' in ground arith

-- How an interval serves for a number of Hz.
abbrev pub Rate : ℕ → ℕ → Type 0
Rate hz n =
    ((hz < 19) × (n + 65536 ≤ pit_frequency / hz))
    ⊎ ((19 ≤ hz) × (hz ≤ pit_frequency) × (n * hz ≤ pit_frequency) × (pit_frequency < n * hz + hz))
    ⊎ ((pit_frequency < hz) × (n ≡ 65536))

-- The panic, or what the processor and the timer are left with.
abbrev pub Sets : ℕ → Cpu → Option Cpu → Type 0
Sets hz c none = hz ≡ 0
Sets hz c (some c') =
    (0 < hz)
    × (low : ℕ) × (high : ℕ) × (c' ≡ record c {
      machine = record c.machine { interrupts = true };
      writes = c.writes ++ (0x43, 0x36) ∷ (0x40, low) ∷ (0x40, high) ∷ [];
    })
    × (low < 256)
    × (high < 256)
    × Rate hz (interval low high)

bytes-Rate :
    (hz : ℕ) → 0 < hz → let d = pit_frequency / hz in Rate hz (interval (low_byte d) (high_byte d))
bytes-Rate hz h = elim (Bool-cases (ltb hz 19)) [
  | inl slow ↦ inl (ground arith, loses_bits hz h (ground arith))
  | inr more ↦ elim (Bool-cases (ltb pit_frequency hz)) [
    | inl fast ↦
        let none_left : pit_frequency / hz ≡ 0 = div-eq_of_lt (ground arith) in
        inr (inr (ground arith, rw none_left (omega (arith, bit_and_byte 0))))
    | inr fine ↦
        let one = le-div_iff_mul-le {k = hz} {x = 1} {y = pit_frequency} h in
        let fits = div-lt_iff_lt-mul {k = hz} {x = pit_frequency} {y = 65536} h in
        let same =
          interval_lem (pit_frequency / hz) (one.1 (ground arith)) (fits.1 (ground arith)) in
        inr (
          inl (
            ground arith,
            ground arith,
            rw same (div-mul-le_self pit_frequency hz),
            rw same (lt-div-mul-add h),
          ))
  ]
]

-- `init_timer` panics for 0 Hz. Else it writes the mode and the two bytes of an interval, and enables
-- interrupts. From 19 Hz to 1193182 Hz the interval is the largest whose rate is not below the one
-- asked for. From 1 Hz to 18 Hz the upper bits of the divisor are lost, and the interval is shorter
-- than the one asked for by 65536 oscillations or more. Above 1193182 Hz it is 65536 oscillations.
pub init_timer-Sets : (hz : ℕ) (c : Cpu) → Sets hz c (init_timer hz c)
unfolding init_timer
init_timer-Sets hz c = elim (Bool-cases (hz == 0)) [
  | inl stopped ↦ rw (init_timer, stopped) (ground arith)
  | inr runs ↦
      let d = pit_frequency / hz in
      rw (init_timer, runs)
        (
          ground arith,
          low_byte d,
          high_byte d,
          refl,
          omega (arith, bit_and_byte d),
          omega (arith, bit_and_byte (d / 256)),
          bytes-Rate hz (ground arith),
        )
]
