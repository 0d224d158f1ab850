-- ===== src/Base/Bits.antt =====
-- `bit_and` with a mask of ones keeps the lowest bits of a number; `bit_or` with bits below a number is a sum.
use Prim.Native.Nat.{
  ℕ, zero, suc, ◌+◌, ◌*◌, ◌/◌, ◌%◌, ◌≤◌, ◌<◌, min, max, bit_and, bit_or, digits, bit_and-bitwise,
  bit_or-bitwise,
}
use mathlib.Core.Path.{◌≡◌, refl, ap, ◌∙◌}
use native.Mathlib.Omega.{arith}

-- The number with `k` ones, and the number that the lowest `k` bits of another make.
abbrev ones : ℕ → ℕ
ones zero = 0
ones (suc k) = ones k * 2 + 1

abbrev lowest : ℕ → ℕ → ℕ
lowest zero a = 0
lowest (suc k) a = lowest k (a / 2) * 2 + a % 2

lowest_zero : (k : ℕ) → lowest k 0 ≡ 0
lowest_zero zero = refl
lowest_zero (suc k) = omega (arith, lowest_zero k)

digits-lowest : (fuel k a : ℕ) → a ≤ fuel → digits (λ b. zero) min fuel a (ones k) ≡ lowest k a
digits-lowest zero k zero enough = omega (arith, lowest_zero k)
digits-lowest zero k (suc a) enough = absurd (omega arith)
digits-lowest (suc fuel) k zero enough = omega (arith, lowest_zero k)
digits-lowest (suc fuel) zero (suc a) enough =
    omega (arith, digits-lowest fuel zero (suc a / 2) (omega arith))
digits-lowest (suc fuel) (suc k) (suc a) enough =
    let half : (ones k * 2 + 1) / 2 ≡ ones k = omega arith in
    omega (
      arith,
      ap (digits (λ b. zero) min fuel (suc a / 2)) half,
      digits-lowest fuel k (suc a / 2) (omega arith),
    )

pub bit_and_byte : (a : ℕ) → bit_and a 0xFF ≡ a % 256
bit_and_byte a = omega (arith, bit_and-bitwise a 0xFF, digits-lowest a 8 a (omega arith))

-- With enough fuel, the bits of a number `low` below `2 ^ k` come into a multiple of it.
abbrev shifted : ℕ → ℕ → ℕ
shifted zero a = a
shifted (suc k) a = shifted k a * 2

or_digits_zero : (fuel a : ℕ) → a ≤ fuel → digits (λ b. b) max fuel a 0 ≡ a
or_digits_zero zero zero enough = refl
or_digits_zero zero (suc a) enough = absurd (omega arith)
or_digits_zero (suc fuel) zero enough = refl
or_digits_zero (suc fuel) (suc a) enough =
    omega (arith, or_digits_zero fuel (suc a / 2) (omega arith))

or_digits :
    (k fuel n a low : ℕ)
    → n ≡ shifted k a
    → n ≤ fuel
    → low < shifted k 1
    → digits (λ b. b) max fuel n low ≡ n + low
or_digits k zero zero a low e enough small = omega arith
or_digits k zero (suc n) a low e enough small = absurd (omega arith)
or_digits k (suc fuel) zero a low e enough small = omega arith
or_digits zero (suc fuel) (suc n) a zero e enough small =
    omega (arith, or_digits_zero fuel (suc n / 2) (omega arith))
or_digits zero (suc fuel) (suc n) a (suc low) e enough small = absurd (omega arith)
or_digits (suc k) (suc fuel) (suc n) a low e enough small =
    omega
      (arith, or_digits k fuel (suc n / 2) a (low / 2) (omega arith) (omega arith) (omega arith))

-- The bits of a table descriptor, in the address of a table.
pub bit_or_page : (page low : ℕ) → page % 4096 ≡ 0 → low < 4096 → bit_or page low ≡ page + low
bit_or_page page low aligned small =
    bit_or-bitwise page low
    ∙ or_digits 12 page page (page / 4096) low (omega arith) (omega arith) small

pub bit_or_one : (n : ℕ) → n % 2 ≡ 0 → bit_or n 1 ≡ n + 1
bit_or_one n even =
    bit_or-bitwise n 1 ∙ or_digits 1 n n (n / 2) 1 (omega arith) (omega arith) (omega arith)

pub bit_or_odd : (n : ℕ) → bit_or n 1 % 2 ≡ 1
bit_or_odd zero = refl
bit_or_odd (suc n) = omega (arith, bit_or-bitwise (suc n) 1)

pub bit_and_one : (n : ℕ) → bit_and n 1 ≡ n % 2
bit_and_one n = omega (arith, bit_and-bitwise n 1, digits-lowest n 1 n (omega arith))

pub bit_and_31 : (n : ℕ) → bit_and n 0x1F ≡ n % 32
bit_and_31 n = omega (arith, bit_and-bitwise n 0x1F, digits-lowest n 5 n (omega arith))

pub bit_and_15 : (n : ℕ) → bit_and n 0xF ≡ n % 16
bit_and_15 n = omega (arith, bit_and-bitwise n 0xF, digits-lowest n 4 n (omega arith))
