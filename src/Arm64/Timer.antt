-- ===== src/Arm64/Timer.antt =====
-- src/arch/aarch64/timer.rs: the registers of the generic timer that `init` and `rearm` write. The frequency of the
-- counter is what the processor gives for CNTFRQ_EL0.
use jericho_os.Base.{ℕ, ◌+◌, ◌*◌, ◌/◌, ◌%◌, ◌^◌, ◌≤◌, ◌<◌, ◌≡◌, refl, arith}

-- CNTP_TVAL_EL0, the ticks of the counter to the next interrupt, and CNTP_CTL_EL0.
pub record Timer : Type 0 where
  pub cntp_tval : ℕ
  pub cntp_ctl : ℕ

-- `(freq / 100) as u32`.
abbrev pub ticks_per_10ms : ℕ → ℕ
ticks_per_10ms freq = freq / 100 % 2 ^ 32

unfoldable pub init : ℕ → Timer → Timer
init freq timer = record { cntp_tval = ticks_per_10ms freq; cntp_ctl = 1 }

unfoldable pub rearm : ℕ → Timer → Timer
rearm freq timer = record timer { cntp_tval = ticks_per_10ms freq }

-- With a frequency of 32 bits, the width of the field, an interrupt comes after 10 ms, rounded down to a whole number of
-- ticks, at the start and each time the timer is armed again, which leaves it enabled.
pub rearm-init :
    (freq : ℕ) (timer : Timer)
    → freq < 2 ^ 32
    → let first = init freq timer in
      let again = rearm freq first in
      (again ≡ first)
      × (first.cntp_ctl ≡ 1)
      × (100 * first.cntp_tval ≤ freq)
      × (freq < 100 * (first.cntp_tval + 1))
unfolding init rearm
rearm-init freq timer h = (refl, refl, omega arith, omega arith)
