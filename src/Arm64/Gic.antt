-- ===== src/Arm64/Gic.antt =====
-- src/arch/aarch64/gic.rs: the registers of the interrupt controller that are written. A write is an
-- address and a value; the last write to an address counts.
use jericho_os.Base.{
  ℕ, zero, suc, ◌+◌, ◌*◌, ◌-◌, ◌/◌, ◌%◌, ◌^◌, ◌≤◌, ◌≡◌, Bool, ◌&&◌, Option, none, some, List, [],
  ◌∷◌, ◌++◌, is_some, bit_and, bit_and_31, bit_or, leb, ltb, ◌==◌, if◌then◌else◌, arith,
}

abbrev pub gicd_ctlr : ℕ
gicd_ctlr = 0x08000000

abbrev pub gicd_isenabler0 : ℕ
gicd_isenabler0 = 0x08000100

abbrev pub gicd_ipriorityr : ℕ
gicd_ipriorityr = 0x08000400

abbrev pub gicc_ctlr : ℕ
gicc_ctlr = 0x08010000

abbrev pub gicc_pmr : ℕ
gicc_pmr = 0x08010004

abbrev pub gicc_eoir : ℕ
gicc_eoir = 0x08010010

abbrev pub arm_timer_irq : ℕ
arm_timer_irq = 30

-- `typer` is what is read from GICD_TYPER.
abbrev pub num_interrupts : ℕ → ℕ
num_interrupts typer = (bit_and typer 0x1F + 1) * 32

-- The loop over `0..n` that writes one value to `n` registers.
unfoldable pub write_all : ℕ → ℕ → ℕ → List (ℕ × ℕ)
write_all base zero value = []
write_all base (suc n) value = (base, value) ∷ write_all (base + 4) n value

unfoldable pub init : ℕ → List (ℕ × ℕ)
unfolding write_all
init typer =
    (gicd_ctlr, 0) ∷ write_all gicd_isenabler0 (num_interrupts typer / 32) 0xFFFFFFFF
    ++ write_all gicd_ipriorityr (num_interrupts typer / 4) 0xA0A0A0A0
    ++ (gicd_ctlr, 1) ∷ (gicc_pmr, 0xFF) ∷ (gicc_ctlr, 1) ∷ []

-- `current` is what is read from a register.
unfoldable pub enable_interrupt : (ℕ → ℕ) → ℕ → List (ℕ × ℕ)
enable_interrupt current irq_num =
    let reg = gicd_isenabler0 + irq_num / 32 * 4 in
    (reg, bit_or (current reg) (2 ^ (irq_num % 32))) ∷ []

unfoldable pub enable_timer_interrupt : (ℕ → ℕ) → List (ℕ × ℕ)
unfolding enable_interrupt
enable_timer_interrupt current = enable_interrupt current arm_timer_irq

unfoldable pub end_of_interrupt : ℕ → List (ℕ × ℕ)
end_of_interrupt irq_num = (gicc_eoir, irq_num) ∷ []

-- What a register was written last, if it was.
unfoldable pub last_write : List (ℕ × ℕ) → ℕ → Option ℕ
last_write [] address = none
last_write (w ∷ ws) address =
    let later = last_write ws address in
    if is_some later then later else if w.0 == address then some w.1 else none

abbrev over : Option ℕ → Option ℕ → Option ℕ
over (some later) earlier = some later
over none earlier = earlier

last_write-append :
    (ws vs : List (ℕ × ℕ)) (address : ℕ)
    → last_write (ws ++ vs) address ≡ over (last_write vs address) (last_write ws address)
unfolding last_write
last_write-append [] vs address = ground arith
last_write-append (w ∷ ws) vs address = ground (arith, last_write-append ws vs address)

-- Whether an address is one of `n` registers from `base` on.
abbrev pub register_of : ℕ → ℕ → ℕ → Bool
register_of base n address =
    leb base address && ltb address (base + 4 * n) && ((address - base) % 4 == 0)

last_write-write_all :
    (base n value address : ℕ)
    → last_write (write_all base n value) address
      ≡ (if register_of base n address then some value else none)
unfolding last_write write_all
last_write-write_all base zero value address = ground arith
last_write-write_all base (suc n) value address =
    ground (arith, last_write-write_all (base + 4) n value address)

-- The registers after `init`.
abbrev pub initialised : ℕ → ℕ → Option ℕ
initialised lines address =
    if address == gicd_ctlr
    then some 1
    else if address == gicc_pmr
    then some 0xFF
    else if address == gicc_ctlr
    then some 1
    else if register_of gicd_isenabler0 lines address
    then some 0xFFFFFFFF
    else if register_of gicd_ipriorityr (8 * lines) address
    then some 0xA0A0A0A0
    else none

last_parts :
    (lines address : ℕ)
    → lines ≤ 32
    → over (last_write ((gicd_ctlr, 1) ∷ (gicc_pmr, 0xFF) ∷ (gicc_ctlr, 1) ∷ []) address) (
        over
          (if register_of gicd_ipriorityr (8 * lines) address then some 0xA0A0A0A0 else none)
          (if register_of gicd_isenabler0 lines address then some 0xFFFFFFFF else none))
      ≡ initialised lines address
unfolding last_write
last_parts lines address small = ground arith

body_registers :
    (lines words enables address : ℕ)
    → lines ≤ 32
    → words ≡ 8 * lines
    → enables ≡ lines
    → last_write
        (write_all gicd_isenabler0 enables 0xFFFFFFFF
          ++ write_all gicd_ipriorityr words 0xA0A0A0A0
          ++ (gicd_ctlr, 1) ∷ (gicc_pmr, 0xFF) ∷ (gicc_ctlr, 1) ∷ [])
        address
      ≡ initialised lines address
body_registers lines words enables address small e f =
    rw
      (
        last_write-append
            (write_all gicd_isenabler0 enables 0xFFFFFFFF
              ++ write_all gicd_ipriorityr words 0xA0A0A0A0)
            ((gicd_ctlr, 1) ∷ (gicc_pmr, 0xFF) ∷ (gicc_ctlr, 1) ∷ []) address,
        last_write-append (write_all gicd_isenabler0 enables 0xFFFFFFFF)
            (write_all gicd_ipriorityr words 0xA0A0A0A0) address,
        last_write-write_all gicd_isenabler0 enables 0xFFFFFFFF address,
        last_write-write_all gicd_ipriorityr words 0xA0A0A0A0 address,
        e,
        f,
      )
      (last_parts lines address small)

-- After `init`, with the number of lines that the type register gives in its lowest five bits: the
-- distributor and the interface of the processor are on, no priority is masked, each of the enable registers of these lines
-- holds all ones, so that every interrupt is enabled, and each of their priority registers holds 0xA0 four
-- times. No other register is written, whatever the type register says.
pub init_registers :
    (typer address : ℕ)
    → last_write (init typer) address ≡ initialised (bit_and typer 0x1F + 1) address
unfolding init last_write
init_registers typer address =
    let lines = bit_and typer 0x1F + 1 in
    let body =
      body_registers lines (num_interrupts typer / 4) (num_interrupts typer / 32) address
        (omega (arith, bit_and_31 typer)) (omega arith) (omega arith) in
    ground (arith, body)
