-- ===== src/Interrupts.antt =====
-- interrupts.rs: the two hardware interrupts of the x86-64 kernel, and the interval timer. `Timer` is
-- about what the timer handler ends in, `Divisor` about what the timer is set to. `Locks` holds the lock of the
-- scheduler with ticks in between, and `Exposed` and `Deadlock` prove.
pub mod Timer
pub mod Divisor
pub mod Locks
pub mod Exposed
pub mod Deadlock
use jericho_os.Base.{
  ℕ, ◌+◌, ◌/◌, ◌%◌, ◌^◌, ◌<◌, Bool, true, false, Option, none, some, List, [], ◌∷◌, ◌++◌, bit_and,
  ltb, ◌==◌, if◌then◌else◌,
}
use jericho_os.Scheduler.Yield.{Machine, Yielded, returns, switches, panics, task_yield, resume}

abbrev pub pic_1_offset : ℕ
pic_1_offset = 32

pub data InterruptIndex : Type 0 where
  timer keyboard : InterruptIndex

abbrev pub as_u8 : InterruptIndex → ℕ
as_u8 timer = pic_1_offset
as_u8 keyboard = pic_1_offset + 1

-- The processor and the statics: the tick counter, the numbers for which the interrupt controllers
-- were told the end of an interrupt, and the bytes written to ports, both oldest first.
pub record Cpu : Type 0 where
  pub machine : Machine
  pub timer_ticks : ℕ
  pub ended : List ℕ
  pub writes : List (ℕ × ℕ)

-- `PICS.lock().notify_end_of_interrupt(index)`.
unfoldable pub notify_end_of_interrupt : InterruptIndex → Cpu → Cpu
notify_end_of_interrupt index c = record c { ended = c.ended ++ as_u8 index ∷ [] }

-- The handler is done; or it stopped in a switch from the task `old` to `new`, with the flag that
-- `task_yield` keeps on the stack of the old one; or an `unwrap` failed.
pub data Handled : Type 0 where
  done : Cpu → Handled
  away : Cpu → ℕ → ℕ → Bool → Handled
  panicked : Handled

-- `task_yield`, and what follows it in the handler.
unfoldable pub yield_and_end : Cpu → Handled
unfolding task_yield notify_end_of_interrupt
yield_and_end c = elim (task_yield c.machine) [
  | returns m ↦ done (notify_end_of_interrupt timer (record c { machine = m }))
  | switches m old new enabled ↦ away (record c { machine = m }) old new enabled
  | panics ↦ panicked
]

unfoldable pub timer_interrupt_handler : Cpu → Handled
unfolding yield_and_end notify_end_of_interrupt
timer_interrupt_handler c =
    let ticks = c.timer_ticks in
    let c' : Cpu = record c { timer_ticks = (ticks + 1) % 2 ^ 64 } in
    if ltb 0 ticks then yield_and_end c' else done (notify_end_of_interrupt timer c')

-- What the handler still does when its task is switched back to.
unfoldable pub resume_handler : Bool → Cpu → Cpu
unfolding notify_end_of_interrupt resume
resume_handler enabled c =
    notify_end_of_interrupt timer (record c { machine = resume enabled c.machine })

-- The scancode is read from port 0x60, and only printed.
unfoldable pub keyboard_interrupt_handler : ℕ → Cpu → Cpu
unfolding notify_end_of_interrupt
keyboard_interrupt_handler scancode c = notify_end_of_interrupt keyboard c

abbrev pub pit_frequency : ℕ
pit_frequency = 1193182

-- `divisor as u8` of the lowest byte, and of the one above it.
abbrev pub low_byte : ℕ → ℕ
low_byte divisor = bit_and divisor 0xFF

abbrev pub high_byte : ℕ → ℕ
high_byte divisor = bit_and (divisor / 2 ^ 8) 0xFF

-- `none` is the panic of a division by zero.
unfoldable pub init_timer : ℕ → Cpu → Option Cpu
init_timer frequency_hz c =
    let divisor = pit_frequency / frequency_hz in
    if frequency_hz == 0
    then none
    else some (record c {
      machine = record c.machine { interrupts = true };
      writes = c.writes ++ (0x43, 0x36) ∷ (0x40, low_byte divisor) ∷ (0x40, high_byte divisor) ∷ [];
    })
