-- ===== src/Arm64/Assembly.antt =====
-- The assembly of `switch_context` in src/arch/aarch64/task.rs, as a list of instructions and a machine
-- that runs it. A register is its number, with 31 for the stack pointer. A context is the list of its
-- words, in the order of the fields of `TaskContext`; the two contexts do not overlap.
use jericho_os.Base.{
  ℕ, zero, suc, ◌+◌, ◌/◌, Option, none, some, List, [], ◌∷◌, map, ◌≡◌, refl, ◌==◌, if◌then◌else◌,
}
use jericho_os.Arm64.Context.{TaskContext, init}

-- `#[repr(C)]`.
unfoldable pub layout : TaskContext → List ℕ
layout ctx =
    ctx.x0 ∷ ctx.x1 ∷ ctx.x2 ∷ ctx.x3 ∷ ctx.x4 ∷ ctx.x5 ∷ ctx.x6 ∷ ctx.x7 ∷ ctx.x8 ∷ ctx.x9
    ∷ ctx.x10 ∷ ctx.x11 ∷ ctx.x12 ∷ ctx.x13 ∷ ctx.x14 ∷ ctx.x15 ∷ ctx.x16 ∷ ctx.x17 ∷ ctx.x18
    ∷ ctx.x19 ∷ ctx.x20 ∷ ctx.x21 ∷ ctx.x22 ∷ ctx.x23 ∷ ctx.x24 ∷ ctx.x25 ∷ ctx.x26 ∷ ctx.x27
    ∷ ctx.x28 ∷ ctx.x29_fp ∷ ctx.x30_lr ∷ ctx.sp ∷ ctx.pc ∷ ctx.pstate ∷ []

-- The instructions in use. Stores go through x0, the current context, and loads through x1, the next.
pub data Instruction : Type 0 where
  stp : ℕ → ℕ → ℕ → Instruction
  str : ℕ → ℕ → Instruction
  ldp : ℕ → ℕ → ℕ → Instruction
  ldr : ℕ → ℕ → Instruction
  mov : ℕ → ℕ → Instruction
  adr_label : ℕ → Instruction
  mrs_spsr_el1 : ℕ → Instruction
  br : ℕ → Instruction

-- `label` is the address of the label 1 of the code, at which it returns.
pub record Machine : Type 0 where
  pub registers : ℕ → ℕ
  pub spsr_el1 : ℕ
  pub label : ℕ
  pub current : List ℕ
  pub next : List ℕ

abbrev pub sp : ℕ
sp = 31

unfoldable pub write_word : ℕ → ℕ → List ℕ → List ℕ
write_word i value [] = []
write_word zero value (word ∷ words) = value ∷ words
write_word (suc i) value (word ∷ words) = word ∷ write_word i value words

unfoldable pub read_word : ℕ → List ℕ → ℕ
read_word i [] = 0
read_word zero (word ∷ words) = word
read_word (suc i) (word ∷ words) = read_word i words

unfoldable pub set_register : ℕ → ℕ → Machine → Machine
set_register r value m = record m {
  registers = λ other. if other == r then value else m.registers other;
}

unfoldable pub store : ℕ → ℕ → Machine → Machine
unfolding write_word
store r offset m = record m { current = write_word (offset / 8) (m.registers r) m.current }

unfoldable pub load : ℕ → ℕ → Machine → Machine
unfolding read_word set_register
load r offset m = set_register r (read_word (offset / 8) m.next) m

-- The program up to its jump: the address that it jumps to, and the machine then.
unfoldable pub run : List Instruction → Machine → Option (ℕ × Machine)
unfolding store load set_register
run [] m = none
run (stp a b offset ∷ rest) m = run rest (store b (offset + 8) (store a offset m))
run (str a offset ∷ rest) m = run rest (store a offset m)
run (ldp a b offset ∷ rest) m = run rest (load b (offset + 8) (load a offset m))
run (ldr a offset ∷ rest) m = run rest (load a offset m)
run (mov a b ∷ rest) m = run rest (set_register a (m.registers b) m)
run (adr_label a ∷ rest) m = run rest (set_register a m.label m)
run (mrs_spsr_el1 a ∷ rest) m = run rest (set_register a m.spsr_el1 m)
run (br a ∷ rest) m = some (m.registers a, m)

abbrev pub switch_context : List Instruction
switch_context =
    stp 19 20 0
    ∷ stp 21 22 16
    ∷ stp 23 24 32
    ∷ stp 25 26 48
    ∷ stp 27 28 64
    ∷ stp 29 30 80
    ∷ mov 9 sp
    ∷ str 9 96
    ∷ adr_label 9
    ∷ str 9 104
    ∷ mrs_spsr_el1 9
    ∷ str 9 112
    ∷ ldp 19 20 0
    ∷ ldp 21 22 16
    ∷ ldp 23 24 32
    ∷ ldp 25 26 48
    ∷ ldp 27 28 64
    ∷ ldp 29 30 80
    ∷ ldr 9 96
    ∷ mov sp 9
    ∷ ldr 9 104
    ∷ br 9
    ∷ []

-- The registers that a call has to preserve, and the stack pointer.
abbrev pub callee_saved : List ℕ
callee_saved = 19 ∷ 20 ∷ 21 ∷ 22 ∷ 23 ∷ 24 ∷ 25 ∷ 26 ∷ 27 ∷ 28 ∷ 29 ∷ 30 ∷ sp ∷ []

-- A task that gave up the processor in `switch_context` and is then switched to, by whatever task, goes
-- on at the label, with the registers that a call preserves and the stack pointer that it had.
pub switch_context_returns :
    (ctx : TaskContext) (other : List ℕ) (registers : ℕ → ℕ) (spsr_el1 label : ℕ) (by : Machine)
    → (saved : List ℕ) × (target : ℕ) × (m : Machine) × (m' : Machine) × (run switch_context
          (record {
            registers = registers;
            spsr_el1 = spsr_el1;
            label = label;
            current = layout ctx;
            next = other;
          })
        ≡ some (target, m))
      × (m.current ≡ saved)
      × (run switch_context (record by { next = saved }) ≡ some (label, m'))
      × (map m'.registers callee_saved ≡ map registers callee_saved)
unfolding run layout store load set_register write_word read_word
switch_context_returns ctx other registers spsr_el1 label by = (_, _, _, _, refl, refl, refl, refl)

-- A switch to a task that has not run yet jumps to address 0, with the stack pointer 0, whatever its
-- entry point and its stack are: the code reads the two at the offsets 104 and 96, where the context
-- of `init` has x13 and x12.
pub switch_context_lost :
    (entry_point stack_top : ℕ) (by : Machine)
    → (m : Machine) × (run switch_context (record by { next = layout (init entry_point stack_top) })
        ≡ some (0, m))
      × (m.registers sp ≡ 0)
unfolding run layout store load set_register write_word read_word init
switch_context_lost entry_point stack_top by = (_, refl, refl)
