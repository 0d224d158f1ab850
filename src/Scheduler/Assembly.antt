-- ===== src/Scheduler/Assembly.antt =====
-- The assembly of `switch_context` in src/scheduler.rs, as a list of instructions and a machine that runs
-- it. A context is the list of its words, in the order of the fields of `TaskContext`; the two contexts
-- do not overlap. What the code pushes it pops again, so the stack is the list of the words pushed.
use jericho_os.Base.{
  ℕ, zero, suc, ◌+◌, ◌-◌, ◌%◌, ◌^◌, ◌/◌, Option, none, some, List, [], ◌∷◌, ◌==◌, if◌then◌else◌,
}
use jericho_os.Task.Context.{TaskContext}

-- `#[repr(C)]`.
unfoldable pub layout : TaskContext → List ℕ
layout ctx =
    ctx.rsp ∷ ctx.rbp ∷ ctx.rax ∷ ctx.rbx ∷ ctx.rcx ∷ ctx.rdx ∷ ctx.rsi ∷ ctx.rdi ∷ ctx.r8 ∷ ctx.r9
    ∷ ctx.r10 ∷ ctx.r11 ∷ ctx.r12 ∷ ctx.r13 ∷ ctx.r14 ∷ ctx.r15 ∷ ctx.rflags ∷ ctx.rip ∷ []

pub data Register : Type 0 where
  rsp rbp rax rbx rcx rdx rsi rdi r8 r9 r10 r11 r12 r13 r14 r15 : Register

abbrev pub number : Register → ℕ
number rsp = 0
number rbp = 1
number rax = 2
number rbx = 3
number rcx = 4
number rdx = 5
number rsi = 6
number rdi = 7
number r8 = 8
number r9 = 9
number r10 = 10
number r11 = 11
number r12 = 12
number r13 = 13
number r14 = 14
number r15 = 15

-- `store` is a move to the context at rdi, `load` one from the context at rsi, and `push_word` pushes
-- a word of the latter.
pub data Instruction : Type 0 where
  store : ℕ → Register → Instruction
  load : Register → ℕ → Instruction
  move : Register → Register → Instruction
  lea_label : Register → Instruction
  push : Register → Instruction
  push_word : ℕ → Instruction
  pop : Register → Instruction
  pushfq popfq ret : Instruction

-- `label` is the address of the label 2 of the code, where it ends.
pub record Machine : Type 0 where
  pub registers : ℕ → ℕ
  pub rflags : ℕ
  pub label : ℕ
  pub stack : List ℕ
  pub old_context : List ℕ
  pub new_context : List ℕ

unfoldable pub write_word : ℕ → ℕ → List ℕ → List ℕ
write_word i value [] = []
write_word zero value (word ∷ words) = value ∷ words
write_word (suc i) value (word ∷ words) = word ∷ write_word i value words

unfoldable pub read_word : ℕ → List ℕ → ℕ
read_word i [] = 0
read_word zero (word ∷ words) = word
read_word (suc i) (word ∷ words) = read_word i words

unfoldable pub set_register : Register → ℕ → Machine → Machine
set_register r value m = record m {
  registers = λ other. if other == number r then value else m.registers other;
}

-- A word onto the stack, and off it. A stack that is empty gives 0.
unfoldable pub push_value : ℕ → Machine → Machine
unfolding set_register
push_value value m =
    record (set_register rsp ((m.registers (number rsp) + (2 ^ 64 - 8)) % 2 ^ 64) m) {
      stack = value ∷ m.stack;
    }

unfoldable pub top : List ℕ → ℕ
top [] = 0
top (word ∷ words) = word

unfoldable pub rest_of : List ℕ → List ℕ
rest_of [] = []
rest_of (word ∷ words) = words

unfoldable pub pop_value : Machine → Machine
unfolding set_register rest_of
pop_value m = record (set_register rsp ((m.registers (number rsp) + 8) % 2 ^ 64) m) {
  stack = rest_of m.stack;
}

-- The program up to its return: the address that it returns to, and the machine then.
unfoldable pub run : List Instruction → Machine → Option (ℕ × Machine)
unfolding write_word read_word set_register push_value pop_value top
run [] m = none
run (store offset r ∷ rest) m =
    run rest
      (record m { old_context = write_word (offset / 8) (m.registers (number r)) m.old_context })
run (load r offset ∷ rest) m = run rest (set_register r (read_word (offset / 8) m.new_context) m)
run (move a b ∷ rest) m = run rest (set_register a (m.registers (number b)) m)
run (lea_label r ∷ rest) m = run rest (set_register r m.label m)
run (push r ∷ rest) m = run rest (push_value (m.registers (number r)) m)
run (push_word offset ∷ rest) m = run rest (push_value (read_word (offset / 8) m.new_context) m)
run (pop r ∷ rest) m = run rest (set_register r (top m.stack) (pop_value m))
run (pushfq ∷ rest) m = run rest (push_value m.rflags m)
run (popfq ∷ rest) m = run rest (record (pop_value m) { rflags = top m.stack })
run (ret ∷ rest) m = some (top m.stack, pop_value m)

abbrev pub save_part : List Instruction → List Instruction
save_part rest =
    store 0 rsp
    ∷ store 8 rbp
    ∷ store 16 rax
    ∷ store 24 rbx
    ∷ store 32 rcx
    ∷ store 40 rdx
    ∷ store 48 rsi
    ∷ store 56 rdi
    ∷ store 64 r8
    ∷ store 72 r9
    ∷ store 80 r10
    ∷ store 88 r11
    ∷ store 96 r12
    ∷ store 104 r13
    ∷ store 112 r14
    ∷ store 120 r15
    ∷ pushfq
    ∷ pop rax
    ∷ store 128 rax
    ∷ lea_label rax
    ∷ store 136 rax
    ∷ rest

abbrev pub restore_part : List Instruction
restore_part =
    load rsp 0
    ∷ load rbp 8
    ∷ load rax 16
    ∷ load rbx 24
    ∷ load rcx 32
    ∷ load rdx 40
    ∷ load r8 64
    ∷ load r9 72
    ∷ load r10 80
    ∷ load r11 88
    ∷ load r12 96
    ∷ load r13 104
    ∷ load r14 112
    ∷ load r15 120
    ∷ load rdi 128
    ∷ push rdi
    ∷ popfq
    ∷ load rdi 56
    ∷ load rax 48
    ∷ push_word 136
    ∷ move rsi rax
    ∷ ret
    ∷ []

abbrev pub switch_context : List Instruction
switch_context = save_part restore_part
