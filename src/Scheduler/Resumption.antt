-- ===== src/Scheduler/Resumption.antt =====
-- What the assembly of `switch_context` in src/scheduler.rs preserves.
use jericho_os.Base.{
  ℕ, ◌+◌, ◌-◌, ◌%◌, ◌^◌, ◌<◌, some, List, [], ◌∷◌, map, ap, ◌∙◌, ◌≡◌, refl, arith,
}
use jericho_os.Task.Context.{TaskContext}
use jericho_os.Task.{initial_context}
use jericho_os.Scheduler.Assembly.{
  layout, rbp, rsp, rax, rbx, rcx, rdx, rsi, rdi, r8, r9, r10, r11, r12, r13, r14, r15, number,
  Machine, run, switch_context, write_word, read_word, set_register, push_value, pop_value, top,
  rest_of,
}

-- All registers but the stack pointer and rax.
abbrev pub preserved : List ℕ
preserved =
    map number
      (rbp ∷ rbx ∷ rcx ∷ rdx ∷ rsi ∷ rdi ∷ r8 ∷ r9 ∷ r10 ∷ r11 ∷ r12 ∷ r13 ∷ r14 ∷ r15 ∷ [])

pushed_popped : (x : ℕ) → x < 2 ^ 64 → ((x + (2 ^ 64 - 8)) % 2 ^ 64 + 8) % 2 ^ 64 ≡ x
pushed_popped x h = omega arith

-- The stack pointer after a push and a pop.
abbrev push_pop : ℕ → ℕ
push_pop x = ((x + (2 ^ 64 - 8)) % 2 ^ 64 + 8) % 2 ^ 64

push_pop_twice : (x : ℕ) → x < 2 ^ 64 → push_pop (push_pop x) ≡ x
push_pop_twice x h = ap push_pop (pushed_popped x h) ∙ pushed_popped x h

-- A call that starts with an empty list of pushed words.
abbrev pub called : (ℕ → ℕ) → ℕ → ℕ → List ℕ → List ℕ → Machine
called registers rflags label old new = record {
  registers = registers;
  rflags = rflags;
  label = label;
  stack = [];
  old_context = old;
  new_context = new;
}

-- A task that gave up the processor in `switch_context` and is then switched to, by whatever task, goes
-- on at the label, with its stack pointer, its flags and all other registers, but for rax, which holds
-- what was in rsi: the code restores rsi by way of rax, after it has restored rax.
pub switch_context_resumes :
    (ctx : TaskContext) (other old : List ℕ) (registers later : ℕ → ℕ) (rflags flags label : ℕ)
    → registers (number rsp) < 2 ^ 64
    → (saved : List ℕ) × (target : ℕ) × (m : Machine) × (m' : Machine) × (run switch_context
          (called registers rflags label (layout ctx) other)
        ≡ some (target, m))
      × (m.old_context ≡ saved)
      × (run switch_context (called later flags label old saved) ≡ some (label, m'))
      × (map m'.registers preserved ≡ map registers preserved)
      × (m'.registers (number rsp) ≡ registers (number rsp))
      × (m'.registers (number rax) ≡ registers (number rsi))
      × (m'.rflags ≡ rflags)
unfolding run layout set_register write_word read_word push_value pop_value top rest_of
switch_context_resumes ctx other old registers later rflags flags label h =
    (_, _, _, _, refl, refl, refl, refl, push_pop_twice (registers (number rsp)) h, refl, refl)

-- A switch to a new task, by whatever task, starts its wrapper, with the entry point in rdi, the stack
-- pointer at the end of its stack, and the interrupts enabled.
pub switch_context_starts :
    (wrapper entry_point stack rflags label : ℕ) (registers : ℕ → ℕ) (old : List ℕ)
    → stack + 65536 < 2 ^ 64
    → (m : Machine) × (run switch_context
          (called registers rflags label old (layout (initial_context wrapper entry_point stack)))
        ≡ some (wrapper, m))
      × (m.registers (number rdi) ≡ entry_point)
      × (m.registers (number rsp) ≡ stack + 65536)
      × (m.rflags ≡ 512)
unfolding run layout set_register write_word read_word push_value pop_value top rest_of
    initial_context
switch_context_starts wrapper entry_point stack rflags label registers old h =
    (_, refl, refl, push_pop_twice ((stack + 65536) % 2 ^ 64) (omega arith) ∙ omega arith, refl)
