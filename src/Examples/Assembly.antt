-- ===== src/Examples/Assembly.antt =====
-- The two context switches in assembly, on concrete registers.
use jericho_os.Base.{ℕ, ◌+◌, ◌≡◌, some, List, [], map, arith}
use jericho_os.Task.{initial_context}
use jericho_os.Scheduler.Assembly.{rsp, rax, rdi, rsi, number}
use jericho_os.Scheduler.Assembly
use jericho_os.Scheduler.Resumption.{
  preserved, called, switch_context_resumes, switch_context_starts,
}

-- Register `r` holds 100 + r.
abbrev first_registers : ℕ → ℕ
first_registers r = 100 + r

abbrev later_registers : ℕ → ℕ
later_registers r = 200 + r

switch_context_resumes_example :
    (saved : List ℕ) × (target : ℕ) × (m : Assembly.Machine) × (m' : Assembly.Machine)
    × (Assembly.run Assembly.switch_context (
          called first_registers 512 7777
            (Assembly.layout (initial_context 4096 8192 65536))
            (Assembly.layout (initial_context 4096 12288 131072)))
        ≡ some (target, m))
    × (m.old_context ≡ saved)
    × (Assembly.run Assembly.switch_context (called later_registers 0 7777 [] saved)
        ≡ some (7777, m'))
    × (map m'.registers preserved ≡ map first_registers preserved)
    × (m'.registers (number rsp) ≡ first_registers (number rsp))
    × (m'.registers (number rax) ≡ first_registers (number rsi))
    × (m'.rflags ≡ 512)
switch_context_resumes_example =
    switch_context_resumes (initial_context 4096 8192 65536)
      (Assembly.layout (initial_context 4096 12288 131072)) [] first_registers later_registers 512 0
      7777 (omega arith)

switch_context_starts_example :
    (m : Assembly.Machine) × (Assembly.run Assembly.switch_context
        (called first_registers 0 7777 [] (Assembly.layout (initial_context 4096 8192 65536)))
      ≡ some (4096, m))
    × (m.registers (number rdi) ≡ 8192)
    × (m.registers (number rsp) ≡ 65536 + 65536)
    × (m.rflags ≡ 512)
switch_context_starts_example =
    switch_context_starts 4096 8192 65536 0 7777 first_registers [] (omega arith)
