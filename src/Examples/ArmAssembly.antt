-- ===== src/Examples/ArmAssembly.antt =====
-- The context switch of the ARM64 port in assembly, on concrete registers.
use jericho_os.Base.{ℕ, ◌+◌, ◌≡◌, some, List, [], map}
use jericho_os.Arm64.Context.{init}
use jericho_os.Arm64.Assembly.{
  Machine, run, switch_context, layout, callee_saved, sp, switch_context_returns,
  switch_context_lost,
}

abbrev machine : Machine
machine = record { registers = λ r. 200 + r; spsr_el1 = 5; label = 7777; current = []; next = [] }

abbrev registers : ℕ → ℕ
registers r = 100 + r

switch_context_returns_example :
    (saved : List ℕ) × (target : ℕ) × (m : Machine) × (m' : Machine) × (run switch_context (record {
      registers = registers;
      spsr_el1 = 5;
      label = 7777;
      current = layout (init 4096 16384);
      next = [];
    })
      ≡ some (target, m))
    × (m.current ≡ saved)
    × (run switch_context (record machine { next = saved }) ≡ some (7777, m'))
    × (map m'.registers callee_saved ≡ map registers callee_saved)
switch_context_returns_example =
    switch_context_returns (init 4096 16384) [] registers 5 7777 machine

switch_context_lost_example :
    (m : Machine) × (run switch_context (record machine { next = layout (init 4096 16384) })
      ≡ some (0, m))
    × (m.registers sp ≡ 0)
switch_context_lost_example = switch_context_lost 4096 16384 machine
