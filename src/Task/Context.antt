-- ===== src/Task/Context.antt =====
-- `TaskContext` of src/task.rs: the saved registers of an x86-64 task, each a u64.
use jericho_os.Base.{ℕ}

pub record TaskContext : Type 0 where
  pub rsp : ℕ
  pub rbp : ℕ
  pub rax : ℕ
  pub rbx : ℕ
  pub rcx : ℕ
  pub rdx : ℕ
  pub rsi : ℕ
  pub rdi : ℕ
  pub r8 : ℕ
  pub r9 : ℕ
  pub r10 : ℕ
  pub r11 : ℕ
  pub r12 : ℕ
  pub r13 : ℕ
  pub r14 : ℕ
  pub r15 : ℕ
  pub rflags : ℕ
  pub rip : ℕ

-- All zero, with the interrupt enable flag.
unfoldable pub new : TaskContext
new = record {
  rsp = 0;
  rbp = 0;
  rax = 0;
  rbx = 0;
  rcx = 0;
  rdx = 0;
  rsi = 0;
  rdi = 0;
  r8 = 0;
  r9 = 0;
  r10 = 0;
  r11 = 0;
  r12 = 0;
  r13 = 0;
  r14 = 0;
  r15 = 0;
  rflags = 0x200;
  rip = 0;
}
