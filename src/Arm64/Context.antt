-- ===== src/Arm64/Context.antt =====
-- `TaskContext` of src/arch/aarch64/task.rs and `ExceptionFrame` of src/arch/aarch64/exceptions.rs, and
-- the copies between them in `scheduler_switch_task` of src/arch/aarch64/scheduler.rs.
use jericho_os.Base.{ℕ, ◌≡◌, refl}

pub record TaskContext : Type 0 where
  pub x0 : ℕ
  pub x1 : ℕ
  pub x2 : ℕ
  pub x3 : ℕ
  pub x4 : ℕ
  pub x5 : ℕ
  pub x6 : ℕ
  pub x7 : ℕ
  pub x8 : ℕ
  pub x9 : ℕ
  pub x10 : ℕ
  pub x11 : ℕ
  pub x12 : ℕ
  pub x13 : ℕ
  pub x14 : ℕ
  pub x15 : ℕ
  pub x16 : ℕ
  pub x17 : ℕ
  pub x18 : ℕ
  pub x19 : ℕ
  pub x20 : ℕ
  pub x21 : ℕ
  pub x22 : ℕ
  pub x23 : ℕ
  pub x24 : ℕ
  pub x25 : ℕ
  pub x26 : ℕ
  pub x27 : ℕ
  pub x28 : ℕ
  pub x29_fp : ℕ
  pub x30_lr : ℕ
  pub sp : ℕ
  pub pc : ℕ
  pub pstate : ℕ

pub record ExceptionFrame : Type 0 where
  pub x0 : ℕ
  pub x1 : ℕ
  pub x2 : ℕ
  pub x3 : ℕ
  pub x4 : ℕ
  pub x5 : ℕ
  pub x6 : ℕ
  pub x7 : ℕ
  pub x8 : ℕ
  pub x9 : ℕ
  pub x10 : ℕ
  pub x11 : ℕ
  pub x12 : ℕ
  pub x13 : ℕ
  pub x14 : ℕ
  pub x15 : ℕ
  pub x16 : ℕ
  pub x17 : ℕ
  pub x18 : ℕ
  pub x19 : ℕ
  pub x20 : ℕ
  pub x21 : ℕ
  pub x22 : ℕ
  pub x23 : ℕ
  pub x24 : ℕ
  pub x25 : ℕ
  pub x26 : ℕ
  pub x27 : ℕ
  pub x28 : ℕ
  pub x29 : ℕ
  pub x30_lr : ℕ
  pub sp_el0 : ℕ
  pub elr_el1 : ℕ
  pub spsr_el1 : ℕ

unfoldable pub new : TaskContext
new = record {
  x0 = 0;
  x1 = 0;
  x2 = 0;
  x3 = 0;
  x4 = 0;
  x5 = 0;
  x6 = 0;
  x7 = 0;
  x8 = 0;
  x9 = 0;
  x10 = 0;
  x11 = 0;
  x12 = 0;
  x13 = 0;
  x14 = 0;
  x15 = 0;
  x16 = 0;
  x17 = 0;
  x18 = 0;
  x19 = 0;
  x20 = 0;
  x21 = 0;
  x22 = 0;
  x23 = 0;
  x24 = 0;
  x25 = 0;
  x26 = 0;
  x27 = 0;
  x28 = 0;
  x29_fp = 0;
  x30_lr = 0;
  sp = 0;
  pc = 0;
  pstate = 0;
}

-- The context of a task that has not run: mode EL1h, with the interrupts unmasked.
unfoldable pub init : ℕ → ℕ → TaskContext
unfolding new
init entry_point stack_top = record new { pc = entry_point; sp = stack_top; pstate = 5 }

-- The interrupted registers, into the context; its stack pointer stays.
unfoldable pub save : TaskContext → ExceptionFrame → TaskContext
save ctx frame = record ctx {
  x0 = frame.x0;
  x1 = frame.x1;
  x2 = frame.x2;
  x3 = frame.x3;
  x4 = frame.x4;
  x5 = frame.x5;
  x6 = frame.x6;
  x7 = frame.x7;
  x8 = frame.x8;
  x9 = frame.x9;
  x10 = frame.x10;
  x11 = frame.x11;
  x12 = frame.x12;
  x13 = frame.x13;
  x14 = frame.x14;
  x15 = frame.x15;
  x16 = frame.x16;
  x17 = frame.x17;
  x18 = frame.x18;
  x19 = frame.x19;
  x20 = frame.x20;
  x21 = frame.x21;
  x22 = frame.x22;
  x23 = frame.x23;
  x24 = frame.x24;
  x25 = frame.x25;
  x26 = frame.x26;
  x27 = frame.x27;
  x28 = frame.x28;
  x29_fp = frame.x29;
  x30_lr = frame.x30_lr;
  pc = frame.elr_el1;
  pstate = frame.spsr_el1;
}

-- The frame from which the exception returns to the task.
unfoldable pub restore : TaskContext → ExceptionFrame
restore ctx = record {
  x0 = ctx.x0;
  x1 = ctx.x1;
  x2 = ctx.x2;
  x3 = ctx.x3;
  x4 = ctx.x4;
  x5 = ctx.x5;
  x6 = ctx.x6;
  x7 = ctx.x7;
  x8 = ctx.x8;
  x9 = ctx.x9;
  x10 = ctx.x10;
  x11 = ctx.x11;
  x12 = ctx.x12;
  x13 = ctx.x13;
  x14 = ctx.x14;
  x15 = ctx.x15;
  x16 = ctx.x16;
  x17 = ctx.x17;
  x18 = ctx.x18;
  x19 = ctx.x19;
  x20 = ctx.x20;
  x21 = ctx.x21;
  x22 = ctx.x22;
  x23 = ctx.x23;
  x24 = ctx.x24;
  x25 = ctx.x25;
  x26 = ctx.x26;
  x27 = ctx.x27;
  x28 = ctx.x28;
  x29 = ctx.x29_fp;
  x30_lr = ctx.x30_lr;
  sp_el0 = ctx.sp;
  elr_el1 = ctx.pc;
  spsr_el1 = ctx.pstate;
}

-- What is saved is restored, but for the stack pointer, which is the one of the context.
pub restore-save :
    (ctx : TaskContext) (frame : ExceptionFrame)
    → restore (save ctx frame) ≡ record frame { sp_el0 = ctx.sp }
unfolding restore save
restore-save ctx frame = refl
