-- ===== src/Arm64.antt =====
-- The ARM64 port: src/arch/aarch64/. `Context` holds the registers, `Scheduler` the tasks and the
-- search for the next one, `Switch` the switches, `Assembly` the switch in assembly, `Gic` the
-- interrupt controller, `Timer` the timer, `Launch` the start of the first task; the others prove.
pub mod Context
pub mod Scheduler
pub mod Switch
pub mod Search
pub mod Resume
pub mod Away
pub mod States
pub mod Choice
pub mod Sound
pub mod Reach
pub mod Assembly
pub mod Ticks
pub mod Gic
pub mod Timer
pub mod Launch
