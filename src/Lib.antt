-- ===== src/Lib.antt =====
-- JerichoOS, a capability-based microkernel (src/ of the repository): models of its core and proofs
-- about them.
--
-- The kernel runs tasks under a round-robin scheduler. A task holds capabilities in its own space
-- (CSpace): each names a resource and the rights to it. A task derives and revokes capabilities by
-- system calls, and sends and receives messages through endpoints, which check its capabilities,
-- block receivers in the scheduler and wake them.
--
-- Base, Base/*: shared helpers. Base/Assoc stands for Rust's BTreeMap.
-- Capability (src/capability.rs): Rights and Token hold `Rights` and `Capability`, Space `CSpace`.
--   Derivation, Fresh and Authority prove.
-- Syscall (src/syscall.rs): `SyscallContext::syscall` and the five calls; Encoding and Authority
--   prove.
-- Task (src/task.rs): Context holds `TaskContext`, Table `TaskList`.
-- Scheduler (src/scheduler.rs): the methods of `Scheduler`; Yield holds `task_yield`, Assembly
--   `switch_context`. Invariant, Blocking, Rounds, Reach and Resumption prove.
-- Ipc (src/ipc.rs): Message, Endpoint and Registry hold the structures, Ipc the calls. Checks,
--   Sending, Queues, History, Wakeup, Blocking and Lost prove.
-- Wasm (src/wasm_runtime.rs): Guest, Calls, Deliver and Load hold the contexts, the host functions,
--   `deliver_pending_messages` and `from_bytes`, Run what comes of code of a guest; Bounds, Publish,
--   Sending, Limits, Hosted, Taking, Rounds, Delivery, Endless and Isolation prove. Demo holds `demo_04_mqtt` of
--   src/demos/wasm_tests.rs, and DemoEnds proves.
-- Arm64 (src/arch/aarch64): Context holds `TaskContext` and `ExceptionFrame` (task.rs, exceptions.rs),
--   Scheduler and Switch the scheduler of scheduler.rs and `handle_irq` of exceptions.rs, Assembly
--   `switch_context` of task.rs, Gic and Timer the registers of gic.rs and timer.rs, Launch the end of
--   `kernel_main` of src/main_aarch64.rs; Search, Resume, Away, States, Choice, Sound, Reach and Ticks
--   prove.
-- Memory (src/memory.rs, src/allocator.rs): Frames holds `BootInfoFrameAllocator`, Heap `init_heap`;
--   Distinct and Mapped prove.
-- Interrupts (src/interrupts.rs): the timer handler and the interval timer, and in Locks the lock of
--   SCHEDULER (src/scheduler.rs) with ticks of the timer in between; Timer, Divisor, Exposed and
--   Deadlock prove.
-- Boot (src/main.rs): SelfTest holds `test_capability_system`, Launch `test_scheduler`, Exchange the
--   two tasks that send and receive, Measure the one that measures; Privileges, Turns, Progress and
--   Arrival prove.
-- PageTables (src/arch/aarch64/mmu.rs): the tables and registers of `init`; Walk is the translation
--   by the processor. Entries, Identity and Level prove.
-- Uart (src/arch/aarch64/uart.rs, and the printing helpers of src/main_aarch64.rs): Lines and
--   Hexadecimal prove.
-- Benchmarks (src/benchmark.rs, src/arch/aarch64/benchmark.rs): Averages and Conversions prove.
-- Examples: runs on small inputs, and the theorems applied there.
--
-- A method that changes `self` returns the new record, and with it its result, if it has one. A
-- static behind a Mutex is a value that is passed along. A u64 is a number; the counters wrap as in
-- a release build. `Option::unwrap` on `None` is a result of its own. What goes to the serial port is
-- left out. Vectors and queues are lists, oldest entry first; what `get_mut` returns a reference for
-- is a change of the entry that it finds. Loops over lists are recursions on them. The blocking
-- receive gives its locks back three times in a round; it is a recursion on the list of what the other
-- tasks do in these gaps, one entry for each round, and a list that is too short gives `none`.
-- The delivery to a guest is a recursion on fuel; one round more than the guest has messages is enough
-- when the guest adds none, and no fuel is enough for some guests. An i32 is the number of its bit pattern. The interpreter is a parameter: it finds and runs
-- functions of a guest, which may change the message queue, and reads and writes the memory. The start of a
-- guest and the functions that it runs need not return: a host function that they call may panic, and they
-- may loop for ever, so they have `halted` for a result, and so has what calls them. A panic
-- of a host function is a result of its own. The search loop of the ARM64 scheduler is a recursion on
-- fuel 8, one for each place of the array, and a theorem shows that this is enough; an index outside
-- the array is `none`. The memory map of the bootloader is a list of regions. The assembly of the two
-- context switches is a list of instructions, run by a machine with the registers and the words of the
-- two contexts.
--
-- The two tasks of Boot.Exchange take turns, and a turn is one round of a loop with its kernel call; the
-- list of turns is arbitrary, and each gives the scheduler that the task finds. The page table mapper of
-- the x86_64 crate is a record of operations, with its documented behaviour as a record of laws. Writes to
-- ports and device registers are lists, and what is read from a device is an argument. The translation
-- of addresses on ARM64 is the one that the architecture describes. A spin lock that is held is never
-- given back while the only processor waits for it, so waiting is a result of its own in Interrupts.Locks;
-- a tick may come between any two instructions there that stand for calls of the source.
-- The linker of the wasmi interpreter is a record of operations, with its documented behaviour as a record of
-- laws; parsing, instantiation and start are a record of operations without laws.
--
-- Not modelled: the wasmi interpreter, the boot code and the exception vectors, the handlers that
-- print and stop, the descriptor tables, the loops that the
-- benchmarks measure, and the other demonstrations. They are other people's code, access to the processor and
-- printing.
pub mod Base
pub mod Capability
pub mod Syscall
pub mod Task
pub mod Scheduler
pub mod Ipc
pub mod Wasm
pub mod Arm64
pub mod Memory
pub mod Interrupts
pub mod PageTables
pub mod Benchmarks
pub mod Uart
pub mod Boot
pub mod Examples
