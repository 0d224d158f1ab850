-- ===== src/Examples/Machines.antt =====
-- The timer of interrupts.rs, the heap of allocator.rs, the page tables of mmu.rs,
-- and the devices of the ARM64 port.
use jericho_os.Base.{
  ℕ, zero, suc, ◌+◌, ◌*◌, ◌<◌, ◌≡◌, ◌≢◌, refl, ap, ◌∙◌, Option, true, some, none, [], ◌∷◌, length,
  append-nil, ◌==◌, if◌then◌else◌, arith, subst,
}
use mathlib.Core.Option.{some-injective}
use jericho_os.Scheduler.Invariant.{IsValid}
use jericho_os.Interrupts.{Cpu, timer_interrupt_handler, init_timer}
use jericho_os.Interrupts.Timer.{HandlerEnds, timer_interrupt_handler-HandlerEnds}
use jericho_os.Interrupts.Divisor.{Sets, init_timer-Sets}
use jericho_os.Memory.Frames.{BootInfoFrameAllocator, usable_frames, frames_from, frame_size}
use jericho_os.Memory.Distinct.{IsUsable, after}
use jericho_os.Memory.Heap.{Mapper, mapped, init_heap, initialised, heap_start, heap_size}
use jericho_os.Memory.Mapped.{IsMapper, init_heap-IsHeap}
use jericho_os.PageTables.{Places, Registers, init, is_enabled}
use jericho_os.PageTables.Walk.{translate, fault}
use jericho_os.PageTables.Entries.{IsPlaces}
use jericho_os.PageTables.Identity.{intended}
use jericho_os.PageTables.Level.{init-translate}
use jericho_os.Arm64.Gic.{last_write, initialised as registers_after, init_registers}
use jericho_os.Arm64.Gic
use jericho_os.Examples.Tasks.{first_runs, first_runs-IsValid}

-- The first task runs, and the timer has ticked before.
abbrev cpu : Cpu
cpu = record {
  machine = record { interrupts = true; scheduler = some first_runs };
  timer_ticks = 1;
  ended = 32 ∷ [];
  writes = [];
}

timer_interrupt_handler-HandlerEnds_example : HandlerEnds cpu (timer_interrupt_handler cpu)
timer_interrupt_handler-HandlerEnds_example =
    timer_interrupt_handler-HandlerEnds cpu
      (λ s e. subst IsValid (some-injective first_runs s e) first_runs-IsValid)

init_timer-Sets_example : Sets 100 cpu (init_timer 100 cpu)
init_timer-Sets_example = init_timer-Sets 100 cpu

-- A mapper that writes down where each page is mapped, and needs no page tables.
abbrev simple : Mapper
simple = record {
  State = ℕ → Option ℕ;
  translate = λ s. s;
  map_to = λ s page frame a. mapped (λ q. if page == q then some frame else s q) a;
}

simple-IsMapper : IsMapper simple
unfolding after
simple-IsMapper = record {
  maps = λ s page frame a free left.
      ((λ q. if page == q then some frame else s q), 0, omega arith, refl, λ q. refl);
}

-- 64 MiB from 1 MiB on.
abbrev allocator : BootInfoFrameAllocator
allocator = record {
  memory_map = record { start = 0x100000; end = 0x100000 + 16384 * 4096; usable = true } ∷ [];
  next = 0;
}

length-frames_from : (n address : ℕ) → length (frames_from address n) ≡ n
unfolding frames_from
length-frames_from zero address = refl
length-frames_from (suc n) address = omega (arith, length-frames_from n (address + frame_size))

many_frames : length (usable_frames allocator.memory_map) ≡ 16384
unfolding usable_frames
many_frames =
    ap length (append-nil (frames_from 0x100000 16384)) ∙ length-frames_from 16384 0x100000

init_heap-IsHeap_example :
    (s' : simple.State) × (a' : BootInfoFrameAllocator) × (init_heap simple (λ q. none) allocator
      ≡ initialised s' a' heap_start heap_size)
    × ((i : ℕ)
        → i < 2048
        → (frame : ℕ) × (s' (heap_start + frame_size * i) ≡ some frame)
          × IsUsable frame allocator.memory_map)
    × ((i j f g : ℕ)
        → i < j
        → j < 2048
        → s' (heap_start + frame_size * i) ≡ some f
        → s' (heap_start + frame_size * j) ≡ some g
        → f < g)
    × ((q : ℕ) → ((i : ℕ) → i < 2048 → q ≢ heap_start + frame_size * i) → s' q ≡ none)
init_heap-IsHeap_example =
    init_heap-IsHeap simple simple-IsMapper (λ q. none) allocator
      (omega arith, refl, omega arith, tt) (λ page h h'. refl) (omega (arith, many_frames))
      (omega (arith, many_frames))

-- Four tables after one another, and an address of the UART.
abbrev tables : Places
tables = record {
  l0_table = 0x40100000;
  l1_table = 0x40101000;
  l2_table_0 = 0x40102000;
  l2_table_1 = 0x40103000;
}

tables-IsPlaces : IsPlaces tables
tables-IsPlaces = record {
  aligned = (refl, refl, refl, refl);
  below = (omega arith, omega arith, omega arith, omega arith);
  apart = (omega arith, omega arith, omega arith, omega arith, omega arith, omega arith);
}

abbrev registers : Registers
registers = record { mair = 0; tcr = 0; ttbr0 = 0; sctlr = 0 }

init-translate_example :
    (is_enabled (init tables registers).1 ≡ true)
    × (translate tables (init tables registers) 0x09000000 ≡ fault)
    × (translate tables
          ((init tables registers).0, record (init tables registers).1 { tcr = 16 })
          0x09000000
        ≡ intended 0x09000000)
init-translate_example =
    init-translate tables tables-IsPlaces registers 0x09000000 16 (omega arith) refl

-- Nine lines of 32 interrupts, and the enable register of the last.
init_registers_example : last_write (Gic.init 8) 0x08000120 ≡ registers_after 9 0x08000120
init_registers_example = init_registers 8 0x08000120
