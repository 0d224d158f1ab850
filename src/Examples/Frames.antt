-- ===== src/Examples/Frames.antt =====
-- Allocation from a memory map with two usable regions.
use jericho_os.Base.{◌<◌, ◌≡◌, refl, true, false, some, List, [], ◌∷◌, arith}
use jericho_os.Memory.Frames.{MemoryRegion, BootInfoFrameAllocator, allocate_frame, usable_frames}
use jericho_os.Memory.Distinct.{IsUsable, after, allocate_frame_fresh}

abbrev regions : List MemoryRegion
regions =
    record { start = 4096; end = 8192; usable = true }
    ∷ record { start = 8192; end = 16384; usable = false }
    ∷ record { start = 16384; end = 20000; usable = true }
    ∷ []

abbrev allocator : BootInfoFrameAllocator
allocator = record { memory_map = regions; next = 0 }

gives_first : (allocate_frame allocator).1 ≡ some 4096
unfolding allocate_frame usable_frames
gives_first = refl

gives_second : (allocate_frame (after 1 allocator)).1 ≡ some 16384
unfolding allocate_frame usable_frames after
gives_second = refl

allocate_frame_fresh_example : (4096 < 16384) × IsUsable 4096 regions × IsUsable 16384 regions
allocate_frame_fresh_example =
    allocate_frame_fresh allocator 0 4096 16384
      (
        omega arith,
        refl,
        omega arith,
        (omega arith, refl, omega arith, (omega arith, refl, omega arith, tt)),
      )
      (omega arith) gives_first gives_second
