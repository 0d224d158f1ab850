-- ===== src/Memory/Frames.antt =====
-- `BootInfoFrameAllocator` of src/memory.rs. The memory map is the bootloader's: a list of regions, each
-- usable or not. A frame is its first address.
use jericho_os.Base.{
  ℕ, zero, suc, ◌+◌, ◌-◌, ◌*◌, ◌/◌, ◌%◌, ◌^◌, Bool, Option, List, [], ◌∷◌, ◌++◌, get_elem?,
  if◌then◌else◌,
}

abbrev pub frame_size : ℕ
frame_size = 4096

pub record MemoryRegion : Type 0 where
  pub start : ℕ
  pub end : ℕ
  pub usable : Bool

pub record BootInfoFrameAllocator : Type 0 where
  pub memory_map : List MemoryRegion
  pub next : ℕ

unfoldable pub init : List MemoryRegion → BootInfoFrameAllocator
init memory_map = record { memory_map = memory_map; next = 0 }

-- `PhysFrame::containing_address`.
abbrev pub containing_address : ℕ → ℕ
containing_address address = address / frame_size * frame_size

-- How many steps of 4096 there are from `start` to below `end`.
abbrev pub steps : ℕ → ℕ → ℕ
steps start end = (end - start + (frame_size - 1)) / frame_size

-- The frames of `step_by(4096)`, from an address on.
unfoldable pub frames_from : ℕ → ℕ → List ℕ
frames_from address zero = []
frames_from address (suc n) = containing_address address ∷ frames_from (address + frame_size) n

unfoldable pub usable_frames : List MemoryRegion → List ℕ
unfolding frames_from
usable_frames [] = []
usable_frames (r ∷ regions) =
    let rest = usable_frames regions in
    if r.usable then frames_from r.start (steps r.start r.end) ++ rest else rest

unfoldable pub allocate_frame : BootInfoFrameAllocator → BootInfoFrameAllocator × Option ℕ
unfolding usable_frames
allocate_frame a =
    (record a { next = (a.next + 1) % 2 ^ 64 }, get_elem? (usable_frames a.memory_map) a.next)

-- The frame is not used again.
unfoldable pub deallocate_frame : BootInfoFrameAllocator → ℕ → BootInfoFrameAllocator
deallocate_frame a frame = a
