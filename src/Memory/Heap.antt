-- ===== src/Memory/Heap.antt =====
-- `init_heap` of src/allocator.rs. The mapper is the x86_64 crate's: `map_to` writes a page table entry,
-- and may take frames for page tables from the allocator. A page is its first address, and so is a
-- frame. The heap is what the static ALLOCATOR is initialised with.
use jericho_os.Base.{ℕ, zero, suc, ◌+◌, ◌-◌, ◌*◌, ◌/◌, Option, none, some, List, [], ◌∷◌}
use jericho_os.Memory.Frames.{
  BootInfoFrameAllocator, allocate_frame, containing_address, frame_size,
}

abbrev pub heap_start : ℕ
heap_start = 0x444444440000

abbrev pub heap_size : ℕ
heap_size = 8 * 1024 * 1024

-- `MapToError`.
pub data MapToError : Type 0 where
  frame_allocation_failed parent_entry_huge_page page_already_mapped : MapToError

-- What `map_to` comes back with, with the tables and the allocator that it leaves.
pub data Mapping (S : Type 0) : Type 0 where
  mapped : S → BootInfoFrameAllocator → Mapping S
  refused : MapToError → S → BootInfoFrameAllocator → Mapping S

-- The page tables, as far as the kernel uses them: the flags are always those of a present and writable
-- page.
pub record Mapper : Type 1 where
  pub State : Type 0
  pub translate : State → ℕ → Option ℕ
  pub map_to : State → ℕ → ℕ → BootInfoFrameAllocator → Mapping State

-- `Page::range_inclusive(first, last)`.
unfoldable pub pages_from : ℕ → ℕ → List ℕ
pages_from page zero = []
pages_from page (suc n) = page ∷ pages_from (page + frame_size) n

abbrev pub range_inclusive : ℕ → ℕ → List ℕ
range_inclusive first last = pages_from first ((last + frame_size - first) / frame_size)

abbrev pub page_range : List ℕ
page_range =
    range_inclusive (containing_address heap_start)
      (containing_address (heap_start + heap_size - 1))

-- The result of `init_heap`, with the tables, the allocator, and start and size of the heap.
pub data HeapResult (S : Type 0) : Type 0 where
  initialised : S → BootInfoFrameAllocator → ℕ → ℕ → HeapResult S
  fails : MapToError → S → BootInfoFrameAllocator → HeapResult S

module _ (m : Mapper) where
  unfoldable pub map_pages : m.State → BootInfoFrameAllocator → List ℕ → HeapResult m.State
  unfolding allocate_frame
  map_pages s a [] = initialised s a heap_start heap_size
  map_pages s a (page ∷ pages) =
      let (a', allocated) = allocate_frame a in
      elim allocated [
        | none ↦ fails frame_allocation_failed s a'
        | some frame ↦ elim (m.map_to s page frame a') [
          | refused e s' a'' ↦ fails e s' a''
          | mapped s' a'' ↦ map_pages s' a'' pages
        ]
      ]

  unfoldable pub init_heap : m.State → BootInfoFrameAllocator → HeapResult m.State
  unfolding map_pages pages_from
  init_heap s a = map_pages s a page_range
