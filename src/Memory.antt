-- ===== src/Memory.antt =====
-- memory.rs: the frames that the memory map of the bootloader offers, and their allocation, and
-- allocator.rs: the mapping of the heap. `Frames` and `Heap` hold the code, `Distinct` and `Mapped`
-- prove.
pub mod Frames
pub mod Distinct
pub mod Heap
pub mod Mapped
