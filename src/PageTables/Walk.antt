-- ===== src/PageTables/Walk.antt =====
-- The translation of a virtual address by the processor, as the architecture describes it for a granule of
-- 4 KiB, over the tables of src/arch/aarch64/mmu.rs. A table is found by its address.
use jericho_os.Base.{ℕ, ◌+◌, ◌-◌, ◌*◌, ◌/◌, ◌%◌, ◌^◌, Bool, leb, ◌==◌, if◌then◌else◌}
use jericho_os.PageTables.{Places, Tables, Registers}

-- The physical address, with the index of the memory attributes.
pub data Translation : Type 0 where
  fault : Translation
  translated : ℕ → ℕ → Translation

-- A descriptor is valid if bit 0 is set; bit 1 tells a table, or at level 3 a page, from a block.
abbrev pub valid : ℕ → Bool
valid descriptor = descriptor % 2 == 1

abbrev pub points : ℕ → Bool
points descriptor = descriptor / 2 % 2 == 1

abbrev pub attr_index : ℕ → ℕ
attr_index descriptor = descriptor / 4 % 8

-- Bits 12 to 47 are the address of a table or a page, bits 21 to 47 that of a block at level 2.
abbrev pub table_address : ℕ → ℕ
table_address descriptor = descriptor % 2 ^ 48 / 2 ^ 12 * 2 ^ 12

abbrev pub block_address : ℕ → ℕ
block_address descriptor = descriptor % 2 ^ 48 / 2 ^ 21 * 2 ^ 21

-- The descriptor with this index, in the table at this address.
unfoldable pub descriptor_at : Places → Tables → ℕ → ℕ → ℕ
descriptor_at p t address index =
    if address == p.l0_table
    then t.l0 index
    else if address == p.l1_table
    then t.l1 index
    else if address == p.l2_table_0
    then t.l2_0 index
    else if address == p.l2_table_1
    then t.l2_1 index
    else 0

abbrev pub index_3 : ℕ → ℕ
index_3 va = va / 2 ^ 12 % 512

abbrev pub index_2 : ℕ → ℕ
index_2 va = va / 2 ^ 21 % 512

abbrev pub index_1 : ℕ → ℕ
index_1 va = va / 2 ^ 30 % 512

abbrev pub index_0 : ℕ → ℕ
index_0 va = va / 2 ^ 39 % 512

-- At each level, from the address of the table.
module _ (p : Places) (t : Tables) where
  unfoldable pub walk_3 : ℕ → ℕ → Translation
  unfolding descriptor_at
  walk_3 address va =
      let d = descriptor_at p t address (index_3 va) in
      if valid d
      then (if points d then translated (table_address d + va % 2 ^ 12) (attr_index d) else fault)
      else fault

  unfoldable pub walk_2 : ℕ → ℕ → Translation
  unfolding walk_3 descriptor_at
  walk_2 address va =
      let d = descriptor_at p t address (index_2 va) in
      if valid d
      then (if points d
          then walk_3 (table_address d) va
          else translated (block_address d + va % 2 ^ 21) (attr_index d))
      else fault

  unfoldable pub walk_1 : ℕ → ℕ → Translation
  unfolding walk_2 descriptor_at
  walk_1 address va =
      let d = descriptor_at p t address (index_1 va) in
      if valid d
      then (if points d
          then walk_2 (table_address d) va
          else translated (d % 2 ^ 48 / 2 ^ 30 * 2 ^ 30 + va % 2 ^ 30) (attr_index d))
      else fault

  unfoldable pub walk_0 : ℕ → ℕ → Translation
  unfolding walk_1 descriptor_at
  walk_0 address va =
      let d = descriptor_at p t address (index_0 va) in
      if valid d then (if points d then walk_1 (table_address d) va else fault) else fault

-- The first level, by the size of the addresses: T0SZ in the lowest six bits of TCR, from 16 to 33. Up
-- to 39 bits of address need three levels, and more need four. A larger address is a fault.
unfoldable pub translate : Places → Tables × Registers → ℕ → Translation
unfolding walk_0 walk_1
translate p (t, r) va =
    let t0sz = r.tcr % 64 in
    if leb (2 ^ (64 - t0sz)) va
    then fault
    else if 4 - (64 - t0sz - 12 + 8) / 9 == 0
    then walk_0 p t r.ttbr0 va
    else walk_1 p t r.ttbr0 va
