-- ===== src/PageTables/Level.antt =====
-- What the processor makes of the tables with the TCR that `init` of src/arch/aarch64/mmu.rs writes.
use jericho_os.Base.{
  ℕ, ◌%◌, ◌^◌, ◌<◌, ◌≡◌, ◌∙◌, leb, refl, true, false, arith, bit_or, bit_or_odd, bit_and_one,
}
use jericho_os.PageTables.{Places, Tables, Registers, fill, init_tables, init, is_enabled}
use jericho_os.PageTables.Walk.{
  fault, index_1, index_2, index_3, walk_0, walk_1, walk_2, walk_3, translate,
}
use jericho_os.PageTables.Entries.{
  IsPlaces, l2_0_entry-IsBlock, l2_1_entry-IsBlock, table_entry-points, at-l0_table, at-l1_table,
  at-l2_table_0, at-l2_table_1,
}
use jericho_os.PageTables.Identity.{intended, l0_maps}

translate_wide :
    (p : Places) (t : Tables) (r : Registers) (va : ℕ)
    → r.tcr % 64 ≡ 16
    → va < 2 ^ 48
    → translate p (t, r) va ≡ walk_0 p t r.ttbr0 va
unfolding translate
translate_wide p t r va h small =
    let inside : leb (2 ^ 48) va ≡ false = ground arith in rw (translate, h, inside) refl

module _ (p : Places) (good : IsPlaces p) where
  -- A block at level 3 is no valid descriptor.
  l2_0_faults : (va : ℕ) → walk_3 p (init_tables p) p.l2_table_0 va ≡ fault
  unfolding walk_3 init_tables fill
  l2_0_faults va =
      ground
        (arith, at-l2_table_0 p good (init_tables p) (index_3 va), l2_0_entry-IsBlock (index_3 va))

  l2_1_faults : (va : ℕ) → walk_3 p (init_tables p) p.l2_table_1 va ≡ fault
  unfolding walk_3 init_tables fill
  l2_1_faults va =
      ground
        (arith, at-l2_table_1 p good (init_tables p) (index_3 va), l2_1_entry-IsBlock (index_3 va))

  l1_faults : (va : ℕ) → walk_2 p (init_tables p) p.l1_table va ≡ fault
  unfolding walk_2 init_tables
  l1_faults va = ground (
    arith,
    at-l1_table p good (init_tables p) (index_2 va),
    table_entry-points p.l2_table_0 good.aligned.2 good.below.2,
    table_entry-points p.l2_table_1 good.aligned.3 good.below.3,
    l2_0_faults va,
    l2_1_faults va,
  )

  l0_faults : (va : ℕ) → walk_1 p (init_tables p) p.l0_table va ≡ fault
  unfolding walk_1 init_tables
  l0_faults va = ground (
    arith,
    at-l0_table p good (init_tables p) (index_1 va),
    table_entry-points p.l1_table good.aligned.1 good.below.1,
    l1_faults va,
  )

  init_faults : (r : Registers) (va : ℕ) → translate p (init p r) va ≡ fault
  unfolding translate init
  init_faults r va = ground (arith, l0_faults va)

  -- The MMU that `init` turns on translates no address: T0SZ is 25, so that the processor begins at level
  -- 1 with the table that is written for level 0, takes the blocks for level 2 as
  -- descriptors of level 3, where they are invalid, and every access is a fault. With a T0SZ of 16, and
  -- so a first level of 0, the same tables would map each address of the 256 MiB from 0 and of the 384 MiB from
  -- 0x40000000 to itself, those from 0x08000000 to 0x0FFFFFFF as device memory, and no others.
  pub init-translate :
      (r : Registers) (va wide : ℕ)
      → va < 2 ^ 48
      → wide % 64 ≡ 16
      → (is_enabled (init p r).1 ≡ true)
        × (translate p (init p r) va ≡ fault)
        × (translate p ((init p r).0, record (init p r).1 { tcr = wide }) va ≡ intended va)
  unfolding translate init is_enabled
  init-translate r va wide small h = (
    ground (arith, bit_or_odd r.sctlr, bit_and_one (bit_or r.sctlr 1)),
    init_faults r va,
    translate_wide p (init_tables p) (record (init p r).1 { tcr = wide }) va h small
        ∙ l0_maps p good va small,
  )
