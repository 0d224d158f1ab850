-- ===== src/PageTables/Entries.antt =====
-- The descriptors of src/arch/aarch64/mmu.rs, as the processor reads them.
use jericho_os.Base.{
  ℕ, ◌+◌, ◌*◌, ◌/◌, ◌%◌, ◌^◌, ◌≤◌, ◌<◌, ◌≡◌, ◌≢◌, refl, Bool, true, false, not, ◌&&◌, ◌==◌,
  if◌then◌else◌, passes_below, passes_below-lt, bit_or_page, bit_or_one, arith,
}
use jericho_os.PageTables.{
  Places, Tables, block_size_2mb, attr_of, table_entry, l2_0_entry, l2_1_entry, fill, init_tables,
}
use jericho_os.PageTables.Walk.{
  valid, points, attr_index, table_address, block_address, descriptor_at,
}

-- What the linker gives: four tables, each at the start of a page, within 48 bits.
pub record IsPlaces (p : Places) : Type 0 where
  pub aligned :
      (p.l0_table % 4096 ≡ 0)
      × (p.l1_table % 4096 ≡ 0)
      × (p.l2_table_0 % 4096 ≡ 0)
      × (p.l2_table_1 % 4096 ≡ 0)
  pub below :
      (p.l0_table < 2 ^ 48)
      × (p.l1_table < 2 ^ 48)
      × (p.l2_table_0 < 2 ^ 48)
      × (p.l2_table_1 < 2 ^ 48)
  pub apart :
      (p.l0_table ≢ p.l1_table)
      × (p.l0_table ≢ p.l2_table_0)
      × (p.l0_table ≢ p.l2_table_1)
      × (p.l1_table ≢ p.l2_table_0)
      × (p.l1_table ≢ p.l2_table_1)
      × (p.l2_table_0 ≢ p.l2_table_1)

-- A descriptor of a block at `address` with these attributes.
abbrev pub IsBlock : ℕ → ℕ → ℕ → Type 0
IsBlock d address attr =
    (valid d ≡ true) × (points d ≡ false) × (block_address d ≡ address) × (attr_index d ≡ attr)

abbrev block? : ℕ → ℕ → ℕ → Bool
block? d address attr =
    valid d && not (points d) && block_address d == address && attr_index d == attr

block?-IsBlock : (d address attr : ℕ) → block? d address attr ≡ true → IsBlock d address attr
block?-IsBlock d address attr h = ground arith

abbrev pub device_index : ℕ → ℕ
device_index address = attr_of address / 4

l2_0_table :
    passes_below
      (λ i. block? (l2_0_entry i) (i * block_size_2mb) (device_index (i * block_size_2mb)))
      128
    ≡ true
unfolding passes_below l2_0_entry
l2_0_table = refl

l2_1_table :
    passes_below (λ i. block? (l2_1_entry i) (0x40000000 + i * block_size_2mb) 0) 192 ≡ true
unfolding passes_below l2_1_entry
l2_1_table = refl

pub l2_0_entry-IsBlock :
    (i : ℕ)
    → i < 128
    → IsBlock (l2_0_entry i) (i * block_size_2mb) (device_index (i * block_size_2mb))
l2_0_entry-IsBlock i h = block?-IsBlock _ _ _ (passes_below-lt _ 128 l2_0_table i h)

pub l2_1_entry-IsBlock :
    (i : ℕ) → i < 192 → IsBlock (l2_1_entry i) (0x40000000 + i * block_size_2mb) 0
l2_1_entry-IsBlock i h = block?-IsBlock _ _ _ (passes_below-lt _ 192 l2_1_table i h)

pub table_entry-points :
    (address : ℕ)
    → address % 4096 ≡ 0
    → address < 2 ^ 48
    → (valid (table_entry address) ≡ true)
      × (points (table_entry address) ≡ true)
      × (table_address (table_entry address) ≡ address)
table_entry-points address aligned below =
    let value = bit_or_one_of address aligned in
    (ground (arith, value), ground (arith, value), omega (arith, value))
  where
    bit_or_one_of : (a : ℕ) → a % 4096 ≡ 0 → table_entry a ≡ a + 3
    bit_or_one_of a h =
        rw (bit_or_page a 2 h (omega arith), bit_or_one (a + 2) (omega arith)) (omega arith)

-- Each table is found at its address.
module _ (p : Places) (good : IsPlaces p) (t : Tables) (i : ℕ) where
  pub at-l0_table : descriptor_at p t p.l0_table i ≡ t.l0 i
  unfolding descriptor_at
  at-l0_table = ground arith

  pub at-l1_table : descriptor_at p t p.l1_table i ≡ t.l1 i
  unfolding descriptor_at
  at-l1_table = ground (arith, good.apart)

  pub at-l2_table_0 : descriptor_at p t p.l2_table_0 i ≡ t.l2_0 i
  unfolding descriptor_at
  at-l2_table_0 = ground (arith, good.apart)

  pub at-l2_table_1 : descriptor_at p t p.l2_table_1 i ≡ t.l2_1 i
  unfolding descriptor_at
  at-l2_table_1 = ground (arith, good.apart)

-- The entries that are written, and the others.
module _ (p : Places) (i : ℕ) where
  pub l2_0-filled : i < 128 → (init_tables p).l2_0 i ≡ l2_0_entry i
  unfolding init_tables fill
  l2_0-filled h = ground arith

  pub l2_0-empty : 128 ≤ i → (init_tables p).l2_0 i ≡ 0
  unfolding init_tables fill
  l2_0-empty h = ground arith

  pub l2_1-filled : i < 192 → (init_tables p).l2_1 i ≡ l2_1_entry i
  unfolding init_tables fill
  l2_1-filled h = ground arith

  pub l2_1-empty : 192 ≤ i → (init_tables p).l2_1 i ≡ 0
  unfolding init_tables fill
  l2_1-empty h = ground arith

  pub l1-entries : (init_tables p).l1 i ≡ (
      if i == 1 then table_entry p.l2_table_1 else if i == 0 then table_entry p.l2_table_0 else 0)
  unfolding init_tables
  l1-entries = refl

  pub l0-entries : (init_tables p).l0 i ≡ (if i == 0 then table_entry p.l1_table else 0)
  unfolding init_tables
  l0-entries = refl
