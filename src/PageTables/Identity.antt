-- ===== src/PageTables/Identity.antt =====
-- What the tables of src/arch/aarch64/mmu.rs map, when the processor begins at the level 0 that they are
-- written for.
use jericho_os.Base.{
  ℕ, ◌+◌, ◌*◌, ◌/◌, ◌%◌, ◌^◌, ◌≤◌, ◌<◌, ◌≡◌, ◌∙◌, ap, sym, ◌⊎◌, true, ltb, leb, ◌&&◌, if◌then◌else◌,
  Bool-cases, inl, inr, arith,
}
use jericho_os.PageTables.{Places, Tables, block_size_2mb, table_entry, init_tables}
use jericho_os.PageTables.Walk.{
  Translation, fault, translated, valid, points, table_address, descriptor_at, index_0, index_1,
  index_2, walk_0, walk_1, walk_2,
}
use jericho_os.PageTables.Entries.{
  IsPlaces, IsBlock, device_index, l2_0_entry-IsBlock, l2_1_entry-IsBlock, table_entry-points,
  at-l0_table, at-l1_table, at-l2_table_0, at-l2_table_1, l2_0-filled, l2_0-empty, l2_1-filled,
  l2_1-empty, l1-entries, l0-entries,
}

-- The mapping that is meant: device memory has attribute 1, other memory 0.
abbrev pub intended : ℕ → Translation
intended va =
    if ltb va 0x10000000
    then translated va (if leb 0x08000000 va then 1 else 0)
    else if leb 0x40000000 va && ltb va 0x58000000
    then translated va 0
    else fault

-- One step of the walk, by the descriptor that it finds.
module _ (p : Places) (t : Tables) (address va d : ℕ) where
  walk_2_block :
      (base attr : ℕ)
      → descriptor_at p t address (index_2 va) ≡ d
      → IsBlock d base attr
      → walk_2 p t address va ≡ translated (base + va % 2 ^ 21) attr
  unfolding walk_2
  walk_2_block base attr e b = ground (arith, b)

  walk_2_none : descriptor_at p t address (index_2 va) ≡ 0 → walk_2 p t address va ≡ fault
  unfolding walk_2
  walk_2_none e = ground arith

  walk_1_table :
      descriptor_at p t address (index_1 va) ≡ d
      → valid d ≡ true
      → points d ≡ true
      → walk_1 p t address va ≡ walk_2 p t (table_address d) va
  unfolding walk_1
  walk_1_table e v h = ground arith

  walk_1_none : descriptor_at p t address (index_1 va) ≡ 0 → walk_1 p t address va ≡ fault
  unfolding walk_1
  walk_1_none e = ground arith

  walk_0_table :
      descriptor_at p t address (index_0 va) ≡ d
      → valid d ≡ true
      → points d ≡ true
      → walk_0 p t address va ≡ walk_1 p t (table_address d) va
  unfolding walk_0
  walk_0_table e v h = ground arith

  walk_0_none : descriptor_at p t address (index_0 va) ≡ 0 → walk_0 p t address va ≡ fault
  unfolding walk_0
  walk_0_none e = ground arith

-- The attribute of a block is that of all its addresses.
device_index_lem :
    (va i : ℕ)
    → i ≡ va / 2 ^ 21
    → va < 0x10000000
    → device_index (i * block_size_2mb) ≡ (if leb 0x08000000 va then 1 else 0)
device_index_lem va i e small = ground arith

intended_low :
    (va : ℕ) → va < 0x10000000 → intended va ≡ translated va (if leb 0x08000000 va then 1 else 0)
intended_low va small = ground arith

intended_high : (va : ℕ) → 0x40000000 ≤ va → va < 0x58000000 → intended va ≡ translated va 0
intended_high va large small = ground arith

intended_fault :
    (va : ℕ) → 0x10000000 ≤ va → ((va < 0x40000000) ⊎ (0x58000000 ≤ va)) → intended va ≡ fault
intended_fault va h (inl small) = ground arith
intended_fault va h (inr large) = ground arith

module _ (p : Places) (good : IsPlaces p) where
  abbrev t : Tables
  t = init_tables p

  l2_0_maps : (va : ℕ) → va < 2 ^ 30 → walk_2 p t p.l2_table_0 va ≡ intended va
  l2_0_maps va small = elim (Bool-cases (ltb va 0x10000000)) [
    | inl low ↦
        let below : va < 0x10000000 = ground arith in
        let i : index_2 va < 128 = omega arith in
        let found = at-l2_table_0 p good t (index_2 va) ∙ l2_0-filled p (index_2 va) i in
        let same : index_2 va * block_size_2mb + va % 2 ^ 21 ≡ va = omega arith in
        walk_2_block p t p.l2_table_0 va _ _ _ found (l2_0_entry-IsBlock (index_2 va) i)
        ∙ ap (λ a. translated a (device_index (index_2 va * block_size_2mb))) same
        ∙ ap (translated va) (device_index_lem va (index_2 va) (omega arith) below)
        ∙ sym (intended_low va below)
    | inr high ↦
        let i : 128 ≤ index_2 va = ground arith in
        let found = at-l2_table_0 p good t (index_2 va) ∙ l2_0-empty p (index_2 va) i in
        walk_2_none p t p.l2_table_0 va 0 found ∙ sym (intended_fault va (ground arith) (inl small))
  ]

  l2_1_maps : (va : ℕ) → 2 ^ 30 ≤ va → va < 2 ^ 31 → walk_2 p t p.l2_table_1 va ≡ intended va
  l2_1_maps va large small = elim (Bool-cases (ltb va 0x58000000)) [
    | inl low ↦
        let below : va < 0x58000000 = ground arith in
        let i : index_2 va < 192 = omega arith in
        let found = at-l2_table_1 p good t (index_2 va) ∙ l2_1-filled p (index_2 va) i in
        let same : 0x40000000 + index_2 va * block_size_2mb + va % 2 ^ 21 ≡ va = omega arith in
        walk_2_block p t p.l2_table_1 va _ _ _ found (l2_1_entry-IsBlock (index_2 va) i)
        ∙ ap (λ a. translated a 0) same
        ∙ sym (intended_high va large below)
    | inr high ↦
        let above : 0x58000000 ≤ va = ground arith in
        let i : 192 ≤ index_2 va = omega arith in
        let found = at-l2_table_1 p good t (index_2 va) ∙ l2_1-empty p (index_2 va) i in
        walk_2_none p t p.l2_table_1 va 0 found ∙ sym (intended_fault va (omega arith) (inr above))
  ]

  l1_maps : (va : ℕ) → va < 2 ^ 39 → walk_1 p t p.l1_table va ≡ intended va
  l1_maps va small =
      let found = at-l1_table p good t (index_1 va) ∙ l1-entries p (index_1 va) in
      elim (Bool-cases (ltb va (2 ^ 30))) [
        | inl first ↦
            let points_to = table_entry-points p.l2_table_0 good.aligned.2 good.below.2 in
            walk_1_table p t p.l1_table va (table_entry p.l2_table_0) (found ∙ ground arith)
              points_to.0 points_to.1
            ∙ ap (λ a. walk_2 p t a va) points_to.2
            ∙ l2_0_maps va (ground arith)
        | inr later ↦ elim (Bool-cases (ltb va (2 ^ 31))) [
          | inl second ↦
              let points_to = table_entry-points p.l2_table_1 good.aligned.3 good.below.3 in
              walk_1_table p t p.l1_table va (table_entry p.l2_table_1) (found ∙ ground arith)
                points_to.0 points_to.1
              ∙ ap (λ a. walk_2 p t a va) points_to.2
              ∙ l2_1_maps va (ground arith) (ground arith)
          | inr beyond ↦
              let above : 2 ^ 31 ≤ va = ground arith in
              walk_1_none p t p.l1_table va 0 (found ∙ ground arith)
              ∙ sym (intended_fault va (omega arith) (inr (omega arith)))
        ]
      ]

  pub l0_maps : (va : ℕ) → va < 2 ^ 48 → walk_0 p t p.l0_table va ≡ intended va
  l0_maps va small =
      let found = at-l0_table p good t (index_0 va) ∙ l0-entries p (index_0 va) in
      elim (Bool-cases (ltb va (2 ^ 39))) [
        | inl first ↦
            let points_to = table_entry-points p.l1_table good.aligned.1 good.below.1 in
            walk_0_table p t p.l0_table va (table_entry p.l1_table) (found ∙ ground arith)
              points_to.0 points_to.1
            ∙ ap (λ a. walk_1 p t a va) points_to.2
            ∙ l1_maps va (ground arith)
        | inr beyond ↦
            let above : 2 ^ 39 ≤ va = ground arith in
            walk_0_none p t p.l0_table va 0 (found ∙ ground arith)
            ∙ sym (intended_fault va (omega arith) (inr (omega arith)))
      ]
