-- ===== src/PageTables.antt =====
-- src/arch/aarch64/mmu.rs: the page tables that `init` fills, and the registers that it writes. `Walk` is the
-- translation by the processor, `Identity` and `Level` prove what comes of it.
pub mod Walk
pub mod Entries
pub mod Identity
pub mod Level
use jericho_os.Base.{
  ℕ, ◌+◌, ◌*◌, ◌/◌, ◌%◌, ◌^◌, ◌≤◌, ◌<◌, Bool, ◌&&◌, bit_or, bit_and, ltb, leb, ◌==◌, not,
  if◌then◌else◌,
}

abbrev pub block_size_2mb : ℕ
block_size_2mb = 2 * 1024 * 1024

abbrev pub pte_valid : ℕ
pte_valid = 1

abbrev pub pte_table : ℕ
pte_table = 2

abbrev pub pte_block : ℕ
pte_block = 0

abbrev pub pte_af : ℕ
pte_af = 2 ^ 10

abbrev pub pte_sh_inner : ℕ
pte_sh_inner = 3 * 2 ^ 8

abbrev pub pte_ap_rw : ℕ
pte_ap_rw = 0

abbrev pub pte_attr_normal : ℕ
pte_attr_normal = 0

abbrev pub pte_attr_device : ℕ
pte_attr_device = 4

-- The addresses of the four tables.
pub record Places : Type 0 where
  pub l0_table : ℕ
  pub l1_table : ℕ
  pub l2_table_0 : ℕ
  pub l2_table_1 : ℕ

-- The entries of the four tables, by their index.
pub record Tables : Type 0 where
  pub l0 : ℕ → ℕ
  pub l1 : ℕ → ℕ
  pub l2_0 : ℕ → ℕ
  pub l2_1 : ℕ → ℕ

abbrev pub zero_table : ℕ → ℕ
zero_table i = 0

abbrev pub attr_of : ℕ → ℕ
attr_of phys_addr =
    if leb 0x08000000 phys_addr && ltb phys_addr 0x10000000
    then pte_attr_device
    else pte_attr_normal

abbrev pub block_entry : ℕ → ℕ → ℕ
block_entry phys_addr attr =
    bit_or
      (bit_or (bit_or (bit_or (bit_or (bit_or phys_addr pte_block) pte_valid) pte_af) pte_sh_inner)
        pte_ap_rw)
      attr

abbrev pub table_entry : ℕ → ℕ
table_entry address = bit_or (bit_or address pte_table) pte_valid

-- `table.entries[i] = entry`, and the loops that write the first `n` entries.
abbrev pub write_entry : (ℕ → ℕ) → ℕ → ℕ → ℕ → ℕ
write_entry table i entry k = if k == i then entry else table k

unfoldable pub fill : ℕ → (ℕ → ℕ) → (ℕ → ℕ) → ℕ → ℕ
fill n entry table k = if ltb k n then entry k else table k

unfoldable pub l2_0_entry : ℕ → ℕ
l2_0_entry i = let phys_addr = i * block_size_2mb in block_entry phys_addr (attr_of phys_addr)

unfoldable pub l2_1_entry : ℕ → ℕ
l2_1_entry i = block_entry (0x40000000 + i * block_size_2mb) pte_attr_normal

unfoldable pub init_tables : Places → Tables
unfolding fill l2_0_entry l2_1_entry
init_tables p = record {
  l0 = write_entry zero_table 0 (table_entry p.l1_table);
  l1 =
      write_entry (write_entry zero_table 0 (table_entry p.l2_table_0)) 1
        (table_entry p.l2_table_1);
  l2_0 = fill 128 l2_0_entry zero_table;
  l2_1 = fill 192 l2_1_entry zero_table;
}

-- The system registers that `init` writes.
pub record Registers : Type 0 where
  pub mair : ℕ
  pub tcr : ℕ
  pub ttbr0 : ℕ
  pub sctlr : ℕ

unfoldable pub init : Places → Registers → Tables × Registers
unfolding init_tables
init p r = (
  init_tables p,
  record {
    mair = bit_or (0x00 * 2 ^ 8) 0xFF;
    tcr = bit_or (bit_or (bit_or (bit_or (bit_or 25 0) (3 * 2 ^ 12)) (2 ^ 10)) (2 ^ 8)) 0;
    ttbr0 = p.l0_table;
    sctlr = bit_or r.sctlr 1;
  },
)

unfoldable pub is_enabled : Registers → Bool
is_enabled r = not (bit_and r.sctlr 1 == 0)

unfoldable pub get_ttbr0 : Registers → ℕ
get_ttbr0 r = r.ttbr0
