-- ===== src/Wasm/Bounds.antt =====
-- Reads of guest memory in src/wasm_runtime.rs: which of them the kernel survives.
use jericho_os.Base.{
  ℕ, not, ◌+◌, ◌-◌, ◌^◌, ◌≤◌, ◌<◌, ◌≡◌, refl, ◌↔◌, false, Option, none, some, List, length, take,
  drop, leb, ap, ◌∙◌, subst, arith,
}
use jericho_os.Wasm.Guest.{
  Caller, Broker, returns, panics, IsWasmMemory, as_usize, wrapping_add, slice,
}
use jericho_os.Wasm.Calls.{
  print_from, sys_print, subscribe_from, subscribe, out_of_bounds, too_large, ◌then◌,
}

pub wrapping_add_small : (a b : ℕ) → a + b < 2 ^ 64 → wrapping_add a b ≡ a + b
wrapping_add_small a b h = omega arith

wrapping_add_large :
    (a b : ℕ) → 2 ^ 64 ≤ a + b → b < 2 ^ 64 → a < 2 ^ 64 → wrapping_add a b ≡ a + b - 2 ^ 64
wrapping_add_large a b h hb ha = omega arith

take_range :
    (mem : List ℕ) (ptr len : ℕ)
    → ptr + len ≤ length mem
    → slice mem ptr (ptr + len) ≡ returns (take len (drop ptr mem))
unfolding slice
take_range mem ptr len h = let e : ptr + len - ptr ≡ len = omega arith in ground arith

-- A range that the saturating check lets pass lies in the memory.
pub slice_checked :
    (mem : List ℕ) (ptr len : ℕ)
    → length mem ≤ 2 ^ 32
    → out_of_bounds mem ptr len ≡ false
    → (slice mem ptr (wrapping_add ptr len) ≡ returns (take len (drop ptr mem)))
      × (ptr + len ≤ length mem)
unfolding out_of_bounds
slice_checked mem ptr len h e =
    let inside : ptr + len ≤ length mem = ground arith in
    (
      ap (slice mem ptr) (wrapping_add_small ptr len (omega arith)) ∙ take_range mem ptr len inside,
      inside,
    )

pub too_large_iff : (len : ℕ) → len < 2 ^ 32 → too_large len ≡ leb 513 len
unfolding too_large
too_large_iff len h = ground arith

pub out_of_bounds_iff :
    (mem : List ℕ) (ptr len : ℕ)
    → length mem ≤ 2 ^ 32
    → out_of_bounds mem ptr len ≡ not (leb (ptr + len) (length mem))
unfolding out_of_bounds
out_of_bounds_iff mem ptr len h = ground arith

-- The sum of the address and the length passes 2^64, and is then small enough for the check.
abbrev pub Wraps : Option (List ℕ) → ℕ → ℕ → Type 0
Wraps none ptr len = ⊥
Wraps (some mem) ptr len =
    (2 ^ 64 ≤ as_usize ptr + as_usize len) × (as_usize ptr + as_usize len ≤ 2 ^ 64 + length mem)

wraps_iff :
    (size ptr len : ℕ)
    → ptr < 2 ^ 64
    → len < 2 ^ 64
    → size ≤ 2 ^ 32
    → ((wrapping_add ptr len ≤ size) × (wrapping_add ptr len < ptr))
      ↔ ((2 ^ 64 ≤ ptr + len) × (ptr + len ≤ 2 ^ 64 + size))
wraps_iff size ptr len hp hl hs = (λ h. (omega arith, omega arith), λ h. (omega arith, omega arith))

print_from-panics :
    (mem : List ℕ) (ptr len : ℕ)
    → (print_from mem ptr len ≡ panics)
      ↔ ((wrapping_add ptr len ≤ length mem) × (wrapping_add ptr len < ptr))
unfolding print_from slice ◌then◌
print_from-panics mem ptr len = ground arith

subscribe_from-panics :
    (b : Broker) (mem : List ℕ) (client_id ptr len : ℕ)
    → (subscribe_from b mem client_id ptr len ≡ panics)
      ↔ ((wrapping_add ptr len ≤ length mem) × (wrapping_add ptr len < ptr))
unfolding subscribe_from slice ◌then◌
subscribe_from-panics b mem client_id ptr len = ground arith

as_usize-lt : (x : ℕ) → x < 2 ^ 32 → as_usize x < 2 ^ 64
as_usize-lt x h = ground arith

-- Let the memory of the caller, if it exports one, be of a size that WebAssembly allows, at most 4 GiB, and
-- address and length be 32-bit numbers. Then `sys_print` and `subscribe` stop the kernel exactly when the
-- caller exports a memory, and the sum of the address and the length, each extended from 32 to 64 bits,
-- passes 2^64 by no more than the size of the memory. In all other cases they return.
pub reads-panic :
    (caller : Caller) (b : Broker) (client_id ptr len : ℕ)
    → IsWasmMemory caller.memory
    → ptr < 2 ^ 32
    → len < 2 ^ 32
    → ((sys_print caller ptr len ≡ panics) ↔ Wraps caller.memory ptr len)
      × ((subscribe caller b client_id ptr len ≡ panics) ↔ Wraps caller.memory ptr len)
unfolding sys_print subscribe
reads-panic caller b client_id ptr len h hp hl = by_memory caller.memory refl
  where
    by_memory :
        (memory : Option (List ℕ))
        → caller.memory ≡ memory
        → ((sys_print caller ptr len ≡ panics) ↔ Wraps caller.memory ptr len)
          × ((subscribe caller b client_id ptr len ≡ panics) ↔ Wraps caller.memory ptr len)
    by_memory none e = rw (e, sys_print, subscribe) (ground arith)
    by_memory (some mem) e =
        let same : IsWasmMemory (some mem) = subst IsWasmMemory e h in
        let w =
          wraps_iff (length mem) (as_usize ptr) (as_usize len) (as_usize-lt ptr hp)
            (as_usize-lt len hl) same in
        let p = print_from-panics mem (as_usize ptr) (as_usize len) in
        let q = subscribe_from-panics b mem client_id (as_usize ptr) (as_usize len) in
        rw (e, sys_print, subscribe)
          ((λ x. w.0 (p.0 x), λ x. p.1 (w.1 x)), (λ x. w.0 (q.0 x), λ x. q.1 (w.1 x)))
