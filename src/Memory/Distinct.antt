-- ===== src/Memory/Distinct.antt =====
-- Allocation in src/memory.rs: no frame is given twice, and each lies in a usable region.
use jericho_os.Base.{
  ℕ, zero, suc, ◌+◌, ◌*◌, ◌%◌, ◌^◌, ◌≤◌, ◌<◌, ◌≡◌, refl, sym, ◌∙◌, ap, subst, ◌⊎◌, inl, inr, true,
  false, some, List, [], ◌∷◌, ◌++◌, get_elem?, All, All-append, Bool-cases, arith,
}
use mathlib.Core.Option.{some-injective}
use jericho_os.Memory.Frames.{
  MemoryRegion, BootInfoFrameAllocator, steps, frames_from, usable_frames, allocate_frame,
  containing_address,
}

-- A memory map as the bootloader gives it: the regions from `low` on begin at a frame, and follow one
-- another without overlap.
abbrev pub IsMap : ℕ → List MemoryRegion → Type 0
IsMap low [] = Unit
IsMap low (r ∷ regions) =
    (low ≤ r.start) × (r.start % 4096 ≡ 0) × (r.start ≤ r.end) × IsMap r.end regions

-- Numbers from `low` on, each larger than the one before.
abbrev pub Ascending : ℕ → List ℕ → Type 0
Ascending low [] = Unit
Ascending low (x ∷ xs) = (low ≤ x) × Ascending (suc x) xs

lower : (low high : ℕ) (xs : List ℕ) → low ≤ high → Ascending high xs → Ascending low xs
lower low high [] h a = tt
lower low high (x ∷ xs) h a = (omega arith, a.1)

frames_from-Ascending :
    (n address low high : ℕ) (rest : List ℕ)
    → address % 4096 ≡ 0
    → low ≤ address
    → low ≤ high
    → address + n * 4096 < high + 4096
    → Ascending high rest
    → Ascending low (frames_from address n ++ rest)
unfolding frames_from
frames_from-Ascending zero address low high rest aligned h h' fits a = lower low high rest h' a
frames_from-Ascending (suc n) address low high rest aligned h h' fits a = (
  omega arith,
  frames_from-Ascending n (address + 4096) (suc (containing_address address)) high rest
      (omega arith) (omega arith) (omega arith) (omega arith) a,
)

-- The usable frames of a memory map, in ascending order.
pub usable_frames-Ascending :
    (low : ℕ) (regions : List MemoryRegion)
    → IsMap low regions
    → Ascending low (usable_frames regions)
unfolding usable_frames
usable_frames-Ascending low [] h = tt
usable_frames-Ascending low (r ∷ regions) (h, aligned, ordered, rest) = elim (Bool-cases r.usable) [
  | inl e ↦
      rw (e, usable_frames)
        (frames_from-Ascending (steps r.start r.end) r.start low r.end (usable_frames regions)
          aligned h (omega arith) (omega arith) (usable_frames-Ascending r.end regions rest))
  | inr e ↦
      rw (e, usable_frames)
        (lower low r.end (usable_frames regions) (omega arith)
          (usable_frames-Ascending r.end regions rest))
]

get-low : (low i : ℕ) (xs : List ℕ) (x : ℕ) → Ascending low xs → get_elem? xs i ≡ some x → low ≤ x
get-low low i [] x a e = absurd (ground arith)
get-low low zero (y ∷ ys) x a e = ground (arith, a.0)
get-low low (suc i) (y ∷ ys) x a e = omega (arith, a.0, get-low (suc y) i ys x a.1 e)

pub get-lt :
    (low i j : ℕ) (xs : List ℕ) (x y : ℕ)
    → Ascending low xs
    → i < j
    → get_elem? xs i ≡ some x
    → get_elem? xs j ≡ some y
    → x < y
get-lt low i j [] x y a h e e' = absurd (ground arith)
get-lt low i zero (z ∷ zs) x y a h e e' = absurd (omega arith)
get-lt low zero (suc j) (z ∷ zs) x y a h e e' = ground (arith, get-low (suc z) j zs y a.1 e')
get-lt low (suc i) (suc j) (z ∷ zs) x y a h e e' = get-lt (suc z) i j zs x y a.1 (omega arith) e e'

-- The allocator after `n` calls.
unfoldable pub after : ℕ → BootInfoFrameAllocator → BootInfoFrameAllocator
after zero a = a
after (suc n) a = after n (allocate_frame a).0

pub after_lem :
    (n : ℕ) (a : BootInfoFrameAllocator)
    → a.next + n < 2 ^ 64
    → ((after n a).memory_map ≡ a.memory_map) × ((after n a).next ≡ a.next + n)
unfolding after allocate_frame
after_lem zero a h = (refl, omega arith)
after_lem (suc n) a h =
    let bound : (a.next + 1) % 2 ^ 64 + n < 2 ^ 64 = omega arith in
    let later = after_lem n (allocate_frame a).0 bound in (later.0, omega (arith, later.1))

-- The frame lies in a usable region of the map, from its first address on.
abbrev pub IsUsable : ℕ → List MemoryRegion → Type 0
IsUsable frame [] = ⊥
IsUsable frame (r ∷ regions) =
    ((r.usable ≡ true) × (r.start ≤ frame) × (frame < r.end)) ⊎ IsUsable frame regions

All-map :
    {A : Type 0} (P Q : A → Type 0) (xs : List A) → ((x : A) → P x → Q x) → All P xs → All Q xs
All-map P Q [] f h = tt
All-map P Q (x ∷ xs) f h = (f x h.0, All-map P Q xs f h.1)

pub All-get :
    {A : Type 0} (P : A → Type 0) (xs : List A) (i : ℕ) (x : A)
    → All P xs
    → get_elem? xs i ≡ some x
    → P x
All-get P [] i x h e = absurd (ground arith)
All-get P (y ∷ ys) zero x h e = subst P (some-injective y x e) h.0
All-get P (y ∷ ys) (suc i) x h e = All-get P ys i x h.1 e

frames_from_inside :
    (n address low high : ℕ)
    → address % 4096 ≡ 0
    → low ≤ address
    → address + n * 4096 < high + 4096
    → All (λ f. (low ≤ f) × (f < high)) (frames_from address n)
unfolding frames_from
frames_from_inside zero address low high aligned h fits = tt
frames_from_inside (suc n) address low high aligned h fits = (
  (omega arith, omega arith),
  frames_from_inside n (address + 4096) low high (omega arith) (omega arith) (omega arith),
)

usable_first :
    (r : MemoryRegion) (regions : List MemoryRegion)
    → r.usable ≡ true
    → usable_frames (r ∷ regions)
      ≡ frames_from r.start (steps r.start r.end) ++ usable_frames regions
unfolding usable_frames
usable_first r regions e = rw e refl

unusable_first :
    (r : MemoryRegion) (regions : List MemoryRegion)
    → r.usable ≡ false
    → usable_frames (r ∷ regions) ≡ usable_frames regions
unfolding usable_frames
unusable_first r regions e = rw e refl

pub usable_frames-IsUsable :
    (low : ℕ) (regions : List MemoryRegion)
    → IsMap low regions
    → All (λ f. IsUsable f regions) (usable_frames regions)
unfolding usable_frames
usable_frames-IsUsable low [] h = tt
usable_frames-IsUsable low (r ∷ regions) (h, aligned, ordered, rest) =
    let others =
      All-map (λ f. IsUsable f regions) (λ f. IsUsable f (r ∷ regions)) (usable_frames regions)
        (λ f u. inr u) (usable_frames-IsUsable r.end regions rest) in
    elim (Bool-cases r.usable) [
      | inl e ↦
          let inside =
            frames_from_inside (steps r.start r.end) r.start r.start r.end aligned (omega arith)
              (omega arith) in
          subst (All (λ f. IsUsable f (r ∷ regions))) (sym (usable_first r regions e)) (
            All-append (λ f. IsUsable f (r ∷ regions)) (frames_from r.start (steps r.start r.end))
              (usable_frames regions)
              (All-map (λ f. (r.start ≤ f) × (f < r.end)) (λ f. IsUsable f (r ∷ regions))
                (frames_from r.start (steps r.start r.end)) (λ f u. inl (e, u.0, u.1)) inside)
              others)
      | inr e ↦
          subst (All (λ f. IsUsable f (r ∷ regions))) (sym (unusable_first r regions e)) others
    ]

-- No frame is given twice: with a memory map whose regions begin at frames and do not overlap, a frame
-- that a later call gives has a larger address, and both frames begin in a usable region. (The calls
-- are less than 2^64, so that the counter does not wrap.)
pub allocate_frame_fresh :
    (a : BootInfoFrameAllocator) (n f g : ℕ)
    → IsMap 0 a.memory_map
    → a.next + suc n < 2 ^ 64
    → (allocate_frame a).1 ≡ some f
    → (allocate_frame (after (suc n) a)).1 ≡ some g
    → (f < g) × IsUsable f a.memory_map × IsUsable g a.memory_map
unfolding allocate_frame
allocate_frame_fresh a n f g h bound e e' =
    let later = after_lem (suc n) a bound in
    let here : get_elem? (usable_frames a.memory_map) (a.next + suc n) ≡ some g =
      sym (ap (λ i. get_elem? (usable_frames a.memory_map) i) later.1)
      ∙ sym (ap (λ map. get_elem? (usable_frames map) (after (suc n) a).next) later.0)
      ∙ e' in
    let usable = usable_frames-IsUsable 0 a.memory_map h in
    (
      get-lt 0 a.next (a.next + suc n) (usable_frames a.memory_map) f g
          (usable_frames-Ascending 0 a.memory_map h) (omega arith) e here,
      All-get (λ x. IsUsable x a.memory_map) (usable_frames a.memory_map) a.next f usable e,
      All-get (λ x. IsUsable x a.memory_map) (usable_frames a.memory_map) (a.next + suc n) g usable
          here,
    )
