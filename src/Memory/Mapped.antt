-- ===== src/Memory/Mapped.antt =====
-- What `init_heap` of src/allocator.rs achieves, for a mapper that does what its documentation says.
use jericho_os.Base.{
  ℕ, zero, suc, ◌+◌, ◌*◌, ◌^◌, ◌≤◌, ◌<◌, ◌≡◌, ◌≢◌, refl, sym, ap, ◌∙◌, subst, none, some, List, [],
  ◌∷◌, length, get_elem?, ◌==◌, if◌then◌else◌, arith,
}
use jericho_os.Memory.Frames.{BootInfoFrameAllocator, usable_frames, allocate_frame, frame_size}
use jericho_os.Memory.Distinct.{
  IsMap, IsUsable, after, after_lem, get-lt, usable_frames-Ascending, All-get,
  usable_frames-IsUsable,
}
use jericho_os.Memory.Heap.{
  heap_start, heap_size, Mapper, mapped, pages_from, HeapResult, initialised, map_pages, init_heap,
}

-- The documented behaviour of `map_to`: while there are frames for up to three page tables, it maps a page
-- that was not mapped, takes no more than those frames, and leaves all other pages as they were.
pub record IsMapper (m : Mapper) : Type 0 where
  pub maps :
      (s : m.State) (page frame : ℕ) (a : BootInfoFrameAllocator)
      → m.translate s page ≡ none
      → a.next + 3 ≤ length (usable_frames a.memory_map)
      → (s' : m.State) × (n : ℕ) × (n ≤ 3)
        × (m.map_to s page frame a ≡ mapped s' (after n a))
        × ((q : ℕ) → m.translate s' q ≡ (if page == q then some frame else m.translate s q))

-- The first number, and then those of another sequence.
abbrev first_then : ℕ → (ℕ → ℕ) → ℕ → ℕ
first_then k f zero = k
first_then k f (suc i) = f i

get_elem?-lt : (xs : List ℕ) (i : ℕ) → i < length xs → (x : ℕ) × (get_elem? xs i ≡ some x)
get_elem?-lt [] i h = absurd (omega arith)
get_elem?-lt (x ∷ xs) zero h = (x, refl)
get_elem?-lt (x ∷ xs) (suc i) h = get_elem?-lt xs i (omega arith)

module _ (m : Mapper) (good : IsMapper m) where
  -- After `n` pages from `page` on: page number `i` is mapped to the usable frame number `index i`.
  record Maps (s : m.State) (a : BootInfoFrameAllocator) (page n : ℕ) (r : HeapResult m.State)
      : Type 0 where
    tables : m.State
    allocator : BootInfoFrameAllocator
    index : ℕ → ℕ
    ends : r ≡ initialised tables allocator heap_start heap_size
    low : (i : ℕ) → i < n → a.next ≤ index i
    ascends : (i j : ℕ) → i < j → j < n → index i < index j
    here :
        (i : ℕ)
        → i < n
        → (frame : ℕ) × (m.translate tables (page + frame_size * i) ≡ some frame)
          × (get_elem? (usable_frames a.memory_map) (index i) ≡ some frame)
    others :
        (q : ℕ)
        → ((i : ℕ) → i < n → q ≢ page + frame_size * i)
        → m.translate tables q ≡ m.translate s q

  -- One page more, before the others: the frame number `a.next` is its own.
  extend :
      (n page frame : ℕ) (s s' : m.State) (a a' : BootInfoFrameAllocator) (r : HeapResult m.State)
      → get_elem? (usable_frames a.memory_map) a.next ≡ some frame
      → a'.memory_map ≡ a.memory_map
      → a.next < a'.next
      → ((q : ℕ) → m.translate s' q ≡ (if page == q then some frame else m.translate s q))
      → Maps s' a' (page + frame_size) n r
      → Maps s a page (suc n) r
  extend n page frame s s' a a' r e same more maps rest = record {
    tables = rest.tables;
    allocator = rest.allocator;
    index = first_then a.next rest.index;
    ends = rest.ends;
    low = low;
    ascends = ascends;
    here = here;
    others = λ q h.
        let kept = rest.others q (λ i h'. ground (arith, h (suc i))) in
        ground (arith, kept, maps q, h 0);
  }
    where
      low : (i : ℕ) → i < suc n → a.next ≤ first_then a.next rest.index i
      low zero h = omega arith
      low (suc i) h = omega (arith, rest.low i, more)

      ascends :
          (i j : ℕ)
          → i < j
          → j < suc n
          → first_then a.next rest.index i < first_then a.next rest.index j
      ascends i zero h h' = absurd (omega arith)
      ascends zero (suc j) h h' = omega (arith, rest.low j, more)
      ascends (suc i) (suc j) h h' = rest.ascends i j (omega arith) (omega arith)

      here :
          (i : ℕ)
          → i < suc n
          → (f : ℕ) × (m.translate rest.tables (page + frame_size * i) ≡ some f)
            × (get_elem? (usable_frames a.memory_map) (first_then a.next rest.index i) ≡ some f)
      here zero h =
          let kept = rest.others (page + frame_size * 0) (λ i h'. ground arith) in
          (frame, ground (arith, kept, maps (page + frame_size * 0)), e)
      here (suc i) h =
          let (f, there, number) = rest.here i (omega arith) in
          let at : page + frame_size * suc i ≡ page + frame_size + frame_size * i = omega arith in
          (
            f,
            ap (m.translate rest.tables) at ∙ there,
            subst (λ map. get_elem? (usable_frames map) (rest.index i) ≡ some f) same number,
          )

  next_page : (page i : ℕ) → page + frame_size * suc i ≡ page + frame_size + frame_size * i
  next_page page i = omega arith

  map_pages_cons :
      (s s' : m.State) (a a' : BootInfoFrameAllocator) (page : ℕ) (pages : List ℕ) (frame : ℕ)
      → get_elem? (usable_frames a.memory_map) a.next ≡ some frame
      → m.map_to s page frame (allocate_frame a).0 ≡ mapped s' a'
      → map_pages m s a (page ∷ pages) ≡ map_pages m s' a' pages
  unfolding map_pages allocate_frame
  map_pages_cons s s' a a' page pages frame e went = ground arith

  map_pages-Maps :
      (n page : ℕ) (s : m.State) (a : BootInfoFrameAllocator)
      → ((i : ℕ) → i < n → m.translate s (page + frame_size * i) ≡ none)
      → a.next + 4 * n ≤ length (usable_frames a.memory_map)
      → length (usable_frames a.memory_map) < 2 ^ 64
      → Maps s a page n (map_pages m s a (pages_from page n))
  unfolding map_pages pages_from
  map_pages-Maps zero page s a free enough bound = record {
    tables = s;
    allocator = a;
    index = λ i. 0;
    ends = refl;
    low = λ i h. absurd (omega arith);
    ascends = λ i j h h'. absurd (omega arith);
    here = λ i h. absurd (omega arith);
    others = λ q h. refl;
  }
  map_pages-Maps (suc n) page s a free enough bound =
      let (frame, e) = get_elem?-lt (usable_frames a.memory_map) a.next (omega arith) in
      let a₁ = (allocate_frame a).0 in
      let next : a₁.next ≡ a.next + 1 = unfold allocate_frame in omega arith in
      let map : a₁.memory_map ≡ a.memory_map = unfold allocate_frame in refl in
      let at : page + frame_size * 0 ≡ page = omega arith in
      let unmapped : m.translate s page ≡ none =
        ap (m.translate s) (sym at) ∙ free 0 (omega arith) in
      let left : a₁.next + 3 ≤ length (usable_frames a₁.memory_map) = omega (arith, next) in
      let (s', k, few, went, moves) = good.maps s page frame a₁ unmapped left in
      let later = after_lem k a₁ (omega (arith, next)) in
      let frames : length (usable_frames (after k a₁).memory_map)
          ≡ length (usable_frames a.memory_map) =
        ap (λ l. length (usable_frames l)) later.0 in
      let rest =
        map_pages-Maps n (page + frame_size) s' (after k a₁)
          (λ i h.
            ground
              (arith, free (suc i), next_page page i, moves (page + frame_size + frame_size * i)))
          (omega (arith, later.1, next, frames)) (omega (arith, frames)) in
      subst (Maps s a page (suc n))
        (sym
          (map_pages_cons s s' a (after k a₁) page (pages_from (page + frame_size) n) frame e went))
        (extend n page frame s s' a (after k a₁) _ e later.0 (omega (arith, later.1, next)) moves
          rest)

  -- What `Maps` says of the frames themselves, with a proper memory map.
  frames-IsUsable :
      (s : m.State) (a : BootInfoFrameAllocator) (page n : ℕ) (r : HeapResult m.State)
      → IsMap 0 a.memory_map
      → (w : Maps s a page n r)
      → ((i : ℕ)
          → i < n
          → (frame : ℕ) × (m.translate w.tables (page + frame_size * i) ≡ some frame)
            × IsUsable frame a.memory_map)
        × ((i j f g : ℕ)
            → i < j
            → j < n
            → m.translate w.tables (page + frame_size * i) ≡ some f
            → m.translate w.tables (page + frame_size * j) ≡ some g
            → f < g)
  frames-IsUsable s a page n r map w = (
    λ i h.
        let (f, there, number) = w.here i h in
        (
          f,
          there,
          All-get (λ x. IsUsable x a.memory_map) (usable_frames a.memory_map) (w.index i) f
              (usable_frames-IsUsable 0 a.memory_map map) number,
        ),
    λ i j f g h h' e e'.
        let (f', there, number) = w.here i (omega arith) in
        let (g', there', number') = w.here j h' in
        get-lt 0 (w.index i) (w.index j) (usable_frames a.memory_map) f g
          (usable_frames-Ascending 0 a.memory_map map) (w.ascends i j h h') (number ∙ sym there ∙ e)
          (number' ∙ sym there' ∙ e'),
  )

  -- `init_heap` succeeds when no address of the heap is mapped, the memory map has four frames left for each
  -- of the 2048 pages, and the mapper does as documented. The heap gets its 8 MiB, each of its pages is
  -- then mapped to a frame in a usable region, no two of them to the same, and every other
  -- page is mapped as it was.
  pub init_heap-IsHeap :
      (s : m.State) (a : BootInfoFrameAllocator)
      → IsMap 0 a.memory_map
      → ((page : ℕ) → heap_start ≤ page → page < heap_start + heap_size → m.translate s page ≡ none)
      → a.next + 8192 ≤ length (usable_frames a.memory_map)
      → length (usable_frames a.memory_map) < 2 ^ 64
      → (s' : m.State) × (a' : BootInfoFrameAllocator) × (init_heap m s a
          ≡ initialised s' a' heap_start heap_size)
        × ((i : ℕ)
            → i < 2048
            → (frame : ℕ) × (m.translate s' (heap_start + frame_size * i) ≡ some frame)
              × IsUsable frame a.memory_map)
        × ((i j f g : ℕ)
            → i < j
            → j < 2048
            → m.translate s' (heap_start + frame_size * i) ≡ some f
            → m.translate s' (heap_start + frame_size * j) ≡ some g
            → f < g)
        × ((q : ℕ)
            → ((i : ℕ) → i < 2048 → q ≢ heap_start + frame_size * i)
            → m.translate s' q ≡ m.translate s q)
  unfolding init_heap
  init_heap-IsHeap s a map free enough bound =
      let r =
        map_pages-Maps 2048 heap_start s a
          (λ i h. free (heap_start + frame_size * i) (omega arith) (omega arith)) enough bound in
      let frames = frames-IsUsable s a heap_start 2048 _ map r in
      (r.tables, r.allocator, r.ends, frames.0, frames.1, r.others)
