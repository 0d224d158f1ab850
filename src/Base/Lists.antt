-- ===== src/Base/Lists.antt =====
-- Lists over the native numbers: lengths, positions, occurrences, and `retain`.
use Prim.Native.Nat.{ℕ, zero, suc, ◌+◌, ◌-◌, ◌<◌, min}
use mathlib.Core.Path.{◌≡◌, refl}
use mathlib.Core.Bool.{Bool, true, false}
use mathlib.Core.List.{List, [], ◌∷◌, ◌++◌}
use mathlib.Core.Option.{Option, none, some}
use native.Mathlib.Omega.{arith}
use jericho_os.Base.Tests.{◌==◌, if◌then◌else◌}

module _ {ℓ} {A : Type ℓ} where
  abbrev pub length : List A → ℕ
  length [] = 0
  length (x ∷ xs) = suc (length xs)

  abbrev pub is_empty : List A → Bool
  is_empty [] = true
  is_empty (x ∷ xs) = false

  abbrev pub get_elem? : List A → ℕ → Option A
  get_elem? [] i = none
  get_elem? (x ∷ xs) zero = some x
  get_elem? (x ∷ xs) (suc i) = get_elem? xs i

  abbrev pub take : ℕ → List A → List A
  take zero xs = []
  take (suc n) [] = []
  take (suc n) (x ∷ xs) = x ∷ take n xs

  abbrev pub drop : ℕ → List A → List A
  drop zero xs = xs
  drop (suc n) [] = []
  drop (suc n) (x ∷ xs) = drop n xs

  abbrev pub replicate : ℕ → A → List A
  replicate zero a = []
  replicate (suc n) a = a ∷ replicate n a

  pub length-append : (xs ys : List A) → length (xs ++ ys) ≡ length xs + length ys
  length-append [] ys = omega arith
  length-append (x ∷ xs) ys = omega (arith, length-append xs ys)

  pub length-take : (n : ℕ) (xs : List A) → length (take n xs) ≡ min n (length xs)
  length-take zero xs = omega arith
  length-take (suc n) [] = omega arith
  length-take (suc n) (x ∷ xs) = omega (arith, length-take n xs)

  pub length-drop : (n : ℕ) (xs : List A) → length (drop n xs) ≡ length xs - n
  length-drop zero xs = omega arith
  length-drop (suc n) [] = omega arith
  length-drop (suc n) (x ∷ xs) = omega (arith, length-drop n xs)

-- Every entry satisfies the predicate.
abbrev pub All {ℓ κ} : {A : Type ℓ} → (A → Type κ) → List A → Type κ
All P [] = Unit
All P (x ∷ xs) = P x × All P xs

pub All-append {ℓ κ} :
    {A : Type ℓ} (P : A → Type κ) (xs ys : List A) → All P xs → All P ys → All P (xs ++ ys)
All-append P [] ys hx hy = hy
All-append P (x ∷ xs) ys hx hy = (hx.0, All-append P xs ys hx.1 hy)

-- How often a number occurs.
unfoldable pub count : ℕ → List ℕ → ℕ
count a [] = 0
count a (x ∷ xs) = (if x == a then 1 else 0) + count a xs

-- `Vec::contains` on numbers.
unfoldable pub contains : List ℕ → ℕ → Bool
contains [] a = false
contains (x ∷ xs) a = if x == a then true else contains xs a

-- `VecDeque::retain(|&id| id != a)`.
unfoldable pub without : ℕ → List ℕ → List ℕ
without a [] = []
without a (x ∷ xs) = let rest = without a xs in if x == a then rest else x ∷ rest

pub count-append : (a : ℕ) (xs ys : List ℕ) → count a (xs ++ ys) ≡ count a xs + count a ys
unfolding count
count-append a [] ys = omega arith
count-append a (x ∷ xs) ys = omega (arith, count-append a xs ys)

pub count-without :
    (a b : ℕ) (xs : List ℕ) → count b (without a xs) ≡ (if a == b then 0 else count b xs)
unfolding count without
count-without a b [] = ground arith
count-without a b (x ∷ xs) = ground (arith, count-without a b xs)

pub contains-count : (a : ℕ) (xs : List ℕ) → contains xs a ≡ true → 0 < count a xs
unfolding contains count
contains-count a [] h = ground arith
contains-count a (x ∷ xs) h = ground (arith, contains-count a xs)

pub count_one : (a b : ℕ) → count b (a ∷ []) ≡ (if a == b then 1 else 0)
unfolding count
count_one a b = omega arith

pub count_cons : (a b : ℕ) (xs : List ℕ) → count b (a ∷ xs) ≡ (if a == b then 1 else 0) + count b xs
unfolding count
count_cons a b xs = refl

pub count_nil : (b : ℕ) → count b [] ≡ 0
unfolding count
count_nil b = refl

pub count_head : (a : ℕ) (xs : List ℕ) → count a (a ∷ xs) ≡ suc (count a xs)
unfolding count
count_head a xs = ground arith

pub contains_nil : (a : ℕ) → contains [] a ≡ false
unfolding contains
contains_nil a = refl

pub contains_cons :
    (x a : ℕ) (xs : List ℕ) → contains (x ∷ xs) a ≡ (if x == a then true else contains xs a)
unfolding contains
contains_cons x a xs = refl

pub contains-append_self : (a : ℕ) (xs : List ℕ) → contains (xs ++ a ∷ []) a ≡ true
unfolding contains
contains-append_self a [] = ground arith
contains-append_self a (x ∷ xs) = ground (arith, contains-append_self a xs)
