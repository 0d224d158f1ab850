-- ===== src/Base/Assoc.antt =====
-- Rust's BTreeMap with numbers for keys, as an association list: `insert` replaces the entry of a
-- key that is there, `remove` takes the key away, and the order of the entries is never read.
use jericho_os.Base.Tests.{◌==◌, if◌then◌else◌, is_some}
use jericho_os.Base.Lists.{length}
use Prim.Native.Nat.{ℕ, ◌+◌}
use mathlib.Core.Path.{◌≡◌, refl}
use mathlib.Core.List.{List, [], ◌∷◌}
use mathlib.Core.Option.{Option, none, some}
use native.Mathlib.Omega.{arith}

module _ {ℓ} {V : Type ℓ} where
  unfoldable pub lookup : ℕ → List (ℕ × V) → Option V
  lookup key [] = none
  lookup key (entry ∷ rest) = if entry.0 == key then some entry.1 else lookup key rest

  unfoldable pub insert : ℕ → V → List (ℕ × V) → List (ℕ × V)
  insert key value [] = (key, value) ∷ []
  insert key value (entry ∷ rest) =
      if entry.0 == key then (key, value) ∷ rest else entry ∷ insert key value rest

  unfoldable pub remove : ℕ → List (ℕ × V) → List (ℕ × V)
  remove key [] = []
  remove key (entry ∷ rest) =
      let others = remove key rest in if entry.0 == key then others else entry ∷ others

  pub lookup-insert :
      (key other : ℕ) (value : V) (entries : List (ℕ × V))
      → lookup other (insert key value entries)
        ≡ (if key == other then some value else lookup other entries)
  unfolding lookup insert
  lookup-insert key other value [] = refl
  lookup-insert key other value (entry ∷ rest) = ground (arith, lookup-insert key other value rest)

  pub lookup-remove :
      (key other : ℕ) (entries : List (ℕ × V))
      → lookup other (remove key entries) ≡ (if key == other then none else lookup other entries)
  unfolding lookup remove
  lookup-remove key other [] = ground arith
  lookup-remove key other (entry ∷ rest) = ground (arith, lookup-remove key other rest)

  -- A new key adds one entry, and a known one none.
  pub length-insert :
      (key : ℕ) (value : V) (entries : List (ℕ × V))
      → length (insert key value entries)
        ≡ length entries + (if is_some (lookup key entries) then 0 else 1)
  unfolding lookup insert
  length-insert key value [] = omega arith
  length-insert key value (entry ∷ rest) = ground (arith, length-insert key value rest)
