-- ===== src/Wasm/Run.antt =====
-- What comes of code that a guest of src/wasm_runtime.rs runs: it returns, or the kernel never gets control back.
-- A host function that the code calls may panic, which stops the kernel, and the code may loop for ever.

pub data Halt : Type 0 where
  kernel_panics never_returns : Halt

pub data Run {ℓ} (A : Type ℓ) : Type ℓ where
  returned : A → Run A
  halted : Halt → Run A

infixl 5 ◌>>=◌
abbrev pub ◌>>=◌ {ℓ κ} : {A : Type ℓ} {B : Type κ} → Run A → (A → Run B) → Run B
◌>>=◌ (returned a) next = next a
◌>>=◌ (halted h) next = halted h

-- What holds of a result; `D` is what holds when there is none: `⊥` where there must be a result.
abbrev pub Yields : {A : Type 0} (D : Type 0) (Q : A → Type 0) → Run A → Type 0
Yields D Q (returned a) = Q a
Yields D Q (halted h) = D

pub Yields-map :
    {A : Type 0} (D : Type 0) (Q R : A → Type 0) (r : Run A)
    → ((a : A) → Q a → R a)
    → Yields D Q r
    → Yields D R r
Yields-map D Q R (returned a) f q = f a q
Yields-map D Q R (halted h) f d = d

pub Yields-bind :
    {A B : Type 0} (D : Type 0) (Q : A → Type 0) (R : B → Type 0) (r : Run A) (next : A → Run B)
    → ((a : A) → Q a → Yields D R (next a))
    → Yields D Q r
    → Yields D R (r >>= next)
Yields-bind D Q R (returned a) next f q = f a q
Yields-bind D Q R (halted h) next f d = d

-- A result that there must be holds under any reading of none.
pub Yields-weaken :
    {A : Type 0} (D : Type 0) (Q : A → Type 0) (r : Run A) → Yields ⊥ Q r → Yields D Q r
Yields-weaken D Q (returned a) q = q
Yields-weaken D Q (halted h) q = absurd q
