-- ===== src/Ipc/Message.antt =====
-- `Message` and `IpcError` of src/ipc.rs, and the `Result` of its calls. `bytes` is the field `data`.
use jericho_os.Base.{
  ℕ, ◌≡◌, refl, Bool, Option, none, some, List, length, ltb, if◌then◌else◌, arith,
}

pub data IpcError : Type 0 where
  message_too_large queue_full endpoint_not_found permission_denied no_message : IpcError

-- Rust's `Result<T, IpcError>`, with `?` as the bind of a `do` block.
pub data Result {ℓ} (T : Type ℓ) : Type ℓ where
  err : IpcError → Result T
  ok : T → Result T

infixl 5 ◌>>=◌ ◌>>◌
abbrev pub ◌>>=◌ {ℓ κ} : {T : Type ℓ} {U : Type κ} → Result T → (T → Result U) → Result U
◌>>=◌ (err problem) next = err problem
◌>>=◌ (ok value) next = next value

abbrev pub ◌>>◌ {ℓ} : {U : Type ℓ} → Result (Unit {0}) → Result U → Result U
◌>>◌ (err problem) next = err problem
◌>>◌ (ok _) next = next

-- `Option::ok_or`.
abbrev pub ok_or {ℓ} : {T : Type ℓ} → Option T → IpcError → Result T
ok_or (some value) problem = ok value
ok_or none problem = err problem

-- `if !holds { return Err(problem); }`.
abbrev pub require : IpcError → Bool → Result (Unit {0})
require problem holds = if holds then ok tt else err problem

abbrev pub max_message_size : ℕ
max_message_size = 4096

pub record Message : Type 0 where
  pub sender : ℕ
  pub bytes : List ℕ
  pub transferred_cap : Option ℕ

unfoldable pub new : ℕ → List ℕ → Result Message
new sender bytes =
    if ltb max_message_size (length bytes)
    then err message_too_large
    else ok (record { sender = sender; bytes = bytes; transferred_cap = none })

unfoldable pub with_capability : ℕ → List ℕ → ℕ → Result Message
with_capability sender bytes cap =
    if ltb max_message_size (length bytes)
    then err message_too_large
    else ok (record { sender = sender; bytes = bytes; transferred_cap = some cap })

-- A block that succeeds has succeeded at its first step, and then in the rest.
pub bind-ok {ℓ κ} :
    {T : Type ℓ} {U : Type κ} (step : Result T) (next : T → Result U) {result : U}
    → (step >>= next) ≡ ok result
    → (value : T) × (step ≡ ok value) × (next value ≡ ok result)
bind-ok (err problem) next succeeds = cc
bind-ok (ok value) next succeeds = (value, refl, succeeds)

pub ok_or-ok {ℓ} :
    {T : Type ℓ} (o : Option T) (problem : IpcError) {value : T}
    → ok_or o problem ≡ ok value
    → o ≡ some value
ok_or-ok o problem h = ground arith
