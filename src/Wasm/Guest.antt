-- ===== src/Wasm/Guest.antt =====
-- The data of src/wasm_runtime.rs: the context of a guest, its memory as the host sees it, and the
-- two statics, the message queue and the list of subscribers. An i32 is the number of its bit
-- pattern; `as usize` extends the sign to 64 bits.
use jericho_os.Base.{
  ℕ, ◌+◌, ◌-◌, ◌%◌, ◌^◌, ◌≤◌, min, Bool, not, ◌&&◌, ◌||◌, Option, none, some, List, [], ◌∷◌, ◌++◌,
  length, is_empty, take, drop, ltb, leb, ◌==◌, if◌then◌else◌,
}
use jericho_os.Capability.Token.{Capability, ResourceType, same_type}

abbrev pub max_ipc_message_size : ℕ
max_ipc_message_size = 512

abbrev pub max_ipc_queue_depth : ℕ
max_ipc_queue_depth = 64

pub record IpcMessage : Type 0 where
  pub dest_client_id : ℕ
  pub message : List ℕ

pub record WasmContext : Type 0 where
  pub capabilities : List Capability

-- The statics `IPC_MESSAGE_QUEUE` and `MQTT_SUBSCRIBERS`.
pub record Broker : Type 0 where
  pub queue : List IpcMessage
  pub subscribers : List ℕ

-- Who calls a host function: its context, and the memory that it exports, if it exports one.
pub record Caller : Type 0 where
  pub context : WasmContext
  pub memory : Option (List ℕ)

-- A host function returns or panics, which stops the kernel.
pub data Host {ℓ} (A : Type ℓ) : Type ℓ where
  returns : A → Host A
  panics : Host A

unfoldable pub matches : ResourceType → ℕ → Capability → Bool
matches resource_type resource_id cap =
    same_type cap.resource_type resource_type && (cap.resource_id == resource_id)

unfoldable pub find_in : List Capability → ResourceType → ℕ → Option Capability
unfolding matches
find_in [] resource_type resource_id = none
find_in (cap ∷ caps) resource_type resource_id =
    if matches resource_type resource_id cap
    then some cap
    else find_in caps resource_type resource_id

unfoldable pub find_capability : WasmContext → ResourceType → ℕ → Option Capability
find_capability context resource_type resource_id =
    find_in context.capabilities resource_type resource_id

unfoldable pub has_capabilities : WasmContext → Bool
has_capabilities context = not (is_empty context.capabilities)

unfoldable pub grant_capability : WasmContext → Capability → WasmContext
grant_capability context capability = record context {
  capabilities = context.capabilities ++ capability ∷ [];
}

unfoldable pub capability_count : WasmContext → ℕ
capability_count context = length context.capabilities

-- An i32 that stands for -n.
abbrev pub minus : ℕ → ℕ
minus n = 2 ^ 32 - n

abbrev pub negative? : ℕ → Bool
negative? x = leb (2 ^ 31) x

-- `x as usize`.
abbrev pub as_usize : ℕ → ℕ
as_usize x = if negative? x then x + (2 ^ 64 - 2 ^ 32) else x

-- `+` and `saturating_add` on usize.
abbrev pub wrapping_add : ℕ → ℕ → ℕ
wrapping_add a b = (a + b) % 2 ^ 64

abbrev pub saturating_add : ℕ → ℕ → ℕ
saturating_add a b = min (a + b) (2 ^ 64 - 1)

-- `&data[start..end]`, which panics on a range that is not within the data.
unfoldable pub slice : List ℕ → ℕ → ℕ → Host (List ℕ)
slice mem start end =
    if ltb end start || ltb (length mem) end
    then panics
    else returns (take (end - start) (drop start mem))

-- A memory is at most 4 GiB, as WebAssembly has it.
abbrev pub IsWasmMemory : Option (List ℕ) → Type 0
IsWasmMemory none = Unit
IsWasmMemory (some mem) = length mem ≤ 2 ^ 32
