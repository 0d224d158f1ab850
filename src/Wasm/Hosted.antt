-- ===== src/Wasm/Hosted.antt =====
-- Guests of src/wasm_runtime.rs that reach the statics only through the host functions.
use jericho_os.Base.{ℕ, ◌≤◌, List}
use jericho_os.Wasm.Guest.{Broker, Caller, WasmContext, IsWasmMemory}
use jericho_os.Wasm.Run.{Yields}
use jericho_os.Wasm.Load.{Linker, Interpreter}
use jericho_os.Wasm.Deliver.{Value, Runtime}
use jericho_os.Wasm.Limits.{Within, HostCall, HostCall-Within}

-- The statics after any number of calls of host functions.
pub data HostCalls (b : Broker) : Broker → Type 0 where
  no_call : HostCalls b b
  and_call :
      {b' b'' : Broker} (caller : Caller)
      → HostCalls b b'
      → IsWasmMemory caller.memory
      → HostCall caller b' b''
      → HostCalls b b''

-- Whatever function of the guest runs, it returns, and the statics change only by calls of host functions.
abbrev pub IsHosted : {M F : Type 0} → Runtime M F → Type 0
IsHosted {M} {F} guest =
    (m : M) (b : Broker) (func : F) (args : List Value)
    → Yields ⊥ (λ r. HostCalls b r.1) (guest.run m b func args)

-- The same for the start of a guest.
abbrev pub IsHostedStart : {l : Linker} → Interpreter l → Type 0
IsHostedStart w =
    (i : w.Instance) (context : WasmContext) (b : Broker)
    → Yields ⊥ (λ r. HostCalls b r.0) (w.start i context b)

-- Such calls keep a queue within limits of at least 64 messages.
pub HostCalls-Within :
    (depth : ℕ) (b b' : Broker) → 64 ≤ depth → HostCalls b b' → Within depth b → Within depth b'
HostCalls-Within depth b b' deep no_call w = w
HostCalls-Within depth b b'' deep (and_call {b'} caller before h call) w =
    HostCall-Within depth caller b' b'' deep h call (HostCalls-Within depth b b' deep before w)
