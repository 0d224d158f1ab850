-- ===== src/Wasm/Load.antt =====
-- `WasmModule` of src/wasm_runtime.rs: `create_linker`, `from_bytes` and the methods on the context. The
-- interpreter is not part of the repository: a `Linker` and an `Interpreter` give what the kernel asks of it.
use jericho_os.Base.{ℕ, Option, none, some, List, [], String}
use jericho_os.Capability.Token.{Capability}
use jericho_os.Wasm.Guest.{WasmContext, Broker}
use jericho_os.Wasm.Run.{Run, returned, halted, kernel_panics, ◌>>=◌}

-- The host functions that `create_linker` names.
pub data HostFunction : Type 0 where
  host_print host_sys_print host_sys_print_u32 host_sys_mqtt_subscribe : HostFunction
  host_sys_mqtt_publish host_sys_ipc_send host_syscall : HostFunction

-- The linker of the interpreter. `func_wrap` defines a function under the names of a module and of a function in it;
-- `none` is its error. `get` is what an import of these names is linked to.
pub record Linker : Type 1 where
  pub Table : Type 0
  pub new : Table
  pub func_wrap : Table → String → String → HostFunction → Option Table
  pub get : Table → String → String → Option HostFunction

-- `expect`, which panics on an error.
unfoldable pub expect {ℓ} : {A : Type ℓ} → Option A → Run A
expect none = halted kernel_panics
expect (some a) = returned a

module _ (l : Linker) where
  unfoldable pub create_linker : Run l.Table
  unfolding expect
  create_linker = expect (l.func_wrap l.new "env" "print" host_print) >>= λ t.
      expect (l.func_wrap t "env" "sys_print" host_sys_print) >>= λ t.
      expect (l.func_wrap t "env" "sys_print_u32" host_sys_print_u32) >>= λ t.
      expect (l.func_wrap t "env" "sys_mqtt_subscribe" host_sys_mqtt_subscribe) >>= λ t.
      expect (l.func_wrap t "env" "sys_mqtt_publish" host_sys_mqtt_publish) >>= λ t.
      expect (l.func_wrap t "env" "sys_ipc_send" host_sys_ipc_send) >>= λ t.
      expect (l.func_wrap t "env" "syscall" host_syscall)

-- The steps of loading, each of which can fail: the parser and validator, the instantiation, and the start of
-- the instance, which runs code of the guest and need not return.
pub record Interpreter (l : Linker) : Type 1 where
  pub Module : Type 0
  pub Instance : Type 0
  pub parse : List ℕ → Option Module
  pub instantiate : l.Table → WasmContext → Module → Option Instance
  pub start : Instance → WasmContext → Broker → Run (Broker × Option Instance)

-- The context is kept in the store.
pub record WasmModule (Instance : Type 0) : Type 0 where
  pub context : WasmContext
  pub instance_ : Instance

-- `WasmContext::new`.
unfoldable pub new_context : List Capability → WasmContext
new_context capabilities = record { capabilities = capabilities }

module _ (l : Linker) (w : Interpreter l) where
  -- What the start comes to.
  unfoldable pub ready_module :
      WasmContext → Broker × Option w.Instance → Broker × Option (WasmModule w.Instance)
  ready_module context (b, none) = (b, none)
  ready_module context (b, some i) = (b, some (record { context = context; instance_ = i }))

  -- What follows the instantiation.
  unfoldable pub started :
      WasmContext → Option w.Instance → Broker → Run (Broker × Option (WasmModule w.Instance))
  unfolding ready_module
  started context none b = returned (b, none)
  started context (some i) b = w.start i context b >>= λ r. returned (ready_module context r)

  -- What comes of a guest: the statics, since its start may change them, and the module, or none for an error.
  unfoldable pub from_bytes : List ℕ → Broker → Run (Broker × Option (WasmModule w.Instance))
  unfolding create_linker new_context started
  from_bytes wasm_bytes b = elim (w.parse wasm_bytes) [
    | none ↦ returned (b, none)
    | some module_ ↦
        let context = new_context [] in
        create_linker l >>= λ linker. started context (w.instantiate linker context module_) b
  ]

  unfoldable pub load_and_validate : List ℕ → Broker → Run (Broker × Option (WasmModule w.Instance))
  unfolding from_bytes
  load_and_validate wasm_bytes b = from_bytes wasm_bytes b
