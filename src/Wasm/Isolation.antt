-- ===== src/Wasm/Isolation.antt =====
-- What a guest that src/wasm_runtime.rs has loaded can reach: the functions that it is linked to, and what these
-- refuse.
use jericho_os.Base.{
  ℕ, ◌≡◌, refl, ◌∙◌, ◌&&◌, Bool-cases, Option, none, some, Option-cases, List, [], String,
  if◌then◌else◌, ◌⊎◌, inl, inr,
}
use text.Mathlib.Text.{◌==◌ as str_eq}
use jericho_os.Wasm.Guest.{
  WasmContext, Broker, returns, minus, capability_count, find_capability, find_in, has_capabilities,
}
use jericho_os.Wasm.Run.{Run, returned, halted, ◌>>=◌}
use jericho_os.Wasm.Calls.{ipc_send, host_syscall, too_large}
use jericho_os.Wasm.Load.{
  HostFunction, host_print, host_sys_print, host_sys_print_u32, host_sys_mqtt_subscribe,
  host_sys_mqtt_publish, host_sys_ipc_send, host_syscall as host_syscall_, Linker, Interpreter,
  WasmModule, expect, create_linker, new_context, ready_module, started, from_bytes,
}

-- The documented behaviour of the linker: it defines a function under names that are not taken.
pub record IsLinker (l : Linker) : Type 0 where
  pub get-new : (m n : String) → l.get l.new m n ≡ none
  pub wraps :
      (t : l.Table) (m n : String) (f : HostFunction)
      → l.get t m n ≡ none
      → (t' : l.Table) × (l.func_wrap t m n f ≡ some t')
        × ((m' n' : String)
            → l.get t' m' n' ≡ (if str_eq m' m && str_eq n' n then some f else l.get t m' n'))

-- The functions of one name more.
abbrev offer : String → HostFunction → (String → Option HostFunction) → String → Option HostFunction
offer name f named n = if str_eq n name then some f else named n

abbrev nothing : String → Option HostFunction
nothing n = none

-- The names under which a guest can import from "env", and the functions that it gets.
abbrev pub env_function : String → Option HostFunction
env_function = offer "syscall" host_syscall_ (
    offer "sys_ipc_send" host_sys_ipc_send (
      offer "sys_mqtt_publish" host_sys_mqtt_publish (
        offer "sys_mqtt_subscribe" host_sys_mqtt_subscribe (
          offer "sys_print_u32" host_sys_print_u32
            (offer "sys_print" host_sys_print (offer "print" host_print nothing))))))

-- A table that holds these functions of "env", and nothing else.
abbrev pub Holds : (l : Linker) → l.Table → (String → Option HostFunction) → Type 0
Holds l t named = (m n : String) → l.get t m n ≡ (if str_eq m "env" then named n else none)

module _ (l : Linker) (good : IsLinker l) where
  Holds-offer :
      (t : l.Table) (named : String → Option HostFunction) (name : String) (f : HostFunction)
      → Holds l t named
      → named name ≡ none
      → (t' : l.Table) × (expect (l.func_wrap t "env" name f) ≡ returned t')
        × Holds l t' (offer name f named)
  unfolding expect
  Holds-offer t named name f holds free =
      let (t', e, all) = good.wraps t "env" name f (holds "env" name ∙ free) in
      (
        t',
        rw (e, expect) refl,
        λ m n. all m n ∙ elim (Bool-cases (str_eq m "env")) [
          | inl same ↦ elim (Bool-cases (str_eq n name)) [
            | inl named ↦ rw (same, named) refl
            | inr other ↦ rw (same, other) (holds m n ∙ rw same refl)
          ]
          | inr other ↦ rw other (holds m n ∙ rw other refl)
        ],
      )

  -- A step of `create_linker`, before others that end with the table `all`.
  Holds-then :
      (t : l.Table) (named all : String → Option HostFunction) (name : String) (f : HostFunction)
      (rest : l.Table → Run l.Table)
      → Holds l t named
      → named name ≡ none
      → ((t' : l.Table)
          → Holds l t' (offer name f named)
          → (u : l.Table) × (rest t' ≡ returned u) × Holds l u all)
      → (u : l.Table) × ((expect (l.func_wrap t "env" name f) >>= rest) ≡ returned u)
        × Holds l u all
  Holds-then t named all name f rest holds free goes_on =
      let (t', e, h) = Holds-offer t named name f holds free in
      let (u, e', h') = goes_on t' h in (u, rw e e', h')

  pub create_linker-Holds : (t : l.Table) × (create_linker l ≡ returned t) × Holds l t env_function
  unfolding create_linker
  create_linker-Holds =
      let empty : Holds l l.new nothing = λ m n.
        good.get-new m n ∙ elim (Bool-cases (str_eq m "env")) [
          | inl same ↦ rw same refl
          | inr other ↦ rw other refl
        ] in
      Holds-then l.new nothing env_function "print" host_print _ empty refl λ t h.
        Holds-then t _ env_function "sys_print" host_sys_print _ h refl λ t h.
          Holds-then t _ env_function "sys_print_u32" host_sys_print_u32 _ h refl λ t h.
            Holds-then t _ env_function "sys_mqtt_subscribe" host_sys_mqtt_subscribe _ h refl λ t h.
              Holds-then t _ env_function "sys_mqtt_publish" host_sys_mqtt_publish _ h refl λ t h.
                Holds-then t _ env_function "sys_ipc_send" host_sys_ipc_send _ h refl
                  λ t h. Holds-offer t _ "syscall" host_syscall_ h refl

-- A guest without capabilities: the host functions refuse it what a capability is needed for, and change nothing.
pub record IsIsolated (context : WasmContext) : Type 0 where
  pub holds_none : capability_count context ≡ 0
  pub cannot_send :
      (memory : Option (List ℕ)) (b : Broker) (dest msg_ptr msg_len : ℕ)
      → ipc_send (record { context = context; memory = memory }) b dest msg_ptr msg_len
        ≡ returns (b, if too_large msg_len then minus 4 else minus 1)
  pub cannot_allocate :
      (memory : Option (List ℕ)) (arg1 arg2 arg3 : ℕ)
      → host_syscall (record { context = context; memory = memory }) 2 arg1 arg2 arg3 ≡ 0

new_context-IsIsolated : IsIsolated (new_context [])
unfolding new_context capability_count ipc_send find_capability find_in host_syscall
    has_capabilities
new_context-IsIsolated = record {
  holds_none = refl;
  cannot_send = λ memory b dest msg_ptr msg_len. elim (Bool-cases (too_large msg_len)) [
    | inl large ↦ rw large refl
    | inr small ↦ rw small refl
  ];
  cannot_allocate = λ memory arg1 arg2 arg3. refl;
}

module _ (l : Linker) (w : Interpreter l) where
  -- How a guest comes to its start, and what its start comes to.
  pub record Starts (wasm_bytes : List ℕ) (b : Broker) (r : Run (Broker × Option w.Instance))
      : Type 0 where
    pub parsed : w.Module
    pub linker : l.Table
    pub instance_ : w.Instance
    pub parses : w.parse wasm_bytes ≡ some parsed
    pub offers : Holds l linker env_function
    pub instantiates : w.instantiate linker (new_context []) parsed ≡ some instance_
    pub starts : w.start instance_ (new_context []) b ≡ r

  -- How the loading of a guest may end.
  abbrev pub LoadEnds : List ℕ → Broker → Run (Broker × Option (WasmModule w.Instance)) → Type 0
  LoadEnds wasm_bytes b (halted h) = Starts wasm_bytes b (halted h)
  LoadEnds wasm_bytes b (returned (b', none)) = (b' ≡ b) ⊎ Starts wasm_bytes b (returned (b', none))
  LoadEnds wasm_bytes b (returned (b', some m)) =
      Starts wasm_bytes b (returned (b', some m.instance_)) × IsIsolated m.context

  module _ (wasm_bytes : List ℕ) (b : Broker) (parsed : w.Module) (linker : l.Table)
      (parses : w.parse wasm_bytes ≡ some parsed) (offers : Holds l linker env_function) where
    start-LoadEnds :
        (r : Run (Broker × Option w.Instance))
        → Starts wasm_bytes b r
        → LoadEnds wasm_bytes b (r >>= λ x. returned (ready_module l w (new_context []) x))
    unfolding ready_module
    start-LoadEnds (halted h) s = s
    start-LoadEnds (returned (b', none)) s = inr s
    start-LoadEnds (returned (b', some i)) s = (s, new_context-IsIsolated)

    started-LoadEnds :
        (o : Option w.Instance)
        → w.instantiate linker (new_context []) parsed ≡ o
        → LoadEnds wasm_bytes b (started l w (new_context []) o b)
    unfolding started
    started-LoadEnds none e = inl refl
    started-LoadEnds (some i) e = start-LoadEnds (w.start i (new_context []) b) (record {
      parsed = parsed;
      linker = linker;
      instance_ = i;
      parses = parses;
      offers = offers;
      instantiates = e;
      starts = refl;
    })

  -- Let the linker behave as its documentation says. Loading a guest stops or blocks the kernel only where the
  -- start of the guest, which runs its code, does so itself; all the rest returns, whatever the interpreter makes of
  -- the bytes. An error leaves the statics alone, unless it is one of the start. The imports of a guest that comes to
  -- its start are linked to the seven functions of `env_function`, each by its name in "env", and to nothing else. A
  -- guest that is loaded has no capabilities: each message that it sends by `ipc_send` is refused, and so is the
  -- allocation by `syscall`.
  pub from_bytes-LoadEnds :
      (wasm_bytes : List ℕ) (b : Broker)
      → IsLinker l
      → LoadEnds wasm_bytes b (from_bytes l w wasm_bytes b)
  unfolding from_bytes
  from_bytes-LoadEnds wasm_bytes b good = elim (Option-cases (w.parse wasm_bytes)) [
    | inl e ↦ rw (e, from_bytes) (inl refl)
    | inr (parsed, e) ↦
        let (linker, linked, offers) = create_linker-Holds l good in
        rw (e, linked, from_bytes) (started-LoadEnds wasm_bytes b parsed linker e offers _ refl)
  ]
