-- ===== src/Wasm/Demo.antt =====
-- `demo_04_mqtt` of src/demos/wasm_tests.rs: a broker, a subscriber and a publisher, which are guests, and
-- five rounds of publishing and delivery. The bytes of the three guests and the interpreter of each are
-- parameters. `fuel` is what each delivery may use; `none` is fuel that ran out. A guest whose code does not
-- return ends the demonstration with `halted`.
use jericho_os.Base.{
  ℕ, zero, suc, Bool, Option, none, some, List, [], ◌∷◌, ◌++◌, ◌==◌, if◌then◌else◌,
}
use jericho_os.Wasm.Guest.{Broker}
use jericho_os.Wasm.Run.{Run, returned, halted}
use jericho_os.Wasm.Load.{Linker, Interpreter, WasmModule, from_bytes}
use jericho_os.Wasm.Deliver.{
  Value, i32, other_value, Call, done, failed, Runtime, call_function, deliver_loop,
}

-- The guests at the end, the statics, and the number of messages delivered in each round that got so
-- far, oldest first; or an early return.
pub data Result (S P : Type 0) : Type 0 where
  early : Broker → Result S P
  completed : S → P → Broker → List ℕ → Result S P

-- Whether a call answers with the i32 0, as `broker_init` has to.
abbrev pub answers_zero : Call (Option Value) → Bool
answers_zero (done (some (i32 code))) = code == 0
answers_zero (done (some other_value)) = Bool.false
answers_zero (done none) = Bool.false
answers_zero (failed problem) = Bool.false

-- Whether a call answers with an i32, as `publisher_run` has to before a delivery.
abbrev pub answers_i32 : Call (Option Value) → Bool
answers_i32 (done (some (i32 value))) = Bool.true
answers_i32 (done (some other_value)) = Bool.false
answers_i32 (done none) = Bool.false
answers_i32 (failed problem) = Bool.false

-- What follows code of a guest.
abbrev pub on_return : {A B : Type 0} → Run A → (A → Option (Run B)) → Option (Run B)
on_return (halted h) next = some (halted h)
on_return (returned a) next = next a

module _ (l : Linker) (ws wp wb : Interpreter l) {F G H : Type 0}
    (subscriber : Runtime (WasmModule ws.Instance) F)
    (publisher : Runtime (WasmModule wp.Instance) G) (broker : Runtime (WasmModule wb.Instance) H)
    (sub_bytes pub_bytes broker_bytes : List ℕ) (fuel : ℕ) where
  -- The rounds that are left, with the deliveries of those before.
  unfoldable pub publish_rounds :
      ℕ
      → WasmModule ws.Instance
      → WasmModule wp.Instance
      → Broker
      → List ℕ
      → Option (Run (Result (WasmModule ws.Instance) (WasmModule wp.Instance)))
  unfolding call_function deliver_loop
  publish_rounds zero s p b deliveries = some (returned (completed s p b deliveries))
  publish_rounds (suc n) s p b deliveries =
      on_return (call_function publisher p b "publisher_run" []) λ (p', b', answer).
        elim (answers_i32 answer) [
          | Bool.false ↦ publish_rounds n s p' b' deliveries
          | Bool.true ↦ elim (deliver_loop subscriber fuel s b' 2 0) [
            | none ↦ none
            | some delivery ↦
                on_return delivery
                  λ (s', b'', delivered). publish_rounds n s' p' b'' (deliveries ++ delivered ∷ [])
          ]
        ]

  -- What comes of the loading of the publisher; its answer to `publisher_init` is only printed.
  unfoldable pub with_publisher :
      WasmModule ws.Instance
      → Broker × Option (WasmModule wp.Instance)
      → Option (Run (Result (WasmModule ws.Instance) (WasmModule wp.Instance)))
  unfolding publish_rounds call_function
  with_publisher s (b, none) = some (returned (early b))
  with_publisher s (b, some p) =
      on_return (call_function publisher p b "publisher_init" [])
        λ (p', b', prepared). publish_rounds 5 s p' b' []

  -- The same for the subscriber and `subscriber_init`.
  unfoldable pub with_subscriber :
      Broker × Option (WasmModule ws.Instance)
      → Option (Run (Result (WasmModule ws.Instance) (WasmModule wp.Instance)))
  unfolding with_publisher call_function from_bytes
  with_subscriber (b, none) = some (returned (early b))
  with_subscriber (b, some s) =
      on_return (call_function subscriber s b "subscriber_init" (i32 2 ∷ []))
        λ (s', b', subscribed). on_return (from_bytes l wp pub_bytes b') (with_publisher s')

  -- What comes of the loading of the broker, which has to answer 0 to `broker_init`.
  unfoldable pub with_broker :
      Broker × Option (WasmModule wb.Instance)
      → Option (Run (Result (WasmModule ws.Instance) (WasmModule wp.Instance)))
  unfolding with_subscriber call_function from_bytes
  with_broker (b, none) = some (returned (early b))
  with_broker (b, some m) =
      on_return (call_function broker m b "broker_init" []) λ (m', b', answer).
        if answers_zero answer
        then on_return (from_bytes l ws sub_bytes b') with_subscriber
        else some (returned (early b'))

  unfoldable pub demo_04_mqtt :
      Broker → Option (Run (Result (WasmModule ws.Instance) (WasmModule wp.Instance)))
  unfolding with_broker from_bytes
  demo_04_mqtt b = on_return (from_bytes l wb broker_bytes b) with_broker
