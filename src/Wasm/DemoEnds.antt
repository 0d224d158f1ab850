-- ===== src/Wasm/DemoEnds.antt =====
-- The demonstration `demo_04_mqtt` of src/demos/wasm_tests.rs comes to its end.
use jericho_os.Base.{
  ℕ, zero, suc, ◌+◌, ◌≤◌, ◌<◌, ◌≡◌, refl, sym, subst, Bool-cases, Option, none, some, List, [], ◌∷◌,
  ◌++◌, length, length-append, String, Option-cases, inl, inr, arith,
}
use jericho_os.Wasm.Guest.{Broker, IpcMessage}
use jericho_os.Wasm.Run.{Run, returned, halted, Yields, Yields-map, Yields-bind, Yields-weaken}
use jericho_os.Wasm.Load.{
  Linker, Interpreter, WasmModule, from_bytes, ready_module, started, new_context,
}
use jericho_os.Wasm.Isolation.{IsLinker, create_linker-Holds}
use jericho_os.Wasm.Deliver.{Value, i32, Runtime, answered, call_function, deliver_loop, count_for}
use jericho_os.Wasm.Limits.{Within}
use jericho_os.Wasm.Hosted.{HostCalls, IsHosted, IsHostedStart, HostCalls-Within}
use jericho_os.Wasm.Delivery.{IsQuiet, deliver_loop-ends, deliver_loop-Within}
use jericho_os.Wasm.Demo.{
  Result, early, completed, on_return, answers_zero, answers_i32, publish_rounds, with_publisher,
  with_subscriber, with_broker, demo_04_mqtt,
}

answered-statics : {M : Type 0} (r : M × Broker × Option (List Value)) → (answered r).1 ≡ r.1
unfolding answered
answered-statics (m, b, none) = refl
answered-statics (m, b, some results) = refl

-- A call of a hosted guest returns, within the limits.
call_function-Within :
    {M F : Type 0} (guest : Runtime M F) (m : M) (b : Broker) (name : String) (args : List Value)
    → IsHosted guest
    → Within 65 b
    → Yields ⊥ (λ r. Within 65 r.1) (call_function guest m b name args)
unfolding call_function
call_function-Within guest m b name args hosted w = elim (Option-cases (guest.get_func m name)) [
  | inl e ↦ rw (e, call_function) w
  | inr (func, e) ↦
      rw (e, call_function)
        (Yields-bind ⊥ (λ r. HostCalls b r.1) (λ r. Within 65 r.1) (guest.run m b func args) _
          (λ r calls.
            subst (Within 65) (sym (answered-statics r))
              (HostCalls-Within 65 b r.1 (omega arith) calls w))
          (hosted m b func args))
]

count_for-length :
    (client_id : ℕ) (queue : List IpcMessage) → count_for client_id queue ≤ length queue
unfolding count_for
count_for-length client_id [] = omega arith
count_for-length client_id (m ∷ rest) = ground (arith, count_for-length client_id rest)

-- How the demonstration ends: early, or after its rounds.
abbrev pub Ends : {S P : Type 0} → Option (Run (Result S P)) → Type 0
Ends none = ⊥
Ends (some (halted h)) = ⊥
Ends (some (returned (early b))) = Within 65 b
Ends (some (returned (completed s p b deliveries))) = Within 65 b × (length deliveries ≤ 5)

Ends-on_return :
    {A S P : Type 0} (Q : A → Type 0) (r : Run A) (next : A → Option (Run (Result S P)))
    → Yields ⊥ Q r
    → ((a : A) → Q a → Ends (next a))
    → Ends (on_return r next)
Ends-on_return Q (returned a) next q f = f a q
Ends-on_return Q (halted h) next d f = absurd d

ready_module-Within :
    (l : Linker) (w : Interpreter l) (r : Broker × Option w.Instance)
    → Within 65 r.0
    → Within 65 (ready_module l w (new_context []) r).0
unfolding ready_module
ready_module-Within l w (b, none) h = h
ready_module-Within l w (b, some i) h = h

started-Within :
    (l : Linker) (w : Interpreter l) (o : Option w.Instance) (b : Broker)
    → IsHostedStart w
    → Within 65 b
    → Yields ⊥ (λ r. Within 65 r.0) (started l w (new_context []) o b)
unfolding started
started-Within l w none b hosted h = h
started-Within l w (some i) b hosted h =
    Yields-bind ⊥ (λ r. HostCalls b r.0) (λ r. Within 65 r.0) (w.start i (new_context []) b) _
      (λ r calls. ready_module-Within l w r (HostCalls-Within 65 b r.0 (omega arith) calls h))
      (hosted i (new_context []) b)

-- Loading a guest with a hosted start returns, within the limits.
from_bytes-Within :
    (l : Linker) (w : Interpreter l) (wasm_bytes : List ℕ) (b : Broker)
    → IsLinker l
    → IsHostedStart w
    → Within 65 b
    → Yields ⊥ (λ r. Within 65 r.0) (from_bytes l w wasm_bytes b)
unfolding from_bytes
from_bytes-Within l w wasm_bytes b good hosted h = elim (Option-cases (w.parse wasm_bytes)) [
  | inl e ↦ rw (e, from_bytes) h
  | inr (parsed, e) ↦
      let (linker, linked, offers) = create_linker-Holds l good in
      rw (e, linked, from_bytes)
        (started-Within l w (w.instantiate linker (new_context []) parsed) b hosted h)
]

module _ (l : Linker) (ws wp wb : Interpreter l) {F G H : Type 0}
    (subscriber : Runtime (WasmModule ws.Instance) F)
    (publisher : Runtime (WasmModule wp.Instance) G) (broker : Runtime (WasmModule wb.Instance) H)
    (sub_bytes pub_bytes broker_bytes : List ℕ) where
  module _ (quiet : IsQuiet subscriber) (hosted : IsHosted publisher) where
    -- A delivery in a round, and the rounds after it.
    delivery-Ends :
        (s : WasmModule ws.Instance) (b : Broker)
        (next : WasmModule ws.Instance × Broker × ℕ
          → Option (Run (Result (WasmModule ws.Instance) (WasmModule wp.Instance))))
        → Within 65 b
        → ((r : WasmModule ws.Instance × Broker × ℕ) → Within 65 r.1 → Ends (next r))
        → Ends (elim (deliver_loop subscriber 66 s b 2 0) [
          | none ↦ none
          | some delivery ↦ on_return delivery next
        ])
    delivery-Ends s b next w goes_on =
        let few : count_for 2 b.queue < 66 = omega (arith, count_for-length 2 b.queue, w.shallow) in
        let (s₁, b₁, delivered, e, leaves) = deliver_loop-ends subscriber quiet 66 s b 2 0 few in
        let within₁ =
          deliver_loop-Within subscriber
            (λ m x name func args known found h.
              Yields-map Unit (λ r. r.1 ≡ x) (λ r. Within 64 r.1) (subscriber.run m x func args)
                (λ r same. subst (Within 64) (sym same) h)
                (Yields-weaken Unit (λ r. r.1 ≡ x) _ (quiet m x name func args known found)))
            66 s b 2 0 s₁ b₁ delivered w e in
        rw e (goes_on (s₁, b₁, delivered) within₁)

    publish_rounds-Ends :
        (n : ℕ) (s : WasmModule ws.Instance) (p : WasmModule wp.Instance) (b : Broker)
        (deliveries : List ℕ)
        → Within 65 b
        → length deliveries + n ≤ 5
        → Ends (
            publish_rounds l ws wp wb subscriber publisher broker sub_bytes pub_bytes broker_bytes
              66 n s p b deliveries)
    unfolding publish_rounds
    publish_rounds-Ends zero s p b deliveries w few = (w, omega (arith, few))
    publish_rounds-Ends (suc n) s p b deliveries w few =
        Ends-on_return (λ r. Within 65 r.1) (call_function publisher p b "publisher_run" []) _
          (call_function-Within publisher p b "publisher_run" [] hosted w)
          λ (p', b', answer) within. elim (Bool-cases (answers_i32 answer)) [
            | inr silent ↦
                rw silent (publish_rounds-Ends n s p' b' deliveries within (omega (arith, few)))
            | inl heard ↦ rw heard (
                delivery-Ends s b' _ within λ (s'', b'', delivered) h.
                  publish_rounds-Ends n s'' p' b'' (deliveries ++ delivered ∷ []) h
                    (omega (arith, few, length-append deliveries (delivered ∷ []))))
          ]

  module _ (good : IsLinker l) (quiet : IsQuiet subscriber) (hosted : IsHosted subscriber)
      (hosted₁ : IsHosted publisher) (hosted₂ : IsHosted broker) (start : IsHostedStart ws)
      (start₁ : IsHostedStart wp) (start₂ : IsHostedStart wb) where
    publisher-Ends :
        (s : WasmModule ws.Instance) (r : Broker × Option (WasmModule wp.Instance))
        → Within 65 r.0
        → Ends (
            with_publisher l ws wp wb subscriber publisher broker sub_bytes pub_bytes broker_bytes
              66 s r)
    unfolding with_publisher
    publisher-Ends s (b, none) w = w
    publisher-Ends s (b, some p) w =
        Ends-on_return (λ r. Within 65 r.1) (call_function publisher p b "publisher_init" []) _
          (call_function-Within publisher p b "publisher_init" [] hosted₁ w)
          λ (p', b', prepared) h. publish_rounds-Ends quiet hosted₁ 5 s p' b' [] h (omega arith)

    subscriber-Ends :
        (r : Broker × Option (WasmModule ws.Instance))
        → Within 65 r.0
        → Ends (
            with_subscriber l ws wp wb subscriber publisher broker sub_bytes pub_bytes broker_bytes
              66 r)
    unfolding with_subscriber
    subscriber-Ends (b, none) w = w
    subscriber-Ends (b, some s) w =
        Ends-on_return (λ r. Within 65 r.1)
          (call_function subscriber s b "subscriber_init" (i32 2 ∷ [])) _
          (call_function-Within subscriber s b "subscriber_init" (i32 2 ∷ []) hosted w)
          λ (s', b', subscribed) h.
            Ends-on_return (λ r. Within 65 r.0) (from_bytes l wp pub_bytes b') _
              (from_bytes-Within l wp pub_bytes b' good start₁ h) (publisher-Ends s')

    broker-Ends :
        (r : Broker × Option (WasmModule wb.Instance))
        → Within 65 r.0
        → Ends (
            with_broker l ws wp wb subscriber publisher broker sub_bytes pub_bytes broker_bytes 66
              r)
    unfolding with_broker
    broker-Ends (b, none) w = w
    broker-Ends (b, some m) w =
        Ends-on_return (λ r. Within 65 r.1) (call_function broker m b "broker_init" []) _
          (call_function-Within broker m b "broker_init" [] hosted₂ w)
          λ (m', b', answer) h. elim (Bool-cases (answers_zero answer)) [
            | inr refused ↦ rw refused h
            | inl zero_answer ↦ rw zero_answer (
                Ends-on_return (λ r. Within 65 r.0) (from_bytes l ws sub_bytes b') _
                  (from_bytes-Within l ws sub_bytes b' good start h) subscriber-Ends)
          ]

  -- The demonstration ends, with the fuel 66 for each delivery, when the linker behaves as its documentation says, the
  -- start and every function of the guests returns and changes the statics only by calls of host functions, the two
  -- functions of the subscriber for the delivery leave the statics alone, and the queue holds at most 65 messages of
  -- at most 512 bytes at the start. The queue is then within these limits again, and there were at most five
  -- deliveries.
  pub demo_04_mqtt-Ends :
      (b : Broker)
      → IsLinker l
      → IsQuiet subscriber
      → IsHosted subscriber
      → IsHosted publisher
      → IsHosted broker
      → IsHostedStart ws
      → IsHostedStart wp
      → IsHostedStart wb
      → Within 65 b
      → Ends (
          demo_04_mqtt l ws wp wb subscriber publisher broker sub_bytes pub_bytes broker_bytes 66 b)
  unfolding demo_04_mqtt
  demo_04_mqtt-Ends b good quiet hosted hosted₁ hosted₂ start start₁ start₂ w =
      Ends-on_return (λ r. Within 65 r.0) (from_bytes l wb broker_bytes b) _
        (from_bytes-Within l wb broker_bytes b good start₂ w)
        (broker-Ends good quiet hosted hosted₁ hosted₂ start start₁ start₂)
