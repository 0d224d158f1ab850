-- ===== src/Wasm/Endless.antt =====
-- A guest for which `deliver_pending_messages` of src/wasm_runtime.rs never ends: it publishes a
-- message whenever it receives one, and is a subscriber itself.
use jericho_os.Base.{
  zero, suc, ◌≡◌, refl, true, none, some, Option, List, [], ◌∷◌, ℕ, String, ==_self, ◌∙◌, arith,
}
use jericho_os.Wasm.Guest.{Broker, Caller, Host, returns, panics, slice}
use jericho_os.Wasm.Calls.{publish, enqueue_all, ◌then◌}
use jericho_os.Wasm.Run.{Run, returned, halted, kernel_panics}
use jericho_os.Wasm.Deliver.{Value, Runtime, i32, take_for, deliver, deliver_loop, continues}
use jericho_os.Wasm.Rounds.{loop_continues}

abbrev echo_caller : Caller
echo_caller = record { context = record { capabilities = [] }; memory = some (7 ∷ 7 ∷ 7 ∷ 7 ∷ []) }

-- What a function of a guest comes to that calls a host function and gives no result.
abbrev pub after_host :
    {M : Type 0} → M → Host (Broker × ℕ) → Run (M × Broker × Option (List Value))
after_host m (returns (b, answer)) = returned (m, b, some [])
after_host m panics = halted kernel_panics

-- It gives address 1 for a buffer, and publishes one byte when it is called with a message.
abbrev pub echo : Runtime (Unit {0}) String
echo = record {
  get_func = λ m name. some name;
  run = λ m b func args. elim args [
    | [] ↦ returned (m, b, some [])
    | v ∷ more ↦ elim more [
      | [] ↦ returned (m, b, some (i32 1 ∷ []))
      | w ∷ others ↦ after_host m (publish echo_caller b 0 0 0 1)
    ]
  ];
  memory = λ m. echo_caller.memory;
  write = λ m bytes. m;
}

-- One subscriber, and one message of one byte for it.
abbrev pub echo_broker : ℕ → Broker
echo_broker client_id = record {
  queue = record { dest_client_id = client_id; message = 7 ∷ [] } ∷ [];
  subscribers = client_id ∷ [];
}

-- A round delivers the message, and leaves the queue as it was.
echo_round :
    (client_id : ℕ)
    → deliver echo tt
        (record (echo_broker client_id) { queue = [] })
        (record { dest_client_id = client_id; message = 7 ∷ [] })
      ≡ returned (continues tt (echo_broker client_id) true)
unfolding deliver publish slice enqueue_all ◌then◌
echo_round client_id = refl

-- No number of rounds is enough to deliver the messages for a guest that is a subscriber and publishes
-- a message whenever it receives one: the loop never ends.
pub echo_endless :
    (client_id fuel delivered : ℕ)
    → deliver_loop echo fuel tt (echo_broker client_id) client_id delivered ≡ none
unfolding take_for
echo_endless client_id zero delivered = unfold deliver_loop in refl
echo_endless client_id (suc fuel) delivered =
    loop_continues echo fuel tt (echo_broker client_id) client_id delivered
      (record { dest_client_id = client_id; message = 7 ∷ [] }) [] tt (echo_broker client_id) true
      (ground (arith, ==_self client_id)) (echo_round client_id)
    ∙ echo_endless client_id fuel (suc delivered)
