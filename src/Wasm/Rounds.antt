-- ===== src/Wasm/Rounds.antt =====
-- One round of `deliver_pending_messages` of src/wasm_runtime.rs: what a round keeps, and what the loop
-- makes of it.
use jericho_os.Base.{
  ℕ, ◌||◌, suc, min, ◌≡◌, refl, ◌⊎◌, inl, inr, Bool, Option, none, some, List, [], ◌∷◌, length,
  String, subst, ltb, ◌==◌, ap, if◌then◌else◌, Bool-cases, Option-cases, arith,
}
use jericho_os.Wasm.Guest.{
  Broker, IpcMessage, max_ipc_message_size, as_usize, saturating_add, negative?,
}
use jericho_os.Wasm.Run.{Run, returned, halted, Halt, Yields, Yields-map, Yields-bind}
use jericho_os.Wasm.Deliver.{
  answered, Runtime, Value, i32, other_value, Call, done, failed, Round, stops, continues, take_for,
  call_function, received, receive, fill, allocated, deliver, deliver_loop,
}

-- The statics after a round.
abbrev pub after : {M : Type 0} → Round M → Broker
after (stops m b) = b
after (continues m b arrived) = b

-- The functions of a guest that the delivery calls.
abbrev pub DeliveryCall : String → Type 0
DeliveryCall name = (name ≡ "allocate_message_buffer") ⊎ (name ≡ "subscriber_receive")

-- How a round may end: what `P` says holds, but for the message that it may put back.
abbrev pub Kept : {M : Type 0} → (Broker → Type 0) → IpcMessage → Round M → Type 0
Kept {M} P msg r =
    P (after r)
    ⊎ ((m : M) × (b : Broker) × (r ≡ stops m (record b { queue = msg ∷ b.queue })) × P b)

-- What a call of the delivery keeps: what the two functions of the guest keep. `D` is what holds of a
-- call that does not return.
module _ {M F : Type 0} (guest : Runtime M F) (D : Type 0) (P : Broker → Type 0)
    (keeps : (m : M) (b : Broker) (name : String) (func : F) (args : List Value)
      → DeliveryCall name
      → guest.get_func m name ≡ some func
      → P b
      → Yields D (λ r. P r.1) (guest.run m b func args)) where
  answered-keeps : (r : M × Broker × Option (List Value)) → P r.1 → P (answered r).1
  unfolding answered
  answered-keeps (m, b, none) p = p
  answered-keeps (m, b, some results) p = p

  call_function-keeps :
      (m : M) (b : Broker) (name : String) (args : List Value)
      → DeliveryCall name
      → P b
      → Yields D (λ r. P r.1) (call_function guest m b name args)
  unfolding call_function
  call_function-keeps m b name args known p = elim (Option-cases (guest.get_func m name)) [
    | inl e ↦ rw (e, call_function) p
    | inr (func, e) ↦
        rw (e, call_function)
          (Yields-bind D (λ r. P r.1) (λ r. P r.1) (guest.run m b func args) _ answered-keeps
            (keeps m b name func args known e p))
  ]

  received-keeps : (r : M × Broker × Call (Option Value)) → P r.1 → P (after (received r))
  unfolding received
  received-keeps (m, b, done v) p = p
  received-keeps (m, b, failed e) p = p

  fill-keeps :
      (m : M) (b : Broker) (message : List ℕ) (msg_len buffer_ptr : ℕ)
      → P b
      → Yields D (λ r. P (after r)) (fill guest m b message msg_len buffer_ptr)
  unfolding fill receive
  fill-keeps m b message msg_len buffer_ptr p = elim (Option-cases (guest.memory m)) [
    | inl e ↦ rw (e, fill) p
    | inr (mem, e) ↦
        elim (Bool-cases (ltb (length mem) (saturating_add (as_usize buffer_ptr) msg_len))) [
          | inl outside ↦ rw (e, fill, outside) p
          | inr inside ↦
              rw (e, fill, inside)
                (Yields-bind D (λ r. P r.1) (λ r. P (after r)) _ _ received-keeps
                  (call_function-keeps _ b "subscriber_receive" _ (inr refl) p))
        ]
  ]

  allocated-keeps :
      (msg : IpcMessage) (msg_len : ℕ) (r : M × Broker × Call (Option Value))
      → P r.1
      → Yields D (Kept P msg) (allocated guest msg msg_len r)
  unfolding allocated
  allocated-keeps msg msg_len (m, b, done (some (i32 ptr))) p =
      elim (Bool-cases (negative? ptr || (ptr == 0))) [
        | inl bad ↦ rw bad (inl p)
        | inr good ↦ rw good (
            Yields-map D (λ r. P (after r)) (Kept P msg) (fill guest m b msg.message msg_len ptr)
              (λ r. inl) (fill-keeps m b msg.message msg_len ptr p))
      ]
  allocated-keeps msg msg_len (m, b, done (some other_value)) p = inl p
  allocated-keeps msg msg_len (m, b, done none) p = inl p
  allocated-keeps msg msg_len (m, b, failed e) p = inr (m, b, refl, p)

  pub deliver-keeps :
      (m : M) (b : Broker) (msg : IpcMessage) → P b → Yields D (Kept P msg) (deliver guest m b msg)
  unfolding deliver
  deliver-keeps m b msg p =
      let msg_len = min (length msg.message) max_ipc_message_size in
      let request : List Value = i32 msg_len ∷ [] in
      Yields-bind D (λ r. P r.1) (Kept P msg) _ (allocated guest msg msg_len)
        (allocated-keeps msg msg_len)
        (call_function-keeps m b "allocate_message_buffer" request (inl refl) p)

pub Round-cases :
    {M : Type 0} (r : Run (Round M))
    → ((m : M) × (b : Broker) × (r ≡ returned (stops m b)))
      ⊎ ((m : M) × (b : Broker) × (arrived : Bool) × (r ≡ returned (continues m b arrived)))
      ⊎ ((h : Halt) × (r ≡ halted h))
Round-cases (returned (stops m b)) = inl (m, b, refl)
Round-cases (returned (continues m b arrived)) = inr (inl (m, b, arrived, refl))
Round-cases (halted h) = inr (inr (h, refl))

pub went_on :
    {M : Type 0} (msg : IpcMessage) (r : Round M) (P : Broker → Type 0)
    → Kept P msg r
    → (m : M) (b : Broker) (arrived : Bool) → r ≡ continues m b arrived
    → P b
went_on msg r P (inl p) m b arrived q = subst P (ap after q) p
went_on msg r P (inr (m', b', e, p)) m b arrived q = absurd (ground arith)

module _ {M F : Type 0} (guest : Runtime M F) where
  pub loop_done :
      (fuel : ℕ) (m : M) (b : Broker) (client_id delivered : ℕ)
      → take_for client_id b.queue ≡ none
      → deliver_loop guest (suc fuel) m b client_id delivered ≡ some (returned (m, b, delivered))
  unfolding deliver_loop
  loop_done fuel m b client_id delivered e = ground arith

  pub loop_stops :
      (fuel : ℕ) (m : M) (b : Broker) (client_id delivered : ℕ) (msg : IpcMessage)
      (rest : List IpcMessage) (m' : M) (b' : Broker)
      → take_for client_id b.queue ≡ some (msg, rest)
      → deliver guest m (record b { queue = rest }) msg ≡ returned (stops m' b')
      → deliver_loop guest (suc fuel) m b client_id delivered ≡ some (returned (m', b', delivered))
  unfolding deliver_loop
  loop_stops fuel m b client_id delivered msg rest m' b' e e' = rw (e, deliver_loop, e') refl

  pub loop_continues :
      (fuel : ℕ) (m : M) (b : Broker) (client_id delivered : ℕ) (msg : IpcMessage)
      (rest : List IpcMessage) (m' : M) (b' : Broker) (arrived : Bool)
      → take_for client_id b.queue ≡ some (msg, rest)
      → deliver guest m (record b { queue = rest }) msg ≡ returned (continues m' b' arrived)
      → deliver_loop guest (suc fuel) m b client_id delivered
        ≡ deliver_loop guest fuel m' b' client_id (if arrived then suc delivered else delivered)
  unfolding deliver_loop
  loop_continues fuel m b client_id delivered msg rest m' b' arrived e e' =
      rw (e, deliver_loop, e') refl

  pub loop_halts :
      (fuel : ℕ) (m : M) (b : Broker) (client_id delivered : ℕ) (msg : IpcMessage)
      (rest : List IpcMessage) (h : Halt)
      → take_for client_id b.queue ≡ some (msg, rest)
      → deliver guest m (record b { queue = rest }) msg ≡ halted h
      → deliver_loop guest (suc fuel) m b client_id delivered ≡ some (halted h)
  unfolding deliver_loop
  loop_halts fuel m b client_id delivered msg rest h e e' = rw (e, deliver_loop, e') refl
