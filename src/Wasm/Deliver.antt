-- ===== src/Wasm/Deliver.antt =====
-- `call_function` and `deliver_pending_messages` of src/wasm_runtime.rs. The interpreter is not part
-- of the repository: a `Runtime` gives what the kernel asks of it, over states `M` of the guest. A
-- call of a guest may call host functions, so it gets the broker and gives it back; and it need not
-- return.
use jericho_os.Base.{
  ℕ, zero, suc, ◌+◌, min, Bool, ◌||◌, Option, none, some, List, [], ◌∷◌, ◌++◌, length, take, drop,
  ltb, ◌==◌, String, if◌then◌else◌,
}
use jericho_os.Wasm.Run.{Run, returned, halted, ◌>>=◌}
use jericho_os.Wasm.Guest.{
  Broker, IpcMessage, max_ipc_message_size, negative?, as_usize, saturating_add,
}

-- A value of WebAssembly: the bit pattern of an i32, or one of another type.
pub data Value : Type 0 where
  i32 : ℕ → Value
  other_value : Value

pub data CallError : Type 0 where
  function_not_found failed_to_call : CallError

pub data Call {ℓ} (A : Type ℓ) : Type ℓ where
  done : A → Call A
  failed : CallError → Call A

-- What the interpreter offers; `run` gives the results, or none when the call traps, if it returns.
pub record Runtime (M F : Type 0) : Type 0 where
  pub get_func : M → String → Option F
  pub run : M → Broker → F → List Value → Run (M × Broker × Option (List Value))
  pub memory : M → Option (List ℕ)
  pub write : M → List ℕ → M

unfoldable pub first : List Value → Option Value
first [] = none
first (v ∷ vs) = some v

-- `copy_from_slice` into the range from `start` on.
unfoldable pub overwrite : List ℕ → ℕ → List ℕ → List ℕ
overwrite mem start bytes = take start mem ++ bytes ++ drop (start + length bytes) mem

-- `position` and `remove`: the first message for a client, and the queue without it.
unfoldable pub take_for : ℕ → List IpcMessage → Option (IpcMessage × List IpcMessage)
take_for client_id [] = none
take_for client_id (m ∷ rest) =
    if m.dest_client_id == client_id then some (m, rest) else elim (take_for client_id rest) [
      | none ↦ none
      | some (found, others) ↦ some (found, m ∷ others)
    ]

unfoldable pub count_for : ℕ → List IpcMessage → ℕ
count_for client_id [] = 0
count_for client_id (m ∷ rest) =
    (if m.dest_client_id == client_id then 1 else 0) + count_for client_id rest

unfoldable pub pending_message_count : Broker → ℕ → ℕ
pending_message_count b client_id = count_for client_id b.queue

unfoldable pub clear_ipc_queue : Broker → Broker
clear_ipc_queue b = record b { queue = [] }

-- How a round of the delivery ends: with the loop left, or gone on, and with whether the message was
-- delivered.
pub data Round (M : Type 0) : Type 0 where
  stops : M → Broker → Round M
  continues : M → Broker → Bool → Round M

-- What the answer to `subscriber_receive` comes to.
unfoldable pub received : {M : Type 0} → M × Broker × Call (Option Value) → Round M
received (m, b, done _) = continues m b Bool.true
received (m, b, failed _) = continues m b Bool.false

-- What `call_function` makes of the results.
unfoldable pub answered :
    {M : Type 0} → M × Broker × Option (List Value) → M × Broker × Call (Option Value)
unfolding first
answered (m, b, none) = (m, b, failed failed_to_call)
answered (m, b, some results) = (m, b, done (first results))

module _ {M F : Type 0} (guest : Runtime M F) where
  unfoldable pub call_function :
      M → Broker → String → List Value → Run (M × Broker × Call (Option Value))
  unfolding answered
  call_function m b name args = elim (guest.get_func m name) [
    | none ↦ returned (m, b, failed function_not_found)
    | some func ↦ guest.run m b func args >>= λ results. returned (answered results)
  ]

  -- The call of `subscriber_receive`, with the message in the buffer.
  unfoldable pub receive : M → Broker → ℕ → ℕ → Run (Round M)
  unfolding call_function received
  receive m b buffer_ptr msg_len =
      call_function m b "subscriber_receive" (i32 buffer_ptr ∷ i32 msg_len ∷ []) >>= λ result.
      returned (received result)

  -- The copy into the buffer at a positive address that the guest gave.
  unfoldable pub fill : M → Broker → List ℕ → ℕ → ℕ → Run (Round M)
  unfolding receive overwrite
  fill m b message msg_len buffer_ptr = elim (guest.memory m) [
    | none ↦ returned (stops m b)
    | some mem ↦
        if ltb (length mem) (saturating_add (as_usize buffer_ptr) msg_len)
        then returned (continues m b Bool.false)
        else receive (guest.write m (overwrite mem (as_usize buffer_ptr) (take msg_len message))) b
            buffer_ptr msg_len
  ]

  -- What the answer to `allocate_message_buffer` comes to. A call that failed puts the message back.
  unfoldable pub allocated : IpcMessage → ℕ → M × Broker × Call (Option Value) → Run (Round M)
  unfolding fill
  allocated ipc_msg msg_len (m, b, done (some (i32 ptr))) =
      if negative? ptr || (ptr == 0)
      then returned (continues m b Bool.false)
      else fill m b ipc_msg.message msg_len ptr
  allocated ipc_msg msg_len (m, b, done (some other_value)) = returned (continues m b Bool.false)
  allocated ipc_msg msg_len (m, b, done none) = returned (continues m b Bool.false)
  allocated ipc_msg msg_len (m, b, failed _) =
      returned (stops m (record b { queue = ipc_msg ∷ b.queue }))

  -- A round that has taken a message out of the queue.
  unfoldable pub deliver : M → Broker → IpcMessage → Run (Round M)
  unfolding allocated call_function
  deliver m b ipc_msg =
      let msg_len = min (length ipc_msg.message) max_ipc_message_size in
      call_function m b "allocate_message_buffer" (i32 msg_len ∷ []) >>= allocated ipc_msg msg_len

  -- The loop, on fuel: the guest, the broker and the number of deliveries. `none` is fuel that ran
  -- out.
  unfoldable pub deliver_loop : ℕ → M → Broker → ℕ → ℕ → Option (Run (M × Broker × ℕ))
  unfolding deliver
  deliver_loop zero m b client_id delivered = none
  deliver_loop (suc fuel) m b client_id delivered = elim (take_for client_id b.queue) [
    | none ↦ some (returned (m, b, delivered))
    | some (ipc_msg, others) ↦ elim (deliver m (record b { queue = others }) ipc_msg) [
      | halted h ↦ some (halted h)
      | returned (stops m' b') ↦ some (returned (m', b', delivered))
      | returned (continues m' b' arrived) ↦
          deliver_loop fuel m' b' client_id (if arrived then suc delivered else delivered)
    ]
  ]
