-- ===== src/Wasm/Calls.antt =====
-- The host functions of src/wasm_runtime.rs, in the order of the source. Each takes its arguments as
-- bit patterns, and the statics that it locks.
use jericho_os.Base.{
  ℕ, ◌%◌, ◌^◌, Bool, ◌||◌, Option, none, some, List, [], ◌∷◌, ◌++◌, length, contains, ltb, leb,
  ◌==◌, if◌then◌else◌,
}
use jericho_os.Capability.Token.{endpoint}
use jericho_os.Wasm.Guest.{
  Broker, Caller, Host, returns, panics, IpcMessage, find_capability, has_capabilities, minus,
  negative?, as_usize, wrapping_add, saturating_add, slice, max_ipc_message_size,
  max_ipc_queue_depth,
}

infix 30 ◌then◌
unfoldable pub ◌then◌ {ℓ κ} : {A : Type ℓ} {B : Type κ} → Host A → (A → Host B) → Host B
returns a then f = f a
panics then f = panics

-- What `sys_print` reads once it has the memory: the bytes to print, or none for an address that the
-- check refuses.
unfoldable pub print_from : List ℕ → ℕ → ℕ → Host (Option (List ℕ))
unfolding ◌then◌
print_from mem msg_ptr msg_len =
    if ltb (length mem) (wrapping_add msg_ptr msg_len)
    then returns none
    else slice mem msg_ptr (wrapping_add msg_ptr msg_len) then λ bytes. returns (some bytes)

unfoldable pub sys_print : Caller → ℕ → ℕ → Host (Option (List ℕ))
unfolding print_from
sys_print caller msg_ptr msg_len = elim caller.memory [
  | none ↦ returns none
  | some mem ↦ print_from mem (as_usize msg_ptr) (as_usize msg_len)
]

-- The generic system call of the demo: read, write and allocate.
unfoldable pub host_syscall : Caller → ℕ → ℕ → ℕ → ℕ → ℕ
host_syscall caller syscall_num arg1 arg2 arg3 =
    if syscall_num == 0
    then (if arg1 == 99 then minus 1 else 0)
    else if syscall_num == 1
    then arg3
    else if syscall_num == 2
    then (if has_capabilities caller.context then 16384 else 0)
    else minus 1

-- The registration, which keeps a client once.
unfoldable pub register : Broker → ℕ → Broker
register b client_id =
    if contains b.subscribers client_id
    then b
    else record b { subscribers = b.subscribers ++ client_id ∷ [] }

unfoldable pub subscribe_from : Broker → List ℕ → ℕ → ℕ → ℕ → Host (Broker × ℕ)
unfolding ◌then◌ register
subscribe_from b mem client_id topic_ptr topic_len =
    if ltb (length mem) (wrapping_add topic_ptr topic_len)
    then returns (b, minus 1)
    else slice mem topic_ptr (wrapping_add topic_ptr topic_len) then λ topic.
        returns (register b client_id, 0)

unfoldable pub subscribe : Caller → Broker → ℕ → ℕ → ℕ → Host (Broker × ℕ)
unfolding subscribe_from
subscribe caller b client_id topic_ptr topic_len = elim caller.memory [
  | none ↦ returns (b, minus 1)
  | some mem ↦ subscribe_from b mem client_id (as_usize topic_ptr) (as_usize topic_len)
]

-- The loop of `publish` over the subscribers, which stops at a full queue.
unfoldable pub enqueue_all : List ℕ → List ℕ → List IpcMessage → List IpcMessage
enqueue_all [] msg queue = queue
enqueue_all (client_id ∷ rest) msg queue =
    if leb max_ipc_queue_depth (length queue)
    then queue
    else enqueue_all rest msg (queue ++ record { dest_client_id = client_id; message = msg } ∷ [])

unfoldable pub too_large : ℕ → Bool
too_large msg_len = negative? msg_len || ltb max_ipc_message_size (as_usize msg_len)

unfoldable pub out_of_bounds : List ℕ → ℕ → ℕ → Bool
out_of_bounds mem ptr len = ltb (length mem) (saturating_add ptr len)

unfoldable pub publish_from : Broker → List ℕ → ℕ → ℕ → ℕ → ℕ → Host (Broker × ℕ)
unfolding ◌then◌ enqueue_all out_of_bounds
publish_from b mem topic_ptr topic_len msg_ptr msg_len =
    if out_of_bounds mem topic_ptr topic_len || out_of_bounds mem msg_ptr msg_len
    then returns (b, minus 3)
    else slice mem topic_ptr (wrapping_add topic_ptr topic_len) then λ topic.
        slice mem msg_ptr (wrapping_add msg_ptr msg_len) then λ msg.
        returns (
          record b { queue = enqueue_all b.subscribers msg b.queue },
          length b.subscribers % 2 ^ 32,
        )

unfoldable pub publish : Caller → Broker → ℕ → ℕ → ℕ → ℕ → Host (Broker × ℕ)
unfolding publish_from too_large
publish caller b topic_ptr topic_len msg_ptr msg_len =
    if too_large msg_len then returns (b, minus 4) else elim caller.memory [
      | none ↦ returns (b, minus 1)
      | some mem ↦
          publish_from b mem (as_usize topic_ptr) (as_usize topic_len) (as_usize msg_ptr)
            (as_usize msg_len)
    ]

-- The end of `ipc_send`, with the message in hand.
unfoldable pub push : Broker → ℕ → List ℕ → Broker × ℕ
push b dest msg =
    if leb max_ipc_queue_depth (length b.queue)
    then (b, minus 5)
    else (record b { queue = b.queue ++ record { dest_client_id = dest; message = msg } ∷ [] }, 0)

unfoldable pub send_from : Broker → List ℕ → ℕ → ℕ → ℕ → Host (Broker × ℕ)
unfolding ◌then◌ push out_of_bounds
send_from b mem dest msg_ptr msg_len =
    if out_of_bounds mem msg_ptr msg_len
    then returns (b, minus 3)
    else slice mem msg_ptr (wrapping_add msg_ptr msg_len) then λ msg. returns (push b dest msg)

unfoldable pub ipc_send : Caller → Broker → ℕ → ℕ → ℕ → Host (Broker × ℕ)
unfolding send_from too_large
ipc_send caller b dest msg_ptr msg_len =
    if too_large msg_len
    then returns (b, minus 4)
    else elim (find_capability caller.context endpoint dest) [
      | none ↦ returns (b, minus 1)
      | some cap ↦
          if cap.rights.write
          then elim caller.memory [
            | none ↦ returns (b, minus 3)
            | some mem ↦ send_from b mem dest (as_usize msg_ptr) (as_usize msg_len)
          ]
          else returns (b, minus 2)
    ]
