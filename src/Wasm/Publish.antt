-- ===== src/Wasm/Publish.antt =====
-- `publish` of src/wasm_runtime.rs, as a whole: its answers, and which messages it queues.
use jericho_os.Base.{
  ℕ, zero, suc, ◌+◌, ◌-◌, ◌%◌, ◌^◌, ◌≤◌, ◌<◌, ◌≡◌, refl, sym, ◌&&◌, Option, none, some, List, [],
  ◌∷◌, ◌++◌, map, append-nil, append_assoc, length, length-append, take, drop, leb, subst,
  if◌then◌else◌, arith,
}
use jericho_os.Wasm.Guest.{Caller, Broker, returns, IpcMessage, IsWasmMemory, as_usize, minus}
use jericho_os.Wasm.Calls.{enqueue_all, publish_from, publish, ◌then◌}
use jericho_os.Wasm.Bounds.{slice_checked, too_large_iff, out_of_bounds_iff}

-- The same message for each of the clients.
unfoldable pub copies : List ℕ → List ℕ → List IpcMessage
copies clients msg = map (λ id. record { dest_client_id = id; message = msg }) clients

enqueue_all-room :
    (clients msg : List ℕ) (queue : List IpcMessage) (room : ℕ)
    → 64 - length queue ≡ room
    → enqueue_all clients msg queue ≡ queue ++ copies (take room clients) msg
unfolding enqueue_all copies
enqueue_all-room [] msg queue zero h = sym (append-nil queue)
enqueue_all-room [] msg queue (suc room) h = sym (append-nil queue)
enqueue_all-room (id ∷ rest) msg queue zero h = ground (arith, append-nil queue)
enqueue_all-room (id ∷ rest) msg queue (suc room) h =
    let m : IpcMessage = record { dest_client_id = id; message = msg } in
    ground (
      arith,
      length-append queue (m ∷ []),
      λ (e : 64 - length (queue ++ m ∷ []) ≡ room).
          enqueue_all-room rest msg (queue ++ m ∷ []) room e,
      append_assoc queue (m ∷ []) (copies (take room rest) msg),
    )

-- What `publish` does with the bytes that it has read: it queues them for the first subscribers, as
-- many as the queue has room for, and answers with the number of all subscribers.
unfoldable pub published : Broker → List ℕ → Broker × ℕ
published b msg = (
  record b { queue = b.queue ++ copies (take (64 - length b.queue) b.subscribers) msg },
  length b.subscribers % 2 ^ 32,
)

-- What `publish` answers and leaves, by the first of its tests that fails.
unfoldable pub published_by : Caller → Broker → ℕ → ℕ → ℕ → ℕ → Broker × ℕ
published_by caller b topic_ptr topic_len msg_ptr msg_len =
    if leb 513 msg_len then (b, minus 4) else elim caller.memory [
      | none ↦ (b, minus 1)
      | some mem ↦
          if leb (as_usize topic_ptr + as_usize topic_len) (length mem)
            && leb (as_usize msg_ptr + msg_len) (length mem)
          then published b (take msg_len (drop (as_usize msg_ptr) mem))
          else (b, minus 3)
    ]

enqueue_all-published :
    (b : Broker) (msg : List ℕ)
    → published b msg
      ≡ (record b { queue = enqueue_all b.subscribers msg b.queue }, length b.subscribers % 2 ^ 32)
unfolding published
enqueue_all-published b msg =
    rw (enqueue_all-room b.subscribers msg b.queue (64 - length b.queue) refl) refl

publish_from-published :
    (b : Broker) (mem : List ℕ) (topic_ptr topic_len msg_ptr msg_len : ℕ)
    → length mem ≤ 2 ^ 32
    → publish_from b mem topic_ptr topic_len msg_ptr msg_len
      ≡ returns (
          if leb (topic_ptr + topic_len) (length mem) && leb (msg_ptr + msg_len) (length mem)
          then published b (take msg_len (drop msg_ptr mem))
          else (b, minus 3))
unfolding publish_from ◌then◌
publish_from-published b mem topic_ptr topic_len msg_ptr msg_len h = ground (
  arith,
  out_of_bounds_iff mem topic_ptr topic_len h,
  out_of_bounds_iff mem msg_ptr msg_len h,
  slice_checked mem topic_ptr topic_len h,
  slice_checked mem msg_ptr msg_len h,
  enqueue_all-published b (take msg_len (drop msg_ptr mem)),
)

-- `publish` never stops the kernel, whatever addresses and lengths a guest gives. It refuses a
-- message of more than 512 bytes or of negative length, a guest without a memory, and a topic or
-- message that is not inside that memory, and then changes nothing. Otherwise it queues the bytes of
-- the message for the first subscribers, as many as the queue of 64 has room for, and answers with
-- the number of all subscribers.
pub publish-published_by :
    (caller : Caller) (b : Broker) (topic_ptr topic_len msg_ptr msg_len : ℕ)
    → IsWasmMemory caller.memory
    → msg_len < 2 ^ 32
    → publish caller b topic_ptr topic_len msg_ptr msg_len
      ≡ returns (published_by caller b topic_ptr topic_len msg_ptr msg_len)
unfolding publish published_by
publish-published_by caller b topic_ptr topic_len msg_ptr msg_len h small =
    by_memory caller.memory refl
  where
    by_memory :
        (memory : Option (List ℕ))
        → caller.memory ≡ memory
        → publish caller b topic_ptr topic_len msg_ptr msg_len
          ≡ returns (published_by caller b topic_ptr topic_len msg_ptr msg_len)
    by_memory none e = rw (e, publish, published_by) (ground (arith, too_large_iff msg_len small))
    by_memory (some mem) e =
        rw (e, publish, published_by)
          (ground (
            arith,
            too_large_iff msg_len small,
            publish_from-published b mem (as_usize topic_ptr) (as_usize topic_len)
                (as_usize msg_ptr) (as_usize msg_len) (subst IsWasmMemory e h),
          ))
