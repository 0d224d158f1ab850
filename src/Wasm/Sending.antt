-- ===== src/Wasm/Sending.antt =====
-- `ipc_send` of src/wasm_runtime.rs as a whole: when it succeeds, and what it then does.
use jericho_os.Base.{
  ℕ, ◌+◌, ◌^◌, ◌≤◌, ◌<◌, ◌≡◌, refl, ◌≢◌, ◌⊎◌, inl, inr, true, some, List, [], ◌∷◌, ◌++◌, length,
  take, drop, leb, subst, Bool-cases, Option-cases, arith,
}
use jericho_os.Capability.Token.{Capability, ResourceType, endpoint, same_type_iff}
use jericho_os.Wasm.Guest.{
  Caller, Broker, Host, returns, panics, IsWasmMemory, as_usize, minus, matches, find_in,
  find_capability,
}
use jericho_os.Wasm.Calls.{send_from, ipc_send, push, ◌then◌}
use jericho_os.Wasm.Bounds.{slice_checked, too_large_iff, out_of_bounds_iff}

-- What `ipc_send` needs: a message of at most 512 bytes inside the memory of the caller, room in the
-- queue, and that the first endpoint capability for the destination that the caller holds has the
-- write right.
pub record Permitted (caller : Caller) (b : Broker) (dest msg_ptr msg_len : ℕ) : Type 0 where
  pub small : msg_len ≤ 512
  pub cap : Capability
  pub found : find_capability caller.context endpoint dest ≡ some cap
  pub writes : cap.rights.write ≡ true
  pub mem : List ℕ
  pub exported : caller.memory ≡ some mem
  pub inside : as_usize msg_ptr + msg_len ≤ length mem
  pub room : length b.queue < 64

-- A capability that is found is one for the destination.
find_in-matches :
    (caps : List Capability) (resource_type : ResourceType) (resource_id : ℕ) (cap : Capability)
    → find_in caps resource_type resource_id ≡ some cap
    → (cap.resource_type ≡ resource_type) × (cap.resource_id ≡ resource_id)
unfolding find_in matches
find_in-matches [] resource_type resource_id cap h = absurd (ground arith)
find_in-matches (x ∷ xs) resource_type resource_id cap h = ground (
  arith,
  find_in-matches xs resource_type resource_id cap,
  same_type_iff x.resource_type resource_type,
)

send_from-sends :
    (b : Broker) (mem : List ℕ) (dest ptr len : ℕ)
    → length mem ≤ 2 ^ 32
    → ptr + len ≤ length mem
    → length b.queue < 64
    → send_from b mem dest ptr len
      ≡ returns (
        record b {
          queue =
              b.queue ++ record { dest_client_id = dest; message = take len (drop ptr mem) } ∷ [];
        },
        0,
      )
unfolding send_from push ◌then◌
send_from-sends b mem dest ptr len h inside room =
    ground (arith, out_of_bounds_iff mem ptr len h, slice_checked mem ptr len h)

ipc_send-sends :
    (caller : Caller) (b : Broker) (dest ptr len : ℕ)
    → IsWasmMemory caller.memory
    → (d : Permitted caller b dest ptr len)
    → ipc_send caller b dest ptr len
      ≡ returns (
        record b {
          queue =
              b.queue
              ++ record { dest_client_id = dest; message = take len (drop (as_usize ptr) d.mem) }
                ∷ [];
        },
        0,
      )
unfolding ipc_send
ipc_send-sends caller b dest ptr len h d = ground (
  arith,
  d.small,
  d.found,
  d.writes,
  d.exported,
  too_large_iff len,
  send_from-sends b d.mem dest (as_usize ptr) len (subst IsWasmMemory d.exported h) d.inside d.room,
)

-- What a send may end in: success, with the bytes last in the queue, under a capability that is for
-- the destination, or an error, which means that it was not permitted, with nothing changed.
abbrev pub SendEnds : Caller → Broker → ℕ → ℕ → ℕ → Host (Broker × ℕ) → Type 0
SendEnds caller b dest ptr len (returns (b', answer)) =
    ((answer ≡ 0)
      × (d : Permitted caller b dest ptr len) × (d.cap.resource_type ≡ endpoint)
      × (d.cap.resource_id ≡ dest)
      × (b' ≡ record b {
        queue =
            b.queue
            ++ record { dest_client_id = dest; message = take len (drop (as_usize ptr) d.mem) }
              ∷ [];
      }))
    ⊎ ((answer ≢ 0) × (b' ≡ b) × (¬ Permitted caller b dest ptr len))
SendEnds caller b dest ptr len panics = ⊥

Permitted-SendEnds :
    (caller : Caller) (b : Broker) (dest ptr len : ℕ)
    → IsWasmMemory caller.memory
    → Permitted caller b dest ptr len
    → SendEnds caller b dest ptr len (ipc_send caller b dest ptr len)
unfolding find_capability
Permitted-SendEnds caller b dest ptr len h d =
    let cap_for = find_in-matches caller.context.capabilities endpoint dest d.cap d.found in
    rw (ipc_send-sends caller b dest ptr len h d) (inl (refl, d, cap_for.0, cap_for.1, refl))

refused-SendEnds :
    (caller : Caller) (b : Broker) (dest ptr len answer : ℕ)
    → ipc_send caller b dest ptr len ≡ returns (b, answer)
    → answer ≢ 0
    → (¬ Permitted caller b dest ptr len)
    → SendEnds caller b dest ptr len (ipc_send caller b dest ptr len)
refused-SendEnds caller b dest ptr len answer e bad refusal = rw e (inr (bad, refl, refusal))

-- Past the checks of the size and the capability.
in_memory :
    (caller : Caller) (b : Broker) (dest ptr len : ℕ) (granted : Capability)
    → IsWasmMemory caller.memory
    → len ≤ 512
    → find_capability caller.context endpoint dest ≡ some granted
    → granted.rights.write ≡ true
    → SendEnds caller b dest ptr len (ipc_send caller b dest ptr len)
unfolding ipc_send send_from push ◌then◌
in_memory caller b dest ptr len granted h small found writes = elim (Option-cases caller.memory) [
  | inl e ↦
      refused-SendEnds caller b dest ptr len (minus 3) (ground (arith, too_large_iff len))
        (omega arith) (λ d. ground (arith, d.exported))
  | inr (mem, e) ↦
      let fits : length mem ≤ 2 ^ 32 = subst IsWasmMemory e h in
      let bounds = out_of_bounds_iff mem (as_usize ptr) len fits in
      elim (Bool-cases (leb (as_usize ptr + len) (length mem))) [
        | inr outside ↦
            refused-SendEnds caller b dest ptr len (minus 3)
              (ground (arith, too_large_iff len, bounds)) (omega arith)
              (λ d. ground (arith, d.exported, d.inside))
        | inl inside ↦ elim (Bool-cases (leb 64 (length b.queue))) [
          | inl full ↦
              refused-SendEnds caller b dest ptr len (minus 5)
                (ground
                  (arith, too_large_iff len, bounds, slice_checked mem (as_usize ptr) len fits))
                (omega arith) (λ d. ground (arith, d.room))
          | inr room ↦ Permitted-SendEnds caller b dest ptr len h (record {
            small = small;
            cap = granted;
            found = found;
            writes = writes;
            mem = mem;
            exported = e;
            inside = ground arith;
            room = ground arith;
          })
        ]
      ]
]

-- `ipc_send` never stops the kernel, whatever address and length a guest gives. It succeeds exactly
-- when the message has at most 512 bytes and lies inside the memory of the caller, the queue holds
-- less than 64 messages, and the first endpoint capability for the destination that the caller holds
-- has the write right; the bytes then stand last in the queue, for the destination. When it fails,
-- nothing has changed.
pub ipc_send-SendEnds :
    (caller : Caller) (b : Broker) (dest ptr len : ℕ)
    → IsWasmMemory caller.memory
    → len < 2 ^ 32
    → SendEnds caller b dest ptr len (ipc_send caller b dest ptr len)
unfolding ipc_send
ipc_send-SendEnds caller b dest ptr len h short = elim (Bool-cases (leb 513 len)) [
  | inl large ↦
      refused-SendEnds caller b dest ptr len (minus 4) (ground (arith, too_large_iff len))
        (omega arith) (λ d. ground (arith, d.small))
  | inr small ↦ elim (Option-cases (find_capability caller.context endpoint dest)) [
    | inl missing ↦
        refused-SendEnds caller b dest ptr len (minus 1) (ground (arith, too_large_iff len))
          (omega arith) (λ d. ground (arith, d.found))
    | inr (granted, found) ↦ elim (Bool-cases granted.rights.write) [
      | inr read_only ↦
          refused-SendEnds caller b dest ptr len (minus 2) (ground (arith, too_large_iff len))
            (omega arith) (λ d. ground (arith, d.found, d.writes))
      | inl writes ↦ in_memory caller b dest ptr len granted h (ground arith) found writes
    ]
  ]
]
