-- ===== src/Wasm/Limits.antt =====
-- The limits of src/wasm_runtime.rs on its queue, under the host functions and the delivery.
use jericho_os.Base.{
  ℕ, ◌&&◌, ◌+◌, ◌-◌, ◌^◌, ◌≤◌, ◌<◌, ◌≡◌, refl, inl, inr, Bool, true, false, Option, none, some,
  List, [], ◌∷◌, ◌++◌, length, take, subst, All, All-append, length-append, length-take, leb, ap,
  sym, ◌∙◌, if◌then◌else◌, Option-cases, arith,
}
use jericho_os.Wasm.Guest.{Caller, Broker, Host, returns, IpcMessage, IsWasmMemory, as_usize, slice}
use jericho_os.Wasm.Calls.{publish, ipc_send, subscribe, subscribe_from, register, ◌then◌}
use jericho_os.Wasm.Publish.{copies, published, published_by, publish-published_by}
use jericho_os.Wasm.Sending.{SendEnds, ipc_send-SendEnds}

abbrev pub IsShort : IpcMessage → Type 0
IsShort m = length m.message ≤ 512

-- A queue of at most `depth` messages, each of at most 512 bytes.
pub record Within (depth : ℕ) (b : Broker) : Type 0 where
  pub shallow : length b.queue ≤ depth
  pub short : All IsShort b.queue

copies-IsShort : (clients msg : List ℕ) → length msg ≤ 512 → All IsShort (copies clients msg)
unfolding copies
copies-IsShort [] msg h = tt
copies-IsShort (id ∷ rest) msg h = (h, copies-IsShort rest msg h)

length-copies : (clients msg : List ℕ) → length (copies clients msg) ≡ length clients
unfolding copies
length-copies [] msg = refl
length-copies (id ∷ rest) msg = omega (arith, length-copies rest msg)

take_short : (n : ℕ) (bytes : List ℕ) → n ≤ 512 → length (take n bytes) ≤ 512
take_short n bytes h = omega (arith, length-take n bytes)

published-Within :
    (depth : ℕ) (b : Broker) (msg : List ℕ)
    → 64 ≤ depth
    → length msg ≤ 512
    → Within depth b
    → Within depth (published b msg).0
unfolding published
published-Within depth b msg deep small w = record {
  shallow = omega (
    arith,
    w.shallow,
    length-append b.queue (copies (take (64 - length b.queue) b.subscribers) msg),
    length-copies (take (64 - length b.queue) b.subscribers) msg,
    length-take (64 - length b.queue) b.subscribers,
  );
  short = All-append IsShort b.queue _ w.short (copies-IsShort _ msg small);
}

-- A branch is within the limits when both sides are, each under its condition.
if-Within :
    (depth : ℕ) (test : Bool) (x y : Broker × ℕ)
    → (test ≡ true → Within depth x.0)
    → (test ≡ false → Within depth y.0)
    → Within depth (if test then x else y).0
if-Within depth true x y hx hy = hx refl
if-Within depth false x y hx hy = hy refl

published_by-Within :
    (depth : ℕ) (caller : Caller) (b : Broker) (topic_ptr topic_len msg_ptr msg_len : ℕ)
    → 64 ≤ depth
    → Within depth b
    → Within depth (published_by caller b topic_ptr topic_len msg_ptr msg_len).0
unfolding published_by
published_by-Within depth caller b topic_ptr topic_len msg_ptr msg_len deep w =
    by_memory caller.memory refl
  where
    by_memory :
        (memory : Option (List ℕ))
        → caller.memory ≡ memory
        → Within depth (published_by caller b topic_ptr topic_len msg_ptr msg_len).0
    by_memory none e =
        rw (e, published_by) (if-Within depth (leb 513 msg_len) _ _ (λ _. w) (λ _. w))
    by_memory (some mem) e =
        rw (e, published_by)
          (if-Within depth (leb 513 msg_len) _ _ (λ _. w)
            (λ fits.
              if-Within depth
                (leb (as_usize topic_ptr + as_usize topic_len) (length mem)
                  && leb (as_usize msg_ptr + msg_len) (length mem))
                _ _ (λ _. published-Within depth b _ deep (take_short msg_len _ (ground arith)) w)
                (λ _. w)))

-- A message of at most 512 bytes, put into a queue with room.
push-Within :
    (depth : ℕ) (b : Broker) (m : IpcMessage)
    → length b.queue < depth
    → IsShort m
    → Within depth b
    → Within depth (record b { queue = b.queue ++ m ∷ [] })
push-Within depth b m room short w = record {
  shallow = omega (arith, length-append b.queue (m ∷ []));
  short = All-append IsShort b.queue _ w.short (short, tt);
}

ended-Within :
    (depth : ℕ) (caller : Caller) (b : Broker) (dest ptr len : ℕ) (b' : Broker) (answer : ℕ)
    → 64 ≤ depth
    → Within depth b
    → SendEnds caller b dest ptr len (returns (b', answer))
    → Within depth b'
ended-Within depth caller b dest ptr len b' answer deep w (inl (_, d, _, _, e)) =
    subst (Within depth) (sym e)
      (push-Within depth b _ (omega (arith, d.room)) (take_short len _ d.small) w)
ended-Within depth caller b dest ptr len b' answer deep w (inr (_, e, _)) =
    subst (Within depth) (sym e) w

subscribe_keeps_queue :
    (caller : Caller) (b : Broker) (client_id ptr len : ℕ) (b' : Broker) (answer : ℕ)
    → subscribe caller b client_id ptr len ≡ returns (b', answer)
    → b'.queue ≡ b.queue
unfolding subscribe subscribe_from register slice ◌then◌
subscribe_keeps_queue caller b client_id ptr len b' answer h = elim (Option-cases caller.memory) [
  | inl e ↦ ground arith
  | inr (mem, e) ↦ ground arith
]

-- What the three host functions do to the statics when they return.
pub data HostCall (caller : Caller) (b : Broker) : Broker → Type 0 where
  subscribes :
      {b' : Broker} (client_id ptr len answer : ℕ)
      → subscribe caller b client_id ptr len ≡ returns (b', answer)
      → HostCall caller b b'
  publishes :
      {b' : Broker} (topic_ptr topic_len msg_ptr msg_len answer : ℕ)
      → msg_len < 2 ^ 32
      → publish caller b topic_ptr topic_len msg_ptr msg_len ≡ returns (b', answer)
      → HostCall caller b b'
  sends :
      {b' : Broker} (dest ptr len answer : ℕ)
      → len < 2 ^ 32
      → ipc_send caller b dest ptr len ≡ returns (b', answer)
      → HostCall caller b b'

returns-injective : (x y : Broker × ℕ) → Path (Host (Broker × ℕ)) (returns x) (returns y) → x ≡ y
returns-injective x y h = ground (arith, h)

-- A host function leaves a queue of at most `depth` messages, each of at most 512 bytes, within these
-- limits, for every depth from 64 on.
pub HostCall-Within :
    (depth : ℕ) (caller : Caller) (b b' : Broker)
    → 64 ≤ depth
    → IsWasmMemory caller.memory
    → HostCall caller b b'
    → Within depth b
    → Within depth b'
HostCall-Within depth caller b b' deep h (subscribes client_id ptr len answer e) w =
    let same = subscribe_keeps_queue caller b client_id ptr len b' answer e in
    record {
      shallow = omega (arith, w.shallow, ap length same);
      short = subst (All IsShort) (sym same) w.short;
    }
HostCall-Within depth caller b b' deep h (publishes tp tl mp ml answer small e) w =
    let same =
      returns-injective _ _ (sym (publish-published_by caller b tp tl mp ml h small) ∙ e) in
    subst (Within depth) (ap (λ x. x.0) same)
      (published_by-Within depth caller b tp tl mp ml deep w)
HostCall-Within depth caller b b' deep h (sends dest ptr len answer small e) w =
    ended-Within depth caller b dest ptr len b' answer deep w
      (subst (SendEnds caller b dest ptr len) e (ipc_send-SendEnds caller b dest ptr len h small))
