-- ===== src/Wasm/Delivery.antt =====
-- `deliver_pending_messages` of src/wasm_runtime.rs: what it does to the queue, and that it ends when
-- the guest leaves the queue alone.
use jericho_os.Base.{
  ℕ, zero, suc, ◌+◌, ◌≤◌, ◌<◌, ◌≡◌, refl, inl, inr, Bool, some, List, ◌∷◌, subst, ap, sym, ◌∙◌,
  String, if◌then◌else◌, Option-cases, arith,
}
use jericho_os.Wasm.Guest.{Broker, IpcMessage}
use jericho_os.Wasm.Run.{returned, Yields, Yields-map}
use jericho_os.Wasm.Deliver.{
  Runtime, Value, Round, stops, continues, take_for, count_for, deliver, deliver_loop,
}
use jericho_os.Wasm.Limits.{Within, IsShort}
use jericho_os.Wasm.Taking.{others_for, take_for-leaves, take_for-IsShort}
use jericho_os.Wasm.Rounds.{
  DeliveryCall, after, deliver-keeps, Kept, went_on, Round-cases, loop_done, loop_stops,
  loop_continues, loop_halts,
}

weaken : (b : Broker) → Within 64 b → Within 65 b
weaken b w = record { shallow = omega (arith, w.shallow); short = w.short }

taken-Within :
    (b : Broker) (client_id : ℕ) (m : IpcMessage) (rest : List IpcMessage)
    → take_for client_id b.queue ≡ some (m, rest)
    → Within 65 b
    → IsShort m × Within 64 (record b { queue = rest })
taken-Within b client_id m rest e w =
    let (small, others) = take_for-IsShort client_id b.queue m rest e w.short in
    (
      small,
      record {
        shallow = omega (arith, w.shallow, take_for-leaves client_id b.queue m rest e);
        short = others;
      },
    )

stopped :
    {M : Type 0} (msg : IpcMessage) (r : Round M)
    → IsShort msg
    → Kept (Within 64) msg r
    → (m : M) (b : Broker) → r ≡ stops m b
    → Within 65 b
stopped msg r small (inl w) m b q = weaken b (subst (Within 64) (ap after q) w)
stopped msg r small (inr (m', b', e, w)) m b q =
    subst (Within 65) (ap after (sym e ∙ q))
      (record { shallow = omega (arith, w.shallow); short = (small, w.short) })

-- What a delivery to a quiet guest leaves: the messages for other clients in their order, no more
-- deliveries than messages taken, and the subscribers.
pub record Leaves (client_id delivered : ℕ) (b b' : Broker) (count : ℕ) : Type 0 where
  pub others : others_for client_id b'.queue ≡ others_for client_id b.queue
  pub fewer : count + count_for client_id b'.queue ≤ delivered + count_for client_id b.queue
  pub subscribers : b'.subscribers ≡ b.subscribers

put_back :
    (client_id : ℕ) (msg : IpcMessage) (rest : List IpcMessage)
    → msg.dest_client_id ≡ client_id
    → (others_for client_id (msg ∷ rest) ≡ others_for client_id rest)
      × (count_for client_id (msg ∷ rest) ≡ suc (count_for client_id rest))
unfolding others_for count_for
put_back client_id msg rest e = ground arith

stopped-Leaves :
    {M : Type 0} (client_id delivered : ℕ) (b b1 : Broker) (msg : IpcMessage)
    (rest : List IpcMessage) (r : Round M) (m : M)
    → take_for client_id b.queue ≡ some (msg, rest)
    → Kept (λ x. x ≡ record b { queue = rest }) msg r
    → r ≡ stops m b1
    → Leaves client_id delivered b b1 delivered
stopped-Leaves client_id delivered b b1 msg rest r m e (inl p) q =
    let left = take_for-leaves client_id b.queue msg rest e in
    let same : b1 ≡ record b { queue = rest } = ap after (sym q) ∙ p in
    record {
      others = ap (λ x. others_for client_id x.queue) same ∙ left.1;
      fewer = omega (arith, ap (λ x. count_for client_id x.queue) same, left);
      subscribers = ap (λ x. x.subscribers) same;
    }
stopped-Leaves client_id delivered b b1 msg rest r m e (inr (m', b', at, p)) q =
    let left = take_for-leaves client_id b.queue msg rest e in
    let back = put_back client_id msg rest left.3 in
    let same : b1 ≡ record b { queue = msg ∷ rest } =
      ap after (sym q ∙ at) ∙ ap (λ (x : Broker). record x { queue = msg ∷ x.queue }) p in
    record {
      others = ap (λ x. others_for client_id x.queue) same ∙ back.0 ∙ left.1;
      fewer = omega (arith, ap (λ x. count_for client_id x.queue) same, left, back);
      subscribers = ap (λ x. x.subscribers) same;
    }

continued-Leaves :
    (client_id delivered : ℕ) (b b1 b' : Broker) (msg : IpcMessage) (rest : List IpcMessage)
    (arrived : Bool) (count : ℕ)
    → take_for client_id b.queue ≡ some (msg, rest)
    → b1 ≡ record b { queue = rest }
    → Leaves client_id (if arrived then suc delivered else delivered) b1 b' count
    → Leaves client_id delivered b b' count
continued-Leaves client_id delivered b b1 b' msg rest arrived count e same l =
    let left = take_for-leaves client_id b.queue msg rest e in
    record {
      others = l.others ∙ ap (λ x. others_for client_id x.queue) same ∙ left.1;
      fewer = ground (arith, ap (λ x. count_for client_id x.queue) same, left, l.fewer);
      subscribers = l.subscribers ∙ ap (λ x. x.subscribers) same;
    }

module _ {M F : Type 0} (guest : Runtime M F) where
  -- A guest whose functions for the delivery, when they return, keep the queue within its limits, as
  -- the host functions do.
  abbrev pub RespectsLimits : Type 0
  RespectsLimits =
      (m : M) (b : Broker) (name : String) (func : F) (args : List Value)
      → DeliveryCall name
      → guest.get_func m name ≡ some func
      → Within 64 b
      → Yields Unit (λ r. Within 64 r.1) (guest.run m b func args)

  -- A guest whose functions for the delivery return, and leave the statics alone.
  abbrev pub IsQuiet : Type 0
  IsQuiet =
      (m : M) (b : Broker) (name : String) (func : F) (args : List Value)
      → DeliveryCall name
      → guest.get_func m name ≡ some func
      → Yields ⊥ (λ r. r.1 ≡ b) (guest.run m b func args)

  -- A delivery to a guest whose two functions for it, when they return, keep the queue within 64 messages
  -- leaves it within 65, and every message within 512 bytes, when the delivery ends. The message that is
  -- put back after a failed call is the one over the limit.
  pub deliver_loop-Within :
      RespectsLimits
      → (fuel : ℕ) (m : M) (b : Broker) (client_id delivered : ℕ) (m' : M) (b' : Broker) (count : ℕ)
      → Within 65 b
      → deliver_loop guest fuel m b client_id delivered ≡ some (returned (m', b', count))
      → Within 65 b'
  deliver_loop-Within respects zero m b client_id delivered m' b' count w h =
      absurd (unfold deliver_loop in ground (arith, h))
  deliver_loop-Within respects (suc fuel) m b client_id delivered m' b' count w h =
      elim (Option-cases (take_for client_id b.queue)) [
        | inl e ↦
            subst (Within 65) (ground (arith, loop_done guest fuel m b client_id delivered e)) w
        | inr ((msg, rest), e) ↦
            let (small, less) = taken-Within b client_id msg rest e w in
            let kept =
              deliver-keeps guest Unit (Within 64) respects m (record b { queue = rest }) msg
                less in
            elim (Round-cases (deliver guest m (record b { queue = rest }) msg)) [
              | inl (m1, b1, q) ↦
                  subst (Within 65)
                    (ground
                      (arith, loop_stops guest fuel m b client_id delivered msg rest m1 b1 e q))
                    (stopped msg _ small (subst (Yields Unit (Kept (Within 64) msg)) q kept) m1 b1
                      refl)
              | inr (inl (m1, b1, arrived, q)) ↦
                  deliver_loop-Within respects fuel m1 b1 client_id
                    (if arrived then suc delivered else delivered) m' b' count
                    (weaken b1 (
                      went_on msg _ (Within 64) (subst (Yields Unit (Kept (Within 64) msg)) q kept)
                        m1 b1 arrived refl))
                    (sym (
                        loop_continues guest fuel m b client_id delivered msg rest m1 b1 arrived e
                          q)
                      ∙ h)
              | inr (inr (halt, q)) ↦
                  absurd (
                    ground (arith, loop_halts guest fuel m b client_id delivered msg rest halt e q))
            ]
      ]

  -- A delivery ends for a guest whose two functions for it return and leave the statics alone: one round
  -- more than there are messages for the client is enough. It leaves the messages for other clients in
  -- their order, and delivers no more messages than it takes out of the queue.
  pub deliver_loop-ends :
      IsQuiet
      → (fuel : ℕ) (m : M) (b : Broker) (client_id delivered : ℕ)
      → count_for client_id b.queue < fuel
      → (m' : M) × (b' : Broker) × (count : ℕ) × (deliver_loop guest fuel m b client_id delivered
          ≡ some (returned (m', b', count)))
        × Leaves client_id delivered b b' count
  deliver_loop-ends quiet zero m b client_id delivered h = absurd (omega arith)
  deliver_loop-ends quiet (suc fuel) m b client_id delivered h =
      elim (Option-cases (take_for client_id b.queue)) [
        | inl e ↦ (
          m,
          b,
          delivered,
          loop_done guest fuel m b client_id delivered e,
          record { others = refl; fewer = omega arith; subscribers = refl },
        )
        | inr ((msg, rest), e) ↦
            let less : Broker = record b { queue = rest } in
            let left = take_for-leaves client_id b.queue msg rest e in
            let kept =
              deliver-keeps guest ⊥ (λ x. x ≡ less)
                (λ x y name f args known e p.
                  Yields-map ⊥ (λ r. r.1 ≡ y) (λ r. r.1 ≡ less) (guest.run x y f args)
                    (λ r same. same ∙ p) (quiet x y name f args known e))
                m less msg refl in
            elim (Round-cases (deliver guest m less msg)) [
              | inl (m1, b1, q) ↦ (
                m1,
                b1,
                delivered,
                loop_stops guest fuel m b client_id delivered msg rest m1 b1 e q,
                stopped-Leaves client_id delivered b b1 msg rest (stops m1 b1) m1 e
                    (subst (Yields ⊥ (Kept (λ x. x ≡ less) msg)) q kept) refl,
              )
              | inr (inl (m1, b1, arrived, q)) ↦
                  let same =
                    went_on msg (continues m1 b1 arrived) (λ x. x ≡ less)
                      (subst (Yields ⊥ (Kept (λ x. x ≡ less) msg)) q kept) m1 b1 arrived refl in
                  let n : ℕ = if arrived then suc delivered else delivered in
                  let (m', b', count, ended, leaves) =
                    deliver_loop-ends quiet fuel m1 b1 client_id n (ground (arith, left, same)) in
                  (
                    m',
                    b',
                    count,
                    loop_continues guest fuel m b client_id delivered msg rest m1 b1 arrived e q
                        ∙ ended,
                    continued-Leaves client_id delivered b b1 b' msg rest arrived count e same
                        leaves,
                  )
              | inr (inr (halt, q)) ↦ absurd (subst (Yields ⊥ (Kept (λ x. x ≡ less) msg)) q kept)
            ]
      ]
