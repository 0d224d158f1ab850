-- ===== src/Boot/Progress.antt =====
-- Any number of turns of the two tasks of src/main.rs that talk to each other, once both are at work.
use jericho_os.Base.{
  ℕ, suc, ◌+◌, ◌-◌, ◌≤◌, min, ◌≡◌, ◌∙◌, ap, refl, Option, some, List, [], ◌∷◌, ◌++◌, length,
  length-append, append_assoc, append-nil, take, drop, ltb, if◌then◌else◌, arith, sym, Bool-cases,
  inl, inr, All,
}
use jericho_os.Scheduler.{Scheduler}
use jericho_os.Ipc.Message.{Message}
use jericho_os.Boot.Turns.{
  message, first_messages, length-first_messages, underway, grown, Fits, take_turn-sender,
  take_turn-receiver,
}
use jericho_os.Boot.Exchange.{Exchange, Turn, of_sender, of_receiver, take_turn, take_turns}

pub take_turns_cons :
    (t : Turn) (ts : List Turn) (x x' : Exchange)
    → take_turn t x ≡ some x'
    → take_turns (t ∷ ts) x ≡ take_turns ts x'
unfolding take_turns
take_turns_cons t ts x x' e = ground arith

one_fewer :
    (got ms : List Message)
    → ((got ++ take 1 ms) ++ drop 1 ms ≡ got ++ ms) × (length (drop 1 ms) ≡ length ms - 1)
one_fewer got [] = (ground (arith, append-nil got), refl)
one_fewer got (m ∷ ms) = (append_assoc got (m ∷ []) ms, omega arith)

-- How many turns of a list are the sender's, and the receiver's.
unfoldable pub senders : List Turn → ℕ
senders [] = 0
senders (of_sender s ∷ ts) = suc (senders ts)
senders (of_receiver s ∷ ts) = senders ts

unfoldable pub receivers : List Turn → ℕ
receivers [] = 0
receivers (of_sender s ∷ ts) = receivers ts
receivers (of_receiver s ∷ ts) = suc (receivers ts)

module _ (sender_id receiver_id : ℕ) where
  -- The turn that comes next, and what the sender has sent then.
  abbrev after_sender : ℕ → ℕ
  after_sender t = if ltb t 6 then t + 1 else t

  grown-order :
      (t : ℕ) (got ms : List Message)
      → t ≤ 6
      → got ++ ms ≡ first_messages sender_id (t - 3)
      → got ++ grown sender_id t ms ≡ first_messages sender_id (after_sender t - 3)
  grown-order t got ms small order = elim (Bool-cases (ltb t 3)) [
    | inl before ↦
        let none_sent : t - 3 ≡ after_sender t - 3 = ground arith in
        ground (arith, order ∙ ap (first_messages sender_id) none_sent)
    | inr later ↦ elim (Bool-cases (ltb t 6)) [
      | inl sends ↦
          let next : after_sender t - 3 ≡ suc (t - 3) = ground arith in
          ground (
            arith,
            order,
            ap (first_messages sender_id) next,
            sent_next (t - 3),
            append_assoc got ms (message sender_id (t - 3) ∷ []),
          )
      | inr done ↦ ground (arith, order)
    ]
  ]
    where
      sent_next :
          (n : ℕ)
          → first_messages sender_id (suc n)
            ≡ first_messages sender_id n ++ message sender_id n ∷ []
      sent_next n = unfold first_messages in refl

  -- Where a run of turns gets to.
  pub record Gets (t : ℕ) (ms : List Message) (ts : List Turn) (x : Option Exchange) : Type 0 where
    pub scheduler : Option Scheduler
    pub got : List Message
    pub queue : List Message
    pub ends :
        x ≡ some (underway sender_id receiver_id scheduler (min 6 (t + senders ts)) got queue)
    pub order : got ++ queue ≡ first_messages sender_id (min 6 (t + senders ts) - 3)
    pub drained : t ≡ 6 → length queue ≤ length ms - receivers ts

  pub fits_queue :
      (t : ℕ) (got ms : List Message)
      → t ≤ 6
      → got ++ ms ≡ first_messages sender_id (t - 3)
      → length got + length ms ≤ 3
  fits_queue t got ms small order =
      omega (arith, ap length order, length-append got ms, length-first_messages sender_id (t - 3))

  pub take_turns-Gets :
      (ts : List Turn) (o : Option Scheduler) (t : ℕ) (got ms : List Message)
      → All (Fits sender_id receiver_id) ts
      → t ≤ 6
      → got ++ ms ≡ first_messages sender_id (t - 3)
      → Gets t ms ts (take_turns ts (underway sender_id receiver_id o t got ms))
  unfolding take_turns senders receivers
  take_turns-Gets [] o t got ms fits small order =
      let same : min 6 (t + 0) ≡ t = omega arith in
      record {
        scheduler = o;
        got = got;
        queue = ms;
        ends = ap (λ n. some (underway sender_id receiver_id o n got ms)) (sym same);
        order = order ∙ ap (λ n. first_messages sender_id (n - 3)) (sym same);
        drained = λ e. omega arith;
      }
  take_turns-Gets (of_sender s ∷ ts) o t got ms fits small order =
      let fewer = fits_queue t got ms small order in
      let sent =
        take_turn-sender sender_id receiver_id s o t got ms fits.0 small (omega (arith, fewer)) in
      let rest =
        take_turns-Gets ts (some s) (after_sender t) got (grown sender_id t ms) fits.1
          (ground arith) (grown-order t got ms small order) in
      let same : min 6 (after_sender t + senders ts) ≡ min 6 (t + suc (senders ts)) =
        ground arith in
      record {
        scheduler = rest.scheduler;
        got = rest.got;
        queue = rest.queue;
        ends =
            take_turns_cons (of_sender s) ts (underway sender_id receiver_id o t got ms) _ sent
            ∙ rest.ends
            ∙ ap (λ n. some (underway sender_id receiver_id rest.scheduler n rest.got rest.queue))
                same;
        order = rest.order ∙ ap (λ n. first_messages sender_id (n - 3)) same;
        drained = λ e. ground (arith, rest.drained);
      }
  take_turns-Gets (of_receiver s ∷ ts) o t got ms fits small order =
      let fewer = fits_queue t got ms small order in
      let received = take_turn-receiver sender_id receiver_id s o t got ms (omega (arith, fewer)) in
      let rest =
        take_turns-Gets ts (some s) t (got ++ take 1 ms) (drop 1 ms) fits.1 small
          ((one_fewer got ms).0 ∙ order) in
      record {
        scheduler = rest.scheduler;
        got = rest.got;
        queue = rest.queue;
        ends =
            take_turns_cons (of_receiver s) ts (underway sender_id receiver_id o t got ms) _
              received
            ∙ rest.ends;
        order = rest.order;
        drained = λ e. omega (arith, rest.drained e, (one_fewer got ms).1);
      }
