-- ===== src/Boot/Arrival.antt =====
-- What comes of the two tasks of src/main.rs that talk to each other, whatever the order of their
-- turns: the messages arrive in order.
use jericho_os.Base.{
  ℕ, ◌+◌, ◌-◌, ◌≤◌, min, ◌≡◌, ◌∙◌, ap, refl, Option, some, List, [], ◌∷◌, ◌++◌, length, append-nil,
  arith, sym, Option-cases, inl, inr, All,
}
use jericho_os.Scheduler.{Scheduler}
use jericho_os.Ipc.Message.{Message}
use jericho_os.Ipc.Endpoint
use jericho_os.Ipc.Registry.{IpcRegistry}
use jericho_os.Ipc.Registry
use jericho_os.Ipc.{create_endpoint}
use jericho_os.Boot.Progress.{take_turns_cons, senders, receivers, fits_queue, take_turns-Gets}
use jericho_os.Boot.Turns.{message, first_messages, underway, Fits}
use jericho_os.Boot.Exchange.{
  Receiver, starting, failed, receiving, begin_receiving, ipc_receiver_main, Exchange, Turn,
  of_receiver, take_turn, take_turns, at_start,
}

take_turns-append :
    (ts us : List Turn) (x x' : Exchange)
    → take_turns ts x ≡ some x'
    → take_turns (ts ++ us) x ≡ take_turns us x'
unfolding take_turns
take_turns-append [] us x x' h = ground arith
take_turns-append (t ∷ ts) us x x' h = elim (Option-cases (take_turn t x)) [
  | inl e ↦ absurd (ground arith)
  | inr (y, e) ↦ ground (
    arith,
    take_turns_cons t ts x y e,
    take_turns_cons t (ts ++ us) x y e,
    take_turns-append ts us y x',
  )
]

-- What the receiver has printed.
abbrev pub printed : Receiver → List Message
printed starting = []
printed failed = []
printed (receiving receiver_id space got) = got

take_turns-underway :
    (sender_id receiver_id : ℕ) (s : Scheduler) (ts : List Turn)
    → Fits sender_id receiver_id (of_receiver s)
    → take_turns (of_receiver s ∷ ts) at_start
      ≡ take_turns ts (underway sender_id receiver_id (some s) 0 [] [])
unfolding take_turns take_turn ipc_receiver_main begin_receiving create_endpoint
    Registry.create_endpoint Endpoint.new
take_turns-underway sender_id receiver_id s ts fits = ground arith

empty_queue : (ms : List Message) → length ms ≤ 0 → ms ≡ []
empty_queue [] small = refl
empty_queue (m ∷ ms) small = absurd (omega arith)

three_messages :
    (sender_id : ℕ)
    → first_messages sender_id 3
      ≡ message sender_id 0 ∷ message sender_id 1 ∷ message sender_id 2 ∷ []
unfolding first_messages
three_messages sender_id = refl

-- The turns after the receiver's first one, up to a point: all messages sent so far have been printed
-- or wait in the queue, in their order.
module _ (sender_id receiver_id : ℕ) (s : Scheduler)
    (fits : Fits sender_id receiver_id (of_receiver s)) where
  so_far :
      (ts : List Turn)
      → All (Fits sender_id receiver_id) ts
      → (o : Option Scheduler) × (got : List Message) × (queue : List Message) × (take_turns
            (of_receiver s ∷ ts)
            at_start
          ≡ some (underway sender_id receiver_id o (min 6 (senders ts)) got queue))
        × (got ++ queue ≡ first_messages sender_id (min 6 (senders ts) - 3))
  so_far ts fit =
      let begin : [] ++ [] ≡ first_messages sender_id (0 - 3) = unfold first_messages in refl in
      let g = take_turns-Gets sender_id receiver_id ts (some s) 0 [] [] fit (omega arith) begin in
      let same : min 6 (0 + senders ts) ≡ min 6 (senders ts) = omega arith in
      (
        g.scheduler,
        g.got,
        g.queue,
        take_turns-underway sender_id receiver_id s ts fits
            ∙ g.ends
            ∙ ap (λ n. some (underway sender_id receiver_id g.scheduler n g.got g.queue)) same,
        g.order ∙ ap (λ n. first_messages sender_id (n - 3)) same,
      )

  -- The receiver gets all three messages of the sender, in their order, whatever the order of the turns
  -- of the two: it is enough that the receiver has the first turn, that the sender has six turns, and
  -- the receiver three more after them. No turn panics, if each task finds the scheduler with itself
  -- as the current task and with the space that it was given.
  pub take_turns-printed :
      (first later : List Turn)
      → All (Fits sender_id receiver_id) first
      → All (Fits sender_id receiver_id) later
      → 6 ≤ senders first
      → 3 ≤ receivers later
      → (x : Exchange) × (take_turns (of_receiver s ∷ first ++ later) at_start ≡ some x)
        × (printed x.receiver
            ≡ message sender_id 0 ∷ message sender_id 1 ∷ message sender_id 2 ∷ [])
  take_turns-printed first later fits_first fits_later sends receives =
      let (o, got, queue, ends, order) = so_far first fits_first in
      let all_sent : min 6 (senders first) ≡ 6 = omega arith in
      let b =
        take_turns-Gets sender_id receiver_id later o 6 got queue fits_later (omega arith)
          (order ∙ ap (λ n. first_messages sender_id (n - 3)) all_sent) in
      let short : length b.queue ≤ 0 = omega (
        arith,
        b.drained refl,
        fits_queue sender_id receiver_id 6 got queue (omega arith)
            (order ∙ ap (λ n. first_messages sender_id (n - 3)) all_sent),
      ) in
      let three : min 6 (6 + senders later) - 3 ≡ 3 = omega arith in
      (
        underway sender_id receiver_id b.scheduler (min 6 (6 + senders later)) b.got b.queue,
        take_turns-append (of_receiver s ∷ first) later at_start
              (underway sender_id receiver_id o 6 got queue)
              (ends ∙ ap (λ n. some (underway sender_id receiver_id o n got queue)) all_sent)
            ∙ b.ends,
        sym (append-nil b.got)
            ∙ ap (λ q. b.got ++ q) (sym (empty_queue b.queue short))
            ∙ b.order
            ∙ ap (first_messages sender_id) three
            ∙ three_messages sender_id,
      )
