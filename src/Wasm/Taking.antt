-- ===== src/Wasm/Taking.antt =====
-- `take_for` of Wasm/Deliver: what it finds, and what it leaves.
use jericho_os.Base.{
  ℕ, suc, ◌≡◌, refl, ◌⊎◌, inl, inr, true, false, none, some, List, [], ◌∷◌, length, subst, All,
  ◌==◌, ap, if◌then◌else◌, Bool-cases, Option-cases, arith,
}
use jericho_os.Wasm.Guest.{IpcMessage}
use jericho_os.Wasm.Deliver.{take_for, count_for}
use jericho_os.Wasm.Limits.{IsShort}

-- The messages for other clients.
unfoldable pub others_for : ℕ → List IpcMessage → List IpcMessage
others_for client_id [] = []
others_for client_id (m ∷ rest) =
    let others = others_for client_id rest in
    if m.dest_client_id == client_id then others else m ∷ others

-- The message is the first entry, or comes out of the rest.
take_for-cons :
    (client_id : ℕ) (x : IpcMessage) (xs : List IpcMessage) (m : IpcMessage)
    (rest : List IpcMessage)
    → take_for client_id (x ∷ xs) ≡ some (m, rest)
    → (((x.dest_client_id == client_id) ≡ true) × (x ≡ m) × (xs ≡ rest))
      ⊎ (((x.dest_client_id == client_id) ≡ false)
          × (rest' : List IpcMessage) × (take_for client_id xs ≡ some (m, rest'))
          × (x ∷ rest' ≡ rest))
unfolding take_for
take_for-cons client_id x xs m rest h = elim (Bool-cases (x.dest_client_id == client_id)) [
  | inl hit ↦ inl (hit, ground arith, ground arith)
  | inr miss ↦ elim (Option-cases (take_for client_id xs)) [
    | inl e ↦ absurd (ground arith)
    | inr ((found, rest'), e) ↦ inr (miss, rest', ground arith, ground arith)
  ]
]

-- What taking a message out leaves.
pub take_for-leaves :
    (client_id : ℕ) (queue : List IpcMessage) (m : IpcMessage) (rest : List IpcMessage)
    → take_for client_id queue ≡ some (m, rest)
    → (count_for client_id queue ≡ suc (count_for client_id rest))
      × (others_for client_id rest ≡ others_for client_id queue)
      × (length queue ≡ suc (length rest))
      × (m.dest_client_id ≡ client_id)
unfolding take_for count_for others_for
take_for-leaves client_id [] m rest h = absurd (ground arith)
take_for-leaves client_id (x ∷ xs) m rest h = elim (take_for-cons client_id x xs m rest h) [
  | inl (hit, e, e') ↦ ground arith
  | inr (miss, rest', e, e') ↦ ground (
    arith,
    take_for-leaves client_id xs m rest' e,
    ap (count_for client_id) e',
    ap (others_for client_id) e',
    ap length e',
  )
]

pub take_for-none :
    (client_id : ℕ) (queue : List IpcMessage)
    → take_for client_id queue ≡ none
    → count_for client_id queue ≡ 0
unfolding take_for count_for
take_for-none client_id [] h = refl
take_for-none client_id (x ∷ xs) h = elim (Option-cases (take_for client_id xs)) [
  | inl e ↦ ground (arith, take_for-none client_id xs e)
  | inr ((m, rest), e) ↦ absurd (ground arith)
]

pub take_for-IsShort :
    (client_id : ℕ) (queue : List IpcMessage) (m : IpcMessage) (rest : List IpcMessage)
    → take_for client_id queue ≡ some (m, rest)
    → All IsShort queue
    → IsShort m × All IsShort rest
unfolding take_for
take_for-IsShort client_id [] m rest h short = absurd (ground arith)
take_for-IsShort client_id (x ∷ xs) m rest h short = elim (take_for-cons client_id x xs m rest h) [
  | inl (hit, e, e') ↦ (subst IsShort e short.0, subst (All IsShort) e' short.1)
  | inr (miss, rest', e, e') ↦
      let (small, others) = take_for-IsShort client_id xs m rest' e short.1 in
      (small, subst (All IsShort) e' (short.0, others))
]
