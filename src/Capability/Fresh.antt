-- ===== src/Capability/Fresh.antt =====
-- The identifiers that a CSpace of src/capability.rs gives out are new, as long as nothing was
-- inserted under an identifier of the caller's choice.
use jericho_os.Base.{
  ℕ, ◌+◌, ◌^◌, ◌<◌, ◌≡◌, sym, ◌∙◌, inl, inr, Option, none, some, true, false, ◌==◌, ◌↔◌, ◌⊎◌,
  if◌then◌else◌, Option-cases, ==_self, arith,
}
use jericho_os.Base.Assoc.{lookup-insert, lookup-remove, lookup}
use jericho_os.Capability.Rights.{Rights, has}
use jericho_os.Capability.Rights
use jericho_os.Capability.Token.{Capability, ResourceType}
use jericho_os.Capability.Token
use jericho_os.Capability.Space
use jericho_os.Capability.Space.{CSpace, insert, get, revoke, create, derive, derive_from}

-- Each capability carries the identifier that it is stored under, and all are below the counter.
pub record IsValid (s : CSpace) : Type 0 where
  pub own_id : (k : ℕ) (c : Capability) → get s k ≡ some c → c.id ≡ k
  pub below : (k : ℕ) (c : Capability) → get s k ≡ some c → k < s.next_id

pub get-insert :
    (s : CSpace) (c : Capability) (k : ℕ)
    → get (insert s c).0 k ≡ (if c.id == k then some c else get s k)
unfolding get insert
get-insert s c k = lookup-insert c.id k c s.capabilities

pub get-revoke :
    (s : CSpace) (id k : ℕ) → get (revoke s id).0 k ≡ (if id == k then none else get s k)
unfolding get revoke
get-revoke s id k = lookup-remove id k s.capabilities

-- The counter has not run out.
abbrev pub HasRoom : CSpace → Type 0
HasRoom s = s.next_id + 1 < 2 ^ 64

pub get-create :
    (s : CSpace) (t : ResourceType) (rid : ℕ) (r : Rights) (k : ℕ)
    → get (create s t rid r).0 k ≡ (
        if s.next_id == k
        then some (record { id = s.next_id; resource_type = t; resource_id = rid; rights = r })
        else get s k)
unfolding get create
get-create s t rid r k = lookup-insert s.next_id k _ s.capabilities

-- What a derivation from a held capability leaves in the space.
pub get-derive_from :
    (s : CSpace) (c : Capability) (r : Rights) (k : ℕ)
    → get (derive_from s c r).0 k ≡ (
        if has c.rights r
        then (if s.next_id == k
            then some (record {
              id = s.next_id;
              resource_type = c.resource_type;
              resource_id = c.resource_id;
              rights = r;
            })
            else get s k)
        else get s k)
unfolding get derive_from Token.derive Rights.derive
get-derive_from s c r k = ground (
  arith,
  lookup-insert s.next_id k
      (record {
        id = s.next_id;
        resource_type = c.resource_type;
        resource_id = c.resource_id;
        rights = r;
      })
      s.capabilities,
)

pub new-IsValid : IsValid Space.new
unfolding Space.new get lookup
new-IsValid = record { own_id = λ k c h. cc; below = λ k c h. cc }

pub create-IsValid :
    (s : CSpace) (t : ResourceType) (rid : ℕ) (r : Rights)
    → IsValid s
    → HasRoom s
    → IsValid (create s t rid r).0
unfolding create
create-IsValid s t rid r v room = record {
  own_id = λ k c h. ground (arith, get-create s t rid r k, v.own_id k c);
  below = λ k c h. ground (arith, get-create s t rid r k, v.below k c);
}

pub revoke-IsValid : (s : CSpace) (id : ℕ) → IsValid s → IsValid (revoke s id).0
unfolding revoke
revoke-IsValid s id v = record {
  own_id = λ k c h. ground (arith, get-revoke s id k, v.own_id k c);
  below = λ k c h. ground (arith, get-revoke s id k, v.below k c);
}

pub insert-IsValid :
    (s : CSpace) (c : Capability) → IsValid s → c.id < s.next_id → IsValid (insert s c).0
unfolding insert
insert-IsValid s c v h = record {
  own_id = λ k d e. ground (arith, get-insert s c k, v.own_id k d);
  below = λ k d e. ground (arith, get-insert s c k, v.below k d);
}

derive_from-IsValid :
    (s : CSpace) (c : Capability) (r : Rights)
    → IsValid s
    → HasRoom s
    → IsValid (derive_from s c r).0
unfolding derive_from Token.derive Rights.derive
derive_from-IsValid s c r v room = record {
  own_id = λ k d h. ground (arith, get-derive_from s c r k, v.own_id k d);
  below = λ k d h. ground (arith, get-derive_from s c r k, v.below k d);
}

-- A derivation either finds no source and changes nothing, or runs `derive_from` on it.
pub derive_cases {ℓ} :
    (P : CSpace × Option ℕ → Type ℓ) (s : CSpace) (source : ℕ) (r : Rights)
    → P (s, none)
    → ((c : Capability) → get s source ≡ some c → P (derive_from s c r))
    → P (derive s source r)
unfolding derive
derive_cases P s source r missing found = elim (Option-cases (get s source)) [
  | inl e ↦ rw (e, derive) missing
  | inr (c, e) ↦ rw (e, derive) (found c e)
]

pub derive-IsValid :
    (s : CSpace) (source : ℕ) (r : Rights) → IsValid s → HasRoom s → IsValid (derive s source r).0
derive-IsValid s source r v room =
    derive_cases (λ p. IsValid p.0) s source r v (λ c _. derive_from-IsValid s c r v room)

-- In a valid space, a derivation whose source is there and has the rights asked for succeeds: it
-- stores, under a number that was free, a capability to the source's resource with just these
-- rights, and every capability that was there stays.
pub derive_fresh :
    (s : CSpace) (source : ℕ) (c : Capability) (r : Rights)
    → IsValid s
    → get s source ≡ some c
    → has c.rights r ≡ true
    → let (s', id) = derive s source r in
      (id ≡ some s.next_id)
      × (get s s.next_id ≡ none)
      × ((k : ℕ)
          → get s' k ≡ (
              if s.next_id == k
              then some (record {
                id = s.next_id;
                resource_type = c.resource_type;
                resource_id = c.resource_id;
                rights = r;
              })
              else get s k))
unfolding derive derive_from Token.derive Rights.derive
derive_fresh s source c r v found allowed =
    (ground arith, unused, λ k. ground (arith, get-derive_from s c r k))
  where
    unused : get s s.next_id ≡ none
    unused = elim (Option-cases (get s s.next_id)) [
      | inl e ↦ e
      | inr (d, e) ↦ absurd (omega (arith, v.below s.next_id d e))
    ]

-- A derivation fails exactly when the source is missing or lacks a right asked for, and it then
-- leaves every capability as it was.
pub derive_refused :
    (s : CSpace) (source : ℕ) (r : Rights)
    → ((derive s source r).1 ≡ none) ↔ (
        ((get s source ≡ none)
          ⊎ ((c : Capability) × (get s source ≡ some c) × (has c.rights r ≡ false)))
        × ((derive s source r).0.capabilities ≡ s.capabilities))
unfolding derive derive_from Token.derive Rights.derive
derive_refused s source r = elim (Option-cases (get s source)) [
  | inl e ↦ (λ _. (inl e, ground arith), λ _. ground arith)
  | inr (c, e) ↦ (λ h. (inr (c, e, ground arith), ground arith), λ h. ground arith)
]

pub derive-found :
    (s : CSpace) (source : ℕ) (c : Capability) (r : Rights)
    → get s source ≡ some c
    → derive s source r ≡ derive_from s c r
unfolding derive
derive-found s source c r e = rw (e, derive)

get-insert_self : (s : CSpace) (c : Capability) → get (insert s c).0 c.id ≡ some c
get-insert_self s c = get-insert s c c.id ∙ (rw (==_self c.id))

-- A capability that the caller inserts under the very number that comes next, as the kernel does
-- with number 1 in a new space, is lost at the first derivation from it: the derived capability
-- takes its place, so its holder is left with the reduced rights only.
pub insert-derive_overwrites :
    (s : CSpace) (c : Capability) (r : Rights)
    → c.id ≡ s.next_id
    → has c.rights r ≡ true
    → let (s', id) = derive (insert s c).0 c.id r in
      (id ≡ some c.id)
      × ((k : ℕ)
          → get s' k ≡ (
              if c.id == k
              then some (record {
                id = c.id;
                resource_type = c.resource_type;
                resource_id = c.resource_id;
                rights = r;
              })
              else get s k))
insert-derive_overwrites s c r next allowed =
    rw (derive-found (insert s c).0 c.id c r (get-insert_self s c))
      (new_number, λ k. ground (arith, get-derive_from s' c r k, get-insert s c k, same))
  where
    s' : CSpace
    s' = (insert s c).0

    same : s'.next_id ≡ c.id
    same = unfold insert in sym next

    new_number : (derive_from s' c r).1 ≡ some c.id
    new_number = unfold insert derive_from Token.derive Rights.derive in ground arith
