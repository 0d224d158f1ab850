-- ===== src/Capability/Authority.antt =====
-- What a CSpace of src/capability.rs lets its holder do, apart from the identifiers: the resources
-- it can name, each with the rights that some capability in it has.
use jericho_os.Base.{ℕ, ◌≡◌, refl, some, true, ◌==◌, Bool-cases, inl, inr, arith}
use jericho_os.Capability.Rights.{Rights, has}
use jericho_os.Capability.Token.{Capability}
use jericho_os.Capability.Space.{CSpace, get, revoke, derive, derive_from}
use jericho_os.Capability.Derivation.{has_refl, has_trans}
use jericho_os.Capability.Fresh.{get-revoke, get-derive_from, derive_cases}

-- `c` gives at least what `d` gives.
pub record Covers (c d : Capability) : Type 0 where
  pub same_kind : c.resource_type ≡ d.resource_type
  pub same_resource : c.resource_id ≡ d.resource_id
  pub enough : has c.rights d.rights ≡ true

-- Some capability of the space covers `d`.
abbrev pub Permits : CSpace → Capability → Type 0
Permits s d = (k : ℕ) × (c : Capability) × (get s k ≡ some c) × Covers c d

-- All that `t` holds was already permitted by `s`.
abbrev pub NoMoreThan : CSpace → CSpace → Type 0
NoMoreThan s t = (k : ℕ) (d : Capability) → get t k ≡ some d → Permits s d

pub Covers-refl : (c : Capability) → Covers c c
Covers-refl c = record { same_kind = refl; same_resource = refl; enough = has_refl c.rights }

pub Covers-trans : {c d e : Capability} → Covers c d → Covers d e → Covers c e
Covers-trans {c} {d} {e} p q = record {
  same_kind = ground arith;
  same_resource = ground arith;
  enough = has_trans c.rights d.rights e.rights p.enough q.enough;
}

pub NoMoreThan-refl : (s : CSpace) → NoMoreThan s s
NoMoreThan-refl s k d h = (k, d, h, Covers-refl d)

pub NoMoreThan-trans : (s t u : CSpace) → NoMoreThan s t → NoMoreThan t u → NoMoreThan s u
NoMoreThan-trans s t u p q k d h =
    let (k', c', h', v) = q k d h in
    let (k'', c'', h'', w) = p k' c' h' in (k'', c'', h'', Covers-trans w v)

pub revoke-NoMoreThan : (s : CSpace) (id : ℕ) → NoMoreThan s (revoke s id).0
revoke-NoMoreThan s id k d h = (k, d, ground (arith, get-revoke s id k), Covers-refl d)

derive_from-NoMoreThan :
    (s : CSpace) (source : ℕ) (c : Capability) (r : Rights)
    → get s source ≡ some c
    → NoMoreThan s (derive_from s c r).0
derive_from-NoMoreThan s source c r found k d h = elim (Bool-cases (has c.rights r)) [
  | inr refused ↦ (k, d, ground (arith, get-derive_from s c r k), Covers-refl d)
  | inl allowed ↦ elim (Bool-cases (s.next_id == k)) [
    | inr old ↦ (k, d, ground (arith, get-derive_from s c r k), Covers-refl d)
    | inl new ↦ (
      source,
      c,
      found,
      record {
        same_kind = ground (arith, get-derive_from s c r k);
        same_resource = ground (arith, get-derive_from s c r k);
        enough = ground (arith, get-derive_from s c r k);
      },
    )
  ]
]

pub derive-NoMoreThan : (s : CSpace) (source : ℕ) (r : Rights) → NoMoreThan s (derive s source r).0
derive-NoMoreThan s source r =
    derive_cases (λ p. NoMoreThan s p.0) s source r (NoMoreThan-refl s)
      (λ c found. derive_from-NoMoreThan s source c r found)
