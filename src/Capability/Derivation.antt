-- ===== src/Capability/Derivation.antt =====
-- Derivation of src/capability.rs never adds rights, on any chain.
use jericho_os.Base.{ℕ, ◌≡◌, none, some, true, if◌then◌else◌, arith}
use jericho_os.Capability.Rights.{Rights, has}
use jericho_os.Capability.Rights
use jericho_os.Capability.Token.{Capability}
use jericho_os.Capability.Token

pub has_refl : (r : Rights) → has r r ≡ true
unfolding has
has_refl r = ground arith

pub has_trans : (r s t : Rights) → has r s ≡ true → has s t ≡ true → has r t ≡ true
unfolding has
has_trans r s t h k = ground arith

pub has_antisym : (r s : Rights) → has r s ≡ true → has s r ≡ true → r ≡ s
unfolding has
has_antisym r s h k = ground arith

-- What a successful derivation gives.
pub derive-some :
    (c d : Capability) (id : ℕ) (r : Rights)
    → Token.derive c id r ≡ some d
    → (has c.rights r ≡ true)
      × (d ≡ record {
        id = id;
        resource_type = c.resource_type;
        resource_id = c.resource_id;
        rights = r;
      })
unfolding Token.derive
derive-some c d id r h = ground arith

-- Deriving from a derived capability is deriving from the first one, under the same identifier and
-- with the same rights, as long as the derived one has these rights, and is refused otherwise.
pub derive_chain :
    (c d : Capability) (i j : ℕ) (q r : Rights)
    → Token.derive c i q ≡ some d
    → Token.derive d j r ≡ (if has q r then Token.derive c j r else none)
unfolding Token.derive Rights.derive has
derive_chain c d i j q r h = ground arith
