-- ===== src/Capability/Token.antt =====
-- `ResourceType` and `Capability` of src/capability.rs. A CapabilityId is its u64.
use jericho_os.Base.{ℕ, ◌≡◌, ◌↔◌, Bool, true, Option, ◌==◌, arith}
use mathlib.Core.Option
use jericho_os.Capability.Rights.{Rights}
use jericho_os.Capability.Rights

pub data ResourceType : Type 0 where
  memory interrupt thread endpoint wasm_module : ResourceType

-- `#[repr(u32)]`: the discriminants, which the derived equality compares.
abbrev pub discriminant : ResourceType → ℕ
discriminant memory = 0
discriminant interrupt = 1
discriminant thread = 2
discriminant endpoint = 3
discriminant wasm_module = 4

abbrev pub same_type : ResourceType → ResourceType → Bool
same_type a b = discriminant a == discriminant b

pub record Capability : Type 0 where
  pub id : ℕ
  pub resource_type : ResourceType
  pub resource_id : ℕ
  pub rights : Rights

-- A capability with reduced rights to the same resource.
unfoldable pub derive : Capability → ℕ → Rights → Option Capability
unfolding Rights.derive
derive cap new_id new_rights =
    Option.map
      (λ rights. record {
        id = new_id;
        resource_type = cap.resource_type;
        resource_id = cap.resource_id;
        rights = rights;
      })
      (Rights.derive cap.rights new_rights)

pub same_type_iff : (a b : ResourceType) → (same_type a b ≡ true) ↔ (a ≡ b)
same_type_iff a b = ground arith
