-- ===== src/Capability/Space.antt =====
-- `CSpace` of src/capability.rs: the capabilities of a task in a BTreeMap under their identifiers.
-- The counter `next_id` is a u64, which wraps as it does in a release build.
use jericho_os.Base.{ℕ, ◌+◌, ◌%◌, ◌^◌, Bool, Option, none, some, List, [], length, is_empty}
use jericho_os.Base.Assoc.{lookup}
use jericho_os.Base.Assoc
use jericho_os.Capability.Rights.{Rights}
use jericho_os.Capability.Token.{Capability, ResourceType}
use jericho_os.Capability.Token

pub record CSpace : Type 0 where
  pub capabilities : List (ℕ × Capability)
  pub next_id : ℕ

abbrev pub next_u64 : ℕ → ℕ
next_u64 n = (n + 1) % 2 ^ 64

unfoldable pub new : CSpace
new = record { capabilities = []; next_id = 1 }

unfoldable pub insert : CSpace → Capability → CSpace × ℕ
insert s cap = (record s { capabilities = Assoc.insert cap.id cap s.capabilities }, cap.id)

unfoldable pub get : CSpace → ℕ → Option Capability
get s id = lookup id s.capabilities

unfoldable pub revoke : CSpace → ℕ → CSpace × Option Capability
revoke s id = (record s { capabilities = Assoc.remove id s.capabilities }, lookup id s.capabilities)

unfoldable pub create : CSpace → ResourceType → ℕ → Rights → CSpace × ℕ
unfolding insert
create s resource_type resource_id rights =
    let id = s.next_id in
    let s' : CSpace = record s { next_id = next_u64 s.next_id } in
    let cap : Capability = record {
      id = id;
      resource_type = resource_type;
      resource_id = resource_id;
      rights = rights;
    } in
    ((insert s' cap).0, id)

-- What `derive` does once it holds the source: the number is taken before the rights are checked.
unfoldable pub derive_from : CSpace → Capability → Rights → CSpace × Option ℕ
unfolding insert
derive_from s source_cap new_rights =
    let new_id = s.next_id in
    let s' : CSpace = record s { next_id = next_u64 s.next_id } in
    elim (Token.derive source_cap new_id new_rights) [
      | none ↦ (s', none)
      | some derived_cap ↦ ((insert s' derived_cap).0, some new_id)
    ]

unfoldable pub derive : CSpace → ℕ → Rights → CSpace × Option ℕ
unfolding get derive_from
derive s source_id new_rights = elim (get s source_id) [
  | none ↦ (s, none)
  | some source_cap ↦ derive_from s source_cap new_rights
]

unfoldable pub len : CSpace → ℕ
len s = length s.capabilities

unfoldable pub empty? : CSpace → Bool
empty? s = is_empty s.capabilities
