-- ===== src/Capability/Rights.antt =====
-- `Rights` of src/capability.rs: four permission flags, the order on them, and `derive`.
use jericho_os.Base.{Bool, true, false, not, ◌&&◌, ◌||◌, Option, none, some, if◌then◌else◌}

pub record Rights : Type 0 where
  pub read : Bool
  pub write : Bool
  pub execute : Bool
  pub grant : Bool

abbrev pub none_rights : Rights
none_rights = record { read = false; write = false; execute = false; grant = false }

abbrev pub read_only : Rights
read_only = record { read = true; write = false; execute = false; grant = false }

abbrev pub read_write : Rights
read_write = record { read = true; write = true; execute = false; grant = false }

abbrev pub all_rights : Rights
all_rights = record { read = true; write = true; execute = true; grant = true }

-- Whether `self` has every right of `other`.
unfoldable pub has : Rights → Rights → Bool
has self other =
    (not other.read || self.read)
    && (not other.write || self.write)
    && (not other.execute || self.execute)
    && (not other.grant || self.grant)

unfoldable pub derive : Rights → Rights → Option Rights
unfolding has
derive self requested = if has self requested then some requested else none
