-- ===== src/Examples/Spaces.antt =====
-- Small capability spaces (capability.rs) and the system calls on them (syscall.rs).
use jericho_os.Base.{ℕ, ◌≡◌, refl, none, some, List, [], ◌∷◌, if◌then◌else◌, ◌==◌, arith}
use jericho_os.Base.Assoc
use jericho_os.Capability.Rights.{has, read_only, all_rights}
use jericho_os.Capability.Token.{Capability, endpoint}
use jericho_os.Capability.Space.{CSpace, new, insert, get, create, derive}
use jericho_os.Capability.Fresh.{
  IsValid, new-IsValid, create-IsValid, derive_fresh, insert-derive_overwrites,
}
use jericho_os.Capability.Authority.{NoMoreThan}
use jericho_os.Syscall.{
  Call, step, run, syscall, error, permission_denied, from_u64, sys_cap_create,
}
use jericho_os.Syscall.Authority.{run-NoMoreThan}

-- The kernel creates one capability for an endpoint with all rights.
abbrev one_cap : CSpace
unfolding create insert new Assoc.insert
one_cap = (create new endpoint 100 all_rights).0

abbrev first : Capability
first = record { id = 1; resource_type = endpoint; resource_id = 100; rights = all_rights }

one_cap-IsValid : IsValid one_cap
unfolding create insert new Assoc.insert
one_cap-IsValid = create-IsValid new endpoint 100 all_rights new-IsValid (omega arith)

derive_fresh_example :
    let (s', id) = derive one_cap 1 read_only in
    (id ≡ some one_cap.next_id)
    × (get one_cap one_cap.next_id ≡ none)
    × ((k : ℕ)
        → get s' k ≡ (
            if one_cap.next_id == k
            then some (record {
              id = one_cap.next_id;
              resource_type = endpoint;
              resource_id = 100;
              rights = read_only;
            })
            else get one_cap k))
unfolding get create insert new Assoc.insert Assoc.lookup has
derive_fresh_example = derive_fresh one_cap 1 first read_only one_cap-IsValid refl refl

-- What main.rs does for a task: a capability under number 1 goes into a new space, whose next
-- number is 1 as well. The first derivation replaces it.
insert-derive_overwrites_example :
    let (s', id) = derive (insert new first).0 1 read_only in
    (id ≡ some 1)
    × ((k : ℕ)
        → get s' k ≡ (
            if 1 == k
            then some
                (record { id = 1; resource_type = endpoint; resource_id = 100; rights = read_only })
            else get new k))
unfolding new has
insert-derive_overwrites_example = insert-derive_overwrites new first read_only refl refl

-- A derivation, a revocation, and an attempt to create.
abbrev calls : List Call
calls =
    record { number = 1; arg1 = 1; arg2 = 1; arg3 = 0; arg4 = 0 }
    ∷ record { number = 2; arg1 = 1; arg2 = 0; arg3 = 0; arg4 = 0 }
    ∷ record { number = 0; arg1 = 0; arg2 = 4096; arg3 = 15; arg4 = 0 }
    ∷ []

run-NoMoreThan_example : NoMoreThan one_cap (run (record { cspace = one_cap }) calls).cspace
run-NoMoreThan_example = run-NoMoreThan (record { cspace = one_cap }) calls

-- The first call of `test_capability_system` of main.rs, which expects a new capability.
create_denied :
    (step
      (record { cspace = new })
      (record { number = 0; arg1 = 0; arg2 = 4096; arg3 = 15; arg4 = 0 })).1
    ≡ error permission_denied
unfolding step syscall from_u64 sys_cap_create
create_denied = refl
