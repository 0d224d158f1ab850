-- ===== src/Boot/SelfTest.antt =====
-- `test_capability_system` of src/main.rs: six system calls of one context, each with the line that it
-- prints, `true` for "[ OK ]" and `false` for "[FAIL]".
use jericho_os.Base.{ℕ, ◌≡◌, refl, Bool, true, false, not, none, some, List, [], ◌∷◌, arith}
use jericho_os.Base.Assoc
use jericho_os.Base.Assoc.{lookup-insert, lookup-remove}
use jericho_os.Capability.Rights.{all_rights, read_only, read_write, has}
use jericho_os.Capability.Rights
use jericho_os.Capability.Token.{Capability}
use jericho_os.Capability.Token
use jericho_os.Capability.Space.{CSpace, next_u64}
use jericho_os.Capability.Space
use jericho_os.Syscall.{
  SyscallContext, SyscallResult, success, error, syscall, encode_rights, decode_rights, from_u64,
  sys_cap_create, sys_cap_derive, sys_cap_revoke, sys_cap_invoke,
}
use jericho_os.Syscall

abbrev succeeded : SyscallResult → Bool
succeeded (success value) = true
succeeded (error problem) = false

-- The tests 3 to 6, with the derived capability.
unfoldable pub test_derived : SyscallContext → ℕ → SyscallContext × List Bool
unfolding syscall encode_rights
test_derived ctx cap2_id =
    let (ctx₃, escalated) = syscall ctx 1 cap2_id (encode_rights read_write) 0 0 in
    let (ctx₄, invoked) = syscall ctx₃ 3 cap2_id 0 0 0 in
    let (ctx₅, revoked) = syscall ctx₄ 2 cap2_id 0 0 0 in
    let (ctx₆, used) = syscall ctx₅ 3 cap2_id 0 0 0 in
    (
      ctx₆,
      not (succeeded escalated) ∷ succeeded invoked ∷ succeeded revoked ∷ not (succeeded used) ∷ [],
    )

-- Test 2 and what follows, with the first capability.
unfoldable pub test_created : SyscallContext → ℕ → SyscallContext × List Bool
unfolding test_derived
test_created ctx cap1_id =
    let (ctx₂, result) = syscall ctx 1 cap1_id (encode_rights read_only) 0 0 in
    elim result [
      | error e ↦ (ctx₂, false ∷ [])
      | success id ↦ let (ctx', lines) = test_derived ctx₂ id in (ctx', true ∷ lines)
    ]

unfoldable pub test_capability_system : SyscallContext → SyscallContext × List Bool
unfolding test_created
test_capability_system ctx =
    let (ctx₁, result) = syscall ctx 0 0 0x1000 (encode_rights all_rights) 0 in
    elim result [
      | error e ↦ (ctx₁, false ∷ [])
      | success id ↦ let (ctx', lines) = test_created ctx₁ id in (ctx', true ∷ lines)
    ]

-- What the second test makes of a capability.
abbrev read_copy : SyscallContext → Capability → Capability
read_copy ctx c = record {
  id = ctx.cspace.next_id;
  resource_type = c.resource_type;
  resource_id = c.resource_id;
  rights = read_only;
}

-- The context after a derivation that is allowed, and after one that is not.
syscall_derives :
    (ctx : SyscallContext) (source : ℕ) (c : Capability)
    → Space.get ctx.cspace source ≡ some c
    → c.rights.read ≡ true
    → syscall ctx 1 source (encode_rights read_only) 0 0 ≡ (
      record {
        cspace = record {
          capabilities = Assoc.insert ctx.cspace.next_id (read_copy ctx c) ctx.cspace.capabilities;
          next_id = next_u64 ctx.cspace.next_id;
        };
      },
      success ctx.cspace.next_id,
    )
unfolding syscall from_u64 sys_cap_derive encode_rights decode_rights Space.derive Space.derive_from
    Space.insert Token.derive Rights.derive has
syscall_derives ctx source c there right = ground arith

syscall_refuses :
    (ctx : SyscallContext) (source : ℕ) (c : Capability)
    → Space.get ctx.cspace source ≡ some c
    → c.rights ≡ read_only
    → syscall ctx 1 source (encode_rights read_write) 0 0 ≡ (
      record {
        cspace = record {
          capabilities = ctx.cspace.capabilities;
          next_id = next_u64 ctx.cspace.next_id;
        };
      },
      error Syscall.permission_denied,
    )
unfolding syscall from_u64 sys_cap_derive encode_rights decode_rights Space.derive Space.derive_from
    Token.derive Rights.derive has
syscall_refuses ctx source c there right = ground arith

test_derived_lem :
    (ctx : SyscallContext) (cap2_id : ℕ) (d : Capability)
    → Space.get ctx.cspace cap2_id ≡ some d
    → d.rights ≡ read_only
    → test_derived ctx cap2_id ≡ (
      record {
        cspace = record {
          capabilities = Assoc.remove cap2_id ctx.cspace.capabilities;
          next_id = next_u64 ctx.cspace.next_id;
        };
      },
      true ∷ true ∷ true ∷ true ∷ [],
    )
unfolding test_derived syscall from_u64 sys_cap_revoke sys_cap_invoke Space.get Space.revoke
test_derived_lem ctx cap2_id d there right = ground (
  arith,
  syscall_refuses ctx cap2_id d there right,
  lookup-remove cap2_id cap2_id ctx.cspace.capabilities,
)

test_created_lem :
    (ctx : SyscallContext) (cap1_id : ℕ) (c : Capability)
    → Space.get ctx.cspace cap1_id ≡ some c
    → c.rights.read ≡ true
    → test_created ctx cap1_id ≡ (
      record {
        cspace = record {
          capabilities =
              Assoc.remove ctx.cspace.next_id
                (Assoc.insert ctx.cspace.next_id (read_copy ctx c) ctx.cspace.capabilities);
          next_id = next_u64 (next_u64 ctx.cspace.next_id);
        };
      },
      true ∷ true ∷ true ∷ true ∷ true ∷ [],
    )
unfolding test_created Space.get
test_created_lem ctx cap1_id c there right = ground (
  arith,
  syscall_derives ctx cap1_id c there right,
  test_derived_lem
      (record {
        cspace = record {
          capabilities = Assoc.insert ctx.cspace.next_id (read_copy ctx c) ctx.cspace.capabilities;
          next_id = next_u64 ctx.cspace.next_id;
        };
      })
      ctx.cspace.next_id (read_copy ctx c) found refl,
)
  where
    found :
        Assoc.lookup ctx.cspace.next_id
          (Assoc.insert ctx.cspace.next_id (read_copy ctx c) ctx.cspace.capabilities)
        ≡ some (read_copy ctx c)
    found = ground (
      arith,
      lookup-insert ctx.cspace.next_id ctx.cspace.next_id (read_copy ctx c) ctx.cspace.capabilities,
    )

-- The test of the capability system stops at its first call, whatever the context, since `cap_create`
-- is refused, and prints one "[FAIL]". Its other five tests would all print "[ OK ]", for every context
-- and every capability there that may be read, if the next number of the context is free; they leave
-- what each number names as it was, and two numbers are used.
pub test_capability_system_lem :
    (ctx : SyscallContext) (cap1_id : ℕ) (c : Capability)
    → Space.get ctx.cspace cap1_id ≡ some c
    → c.rights.read ≡ true
    → Space.get ctx.cspace ctx.cspace.next_id ≡ none
    → let (ctx', lines) = test_created ctx cap1_id in
      (test_capability_system ctx ≡ (ctx, false ∷ []))
      × (lines ≡ true ∷ true ∷ true ∷ true ∷ true ∷ [])
      × ((id : ℕ) → Space.get ctx'.cspace id ≡ Space.get ctx.cspace id)
      × (ctx'.cspace.next_id ≡ next_u64 (next_u64 ctx.cspace.next_id))
unfolding Space.get test_capability_system syscall from_u64 sys_cap_create
test_capability_system_lem ctx cap1_id c there right free =
    rw (test_created_lem ctx cap1_id c there right) (
      refl,
      refl,
      λ id. ground (
        arith,
        lookup-remove ctx.cspace.next_id id
            (Assoc.insert ctx.cspace.next_id (read_copy ctx c) ctx.cspace.capabilities),
        lookup-insert ctx.cspace.next_id id (read_copy ctx c) ctx.cspace.capabilities,
      ),
      refl,
    )
