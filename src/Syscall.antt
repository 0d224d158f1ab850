-- ===== src/Syscall.antt =====
-- syscall.rs: the numbered system calls on the CSpace of the calling task.
pub mod Encoding
pub mod Authority
use jericho_os.Base.{
  ℕ, ◌≡◌, Bool, true, false, not, Option, none, some, List, [], ◌∷◌, bit_and, bit_or, ◌==◌,
  if◌then◌else◌,
}
use jericho_os.Capability.Rights.{Rights}
use jericho_os.Capability.Space.{CSpace}
use jericho_os.Capability.Space

pub data SyscallNumber : Type 0 where
  cap_create cap_derive cap_revoke cap_invoke print : SyscallNumber

unfoldable pub from_u64 : ℕ → Option SyscallNumber
from_u64 n =
    if n == 0
    then some cap_create
    else if n == 1
    then some cap_derive
    else if n == 2
    then some cap_revoke
    else if n == 3
    then some cap_invoke
    else if n == 100
    then some print
    else none

pub data SyscallError : Type 0 where
  invalid_syscall invalid_capability permission_denied invalid_argument : SyscallError

pub data SyscallResult : Type 0 where
  success : ℕ → SyscallResult
  error : SyscallError → SyscallResult

-- The CSpace of the calling process.
pub record SyscallContext : Type 0 where
  pub cspace : CSpace

unfoldable pub new : SyscallContext
unfolding Space.new
new = record { cspace = Space.new }

unfoldable pub sys_cap_create : SyscallContext → ℕ → ℕ → ℕ → SyscallContext × SyscallResult
sys_cap_create ctx resource_type resource_id rights_bits = (ctx, error permission_denied)

abbrev nonzero : ℕ → Bool
nonzero n = not (n == 0)

unfoldable pub decode_rights : ℕ → Rights
decode_rights rights_bits = record {
  read = nonzero (bit_and rights_bits 0x1);
  write = nonzero (bit_and rights_bits 0x2);
  execute = nonzero (bit_and rights_bits 0x4);
  grant = nonzero (bit_and rights_bits 0x8);
}

abbrev derived : CSpace × Option ℕ → SyscallContext × SyscallResult
derived (s, some new_id) = (record { cspace = s }, success new_id)
derived (s, none) = (record { cspace = s }, error permission_denied)

unfoldable pub sys_cap_derive : SyscallContext → ℕ → ℕ → SyscallContext × SyscallResult
unfolding decode_rights
sys_cap_derive ctx source_id rights_bits =
    derived (Space.derive ctx.cspace source_id (decode_rights rights_bits))

unfoldable pub sys_cap_revoke : SyscallContext → ℕ → SyscallContext × SyscallResult
sys_cap_revoke ctx cap_id =
    let (s, removed) = Space.revoke ctx.cspace cap_id in
    (record { cspace = s }, elim removed [ some cap ↦ success 0 | none ↦ error invalid_capability ])

unfoldable pub sys_cap_invoke : SyscallContext → ℕ → ℕ → ℕ → ℕ → SyscallContext × SyscallResult
sys_cap_invoke ctx cap_id arg2 arg3 arg4 = elim (Space.get ctx.cspace cap_id) [
  | some cap ↦ (ctx, success 1)
  | none ↦ (ctx, error invalid_capability)
]

unfoldable pub sys_print : SyscallContext → ℕ → SyscallContext × SyscallResult
sys_print ctx value = (ctx, success 0)

abbrev dispatch : SyscallNumber → SyscallContext → ℕ → ℕ → ℕ → ℕ → SyscallContext × SyscallResult
dispatch cap_create ctx arg1 arg2 arg3 arg4 = sys_cap_create ctx arg1 arg2 arg3
dispatch cap_derive ctx arg1 arg2 arg3 arg4 = sys_cap_derive ctx arg1 arg2
dispatch cap_revoke ctx arg1 arg2 arg3 arg4 = sys_cap_revoke ctx arg1
dispatch cap_invoke ctx arg1 arg2 arg3 arg4 = sys_cap_invoke ctx arg1 arg2 arg3 arg4
dispatch print ctx arg1 arg2 arg3 arg4 = sys_print ctx arg1

unfoldable pub syscall : SyscallContext → ℕ → ℕ → ℕ → ℕ → ℕ → SyscallContext × SyscallResult
syscall ctx syscall_num arg1 arg2 arg3 arg4 = elim (from_u64 syscall_num) [
  | none ↦ (ctx, error invalid_syscall)
  | some number ↦ dispatch number ctx arg1 arg2 arg3 arg4
]

unfoldable pub capability_count : SyscallContext → ℕ
capability_count ctx = Space.len ctx.cspace

-- `if b { bits |= mask; }`.
abbrev or_if : Bool → ℕ → ℕ → ℕ
or_if b mask bits = if b then bit_or bits mask else bits

unfoldable pub encode_rights : Rights → ℕ
encode_rights rights =
    or_if rights.grant 0x8
      (or_if rights.execute 0x4 (or_if rights.write 0x2 (or_if rights.read 0x1 0)))

-- One call of a task: the number and its four arguments.
pub record Call : Type 0 where
  pub number : ℕ
  pub arg1 : ℕ
  pub arg2 : ℕ
  pub arg3 : ℕ
  pub arg4 : ℕ

unfoldable pub step : SyscallContext → Call → SyscallContext × SyscallResult
step ctx c = syscall ctx c.number c.arg1 c.arg2 c.arg3 c.arg4

-- A task's calls, in order.
unfoldable pub run : SyscallContext → List Call → SyscallContext
run ctx [] = ctx
run ctx (c ∷ cs) = run (step ctx c).0 cs
