-- ===== src/Syscall/Authority.antt =====
-- The system calls of syscall.rs cannot add to what a task may do.
use jericho_os.Base.{
  ℕ, ◌≡◌, ◌≢◌, refl, ◌↔◌, inl, inr, Option, none, some, List, [], ◌∷◌, Option-cases, ◌⊎◌, true,
  false, ◌==◌, if◌then◌else◌, arith,
}
use jericho_os.Capability.Rights.{Rights, has}
use jericho_os.Capability.Rights
use jericho_os.Capability.Token.{Capability}
use jericho_os.Capability.Token
use jericho_os.Capability.Space.{CSpace, get, derive}
use jericho_os.Capability.Authority.{
  NoMoreThan, NoMoreThan-refl, NoMoreThan-trans, derive-NoMoreThan, revoke-NoMoreThan,
}
use jericho_os.Syscall.{
  SyscallContext, SyscallResult, SyscallNumber, dispatch, derived, cap_create, cap_derive,
  cap_revoke, cap_invoke, print, Call, success, error, permission_denied, invalid_syscall, from_u64,
  syscall, sys_cap_create, sys_cap_derive, sys_cap_revoke, sys_cap_invoke, sys_print, decode_rights,
  step, run,
}

derived-cspace : (p : CSpace × Option ℕ) → (derived p).0.cspace ≡ p.0
derived-cspace (s, some id) = refl
derived-cspace (s, none) = refl

sys_cap_invoke_unchanged :
    (ctx : SyscallContext) (a b c d : ℕ) → (sys_cap_invoke ctx a b c d).0 ≡ ctx
unfolding sys_cap_invoke
sys_cap_invoke_unchanged ctx a b c d = ground arith

dispatch-NoMoreThan :
    (n : SyscallNumber) (ctx : SyscallContext) (a b c d : ℕ)
    → NoMoreThan ctx.cspace (dispatch n ctx a b c d).0.cspace
unfolding sys_cap_create sys_cap_derive sys_cap_revoke sys_print
dispatch-NoMoreThan cap_create ctx a b c d = NoMoreThan-refl ctx.cspace
dispatch-NoMoreThan cap_derive ctx a b c d =
    rw (derived-cspace (derive ctx.cspace a (decode_rights b)))
      (derive-NoMoreThan ctx.cspace a (decode_rights b))
dispatch-NoMoreThan cap_revoke ctx a b c d = revoke-NoMoreThan ctx.cspace a
dispatch-NoMoreThan cap_invoke ctx a b c d =
    rw (sys_cap_invoke_unchanged ctx a b c d) (NoMoreThan-refl ctx.cspace)
dispatch-NoMoreThan print ctx a b c d = NoMoreThan-refl ctx.cspace

step-NoMoreThan : (ctx : SyscallContext) (c : Call) → NoMoreThan ctx.cspace (step ctx c).0.cspace
unfolding step syscall
step-NoMoreThan ctx c = elim (Option-cases (from_u64 c.number)) [
  | inl e ↦ rw (e, syscall) (NoMoreThan-refl ctx.cspace)
  | inr (n, e) ↦ rw (e, syscall) (dispatch-NoMoreThan n ctx c.arg1 c.arg2 c.arg3 c.arg4)
]

-- No sequence of system calls lets a task do more than it could before: each capability in the end
-- is for a resource of one that it held at the start, and has no right that this one lacks.
pub run-NoMoreThan :
    (ctx : SyscallContext) (cs : List Call) → NoMoreThan ctx.cspace (run ctx cs).cspace
unfolding run
run-NoMoreThan ctx [] = NoMoreThan-refl ctx.cspace
run-NoMoreThan ctx (c ∷ cs) =
    NoMoreThan-trans ctx.cspace (step ctx c).0.cspace _ (step-NoMoreThan ctx c)
      (run-NoMoreThan (step ctx c).0 cs)

-- What `CapDerive` answers and leaves: either the source is there and has the rights asked for, and then there is a
-- capability to its resource with just these rights, under the number that it answers, and all else in the space is
-- as it was; or not, and then it is refused, with all capabilities as they were.
abbrev pub Derives : CSpace → ℕ → Rights → CSpace → SyscallResult → Type 0
Derives s source rights s' answer =
    ((c : Capability) × (get s source ≡ some c)
      × (has c.rights rights ≡ true)
      × (answer ≡ success s.next_id)
      × ((k : ℕ)
          → get s' k ≡ (
              if s.next_id == k
              then some (record {
                id = s.next_id;
                resource_type = c.resource_type;
                resource_id = c.resource_id;
                rights = rights;
              })
              else get s k)))
    ⊎ ((answer ≡ error permission_denied)
        × (s'.capabilities ≡ s.capabilities)
        × ((c : Capability) → get s source ≡ some c → has c.rights rights ≡ false))

abbrev answer_of : Option ℕ → SyscallResult
answer_of (some id) = success id
answer_of none = error permission_denied

-- What a call with this number, or with none, answers and leaves.
abbrev pub Answers :
    Option SyscallNumber → SyscallContext → Call → SyscallContext × SyscallResult → Type 0
Answers none ctx c (ctx', answer) = (ctx' ≡ ctx) × (answer ≡ error invalid_syscall)
Answers (some cap_create) ctx c (ctx', answer) = (ctx' ≡ ctx) × (answer ≡ error permission_denied)
Answers (some cap_derive) ctx c (ctx', answer) =
    Derives ctx.cspace c.arg1 (decode_rights c.arg2) ctx'.cspace answer
Answers (some cap_revoke) ctx c (ctx', answer) =
    ((k : ℕ) → get ctx'.cspace k ≡ (if c.arg1 == k then none else get ctx.cspace k))
    × ((answer ≡ success 0) ↔ (get ctx.cspace c.arg1 ≢ none))
Answers (some cap_invoke) ctx c (ctx', answer) =
    (ctx' ≡ ctx) × ((answer ≡ success 1) ↔ (get ctx.cspace c.arg1 ≢ none))
Answers (some print) ctx c (ctx', answer) = (ctx' ≡ ctx) × (answer ≡ success 0)
