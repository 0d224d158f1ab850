-- ===== src/Syscall/Encoding.antt =====
-- The encoding of rights as bits in syscall.rs: `encode_rights` and the decoding in
-- `sys_cap_derive` are inverse to one another.
use jericho_os.Base.{ℕ, ◌<◌, ◌≡◌, refl, true, ◌==◌, ==_iff, passes_below, passes_below-lt, arith}
use jericho_os.Capability.Rights.{Rights}
use jericho_os.Syscall.{decode_rights, encode_rights}

table : passes_below (λ n. encode_rights (decode_rights n) == n) 16 ≡ true
unfolding passes_below decode_rights encode_rights
table = refl

-- Decoding the encoded rights gives them back, and the encoding takes four bits; every value of four
-- bits is the encoding of the rights that it decodes to.
pub decode-encode :
    (r : Rights) (n : ℕ)
    → n < 16
    → (decode_rights (encode_rights r) ≡ r)
      × (encode_rights r < 16)
      × (encode_rights (decode_rights n) ≡ n)
unfolding decode_rights encode_rights
decode-encode r n h = (ground arith, ground arith, (==_iff _ n).0 (passes_below-lt _ 16 table n h))
