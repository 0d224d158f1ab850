-- ===== src/Uart/Lines.antt =====
-- The strings that src/arch/aarch64/uart.rs writes.
use jericho_os.Base.{
  ℕ, suc, ◌+◌, ◌≤◌, ◌<◌, ◌≡◌, refl, ◌∙◌, Option, none, some, List, [], ◌∷◌, ◌++◌, length,
  append_assoc, append-nil, bit_and, ◌==◌, if◌then◌else◌, Bool-cases, inl, inr, arith,
}
use jericho_os.Uart.{Uart, uart_fr_txff, wait, write_byte, write_string, put_all, ◌>>=◌}

-- How often the transmitter is seen ready.
unfoldable pub ready_count : List ℕ → ℕ
ready_count [] = 0
ready_count (flag ∷ flags) = (if bit_and flag uart_fr_txff == 0 then 1 else 0) + ready_count flags

-- A carriage return before each line feed.
unfoldable pub crlf : List ℕ → List ℕ
crlf [] = []
crlf (byte ∷ bytes) = if byte == 10 then 13 ∷ 10 ∷ crlf bytes else byte ∷ crlf bytes

wait_lem :
    (flags : List ℕ)
    → 0 < ready_count flags
    → (flags' : List ℕ) × (wait flags ≡ some flags')
      × (suc (ready_count flags') ≡ ready_count flags)
unfolding wait ready_count
wait_lem [] some_ready = absurd (omega arith)
wait_lem (flag ∷ flags) some_ready = elim (Bool-cases (bit_and flag uart_fr_txff == 0)) [
  | inl now ↦ (flags, ground arith, ground arith)
  | inr later ↦
      let (flags', e, fewer) = wait_lem flags (ground arith) in (flags', ground arith, ground arith)
]

write_byte_lem :
    (u : Uart) (byte : ℕ)
    → 0 < ready_count u.flags
    → (flags : List ℕ) × (write_byte u byte
        ≡ some (record { flags = flags; written = u.written ++ byte ∷ [] }))
      × (suc (ready_count flags) ≡ ready_count u.flags)
unfolding write_byte
write_byte_lem u byte some_ready =
    let (flags, e, fewer) = wait_lem u.flags some_ready in (flags, ground arith, fewer)

pub put_all_lem :
    (bytes : List ℕ) (u : Uart)
    → length bytes ≤ ready_count u.flags
    → (u' : Uart) × (put_all u bytes ≡ some u') × (u'.written ≡ u.written ++ bytes)
unfolding put_all
put_all_lem [] u enough = (u, refl, ground (arith, append-nil u.written))
put_all_lem (byte ∷ bytes) u enough =
    let (flags, e, fewer) = write_byte_lem u byte (omega arith) in
    let (u', e', all) =
      put_all_lem bytes (record { flags = flags; written = u.written ++ byte ∷ [] })
        (omega arith) in
    (u', ground arith, all ∙ append_assoc u.written (byte ∷ []) bytes)

put_all_cons :
    (u : Uart) (byte : ℕ) (bytes : List ℕ)
    → put_all u (byte ∷ bytes) ≡ (write_byte u byte >>= (λ u₁. put_all u₁ bytes))
unfolding put_all
put_all_cons u byte bytes = refl

bind_same :
    (o : Option Uart) (f g : Uart → Option Uart) → ((u : Uart) → f u ≡ g u) → (o >>= f) ≡ (o >>= g)
bind_same none f g h = refl
bind_same (some u) f g h = h u

-- Writing a string is putting its bytes with the line ends converted.
write_string-put_all : (bytes : List ℕ) (u : Uart) → write_string u bytes ≡ put_all u (crlf bytes)
unfolding write_string put_all crlf
write_string-put_all [] u = refl
write_string-put_all (byte ∷ bytes) u = elim (Bool-cases (byte == 10)) [
  | inl feed ↦
      let same : byte ≡ 10 = ground arith in
      rw (feed, same)
        (bind_same (write_byte u 13) _ _
          (λ u₁. bind_same (write_byte u₁ 10) _ _ (write_string-put_all bytes)))
  | inr other ↦ rw other (bind_same (write_byte u byte) _ _ (write_string-put_all bytes))
]

-- `write_string` ends once the transmitter has been seen ready as often as there are bytes to send, and it has
-- then sent the bytes of the string in their order, with a carriage return before each line feed.
pub write_string_lem :
    (u : Uart) (bytes : List ℕ)
    → length (crlf bytes) ≤ ready_count u.flags
    → (u' : Uart) × (write_string u bytes ≡ some u') × (u'.written ≡ u.written ++ crlf bytes)
write_string_lem u bytes enough =
    rw (write_string-put_all bytes u) (put_all_lem (crlf bytes) u enough)
