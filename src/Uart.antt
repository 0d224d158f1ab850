-- ===== src/Uart.antt =====
-- uart.rs and the printing helpers of the ARM64 port, with the copies that other files have of them. The
-- driver polls the flag register before each byte; the values that it will read there are given as a list,
-- and a loop that has read them all is `none`.
pub mod Lines
pub mod Hexadecimal
use jericho_os.Base.{
  ℕ, zero, suc, ◌+◌, ◌*◌, ◌/◌, ◌%◌, ◌^◌, Bool, Option, none, some, List, [], ◌∷◌, ◌++◌, get_elem?,
  bit_and, ltb, ◌==◌, if◌then◌else◌,
}

abbrev pub uart_fr_txff : ℕ
uart_fr_txff = 2 ^ 5

-- The flags that are still to be read, and the bytes written to the data register.
pub record Uart : Type 0 where
  pub flags : List ℕ
  pub written : List ℕ

-- The flags that are left when the loop ends.
unfoldable pub wait : List ℕ → Option (List ℕ)
wait [] = none
wait (flag ∷ flags) = if bit_and flag uart_fr_txff == 0 then some flags else wait flags

unfoldable pub write_byte : Uart → ℕ → Option Uart
unfolding wait
write_byte u byte = elim (wait u.flags) [
  | none ↦ none
  | some flags ↦ some (record { flags = flags; written = u.written ++ byte ∷ [] })
]

infixl 5 ◌>>=◌
abbrev pub ◌>>=◌ : Option Uart → (Uart → Option Uart) → Option Uart
◌>>=◌ none next = none
◌>>=◌ (some u) next = next u

unfoldable pub write_string : Uart → List ℕ → Option Uart
unfolding write_byte
write_string u [] = some u
write_string u (byte ∷ bytes) = do
  u₁ ← if byte == 10 then write_byte u 13 else some u
  u₂ ← write_byte u₁ byte
  write_string u₂ bytes

-- `HEX_CHARS[digit]`.
unfoldable pub hex_char : ℕ → ℕ
hex_char digit = if ltb digit 10 then 48 + digit else 55 + digit

-- The loop that fills the buffer from its end.
unfoldable pub fill_buffer : ℕ → ℕ → List ℕ → List ℕ
unfolding hex_char
fill_buffer zero val buf = buf
fill_buffer (suc n) val buf = fill_buffer n (val / 2 ^ 4) (hex_char (bit_and val 0xF) ∷ buf)

unfoldable pub hex_bytes : ℕ → List ℕ
unfolding fill_buffer
hex_bytes val = fill_buffer 16 val []

-- The bytes of the buffer, without a conversion of line ends.
unfoldable pub put_all : Uart → List ℕ → Option Uart
unfolding write_byte
put_all u [] = some u
put_all u (byte ∷ bytes) = do u₁ ← write_byte u byte; put_all u₁ bytes

unfoldable pub uart_puts_hex : Uart → ℕ → Option Uart
unfolding hex_bytes put_all
uart_puts_hex u val = put_all u (hex_bytes val)
