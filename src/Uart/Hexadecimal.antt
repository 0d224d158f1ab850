-- ===== src/Uart/Hexadecimal.antt =====
-- The hexadecimal digits that the ARM64 port prints.
use jericho_os.Base.{
  ℕ, zero, suc, ◌+◌, ◌-◌, ◌*◌, ◌/◌, ◌%◌, ◌^◌, ◌<◌, ◌≤◌, ◌++◌, some, ◌≡◌, refl, ap, ◌∙◌, true, List,
  [], ◌∷◌, length, ltb, bit_and, bit_and_15, passes_below, passes_below-lt, ◌==◌, ==_iff,
  if◌then◌else◌, arith,
}
use jericho_os.Uart.{Uart, hex_char, fill_buffer, hex_bytes, uart_puts_hex}
use jericho_os.Uart.Lines.{ready_count, put_all_lem}

-- The value of a digit, and of a number written with digits, after those that have the value `acc`.
abbrev pub digit_value : ℕ → ℕ
digit_value c = if ltb c 58 then c - 48 else c - 55

unfoldable pub parse_from : ℕ → List ℕ → ℕ
parse_from acc [] = acc
parse_from acc (c ∷ cs) = parse_from (acc * 16 + digit_value c) cs

abbrev pub parse_hex : List ℕ → ℕ
parse_hex cs = parse_from 0 cs

digit_table : passes_below (λ d. digit_value (hex_char d) == d) 16 ≡ true
unfolding passes_below hex_char
digit_table = refl

digit_value-hex_char : (d : ℕ) → d < 16 → digit_value (hex_char d) ≡ d
digit_value-hex_char d h = (==_iff _ d).0 (passes_below-lt _ 16 digit_table d h)

-- The number of the lowest `n` digits.
abbrev low_digits : ℕ → ℕ → ℕ
low_digits zero val = 0
low_digits (suc n) val = low_digits n (val / 16) * 16 + val % 16

parse_from-fill_buffer :
    (n val : ℕ) (buf : List ℕ)
    → parse_from 0 (fill_buffer n val buf) ≡ parse_from (low_digits n val) buf
unfolding fill_buffer parse_from
parse_from-fill_buffer zero val buf = refl
parse_from-fill_buffer (suc n) val buf =
    parse_from-fill_buffer n (val / 16) (hex_char (bit_and val 15) ∷ buf)
    ∙ ap (λ d. parse_from (low_digits n (val / 16) * 16 + d) buf)
        (digit_value-hex_char (bit_and val 15) (omega (arith, bit_and_15 val)) ∙ bit_and_15 val)

length-fill_buffer : (n val : ℕ) (buf : List ℕ) → length (fill_buffer n val buf) ≡ n + length buf
unfolding fill_buffer
length-fill_buffer zero val buf = omega arith
length-fill_buffer (suc n) val buf =
    omega (arith, length-fill_buffer n (val / 16) (hex_char (bit_and val 15) ∷ buf))

-- `uart_puts_hex` ends once the transmitter has been seen ready sixteen times; it has then sent sixteen
-- digits, and read as a hexadecimal number they are the value of 64 bits that it was given.
pub uart_puts_hex-parse_hex :
    (u : Uart) (val : ℕ)
    → val < 2 ^ 64
    → 16 ≤ ready_count u.flags
    → (u' : Uart) × (sent : List ℕ) × (uart_puts_hex u val ≡ some u')
      × (u'.written ≡ u.written ++ sent)
      × (length sent ≡ 16)
      × (parse_hex sent ≡ val)
unfolding uart_puts_hex hex_bytes parse_from
uart_puts_hex-parse_hex u val small enough =
    let sixteen = length-fill_buffer 16 val [] in
    let (u', ends, written) = put_all_lem (fill_buffer 16 val []) u (omega (arith, sixteen)) in
    (
      u',
      fill_buffer 16 val [],
      ends,
      written,
      sixteen,
      parse_from-fill_buffer 16 val [] ∙ omega arith,
    )
