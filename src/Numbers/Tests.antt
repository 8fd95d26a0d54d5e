-- ===== src/Numbers/Tests.antt =====
-- Runs of the printing functions, and their theorems at these numbers.
use john_os.Common.{◌/◌, ◌%◌, ◌^◌, ◌≡◌, refl, none, [], ◌∷◌, arith, u8}
use john_os.Numbers.{
  printi, printbyte, printbytechar, decimal_loop, print_hex, hex_loop, print_hex_byte, hex_to_dec,
}
use john_os.Numbers.Decimal.{IsDecimal, printi-IsDecimal, printbytechar-negative}
use john_os.Numbers.Hex.{print_hex_byte_lem, hex_to_dec-digits}

prints : printi 407 ≡ b'4' ∷ b'0' ∷ b'7' ∷ []
unfolding printi decimal_loop
prints = refl

prints_hex : (print_hex 0 0xb8).0 ≡ b'0' ∷ b'x' ∷ b'B' ∷ b'8' ∷ []
unfolding print_hex hex_loop
prints_hex = refl

printi-IsDecimal_example : IsDecimal 407 10 (printi 407) × IsDecimal (u8 407) 3 (printbyte (u8 407))
printi-IsDecimal_example = printi-IsDecimal 407 (omega arith)

printbytechar-negative_example : printbytechar 0xff ≡ none
printbytechar-negative_example = printbytechar-negative 0xff (omega arith)

print_hex_byte_lem_example : (print_hex_byte 0 0x0c).0 ≡ b'0' ∷ b'C' ∷ []
print_hex_byte_lem_example = print_hex_byte_lem 0 0x0c (omega arith)

hex_to_dec-digits_example : hex_to_dec (λ c. 0xdeadbeef / 16 ^ c % 16) ≡ 0xdeadbeef
hex_to_dec-digits_example = hex_to_dec-digits 0xdeadbeef (omega arith)
