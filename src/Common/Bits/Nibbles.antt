-- ===== src/Common/Bits/Nibbles.antt =====
-- The two halves of a byte, and the byte or word that `|` puts together.
use john_os.Common.Bits.{bit_and-low_bits}
use john_os.Common.Bits.Step.{or_split, and_split}
use Prim.Native.Nat.{ℕ, zero, suc, ◌+◌, ◌*◌, ◌/◌, ◌%◌, ◌<◌, ◌^◌, bit_and, bit_or, bit_or-bitwise}
use mathlib.Core.Path.{◌≡◌, refl, ap, ◌∙◌}
use native.Mathlib.Omega.{arith}
use native.Mathlib.Nat.{pow-suc}

pub high_nibble : (g : ℕ) → bit_and g 0xF0 ≡ g / 16 % 16 * 16
high_nibble g = omega (
  arith,
  and_split g 0xF0,
  and_split (g / 2) 0x78,
  and_split (g / 2 / 2) 0x3C,
  and_split (g / 2 / 2 / 2) 0x1E,
  bit_and-low_bits 4 (g / 2 / 2 / 2 / 2),
)

-- The lowest two bits of a byte, cleared.
pub dword_offset : (offset : ℕ) → offset < 256 → bit_and offset 0xfc ≡ offset / 4 * 4
dword_offset offset h =
    omega (
      arith,
      and_split offset 0xfc,
      and_split (offset / 2) 0x7e,
      bit_and-low_bits 6 (offset / 2 / 2),
    )

-- The lowest four bits of a word of 32 bits, cleared.
pub paragraph : (v : ℕ) → v < 2 ^ 32 → bit_and v 0xfffffff0 ≡ v / 16 * 16
paragraph v h = omega (
  arith,
  and_split v 0xfffffff0,
  and_split (v / 2) 0x7ffffff8,
  and_split (v / 2 / 2) 0x3ffffffc,
  and_split (v / 2 / 2 / 2) 0x1ffffffe,
  bit_and-low_bits 28 (v / 2 / 2 / 2 / 2),
)

pub or_zero : (b : ℕ) → bit_or 0 b ≡ b
or_zero b = simp bit_or-bitwise refl

-- `|` of two numbers without a common bit is their sum.
pub bit_or-disjoint : (k a b : ℕ) → a < 2 ^ k → bit_or a (b * 2 ^ k) ≡ a + b * 2 ^ k
bit_or-disjoint zero a b low = rw a_zero (or_zero (b * 1) ∙ omega arith)
  where
    a_zero : a ≡ 0
    a_zero = omega arith
bit_or-disjoint (suc k) a b low =
    let high = b * 2 ^ suc k in
    let doubled : high ≡ 2 * (b * 2 ^ k) = ap (λ t. b * t) (pow-suc 2 k) ∙ assoc b (2 ^ k) in
    let half : high / 2 ≡ b * 2 ^ k = omega (arith, doubled) in
    let even : high % 2 ≡ 0 = omega (arith, doubled) in
    let rest = bit_or-disjoint k (a / 2) b (omega (arith, pow-suc 2 k)) in
    or_split a high ∙ rw (half, even, rest) (omega (arith, doubled))
  where
    assoc : (b p : ℕ) → b * (p * 2) ≡ 2 * (b * p)
    assoc b p = omega arith

or_zero_right : (n a : ℕ) → a < 2 ^ n → bit_or a 0 ≡ a
or_zero_right zero zero low = or_zero 0
or_zero_right zero (suc a) low = absurd (omega arith)
or_zero_right (suc n) a low =
    let rest = or_zero_right n (a / 2) (omega (arith, pow-suc 2 n)) in
    or_split a 0 ∙ rw rest (omega arith)

-- The same with the larger number first.
pub bit_or-above : (n k a b : ℕ) → a < 2 ^ n → b < 2 ^ k → bit_or (a * 2 ^ k) b ≡ a * 2 ^ k + b
bit_or-above n zero a b high low =
    let none_left : b ≡ 0 = omega arith in
    let whole : a * 2 ^ 0 ≡ a = omega arith in
    rw (none_left, whole) (or_zero_right n a high ∙ omega arith)
bit_or-above n (suc k) a b high low =
    let top = a * 2 ^ suc k in
    let doubled : top ≡ 2 * (a * 2 ^ k) = ap (λ t. a * t) (pow-suc 2 k) ∙ twice a (2 ^ k) in
    let half : top / 2 ≡ a * 2 ^ k = omega (arith, doubled) in
    let even : top % 2 ≡ 0 = omega (arith, doubled) in
    let rest = bit_or-above n k a (b / 2) high (omega (arith, pow-suc 2 k)) in
    or_split top b ∙ rw (half, even, rest) (omega (arith, doubled))
  where
    twice : (a p : ℕ) → a * (p * 2) ≡ 2 * (a * p)
    twice a p = omega arith
