-- ===== src/PageMap/Bits.antt =====
-- One bit of the page map at a time: what `set_bit`, `zero_bit` and `check_bit` of kernel/mem.c do
-- to each other, and the pages that addresses stand for.
use john_os.Common.{ℕ, ◌/◌, ◌%◌, ◌^◌, ◌≤◌, ◌≡◌, ◌∙◌, arith, not32, ◌==◌, if◌then◌else◌}
use john_os.Common.Store.{Store}
use john_os.Common.Bits.{
  bit_and-one, bit, bit-shift, bit-bit_or, bit-bit_and, bit-pow, bit-le-one, bit-complement,
}
use native.Mathlib.Nat.{pow-le-pow_right}
use john_os.PageMap.{set_bit, zero_bit, check_bit, Store, ℕ}

pub check_bit-bit : (m : Store) (b : ℕ) → check_bit m b ≡ bit (m (b / 32)) (b % 32)
unfolding check_bit
check_bit-bit m b = bit_and-one (m (b / 32) / 2 ^ (b % 32)) ∙ bit-shift (m (b / 32)) (b % 32)

pub check_bit-le-one : (m : Store) (b : ℕ) → check_bit m b ≤ 1
check_bit-le-one m b = rw (check_bit-bit m b) (bit-le-one (m (b / 32)) (b % 32))

-- Setting the bit of a page marks that page as taken and leaves every other page as it was.
pub check_bit-set_bit :
    (m : Store) (a b : ℕ) → check_bit (set_bit m a) b ≡ (if a == b then 1 else check_bit m b)
unfolding set_bit
check_bit-set_bit m a b = ground (
  arith,
  check_bit-bit (set_bit m a) b,
  check_bit-bit m b,
  bit-bit_or (m (a / 32)) (2 ^ (a % 32)) (b % 32),
  bit-pow (a % 32) (b % 32),
  bit-le-one (m (b / 32)) (b % 32),
)

-- Clearing the bit of a page marks that page as free and leaves every other page as it was.
pub check_bit-zero_bit :
    (m : Store) (a b : ℕ) → check_bit (zero_bit m a) b ≡ (if a == b then 0 else check_bit m b)
unfolding zero_bit
check_bit-zero_bit m a b = ground (
  arith,
  check_bit-bit (zero_bit m a) b,
  check_bit-bit m b,
  bit-bit_and (m (a / 32)) (not32 (2 ^ (a % 32))) (b % 32),
  pow-le-pow_right {n = 2} (omega arith) {i = a % 32} {j = 31} (omega arith),
  bit-complement 32 (2 ^ (a % 32)) (b % 32),
  bit-pow (a % 32) (b % 32),
  bit-le-one (m (b / 32)) (b % 32),
)

-- With an empty map every page is free.
pub check_bit-empty : (b : ℕ) → check_bit (λ a. 0) b ≡ 0
unfolding check_bit
check_bit-empty b =
    let none_set : 0 / 2 ^ (b % 32) ≡ 0 = ground arith in rw none_set (bit_and-one 0)
