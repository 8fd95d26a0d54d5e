-- ===== src/Common/Bits/Step.antt =====
-- One equation for the lowest digit of `|` and `&`, from the recursion on binary digits that the
-- native operations stand for.
use Prim.Native.Nat.{
  ℕ, zero, suc, ◌+◌, ◌*◌, ◌/◌, ◌%◌, ◌≤◌, min, max, digits, bitwise, bit_and, bit_or,
  bit_and-bitwise, bit_or-bitwise,
}
use mathlib.Core.Path.{◌≡◌, refl, sym, ap, ◌∙◌}
use native.Mathlib.Omega.{arith}

module _ (z : ℕ → ℕ) (f : ℕ → ℕ → ℕ) where
  at_zero : (fuel b : ℕ) → digits z f fuel zero b ≡ z b
  at_zero zero b = refl
  at_zero (suc fuel) b = refl

  -- Any two amounts of fuel from `a` on give the same digits.
  fuel_free : (n m a b : ℕ) → a ≤ n → a ≤ m → digits z f n a b ≡ digits z f m a b
  fuel_free (suc n) (suc m) (suc a) b p q =
      let low = f (suc a % 2) (b % 2) in
      ap (λ t. t * 2 + low) (fuel_free n m (suc a / 2) (b / 2) (omega arith) (omega arith))
  fuel_free n m zero b p q = at_zero n b ∙ sym (at_zero m b)
  fuel_free zero m (suc a) b p q = absurd (omega arith)
  fuel_free (suc n) zero (suc a) b p q = absurd (omega arith)

  split_lowest :
      (w b : ℕ)
      → bitwise z f (suc w) b ≡ f (suc w % 2) (b % 2) + 2 * bitwise z f (suc w / 2) (b / 2)
  split_lowest w b =
      let half = suc w / 2 in
      omega (arith, fuel_free w half half (b / 2) (omega arith) (omega arith))

pub and_split : (v w : ℕ) → bit_and v w ≡ min (v % 2) (w % 2) + 2 * bit_and (v / 2) (w / 2)
and_split (suc v) w = simp bit_and-bitwise (split_lowest (λ y. 0) min v w)
and_split zero w = simp bit_and-bitwise (omega arith)

pub or_split : (v w : ℕ) → bit_or v w ≡ max (v % 2) (w % 2) + 2 * bit_or (v / 2) (w / 2)
or_split (suc v) w = simp bit_or-bitwise (split_lowest (λ y. y) max v w)
or_split zero w = simp bit_or-bitwise (omega arith)
