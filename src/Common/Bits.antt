-- ===== src/Common/Bits.antt =====
-- The bits of a word, and what `|`, `&`, `~` and shifts do to each of them, at every width.
mod Step
pub mod Nibbles
use Step.{or_split, and_split}
use Prim.Native.Nat.{
  ℕ, zero, suc, ◌+◌, ◌-◌, ◌*◌, ◌/◌, ◌%◌, ◌^◌, ◌≤◌, ◌<◌, bit_and, bit_or, bit_and-bitwise, min, max,
}
use mathlib.Core.Path.{ap, ◌≡◌, refl, ◌∙◌}
use native.Mathlib.Omega.{arith}
use native.Mathlib.Nat.{
  mul_comm, mod-add-div', one-le-pow, pow-suc, pow-succ', div-div-eq-div-mul, one-le-pow,
  mod-add-div', mul_comm,
}
use mathlib.Core.Bool.{true}
use john_os.Common.Tests.{ltb, ◌==◌, if◌then◌else◌}

-- Bit number `i` of `w`.
abbrev pub bit : ℕ → ℕ → ℕ
bit w zero = w % 2
bit w (suc i) = bit (w / 2) i

pub bit-shift : (w i : ℕ) → w / 2 ^ i % 2 ≡ bit w i
bit-shift w zero = omega arith
bit-shift w (suc i) = rw (pow-succ', ← div-div-eq-div-mul) (bit-shift (w / 2) i)

pub bit-le-one : (w i : ℕ) → bit w i ≤ 1
bit-le-one w zero = omega arith
bit-le-one w (suc i) = bit-le-one (w / 2) i

or_half : (a b : ℕ) → bit_or a b / 2 ≡ bit_or (a / 2) (b / 2)
or_half a b = omega (arith, or_split a b)

and_half : (a b : ℕ) → bit_and a b / 2 ≡ bit_and (a / 2) (b / 2)
and_half a b = omega (arith, and_split a b)

pub bit-bit_or : (a b i : ℕ) → bit (bit_or a b) i ≡ max (bit a i) (bit b i)
bit-bit_or a b zero = omega (arith, or_split a b)
bit-bit_or a b (suc i) = rw (or_half a b) (bit-bit_or (a / 2) (b / 2) i)

pub bit-bit_and : (a b i : ℕ) → bit (bit_and a b) i ≡ min (bit a i) (bit b i)
bit-bit_and a b zero = omega (arith, and_split a b)
bit-bit_and a b (suc i) = rw (and_half a b) (bit-bit_and (a / 2) (b / 2) i)

pub bit-zero : (i : ℕ) → bit 0 i ≡ 0
bit-zero zero = refl
bit-zero (suc i) = bit-zero i

-- `1 << k` has bit `k` and no other.
pub bit-pow : (k i : ℕ) → bit (2 ^ k) i ≡ (if k == i then 1 else 0)
bit-pow zero zero = refl
bit-pow zero (suc i) = bit-zero i ∙ ground arith
bit-pow (suc k) zero = ground (arith, pow-suc 2 k)
bit-pow (suc k) (suc i) = rw (half k) (bit-pow k i ∙ ground arith)
  where
    half : (k : ℕ) → 2 ^ suc k / 2 ≡ 2 ^ k
    half k = omega (arith, pow-suc 2 k)

-- The complement on `n` bits flips each of them.
pub bit-complement : (n w i : ℕ) → w < 2 ^ n → i < n → bit (2 ^ n - 1 - w) i ≡ 1 - bit w i
bit-complement zero w i h lt = absurd (omega arith)
bit-complement (suc n) w zero h lt = omega (arith, pow-suc 2 n)
bit-complement (suc n) w (suc i) h lt =
    rw (half n w h) (bit-complement n (w / 2) i (omega (arith, pow-suc 2 n)) (omega arith))
  where
    half : (n w : ℕ) → w < 2 ^ suc n → (2 ^ suc n - 1 - w) / 2 ≡ 2 ^ n - 1 - w / 2
    half n w h = omega (arith, pow-suc 2 n)

pub bit_or-lt : (n a b : ℕ) → a < 2 ^ n → b < 2 ^ n → bit_or a b < 2 ^ n
bit_or-lt zero zero zero ha hb = omega arith
bit_or-lt zero zero (suc b) ha hb = absurd (omega arith)
bit_or-lt zero (suc a) b ha hb = absurd (omega arith)
bit_or-lt (suc n) a b ha hb =
    let p = pow-suc 2 n in
    omega
      (arith, p, or_split a b, bit_or-lt n (a / 2) (b / 2) (omega (arith, p)) (omega (arith, p)))

pub bit_and-lt : (n a b : ℕ) → a < 2 ^ n → bit_and a b < 2 ^ n
bit_and-lt zero zero b ha = rw (bit_and-bitwise 0 b) (omega arith)
bit_and-lt zero (suc a) b ha = absurd (omega arith)
bit_and-lt (suc n) a b ha =
    let p = pow-suc 2 n in
    omega (arith, p, and_split a b, bit_and-lt n (a / 2) (b / 2) (omega (arith, p)))

bit_and-zero_below : (top v : ℕ) → v < suc top → bit_and v 0 ≡ 0
bit_and-zero_below top zero below = bit_and-bitwise 0 0
bit_and-zero_below (suc top) (suc v) below =
    let rest = bit_and-zero_below top (suc v / 2) (omega arith) in
    omega (arith, rest, and_split (suc v) 0)
bit_and-zero_below zero (suc v) below = absurd (omega arith)

pub bit_and-zero : (v : ℕ) → bit_and v 0 ≡ 0
bit_and-zero v = bit_and-zero_below v v (omega arith)

pub bit_and-one : (v : ℕ) → bit_and v 1 ≡ v % 2
bit_and-one v = let rest = bit_and-zero (v / 2) in omega (arith, rest, and_split v 1)

-- The remainder by twice `n`, from the remainder of the half.
mod_double : (n a : ℕ) → a % (n * 2) ≡ a / 2 % n * 2 + a % 2
mod_double n a =
    let q : a / 2 / n ≡ a / (n * 2) = div-div-eq-div-mul a 2 n ∙ ap (λ t. a / t) (mul_comm 2 n) in
    let low = mod-add-div' (a / 2) n in
    let high = mod-add-div' a (n * 2) in
    let same = ap (λ t. t * n) q in omega (arith, low, high, same)

-- A mask of `k` low bits is the remainder by `2 ^ k`.
pub bit_and-low_bits : (k a : ℕ) → bit_and a (2 ^ k - 1) ≡ a % 2 ^ k
bit_and-low_bits zero a = rw (bit_and-zero a) (omega arith)
bit_and-low_bits (suc k) a =
    let p = pow-suc 2 k in
    let halves : (2 ^ suc k - 1) / 2 ≡ 2 ^ k - 1 = omega (arith, p, one-le-pow k 2) in
    let odd : (2 ^ suc k - 1) % 2 ≡ 1 = omega (arith, p, one-le-pow k 2) in
    and_split a (2 ^ suc k - 1)
    ∙ rw (halves, odd, bit_and-low_bits k (a / 2), p, mod_double (2 ^ k) a) (omega arith)

-- A remainder by `2 ^ n` keeps the `n` low bits.
pub bit-mod : (n v i : ℕ) → i < n → bit (v % 2 ^ n) i ≡ bit v i
bit-mod zero v i low = absurd (omega arith)
bit-mod (suc n) v zero low =
    let p = pow-suc 2 n in let d = mod_double (2 ^ n) v in rw p (omega (arith, d))
bit-mod (suc n) v (suc i) low =
    let p = pow-suc 2 n in
    let d = mod_double (2 ^ n) v in
    let half : v % 2 ^ suc n / 2 ≡ v / 2 % 2 ^ n = rw p (omega (arith, d)) in
    rw half (bit-mod n (v / 2) i (omega arith))

-- A shift by `k` moves every bit up by `k`.
pub bit-shifted : (k v i : ℕ) → bit (v * 2 ^ k) i ≡ (if ltb i k then 0 else bit v (i - k))
bit-shifted zero v i =
    let e : v * 2 ^ 0 ≡ v = omega arith in
    let f : i - 0 ≡ i = omega arith in rw (e, f) (ground arith)
bit-shifted (suc k) v zero =
    let t : ltb 0 (suc k) ≡ true = ground arith in rw (t, pow-suc 2 k) (omega arith)
bit-shifted (suc k) v (suc i) =
    let half : v * 2 ^ suc k / 2 ≡ v * 2 ^ k = rw (pow-suc 2 k) (omega arith) in
    rw half (bit-shifted k v i ∙ ground arith)
