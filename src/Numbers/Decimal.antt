-- ===== src/Numbers/Decimal.antt =====
-- What the decimal printing functions of kernel/graphics/screen.c print.
use john_os.Common.{
  ℕ, zero, suc, ◌+◌, ◌-◌, ◌*◌, ◌/◌, ◌%◌, ◌^◌, ◌≤◌, ◌<◌, ◌≡◌, refl, ap, ◌∙◌, ◌≢◌, ◌⊎◌, inl, inr,
  none, some, List, [], ◌∷◌, arith, u8, ltb, ◌==◌, if◌then◌else◌, Bool-cases, ==→eq, ◌↔◌,
}
use mathlib.Core.List.{reverse, reverse_aux}
use native.Mathlib.Nat.{pow-suc}
use john_os.Numbers.{
  power_of, power_loop, digit, decimal_loop, printi, printbyte, printword_stored, printword,
  printbytechar,
}

-- The value of a text of decimal digits behind digits of value `acc`.
pub decimal_value : ℕ → List ℕ → ℕ
decimal_value acc [] = acc
decimal_value acc (c ∷ cs) = decimal_value (acc * 10 + (c - b'0')) cs

abbrev pub IsDigit : ℕ → Type 0
IsDigit c = (b'0' ≤ c) × (c ≤ b'9')

abbrev pub All {ℓ} : {A : Type ℓ} → (A → Type 0) → List A → Type 0
All P [] = Unit {0}
All P (x ∷ xs) = P x × All P xs

abbrev pub length {ℓ} : {A : Type ℓ} → List A → ℕ
length [] = 0
length (x ∷ xs) = suc (length xs)

-- A text that does not start with a zero.
abbrev pub NoLeadingZero : List ℕ → Type 0
NoLeadingZero [] = ⊥
NoLeadingZero (c ∷ cs) = c ≢ b'0'

pub All-reverse_aux {ℓ} :
    {A : Type ℓ} (P : A → Type 0) (xs ys : List A) → All P xs → All P ys → All P (reverse_aux xs ys)
All-reverse_aux P [] ys a b = b
All-reverse_aux P (x ∷ xs) ys a b = All-reverse_aux P xs (x ∷ ys) a.1 (a.0, b)

pub length-reverse_aux {ℓ} :
    {A : Type ℓ} (xs ys : List A) → length (reverse_aux xs ys) ≡ length xs + length ys
length-reverse_aux [] ys = omega arith
length-reverse_aux (x ∷ xs) ys = omega (arith, length-reverse_aux xs (x ∷ ys))

-- The stored digits of a positive value, read from the last one on, stand for the value.
value-decimal_loop :
    (n v : ℕ) (ys : List ℕ)
    → 0 < v
    → v < 10 ^ n
    → decimal_value 0 (reverse_aux (decimal_loop n v) ys) ≡ decimal_value v ys
unfolding decimal_loop
value-decimal_loop zero v ys pos h = absurd (omega arith)
value-decimal_loop (suc n) v ys pos h = elim (Bool-cases (ltb 0 (v / 10))) [
  | inr end ↦ rw end (unfold decimal_value in ap (λ t. decimal_value t ys) (ground arith))
  | inl more ↦ rw more (
      value-decimal_loop n (v / 10) (digit (v % 10) ∷ ys) (ground arith)
        (omega (arith, pow-suc 10 n))
      ∙ unfold decimal_value in ap (λ t. decimal_value t ys) (omega arith))
]

NoLeadingZero-decimal_loop :
    (n v : ℕ) (ys : List ℕ) → 0 < v → v < 10 ^ n → NoLeadingZero (reverse_aux (decimal_loop n v) ys)
unfolding decimal_loop
NoLeadingZero-decimal_loop zero v ys pos h = absurd (omega arith)
NoLeadingZero-decimal_loop (suc n) v ys pos h = elim (Bool-cases (ltb 0 (v / 10))) [
  | inr end ↦ rw end (ground arith)
  | inl more ↦ rw more (
      NoLeadingZero-decimal_loop n (v / 10) (digit (v % 10) ∷ ys) (ground arith)
        (omega (arith, pow-suc 10 n)))
]

IsDigit-decimal_loop : (n v : ℕ) → All IsDigit (decimal_loop n v)
unfolding decimal_loop
IsDigit-decimal_loop zero v = tt
IsDigit-decimal_loop (suc n) v = elim (Bool-cases (ltb 0 (v / 10))) [
  | inr end ↦ rw end ((omega arith, omega arith), tt)
  | inl more ↦ rw more ((omega arith, omega arith), IsDigit-decimal_loop n (v / 10))
]

length-decimal_loop : (n v : ℕ) → length (decimal_loop n v) ≤ n
unfolding decimal_loop
length-decimal_loop zero v = omega arith
length-decimal_loop (suc n) v = elim (Bool-cases (ltb 0 (v / 10))) [
  | inr end ↦ rw end (omega arith)
  | inl more ↦ rw more (omega (arith, length-decimal_loop n (v / 10)))
]

-- `text` is the decimal notation of `v` in at most `n` digits.
pub record IsDecimal (v n : ℕ) (text : List ℕ) : Type 0 where
  pub value : decimal_value 0 text ≡ v
  pub digits : All IsDigit text
  pub fits : length text ≤ n
  pub no_zero : (text ≡ b'0' ∷ []) ⊎ NoLeadingZero text

decimal_loop-IsDecimal :
    (n v : ℕ) → v < 10 ^ suc n → IsDecimal v (suc n) (reverse (decimal_loop (suc n) v))
decimal_loop-IsDecimal n v h = record {
  value = value_of;
  digits = All-reverse_aux IsDigit (decimal_loop (suc n) v) [] (IsDigit-decimal_loop (suc n) v) tt;
  fits =
      omega (arith, length-reverse_aux (decimal_loop (suc n) v) [], length-decimal_loop (suc n) v);
  no_zero = start_of;
}
  where
    value_of : decimal_value 0 (reverse (decimal_loop (suc n) v)) ≡ v
    value_of = elim (Bool-cases (v == 0)) [
      | inl z ↦ let e : v ≡ 0 = ==→eq v 0 z in rw e (unfold decimal_loop decimal_value in refl)
      | inr pos ↦ value-decimal_loop (suc n) v [] (ground arith) h ∙ unfold decimal_value in refl
    ]

    start_of :
        (reverse (decimal_loop (suc n) v) ≡ b'0' ∷ [])
        ⊎ NoLeadingZero (reverse (decimal_loop (suc n) v))
    start_of = elim (Bool-cases (v == 0)) [
      | inl z ↦ let e : v ≡ 0 = ==→eq v 0 z in rw e (inl (unfold decimal_loop in refl))
      | inr pos ↦ inr (NoLeadingZero-decimal_loop (suc n) v [] (ground arith) h)
    ]

-- `printi` prints the decimal notation of every 32-bit value, and stores at most the ten digits
-- that its buffer has room for; so does `printbyte` for a byte, in three.
pub printi-IsDecimal :
    (v : ℕ) → v < 2 ^ 32 → IsDecimal v 10 (printi v) × IsDecimal (u8 v) 3 (printbyte (u8 v))
unfolding printi printbyte
printi-IsDecimal v h =
    (decimal_loop-IsDecimal 9 v (omega arith), decimal_loop-IsDecimal 2 (u8 v) (omega arith))

-- `printword` prints the decimal notation of every 16-bit value, but it stores more digits than
-- the three bytes of its buffer hold exactly for the values from 1000 on.
pub printword-overflow :
    (v : ℕ)
    → v < 2 ^ 16
    → IsDecimal v 5 (printword v) × ((3 < length (printword_stored v)) ↔ (1000 ≤ v))
unfolding printword printword_stored
printword-overflow v h =
    (decimal_loop-IsDecimal 4 v (omega arith), unfold decimal_loop in ground arith)

-- `printbytechar` prints a byte from 0 to 127 like `printbyte`. For a negative one it prints `0`
-- or reads in front of its table of digits.
pub printbytechar-negative :
    (v : ℕ)
    → v < 256
    → printbytechar v
      ≡ (if ltb v 128 then some (printbyte v) else if v % 10 == 6 then some (b'0' ∷ []) else none)
unfolding printbytechar
printbytechar-negative v h = ground arith

-- The powers that a number of two digits needs.
pub power_of-ten : (power_of 10 0 ≡ 1) × (power_of 10 1 ≡ 10)
unfolding power_of power_loop
power_of-ten = (refl, refl)
