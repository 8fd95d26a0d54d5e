-- ===== src/Numbers/Hex.antt =====
-- What the hexadecimal functions of kernel/graphics/screen.c print and read.
use john_os.Common.{
  ℕ, zero, suc, ◌+◌, ◌-◌, ◌*◌, ◌/◌, ◌%◌, ◌^◌, ◌≤◌, ◌<◌, ◌≡◌, refl, ap, ◌∙◌, ◌≢◌, ◌⊎◌, inl, inr,
  false, List, [], ◌∷◌, ◌++◌, arith, ltb, leb, ◌==◌, if◌then◌else◌, Bool-cases, ==→eq,
}
use mathlib.Core.List.{reverse, reverse_aux}
use native.Mathlib.Nat.{pow-suc}
use john_os.Numbers.{hex_digit, hex_loop, print_hex, print_hex_byte, hex_to_dec}
use john_os.Numbers.Decimal.{All, length, NoLeadingZero, All-reverse_aux, length-reverse_aux}

-- The value of a hexadecimal digit, and of a text of them behind digits of value `acc`.
abbrev pub digit_value : ℕ → ℕ
digit_value c = if ltb c b'A' then c - b'0' else c - b'A' + 10

pub hex_value : ℕ → List ℕ → ℕ
hex_value acc [] = acc
hex_value acc (c ∷ cs) = hex_value (acc * 16 + digit_value c) cs

abbrev pub IsHexDigit : ℕ → Type 0
IsHexDigit c = ((b'0' ≤ c) × (c ≤ b'9')) ⊎ ((b'A' ≤ c) × (c ≤ b'F'))

digit_value-hex_digit : (d : ℕ) → d < 16 → digit_value (hex_digit d) ≡ d
digit_value-hex_digit d h = ground arith

hex_digit-IsHexDigit : (d : ℕ) → d < 16 → IsHexDigit (hex_digit d)
hex_digit-IsHexDigit d h = ground arith

value-hex_loop :
    (n v : ℕ) (ys : List ℕ)
    → v < 16 ^ n
    → hex_value 0 (reverse_aux (hex_loop n v) ys) ≡ hex_value v ys
unfolding hex_loop
value-hex_loop zero v ys h = ap (λ t. hex_value t ys) (omega arith)
value-hex_loop (suc n) v ys h = elim (Bool-cases (leb 1 v)) [
  | inr end ↦ rw end (ap (λ t. hex_value t ys) (ground arith))
  | inl more ↦
      let d = v - v / 16 * 16 in
      rw more (
        value-hex_loop n (v / 16) (hex_digit d ∷ ys) (omega (arith, pow-suc 16 n))
        ∙ unfold hex_value in
          ap (λ t. hex_value t ys) (omega (arith, digit_value-hex_digit d (omega arith))))
]

NoLeadingZero-hex_loop :
    (n v : ℕ) (ys : List ℕ)
    → v < 16 ^ n
    → (0 < v) ⊎ NoLeadingZero ys
    → NoLeadingZero (reverse_aux (hex_loop n v) ys)
unfolding hex_loop
NoLeadingZero-hex_loop zero v ys h (inl pos) = absurd (omega arith)
NoLeadingZero-hex_loop zero v ys h (inr first) = first
NoLeadingZero-hex_loop (suc n) v ys h first = elim (Bool-cases (leb 1 v)) [
  | inr end ↦ rw end (at_end v end first)
  | inl more ↦
      let d = v - v / 16 * 16 in
      rw more (
        NoLeadingZero-hex_loop n (v / 16) (hex_digit d ∷ ys) (omega (arith, pow-suc 16 n))
          (not_both v (ground arith)))
]
  where
    at_end : (v : ℕ) → leb 1 v ≡ false → (0 < v) ⊎ NoLeadingZero ys → NoLeadingZero ys
    at_end v end (inl pos) = absurd (ground arith)
    at_end v end (inr first) = first

    not_both : (v : ℕ) → 0 < v → (0 < v / 16) ⊎ (hex_digit (v - v / 16 * 16) ≢ b'0')
    not_both v pos = elim (Bool-cases (ltb 0 (v / 16))) [
      | inl more ↦ inl (ground arith)
      | inr end ↦ inr (ground arith)
    ]

IsHexDigit-hex_loop : (n v : ℕ) → All IsHexDigit (hex_loop n v)
unfolding hex_loop
IsHexDigit-hex_loop zero v = tt
IsHexDigit-hex_loop (suc n) v = elim (Bool-cases (leb 1 v)) [
  | inr end ↦ rw end tt
  | inl more ↦
      rw more (hex_digit-IsHexDigit (v - v / 16 * 16) (omega arith), IsHexDigit-hex_loop n (v / 16))
]

length-hex_loop : (n v : ℕ) → length (hex_loop n v) ≤ n
unfolding hex_loop
length-hex_loop zero v = omega arith
length-hex_loop (suc n) v = elim (Bool-cases (leb 1 v)) [
  | inr end ↦ rw end (omega arith)
  | inl more ↦ rw more (omega (arith, length-hex_loop n (v / 16)))
]

-- `text` is `0x` and the hexadecimal notation of `v`: eight zeros for 0, and else at most eight
-- digits that do not start with a zero.
pub record IsHex (v : ℕ) (text : List ℕ) : Type 0 where
  pub body : List ℕ
  pub prefixed : text ≡ b'0' ∷ b'x' ∷ body
  pub value : hex_value 0 body ≡ v
  pub digits : All IsHexDigit body
  pub fits : length body ≤ 8
  pub no_zero : ((v ≡ 0) × (length body ≡ 8)) ⊎ NoLeadingZero body

-- `print_hex` prints `0x` and the hexadecimal notation of every 32-bit value, in at most eight
-- digits without a leading zero, and eight zeros for 0.
pub print_hex-IsHex : (t v : ℕ) → v < 2 ^ 32 → IsHex v (print_hex t v).0
unfolding print_hex
print_hex-IsHex t v h = elim (Bool-cases (v == 0)) [
  | inl z ↦ rw z (is_zero v (==→eq v 0 z))
  | inr other ↦ rw other (is_other (ground arith))
]
  where
    digit_0 : IsHexDigit b'0'
    digit_0 = inl (omega arith, omega arith)

    is_zero :
        (v : ℕ)
        → v ≡ 0
        → IsHex v (
            b'0'
            ∷ b'x'
            ∷ ((b'0' ∷ b'0' ∷ b'0' ∷ b'0' ∷ b'0' ∷ b'0' ∷ b'0' ∷ b'0' ∷ [])
                ++ reverse (hex_loop 8 v)))
    is_zero v z = record {
      body = _;
      prefixed = refl;
      value = rw z (unfold hex_value hex_loop in refl);
      digits =
          let d = digit_0 in rw z (unfold hex_loop in (d, (d, (d, (d, (d, (d, (d, (d, tt)))))))));
      fits = rw z (unfold hex_loop in omega arith);
      no_zero = rw z (unfold hex_loop in inl (refl, refl));
    }

    is_other : 0 < v → IsHex v (b'0' ∷ b'x' ∷ reverse (hex_loop 8 v))
    is_other pos = record {
      body = reverse (hex_loop 8 v);
      prefixed = refl;
      value = value-hex_loop 8 v [] (omega arith) ∙ unfold hex_value in refl;
      digits = All-reverse_aux IsHexDigit (hex_loop 8 v) [] (IsHexDigit-hex_loop 8 v) tt;
      fits = omega (arith, length-reverse_aux (hex_loop 8 v) [], length-hex_loop 8 v);
      no_zero = inr (NoLeadingZero-hex_loop 8 v [] (omega arith) (inl pos));
    }

-- The lower digit of `print_hex_byte`, and the higher one.
low_digit : (v : ℕ) → (if leb 1 v then hex_digit (v - v / 16 * 16) else b'0') ≡ hex_digit (v % 16)
low_digit v = ground arith

-- `print_hex_byte` prints both hexadecimal digits of a byte, the higher one first.
pub print_hex_byte_lem :
    (t v : ℕ) → v < 256 → (print_hex_byte t v).0 ≡ hex_digit (v / 16) ∷ hex_digit (v % 16) ∷ []
unfolding print_hex_byte
print_hex_byte_lem t v h =
    ap (λ d. d ∷ (if leb 1 v then hex_digit (v - v / 16 * 16) else b'0') ∷ [])
      (low_digit (v / 16) ∙ ap (λ w. hex_digit w) (omega arith))
    ∙ ap (λ d. hex_digit (v / 16) ∷ d ∷ []) (low_digit v)

-- `hex_to_dec` is the value of eight hexadecimal digits, the lowest first: it gives back every
-- 32-bit number from its digits.
pub hex_to_dec-digits : (v : ℕ) → v < 2 ^ 32 → hex_to_dec (λ c. v / 16 ^ c % 16) ≡ v
unfolding hex_to_dec
hex_to_dec-digits v h = omega arith
