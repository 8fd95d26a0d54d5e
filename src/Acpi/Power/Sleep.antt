-- ===== src/Acpi/Power/Sleep.antt =====
-- What kernel/power/check_shutdown_acpi.c writes to switch the computer off.
use john_os.Common.{
  ℕ, zero, suc, ◌-◌, ◌*◌, ◌/◌, ◌^◌, ◌≤◌, ◌<◌, ◌≡◌, refl, ◌∙◌, inl, inr, Bool, ◌&&◌, List, [], ◌∷◌,
  ◌++◌, arith, u16, not32, ◌<<<◌, ltb, leb, ◌==◌, if◌then◌else◌, Bool-cases, bit_and, bit_or, min,
  max,
}
use john_os.Common.Bits.{
  bit, bit-bit_or, bit-bit_and, bit-zero, bit-pow, bit-complement, bit-le-one, bit-mod, bit-shifted,
}
use john_os.Acpi.Power.{Power, ignore_type, set_type, set_sleep, shutdown}

bit-seven : (j : ℕ) → bit 7 j ≡ (if ltb j 3 then 1 else 0)
bit-seven zero = refl
bit-seven (suc zero) = refl
bit-seven (suc (suc zero)) = refl
bit-seven (suc (suc (suc j))) = bit-zero j ∙ ground arith

-- Bits 10 to 12.
pub in_type : ℕ → Bool
in_type i = leb 10 i && ltb i 13

bit-ignore_type : (x i : ℕ) → i < 16 → bit (ignore_type x) i ≡ (if in_type i then 0 else bit x i)
unfolding ignore_type in_type
bit-ignore_type x i low =
    let mask = bit-complement 32 (7 * 2 ^ 10) i (omega arith) (omega arith) in
    let seven = bit-shifted 10 7 i in
    let seven' = bit-seven (i - 10) in
    let both = bit-bit_and x (not32 (7 <<< 10)) i in
    let one = bit-le-one x i in
    bit-mod 16 (bit_and x (not32 (7 <<< 10))) i low ∙ both ∙ cleared mask seven seven' one
  where
    cleared :
        bit (2 ^ 32 - 1 - 7 * 2 ^ 10) i ≡ 1 - bit (7 * 2 ^ 10) i
        → bit (7 * 2 ^ 10) i ≡ (if ltb i 10 then 0 else bit 7 (i - 10))
        → bit 7 (i - 10) ≡ (if ltb (i - 10) 3 then 1 else 0)
        → bit x i ≤ 1
        → min (bit x i) (bit (not32 (7 <<< 10)) i) ≡ (if in_type i then 0 else bit x i)
    cleared a b c d = rw (a, b, c) (ground arith)

-- The bits of a byte below 8.
bit-above_seven : (y j : ℕ) → y < 8 → 3 ≤ j → bit y j ≡ 0
bit-above_seven y zero small high = absurd (omega arith)
bit-above_seven y (suc zero) small high = absurd (omega arith)
bit-above_seven y (suc (suc zero)) small high = absurd (omega arith)
bit-above_seven y (suc (suc (suc j))) small high =
    let e : y / 2 / 2 / 2 ≡ 0 = omega arith in rw e (bit-zero j)

bit-set_sleep :
    (x y i : ℕ)
    → i < 16
    → bit (set_sleep x y) i
      ≡ max (bit x i) (max (if ltb i 10 then 0 else bit y (i - 10)) (if i == 13 then 1 else 0))
unfolding set_sleep
bit-set_sleep x y i low =
    let inner = bit-bit_or (y <<< 10) (1 <<< 13) i in
    let power : ◌≡◌ {A = ℕ} (bit (1 <<< 13) i) (if 13 == i then 1 else 0) = bit-pow 13 i in
    let turned : ◌≡◌ {A = ℕ} (if 13 == i then 1 else 0) (if i == 13 then 1 else 0) = ground arith in
    bit-mod 16 (bit_or x (bit_or (y <<< 10) (1 <<< 13))) i low
    ∙ bit-bit_or x (bit_or (y <<< 10) (1 <<< 13)) i
    ∙ rw (inner, bit-shifted 10 y i, power, turned) refl

-- For a sleep type below 8, the last word that is written goes to the first control block and has
-- the type in bits 10 to 12, a 1 in bit 13, which starts the sleep, and the other bits as read.
pub shutdown-Sleep :
    (inportw : ℕ → ℕ) (p : Power)
    → p.using_acpi_slp_typ_a < 8
    → (words : List (ℕ × ℕ)) × (v : ℕ) × (shutdown inportw p
        ≡ words ++ (u16 p.using_acpi_pm1a_cnt_blk, v) ∷ [])
      × ((i : ℕ)
          → i < 16
          → bit v i ≡ (
              if i == 13
              then 1
              else if in_type i
              then bit p.using_acpi_slp_typ_a (i - 10)
              else bit (inportw (u16 p.using_acpi_pm1a_cnt_blk)) i))
unfolding shutdown in_type
shutdown-Sleep inportw p small =
    let reg = inportw (u16 p.using_acpi_pm1a_cnt_blk) in
    let y = p.using_acpi_slp_typ_a in
    let a = u16 p.using_acpi_pm1a_cnt_blk in
    let temp = ignore_type reg in
    let other = inportw (u16 p.using_acpi_pm1b_cnt_blk) in
    let temp2 = set_type (ignore_type other) p.using_acpi_slp_typ_b in
    let v = set_sleep (ignore_type reg) y in
    let bits : (i : ℕ)
        → i < 16
        → bit v i ≡ (if i == 13 then 1 else if in_type i then bit y (i - 10) else bit reg i) =
      λ i low.
        bit-set_sleep (ignore_type reg) y i low
        ∙ rw (bit-ignore_type reg i low) (merged reg y i small) in
    elim (Bool-cases (p.using_acpi_pm1b_cnt_blk == 0)) [
      | inl none_b ↦ ((a, temp) ∷ [], v, rw none_b refl, bits)
      | inr b ↦ ((a, temp) ∷ (u16 p.using_acpi_pm1b_cnt_blk, temp2) ∷ [], v, rw b refl, bits)
    ]
  where
    merged :
        (reg y i : ℕ)
        → y < 8
        → max
            (if in_type i then 0 else bit reg i)
            (max (if ltb i 10 then 0 else bit y (i - 10)) (if i == 13 then 1 else 0))
          ≡ (if i == 13 then 1 else if in_type i then bit y (i - 10) else bit reg i)
    merged reg y i small' = elim (Bool-cases (leb 3 (i - 10))) [
      | inl high ↦
          let none_of = bit-above_seven y (i - 10) small' (ground arith) in
          let r = bit-le-one reg i in ground arith
      | inr low ↦ let r = bit-le-one reg i in let t = bit-le-one y (i - 10) in ground arith
    ]
