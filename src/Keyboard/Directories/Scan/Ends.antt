-- ===== src/Keyboard/Directories/Scan/Ends.antt =====
-- The walk through the table of directories of kernel/device/kb.c ends.
use john_os.Common.{
  ℕ, zero, suc, ◌+◌, ◌≤◌, ◌<◌, ◌≡◌, refl, ◌⊎◌, inl, inr, Bool, true, false, not, arith, ltb, ◌==◌,
  if◌then◌else◌, Bool-cases,
}
use john_os.Common.Store.{Store}
use john_os.Keyboard.Directories.{differs}
use john_os.Keyboard.Directories.Scan.{skip, skip_name, scan_for}

skip-grows : (rounds : ℕ) (zeros : Bool) (m : Store) (table c : ℕ) → c ≤ skip rounds zeros m table c
unfolding skip
skip-grows zero zeros m table c = omega arith
skip-grows (suc rounds) zeros m table c =
    let further = skip-grows rounds zeros m table (c + 1) in ground (arith, further)

-- The test of one step.
abbrev goes_on : (zeros : Bool) → Store → (table c : ℕ) → Bool
goes_on zeros m table c = let is_zero = m (table + c) == 0 in if zeros then is_zero else not is_zero

skip-stays :
    (rounds : ℕ) (zeros : Bool) (m : Store) (table c : ℕ)
    → goes_on zeros m table c ≡ false
    → skip rounds zeros m table c ≡ c
unfolding skip
skip-stays zero zeros m table c e = refl
skip-stays (suc rounds) zeros m table c e = rw e refl

skip-moves :
    (rounds : ℕ) (zeros : Bool) (m : Store) (table c : ℕ)
    → c < 456
    → goes_on zeros m table c ≡ true
    → c < skip (suc rounds) zeros m table c
unfolding skip
skip-moves rounds zeros m table c low e =
    let here : ltb c 456 ≡ true = ground arith in
    let further = skip-grows rounds zeros m table (c + 1) in rw (e, here) (omega (arith, further))

skips-grow :
    (rounds : ℕ) (m : Store) (table c : ℕ)
    → c < 456
    → c < skip (suc rounds) true m table (skip (suc rounds) false m table c)
skips-grow rounds m table c low = elim (Bool-cases (m (table + c) == 0)) [
  | inl y ↦
      rw (skip-stays (suc rounds) false m table c (rw y refl))
        (skip-moves rounds true m table c low y)
  | inr n ↦
      let letters = skip-moves rounds false m table c low (rw n refl) in
      let gap = skip-grows (suc rounds) true m table (skip (suc rounds) false m table c) in
      omega (arith, letters, gap)
]

-- A name or a gap is passed: an offset below 456 grows.
skip_name-grows : (m : Store) (table c : ℕ) → c < 456 → c < skip_name m table c
unfolding skip_name
skip_name-grows m table c low = skips-grow 455 m table c low

-- The walk is over after at most 456 names: it stands at the text that it looks for, or behind the
-- table.
pub scan_for_lem :
    (rounds : ℕ) (m : Store) (table text c : ℕ)
    → 456 ≤ rounds + c
    → let c' = scan_for rounds m table text c in (differs m (table + c') text ≡ false) ⊎ (456 ≤ c')
unfolding scan_for
scan_for_lem zero m table text c h = inr (omega arith)
scan_for_lem (suc rounds) m table text c h = elim (Bool-cases (differs m (table + c) text)) [
  | inr n ↦ rw n (inl n)
  | inl y ↦ elim (Bool-cases (ltb c 456)) [
    | inr n ↦ rw (y, n) (inr (ground arith))
    | inl low ↦
        let grown = skip_name-grows m table c (ground arith) in
        rw (y, low) (scan_for_lem rounds m table text (skip_name m table c) (omega (arith, grown)))
  ]
]
