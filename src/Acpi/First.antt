-- ===== src/Acpi/First.antt =====
-- The loops of kernel/power that stop at the first match.
use john_os.Common.{
  ℕ, zero, suc, ◌+◌, ◌*◌, ◌<◌, ◌≡◌, refl, ap, ◌∙◌, ◌⊎◌, inl, inr, Bool, true, false, arith, ◌==◌,
  Bool-cases,
}
use john_os.Acpi.{rsdp_loop, table_loop}

-- Of the places from `start` on, `step` apart, number `i` is the first that matches.
pub record FirstOf (is : ℕ → Bool) (start step rounds i : ℕ) : Type 0 where
  pub below : i < rounds
  pub matched : is (start + step * i) ≡ true
  pub before : (j : ℕ) → j < i → is (start + step * j) ≡ false

abbrev pub NoneOf : (is : ℕ → Bool) (start step rounds : ℕ) → Type 0
NoneOf is start step rounds = (j : ℕ) → j < rounds → is (start + step * j) ≡ false

pub FirstOf-cases :
    (rounds : ℕ) (is : ℕ → Bool) (start step : ℕ)
    → ((i : ℕ) × FirstOf is start step rounds i) ⊎ NoneOf is start step rounds
FirstOf-cases zero is start step = inr (λ j b. absurd (omega arith))
FirstOf-cases (suc rounds) is start step = elim (FirstOf-cases rounds is start step) [
  | inl (i, f) ↦
      inl (i, record { below = omega (arith, f.below); matched = f.matched; before = f.before })
  | inr none_of ↦ elim (Bool-cases (is (start + step * rounds))) [
    | inl last ↦ inl (rounds, record { below = omega arith; matched = last; before = none_of })
    | inr not_last ↦ inr (λ j b. elim (Bool-cases (j == rounds)) [
      | inl same ↦ let e : j ≡ rounds = ground arith in rw e not_last
      | inr other ↦ none_of j (ground arith)
    ])
  ]
]

-- The first match behind a place that does not match.
pub later :
    (is : ℕ → Bool) (start step rounds i : ℕ)
    → FirstOf is start step (suc rounds) (suc i)
    → FirstOf is (start + step) step rounds i
later is start step rounds i f = record {
  below = omega (arith, f.below);
  matched = shift i ∙ f.matched;
  before = λ j b. shift j ∙ f.before (suc j) (omega arith);
}
  where
    shift : (j : ℕ) → is (start + step + step * j) ≡ is (start + step * suc j)
    shift j = ap is (omega arith)

-- A match at number 0 is at the start, and a later one comes behind a place that does not match.
pub at_start :
    (is : ℕ → Bool) (start step rounds : ℕ) → FirstOf is start step rounds 0 → is start ≡ true
at_start is start step rounds f = ap is (omega arith) ∙ f.matched

pub not_at_start :
    (is : ℕ → Bool) (start step rounds i : ℕ)
    → FirstOf is start step rounds (suc i)
    → is start ≡ false
not_at_start is start step rounds i f = ap is (omega arith) ∙ f.before 0 (omega arith)

NoneOf-later :
    (is : ℕ → Bool) (start step rounds : ℕ)
    → NoneOf is start step (suc rounds)
    → (is start ≡ false) × NoneOf is (start + step) step rounds
NoneOf-later is start step rounds n =
    (ap is (omega arith) ∙ n 0 (omega arith), λ j b. ap is (omega arith) ∙ n (suc j) (omega arith))

pub rsdp_loop-first :
    (rounds : ℕ) (is : ℕ → Bool) (p i : ℕ)
    → FirstOf is p 16 rounds i
    → rsdp_loop rounds is p ≡ (p + 16 * i + 16, 1)
unfolding rsdp_loop
rsdp_loop-first zero is p i f = absurd (omega (arith, f.below))
rsdp_loop-first (suc rounds) is p zero f =
    rw (at_start is p 16 (suc rounds) f) (ap (λ q. (q, 1)) (omega arith))
rsdp_loop-first (suc rounds) is p (suc i) f = rw (not_at_start is p 16 (suc rounds) i f) (
    rsdp_loop-first rounds is (p + 16) i (later is p 16 rounds i f)
    ∙ ap (λ q. (q, 1)) (omega arith))

pub rsdp_loop-none :
    (rounds : ℕ) (is : ℕ → Bool) (p : ℕ)
    → NoneOf is p 16 rounds
    → rsdp_loop rounds is p ≡ (p + 16 * rounds, 0)
unfolding rsdp_loop
rsdp_loop-none zero is p n = ap (λ q. (q, 0)) (omega arith)
rsdp_loop-none (suc rounds) is p n =
    let (here, rest) = NoneOf-later is p 16 rounds n in
    rw here (rsdp_loop-none rounds is (p + 16) rest ∙ ap (λ q. (q, 0)) (omega arith))

pub table_loop-first :
    (rounds : ℕ) (is : ℕ → Bool) (a i : ℕ)
    → FirstOf is a 1 rounds i
    → table_loop rounds is a ≡ (1, a + i)
unfolding table_loop
table_loop-first zero is a i f = absurd (omega (arith, f.below))
table_loop-first (suc rounds) is a zero f =
    rw (at_start is a 1 (suc rounds) f) (ap (λ q. (1, q)) (omega arith))
table_loop-first (suc rounds) is a (suc i) f = rw (not_at_start is a 1 (suc rounds) i f) (
    table_loop-first rounds is (a + 1) i (later is a 1 rounds i f) ∙ ap (λ q. (1, q)) (omega arith))

pub table_loop-none :
    (rounds : ℕ) (is : ℕ → Bool) (a : ℕ) → NoneOf is a 1 rounds → table_loop rounds is a ≡ (0, 0)
unfolding table_loop
table_loop-none zero is a n = refl
table_loop-none (suc rounds) is a n =
    let (here, rest) = NoneOf-later is a 1 rounds n in
    rw here (table_loop-none rounds is (a + 1) rest)
