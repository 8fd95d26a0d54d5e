-- ===== src/Pci/Find/First.antt =====
-- The loops of kernel/device/pci.c that return at the first match.
use john_os.Common.{
  ℕ, zero, suc, ◌+◌, ◌≤◌, ◌<◌, ◌≡◌, refl, sym, ap, ◌∙◌, ◌⊎◌, inl, inr, Bool, true, false, Option,
  none, some, arith,
}
use john_os.Pci.Find.{or_else, first}

-- The first index with a result.
pub record FirstAt {A : Type 0} (try : ℕ → Option A) (i rounds : ℕ) (a : A) : Type 0 where
  pub at : ℕ
  pub from : i ≤ at
  pub below : at < i + rounds
  pub result : try at ≡ some a
  pub before : (j : ℕ) → i ≤ j → j < at → try j ≡ none

pub option-cases : {A : Type 0} (o : Option A) → (o ≡ none) ⊎ ((a : A) × (o ≡ some a))
option-cases none = inl refl
option-cases (some a) = inr (a, refl)

first-none :
    {A : Type 0} (rounds : ℕ) (try : ℕ → Option A) (i : ℕ)
    → try i ≡ none
    → first (suc rounds) try i ≡ first rounds try (i + 1)
unfolding first
first-none rounds try i e = ap (λ o. or_else o (first rounds try (i + 1))) e

first-some :
    {A : Type 0} (rounds : ℕ) (try : ℕ → Option A) (i : ℕ) (a : A)
    → try i ≡ some a
    → first (suc rounds) try i ≡ some a
unfolding first
first-some rounds try i a e = ap (λ o. or_else o (first rounds try (i + 1))) e

pub first-cases :
    {A : Type 0} (rounds : ℕ) (try : ℕ → Option A) (i : ℕ)
    → ((first rounds try i ≡ none) × ((j : ℕ) → i ≤ j → j < i + rounds → try j ≡ none))
      ⊎ ((a : A) × (first rounds try i ≡ some a) × FirstAt try i rounds a)
unfolding first
first-cases zero try i = inl (refl, λ j l h. absurd (omega arith))
first-cases (suc rounds) try i =
    let step : (j : ℕ) → i ≤ j → (j ≡ i) ⊎ (i + 1 ≤ j) = λ j l. ground arith in
    elim (option-cases (try i)) [
      | inr (a, e) ↦ inr (
        a,
        first-some rounds try i a e,
        record {
          at = i;
          from = omega arith;
          below = omega arith;
          result = e;
          before = λ j l h. absurd (omega arith);
        },
      )
      | inl n ↦ elim (first-cases rounds try (i + 1)) [
        | inl (r, none_later) ↦ inl (
          first-none rounds try i n ∙ r,
          λ j l h. elim (step j l) [
            | inl same ↦ rw same n
            | inr later ↦ none_later j later (omega arith)
          ],
        )
        | inr (a, r, f) ↦ inr (
          a,
          first-none rounds try i n ∙ r,
          record {
            at = f.at;
            from = omega (arith, f.from);
            below = omega (arith, f.below);
            result = f.result;
            before =
                λ j l h. elim (step j l) [ inl same ↦ rw same n | inr later ↦ f.before j later h ];
          },
        )
      ]
    ]

unfoldable pub is_some : {A : Type 0} → Option A → Bool
is_some none = false
is_some (some a) = true

pub some≢none : {A : Type 0} (o : Option A) (a : A) → o ≡ some a → o ≡ none → ⊥
unfolding is_some
some≢none o a s n =
    let one : is_some o ≡ true = ap is_some s in
    let other : is_some o ≡ false = ap is_some n in absurd (ground (arith, sym one ∙ other))
