-- ===== src/Text/Tests.antt =====
-- Runs of the string functions, and their theorems at these strings.
use john_os.Common.{
  ℕ, zero, suc, ◌+◌, ◌-◌, ◌<◌, ◌≡◌, refl, ◌≢◌, some, List, [], ◌∷◌, arith, ltb, if◌then◌else◌, ◌↔◌,
}
use john_os.Common.Store.{Store}
use john_os.Text.{strlength, str_eql2, strlength_loop, stringlength, str_eql, equal_loop}
use john_os.Text.Length.{IsString, strlength_lem, stringlength_lem}
use john_os.Text.Equal.{SameFrom, str_eql_iff, str_eql2_iff}
use john_os.Text.Upper.{UpcasedFrom}

abbrev at : List ℕ → ℕ → ℕ
at [] i = 0
at (c ∷ cs) zero = c
at (c ∷ cs) (suc i) = at cs i

-- "ab" at 0, "AB" at 10, and "ab" again at 20.
abbrev mem : Store
mem a =
    if ltb a 10
    then at (b'a' ∷ b'b' ∷ []) a
    else if ltb a 20
    then at (b'A' ∷ b'B' ∷ []) (a - 10)
    else at (b'a' ∷ b'b' ∷ []) (a - 20)

small-IsString : IsString mem 0 2
small-IsString = record { chars = small_chars; ends = refl }
  where
    small_chars : (k : ℕ) → k < 2 → mem (0 + k) ≢ 0
    small_chars zero h = λ e. absurd (omega (arith, e))
    small_chars (suc zero) h = λ e. absurd (omega (arith, e))
    small_chars (suc (suc k)) h = absurd (omega arith)

capital-IsString : IsString mem 10 2
capital-IsString = record { chars = capital_chars; ends = refl }
  where
    capital_chars : (k : ℕ) → k < 2 → mem (10 + k) ≢ 0
    capital_chars zero h = λ e. absurd (omega (arith, e))
    capital_chars (suc zero) h = λ e. absurd (omega (arith, e))
    capital_chars (suc (suc k)) h = absurd (omega arith)

-- The empty string at 2, with another string behind its terminator, is not seen as empty.
empty_string : strlength (λ a. at (0 ∷ b'x' ∷ b'y' ∷ []) a) 0 ≡ 3
unfolding strlength strlength_loop
empty_string = refl

compares : (str_eql mem 0 20 ≡ 1) × (str_eql mem 0 10 ≡ 0)
unfolding str_eql equal_loop strlength strlength_loop
compares = (refl, refl)

strlength_lem_example : strlength mem 0 ≡ 2
strlength_lem_example = strlength_lem small-IsString (omega arith) (omega arith)

stringlength_lem_example : stringlength 5 mem 0 0 ≡ some 2
stringlength_lem_example = stringlength_lem 5 mem 0 2 small-IsString (omega arith)

str_eql_iff_example : (str_eql mem 0 10 ≡ 1) ↔ (◌≡◌ {A = ℕ} 2 2 × SameFrom mem 0 10 0 2)
str_eql_iff_example =
    str_eql_iff mem 0 10 2 2 small-IsString capital-IsString (omega arith) (omega arith)
      (omega arith) (omega arith)

capitals : UpcasedFrom mem 0 10 0 2
capitals zero a b = refl
capitals (suc zero) a b = refl
capitals (suc (suc k)) a b = absurd (omega arith)

str_eql2_iff_example : (str_eql2 mem 0 20 ≡ 1) ↔ SameFrom mem 0 20 0 3
str_eql2_iff_example = str_eql2_iff mem 0 20
