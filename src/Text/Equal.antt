-- ===== src/Text/Equal.antt =====
-- The comparisons of kernel/string.c.
use john_os.Common.{
  ℕ, zero, suc, ◌+◌, ◌≤◌, ◌<◌, ◌≡◌, refl, sym, ◌∙◌, inl, inr, arith, not, true, ◌⊎◌, ==_refl, u8,
  ◌==◌, Bool-cases, eq→==, ==→eq, ◌↔◌,
}
use john_os.Common.Store.{Store}
use john_os.Text.{equal_loop, strlength, str_eql, str_eql2}
use john_os.Text.Length.{IsString, strlength_lem}

-- The characters `lo` up to, and without, `hi` of two strings agree.
abbrev pub SameFrom : Store → (p q lo hi : ℕ) → Type 0
SameFrom m p q lo hi = (k : ℕ) → lo ≤ k → k < hi → m (p + k) ≡ m (q + k)

SameFrom-cons :
    (m : Store) (p q lo hi : ℕ)
    → m (p + lo) ≡ m (q + lo)
    → SameFrom m p q (lo + 1) hi
    → SameFrom m p q lo hi
SameFrom-cons m p q lo hi first rest k le lt = elim (Bool-cases (lo == k)) [
  | inl same ↦ let e : k ≡ lo = ground arith in rw e first
  | inr other ↦ rest k (ground arith) lt
]

equal_loop_sound :
    (rounds : ℕ) (m : Store) (p q f : ℕ)
    → equal_loop rounds m p q f ≡ 1
    → SameFrom m p q f (f + rounds)
unfolding equal_loop
equal_loop_sound zero m p q f e k le lt = absurd (omega arith)
equal_loop_sound (suc rounds) m p q f e k le lt = elim (Bool-cases (m (p + f) == m (q + f))) [
  | inl same ↦
      let rest = equal_loop_sound rounds m p q (f + 1) (ground arith) in
      SameFrom-cons m p q f (f + suc rounds) (==→eq _ _ same) (λ j a b. rest j a (omega arith)) k le
        lt
  | inr other ↦ absurd (ground arith)
]

equal_loop_complete :
    (rounds : ℕ) (m : Store) (p q f : ℕ)
    → SameFrom m p q f (f + rounds)
    → equal_loop rounds m p q f ≡ 1
unfolding equal_loop
equal_loop_complete zero m p q f same = refl
equal_loop_complete (suc rounds) m p q f same =
    rw (eq→== _ _ (same f (omega arith) (omega arith)))
      (equal_loop_complete rounds m p q (f + 1) (λ k a b. same k (omega arith) (omega arith)))

-- `str_eql` decides equality of strings of 1 to 127 characters: it returns 1 exactly when the
-- lengths are the same and all characters agree.
pub str_eql_iff :
    (m : Store) (p q n n' : ℕ)
    → IsString m p n
    → IsString m q n'
    → 1 ≤ n
    → n ≤ 127
    → 1 ≤ n'
    → n' ≤ 127
    → (str_eql m p q ≡ 1) ↔ ((n ≡ n') × SameFrom m p q 0 n)
unfolding str_eql
str_eql_iff m p q n n' is is' low top low' top' =
    let size : u8 (strlength m p) ≡ n = omega (arith, strlength_lem is low top) in
    let size' : u8 (strlength m q) ≡ n' = omega (arith, strlength_lem is' low' top') in
    rw (size, size')
      (elim (Bool-cases (n == n')) [
        | inl same ↦
            let e : n ≡ n' = ==→eq n n' same in
            rw same (
              λ r. (e, λ k a b. equal_loop_sound (n + 1) m p q 0 r k a (omega arith)),
              λ r. equal_loop_complete (n + 1) m p q 0 (closed e r.1),
            )
        | inr other ↦ rw other (λ r. cc, λ r. absurd (ground (arith, r.0)))
      ])
  where
    closed : n ≡ n' → SameFrom m p q 0 n → SameFrom m p q 0 (0 + (n + 1))
    closed e r k a b = elim (Bool-cases (k == n)) [
      | inl last ↦ let s : k ≡ n = ground arith in rw s (is.ends ∙ sym (rw e is'.ends))
      | inr before ↦ r k a (ground arith)
    ]

-- `str_eql2` compares the first three characters, whatever follows.
pub str_eql2_iff : (m : Store) (p q : ℕ) → (str_eql2 m p q ≡ 1) ↔ SameFrom m p q 0 3
unfolding str_eql2
str_eql2_iff m p q = (λ r k a b. three r k b, λ s. ground (arith, s 0, s 1, s 2))
  where
    three : str_eql2 m p q ≡ 1 → (k : ℕ) → k < 3 → m (p + k) ≡ m (q + k)
    three r zero b = ground arith
    three r (suc zero) b = ground arith
    three r (suc (suc zero)) b = ground arith
    three r (suc (suc (suc k))) b = absurd (omega arith)

equal_loop-cases :
    (rounds : ℕ) (m : Store) (p q f : ℕ)
    → (equal_loop rounds m p q f ≡ 0) ⊎ (equal_loop rounds m p q f ≡ 1)
unfolding equal_loop
equal_loop-cases zero m p q f = inr refl
equal_loop-cases (suc rounds) m p q f = elim (Bool-cases (m (p + f) == m (q + f))) [
  | inl same ↦ rw same (equal_loop-cases rounds m p q (f + 1))
  | inr other ↦ rw other (inl refl)
]

-- With the length of the second string known, the two outcomes of the test of the lengths.
str_eql-length :
    (m : Store) (p q n : ℕ)
    → u8 (strlength m q) ≡ n
    → ((u8 (strlength m p) ≡ n) × (str_eql m p q ≡ equal_loop (n + 1) m p q 0))
      ⊎ (str_eql m p q ≡ 0)
unfolding str_eql
str_eql-length m p q n size' = elim (Bool-cases (u8 (strlength m p) == n)) [
  | inl same ↦
      let e : u8 (strlength m p) ≡ n = ==→eq _ _ same in inl (e, rw (size', e, ==_refl n) refl)
  | inr other ↦ inr (rw (size', other) refl)
]

-- The test of any bytes against a string of 1 to 127 characters: it holds exactly when they agree
-- with the string and its terminator.
pub str_eql-literal :
    (m : Store) (p q n : ℕ)
    → IsString m q n
    → 1 ≤ n
    → n ≤ 127
    → (not (str_eql m p q == 0) ≡ true) ↔ SameFrom m p q 0 (n + 1)
str_eql-literal m p q n is low top =
    let size' : u8 (strlength m q) ≡ n = omega (arith, strlength_lem is low top) in
    (λ r. sound size' r, λ same. complete size' same)
  where
    sound : u8 (strlength m q) ≡ n → not (str_eql m p q == 0) ≡ true → SameFrom m p q 0 (n + 1)
    sound size' r = elim (str_eql-length m p q n size') [
      | inr z ↦ absurd (ground arith)
      | inl (e, f) ↦ elim (equal_loop-cases (n + 1) m p q 0) [
        | inl z ↦ absurd (ground arith)
        | inr o ↦ λ k a b. equal_loop_sound (n + 1) m p q 0 o k a (omega arith)
      ]
    ]

    string : SameFrom m p q 0 (n + 1) → IsString m p n
    string same = record {
      chars = λ k below. rw (same k (omega arith) (omega arith)) (is.chars k below);
      ends = same n (omega arith) (omega arith) ∙ is.ends;
    }

    complete : u8 (strlength m q) ≡ n → SameFrom m p q 0 (n + 1) → not (str_eql m p q == 0) ≡ true
    complete size' same =
        let one = equal_loop_complete (n + 1) m p q 0 (λ k a b. same k a (omega arith)) in
        let size = strlength_lem (string same) low top in
        let one' : str_eql m p q ≡ 1 =
          unfold str_eql in
          let e : u8 (strlength m p) ≡ n = omega (arith, size) in rw (size', e, ==_refl n) one in
        ground arith
