-- ===== src/Text/Length.antt =====
-- The lengths that kernel/string.c computes.
use john_os.Common.{
  ℕ, zero, suc, ◌+◌, ◌≤◌, ◌<◌, ◌≡◌, ◌≢◌, ◌⊎◌, inl, inr, true, false, ◌&&◌, not, some, arith, ltb,
  ◌==◌, Bool-cases, ==→eq,
}
use john_os.Common.Store.{Store}
use john_os.Text.{strlength_loop, strlength, strlength3, stringlength}

-- At `p` stands a C string of `n` characters.
pub record IsString (m : Store) (p n : ℕ) : Type 0 where
  pub chars : (k : ℕ) → k < n → m (p + k) ≢ 0
  pub ends : m (p + n) ≡ 0

-- `r` is the first index from 1 on that holds 0, or 127 if there is none up to 127.
pub record IsLength (m : Store) (p r : ℕ) : Type 0 where
  pub low : 1 ≤ r
  pub top : r ≤ 127
  pub inside : (k : ℕ) → 1 ≤ k → k < r → m (p + k) ≢ 0
  pub end : (m (p + r) ≡ 0) ⊎ (r ≡ 127)

inside-suc :
    (m : Store) (p e : ℕ)
    → ((k : ℕ) → 1 ≤ k → k < e → m (p + k) ≢ 0)
    → m (p + e) ≢ 0
    → (k : ℕ) → 1 ≤ k
    → k < e + 1
    → m (p + k) ≢ 0
inside-suc m p e inside here k low lt = elim (Bool-cases (k == e)) [
  | inl same ↦ let s : k ≡ e = ground arith in rw s here
  | inr other ↦ inside k low (ground arith)
]

strlength_loop-IsLength :
    (rounds : ℕ) (m : Store) (p e : ℕ)
    → 1 ≤ e
    → e + rounds ≡ 127
    → ((k : ℕ) → 1 ≤ k → k < e → m (p + k) ≢ 0)
    → IsLength m p (strlength_loop (suc rounds) m p e)
unfolding strlength_loop
strlength_loop-IsLength zero m p e low sum inside =
    let last : ltb (e + 1) 128 ≡ false = ground arith in
    let stop : (not (m (p + e) == 0) && ltb (e + 1) 128) ≡ false = ground arith in
    rw stop (record { low = low; top = omega arith; inside = inside; end = inr (omega arith) })
strlength_loop-IsLength (suc rounds) m p e low sum inside = elim (Bool-cases (m (p + e) == 0)) [
  | inl zeroed ↦
      rw zeroed
        (record { low = low; top = omega arith; inside = inside; end = inl (==→eq _ _ zeroed) })
  | inr other ↦
      let more : ltb (e + 1) 128 ≡ true = ground arith in
      rw (other, more)
        (strlength_loop-IsLength rounds m p (e + 1) (omega arith) (omega arith)
          (inside-suc m p e inside (ground arith)))
]

-- `strlength` and `strlength3` look from the second character on: whatever the memory holds, they
-- give the first index from 1 on at which a zero stands, or 127.
pub strlength-IsLength :
    (m : Store) (p : ℕ) → IsLength m p (strlength m p) × IsLength m p (strlength3 m p)
unfolding strlength strlength3
strlength-IsLength m p =
    let is =
      strlength_loop-IsLength 126 m p 1 (omega arith) (omega arith)
        (λ k a b. absurd (omega arith)) in
    (is, is)

IsLength-unique : {m : Store} {p r r' : ℕ} → IsLength m p r → IsLength m p r' → r ≡ r'
IsLength-unique {m} {p} {r} {r'} a b = ground (arith, a.inside r', b.inside r, a.end, b.end)

IsString-IsLength : {m : Store} {p n : ℕ} → IsString m p n → 1 ≤ n → n ≤ 127 → IsLength m p n
IsString-IsLength is low top = record {
  low = low;
  top = top;
  inside = λ k a b. is.chars k b;
  end = inl is.ends;
}

-- So a string of 1 to 127 characters gets its length.
pub strlength_lem : {m : Store} {p n : ℕ} → IsString m p n → 1 ≤ n → n ≤ 127 → strlength m p ≡ n
strlength_lem {m} {p} is low top =
    IsLength-unique (strlength-IsLength m p).0 (IsString-IsLength is low top)

stringlength_from :
    (fuel : ℕ) (m : Store) (p n i : ℕ)
    → IsString m p n
    → i ≤ n
    → n < i + fuel
    → stringlength fuel m p i ≡ some n
unfolding stringlength
stringlength_from zero m p n i is le room = absurd (omega arith)
stringlength_from (suc fuel) m p n i is le room = elim (Bool-cases (i == n)) [
  | inl end ↦ let e : i ≡ n = ground arith in rw (e, is.ends)
  | inr more ↦
      ground
        (arith, is.chars i, stringlength_from fuel m p n (i + 1) is (ground arith) (omega arith))
]

-- `stringlength` gives the length of every string, the empty one included, once its loop may run
-- over all of the characters.
pub stringlength_lem :
    (fuel : ℕ) (m : Store) (p n : ℕ) → IsString m p n → n < fuel → stringlength fuel m p 0 ≡ some n
stringlength_lem fuel m p n is room = stringlength_from fuel m p n 0 is (omega arith) (omega arith)
