-- ===== src/PageMap/Search.antt =====
-- The two searches of kernel/mem.c for a free page.
use john_os.Common.{
  ℕ, zero, suc, ◌+◌, ◌-◌, ◌^◌, ◌≤◌, ◌<◌, ◌≡◌, refl, fun_ext, inl, inr, Bool, arith, u32, ltb, leb,
  ◌==◌, Bool-cases, ==→eq,
}
use john_os.Common.Store.{Store}
use john_os.PageMap.{check_bit, scan, check_first_free_memory, check_free_memory, ℕ, Bool, leb, ◌-◌}
use john_os.PageMap.Bits.{check_bit-le-one}

-- The pages from `lo` up to, and without, `hi` are all taken.
abbrev pub Taken : Store → ℕ → ℕ → Type 0
Taken m lo hi = (q : ℕ) → lo ≤ q → q < hi → check_bit m q ≡ 1

-- What `memloop` can be behind a search from `lo` to `hi`.
pub data Scanned (m : Store) (lo hi r : ℕ) : Type 0 where
  found :
      (p : ℕ) → r ≡ p + 1 → lo ≤ p → p < hi → check_bit m p ≡ 0 → Taken m lo p → Scanned m lo hi r
  exhausted : r ≡ hi → Taken m lo hi → Scanned m lo hi r

Taken-cons : (m : Store) (lo hi : ℕ) → check_bit m lo ≡ 1 → Taken m (lo + 1) hi → Taken m lo hi
Taken-cons m lo hi first rest q below above = elim (Bool-cases (lo == q)) [
  | inl same ↦ let e : lo ≡ q = ==→eq lo q same in rw (← e) first
  | inr other ↦ rest q (ground arith) above
]

Scanned-cons :
    (m : Store) (lo hi r : ℕ) → check_bit m lo ≡ 1 → Scanned m (lo + 1) hi r → Scanned m lo hi r
Scanned-cons m lo hi r first (found p e below above free rest) =
    found p e (omega arith) above free (Taken-cons m lo p first rest)
Scanned-cons m lo hi r first (exhausted e rest) = exhausted e (Taken-cons m lo hi first rest)

-- A round that reads 0 is the last one.
scan_stops : (go_on : ℕ → Bool) (rounds : ℕ) (m : Store) (l : ℕ) → scan go_on rounds m l 0 ≡ l
unfolding scan
scan_stops go_on zero m l = refl
scan_stops go_on (suc rounds) m l = elim (Bool-cases (go_on l)) [
  | inl more ↦ rw more
  | inr done ↦ rw done
]

-- With one round more than there are pages, the search comes to its own end.
scan-Scanned :
    (hi : ℕ) (m : Store) (rounds l : ℕ)
    → l ≤ hi
    → hi < l + rounds
    → Scanned m l hi (scan (λ i. ltb i hi) rounds m l 1)
unfolding scan
scan-Scanned hi m zero l le fuel = absurd (omega arith)
scan-Scanned hi m (suc rounds) l le fuel = elim (Bool-cases (ltb l hi)) [
  | inr done ↦ rw done (exhausted (ground arith) (λ q p r. absurd (ground arith)))
  | inl more ↦ rw more (elim (Bool-cases (check_bit m l == 1)) [
    | inl taken ↦
        let e : check_bit m l ≡ 1 = ==→eq _ _ taken in
        rw e
          (Scanned-cons m l hi _ e (scan-Scanned hi m rounds (l + 1) (ground arith) (omega arith)))
    | inr free ↦
        let e : check_bit m l ≡ 0 = ground (arith, check_bit-le-one m l) in
        rw (e, scan_stops (λ i. ltb i hi) rounds m (l + 1))
          (found l refl (omega arith) (ground arith) e (λ q p r. absurd (omega arith)))
  ])
]

-- `p` is the first free page of 0 to 60800, or 60800 with all of them taken.
pub data FirstFree (m : Store) (p : ℕ) : Type 0 where
  free : p ≤ 60800 → check_bit m p ≡ 0 → Taken m 0 p → FirstFree m p
  full : p ≡ 60800 → Taken m 0 60801 → FirstFree m p

first_tests : ◌≡◌ {A = ℕ → Bool} (λ l. leb l 60800) (λ l. ltb l 60801)
first_tests = fun_ext (λ l. ground arith)

FirstFree-Scanned : (m : Store) (r : ℕ) → Scanned m 0 60801 r → FirstFree m (r - 1)
FirstFree-Scanned m r (found p e below above zeroed rest) =
    let back : r - 1 ≡ p = omega arith in rw back (free (omega arith) zeroed rest)
FirstFree-Scanned m r (exhausted e rest) = full (omega arith) rest

-- Whatever the map holds, `check_first_free_memory` returns the first free page of 0 to 60800, or
-- 60800 where all of these are taken.
pub check_first_free_memory-FirstFree : (m : Store) → FirstFree m (check_first_free_memory m)
unfolding check_first_free_memory
check_first_free_memory-FirstFree m =
    rw first_tests
      (FirstFree-Scanned m _ (scan-Scanned 60801 m 60802 0 (omega arith) (omega arith)))

-- `p` is the first free page from `start` to 60799, or 60799 with all of them taken.
pub data FreeFrom (m : Store) (start p : ℕ) : Type 0 where
  free : start ≤ p → p ≤ 60799 → check_bit m p ≡ 0 → Taken m start p → FreeFrom m start p
  full : p ≡ 60799 → Taken m start 60800 → FreeFrom m start p

FreeFrom-Scanned :
    (m : Store) (start r : ℕ)
    → start < 60800
    → Scanned m start 60800 r
    → FreeFrom m start (u32 (r + 2 ^ 32 - 1))
FreeFrom-Scanned m start r h (found p e below above zeroed rest) =
    let back : u32 (r + 2 ^ 32 - 1) ≡ p = omega arith in
    rw back (free below (omega arith) zeroed rest)
FreeFrom-Scanned m start r h (exhausted e rest) = full (omega arith) rest

-- From a start below 60800, `check_free_memory` returns the first free page from there to 60799, or
-- 60799 where all of these are taken.
pub check_free_memory-FreeFrom :
    (m : Store) (start : ℕ) → start < 60800 → FreeFrom m start (check_free_memory m start)
unfolding check_free_memory
check_free_memory-FreeFrom m start h =
    FreeFrom-Scanned m start _ h (scan-Scanned 60800 m 60801 start (omega arith) (omega arith))
