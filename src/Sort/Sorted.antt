-- ===== src/Sort/Sorted.antt =====
-- `sort_array2` of kernel/util.c sorts.
use john_os.Common.{
  ℕ, zero, suc, ◌+◌, ◌-◌, ◌^◌, ◌≤◌, ◌<◌, ◌≡◌, refl, sym, ap, ◌∙◌, ◌⊎◌, inl, inr, true, false, arith,
  u16, ltb, leb, ◌==◌, if◌then◌else◌, Bool-cases, ==→eq,
}
use john_os.Common.Store.{Store, write}
use john_os.Sort.{sort_step, sort_loop, zero_words, sort_array2}
use john_os.Sort.Insert.{with_at, Inserted, sort_step-Inserted}

-- The first `n` elements rise.
abbrev pub IsSorted : Store → ℕ → Type 0
IsSorted t n = (m : ℕ) → suc m < n → t m ≤ t (suc m)

-- How often `v` stands among the first `n` elements.
pub count : (v : ℕ) → Store → ℕ → ℕ
count v t zero = 0
count v t (suc n) = count v t n + (if t n == v then 1 else 0)

with_at-below : (t : Store) (p i x m : ℕ) → m < p → with_at t p i x m ≡ t m
with_at-below t p i x m low = let e : ltb m p ≡ true = ground arith in rw e refl

with_at-here : (t : Store) (p i x m : ℕ) → m ≡ p → with_at t p i x m ≡ x
with_at-here t p i x m at =
    let e : ltb m p ≡ false = ground arith in
    let same : (m == p) ≡ true = ground arith in rw (e, same) refl

with_at-past : (t : Store) (p i x m : ℕ) → p < m → m ≤ i → with_at t p i x m ≡ t (m - 1)
with_at-past t p i x m high low =
    let e : ltb m p ≡ false = ground arith in
    let off : (m == p) ≡ false = ground arith in
    let on : leb m i ≡ true = ground arith in rw (e, off, on) refl

-- Three ways to stand to each other.
order : (a b : ℕ) → (a < b) ⊎ ((a ≡ b) ⊎ (b < a))
order a b = elim (Bool-cases (ltb a b)) [
  | inl less ↦ inl (ground arith)
  | inr more ↦ elim (Bool-cases (a == b)) [
    | inl same ↦ inr (inl (==→eq a b same))
    | inr off ↦ inr (inr (ground arith))
  ]
]

Inserted-IsSorted :
    (t : Store) (x i : ℕ) (u : Store) → Inserted t x i u → IsSorted t i → IsSorted u (suc i)
Inserted-IsSorted t x i u ins sorted m low =
    rw (ins.places m, ins.places (suc m)) (rises (order (suc m) ins.p) (order m ins.p) ins.below)
  where
    rises :
        (suc m < ins.p) ⊎ ((suc m ≡ ins.p) ⊎ (ins.p < suc m))
        → (m < ins.p) ⊎ ((m ≡ ins.p) ⊎ (ins.p < m))
        → (ins.p ≡ 0) ⊎ (t (ins.p - 1) < x)
        → with_at t ins.p i x m ≤ with_at t ins.p i x (suc m)
    rises (inl next_below) b less =
        rw (with_at-below t ins.p i x m (omega arith), with_at-below t ins.p i x (suc m) next_below)
          (sorted m (omega (arith, ins.inside)))
    rises (inr (inl next_here)) b (inl no_p) = absurd (omega arith)
    rises (inr (inl next_here)) b (inr less) =
        let e : t (ins.p - 1) ≡ t m = ap t (omega arith) in
        rw (with_at-below t ins.p i x m (omega arith), with_at-here t ins.p i x (suc m) next_here)
          (omega arith)
    rises (inr (inr next_past)) (inl here_below) less = absurd (omega arith)
    rises (inr (inr next_past)) (inr (inl here)) less =
        let e : t (suc m - 1) ≡ t m = ap t (omega arith) in
        rw
          (
            with_at-here t ins.p i x m here,
            with_at-past t ins.p i x (suc m) next_past (omega arith),
          )
          (omega (arith, ins.above m (omega arith) (omega arith)))
    rises (inr (inr next_past)) (inr (inr past)) less =
        let e : t (suc m - 1) ≡ t (suc (m - 1)) = ap t (omega arith) in
        rw
          (
            with_at-past t ins.p i x m past (omega arith),
            with_at-past t ins.p i x (suc m) next_past (omega arith),
          )
          (omega (arith, sorted (m - 1) (omega arith)))

count-below :
    (t : Store) (x i : ℕ) (u : Store) (v n : ℕ) (ins : Inserted t x i u)
    → n ≤ ins.p
    → count v u n ≡ count v t n
unfolding count
count-below t x i u v zero ins low = refl
count-below t x i u v (suc n) ins low =
    rw
      (
        ins.places n,
        with_at-below t ins.p i x n (omega arith),
        count-below t x i u v n ins (omega arith),
      )
      refl

count-past :
    (t : Store) (x i : ℕ) (u : Store) (v n : ℕ) (ins : Inserted t x i u)
    → ins.p ≤ n
    → n ≤ i
    → count v u (suc n) ≡ count v t n + (if x == v then 1 else 0)
unfolding count
count-past t x i u v zero ins past low =
    rw (ins.places 0, with_at-here t ins.p i x 0 (omega arith)) refl
count-past t x i u v (suc n) ins past low = elim (order (suc n) ins.p) [
  | inl under ↦ absurd (omega arith)
  | inr rest ↦ elim rest [
    | inl here ↦
        rw
          (
            ins.places (suc n),
            with_at-here t ins.p i x (suc n) here,
            ins.places n,
            with_at-below t ins.p i x n (omega arith),
            count-below t x i u v n ins (omega arith),
          )
          refl
    | inr over ↦
        let e : t (suc n - 1) ≡ t n = ap t (omega arith) in
        rw (ins.places (suc n), with_at-past t ins.p i x (suc n) over low, e)
          (swap (count-past t x i u v n ins (omega arith) (omega arith)))
  ]
]
  where
    swap :
        count v u (suc n) ≡ count v t n + (if x == v then 1 else 0)
        → count v u (suc n) + (if t n == v then 1 else 0)
          ≡ count v t n + (if t n == v then 1 else 0) + (if x == v then 1 else 0)
    swap same = omega arith

count-suc :
    (v : ℕ) (t : Store) (n : ℕ) → count v t (suc n) ≡ count v t n + (if t n == v then 1 else 0)
count-suc v t n = unfold count in refl

-- The loop keeps the first elements sorted, and their counts those of the input.
sort_loop_lem :
    (rounds : ℕ) (t input : Store) (i n : ℕ)
    → i + rounds ≡ n
    → 0 < i
    → ((k : ℕ) → k < n → input k < 2 ^ 16)
    → IsSorted t i
    → ((v : ℕ) → count v t i ≡ count v input i)
    → IsSorted (sort_loop rounds t input i) n
      × ((v : ℕ) → count v (sort_loop rounds t input i) n ≡ count v input n)
unfolding sort_loop
sort_loop_lem zero t input i n sum pos words sorted same =
    let e : i ≡ n = omega arith in rw (← e) (sorted, same)
sort_loop_lem (suc rounds) t input i n sum pos words sorted same =
    let ins = sort_step-Inserted t (input i) i pos (words i (omega arith)) in
    sort_loop_lem rounds (sort_step t (input i) i) input (i + 1) n (omega arith) (omega arith) words
      (next_sorted (Inserted-IsSorted t (input i) i (sort_step t (input i) i) ins sorted))
      (λ v.
        next_count v
          (count-past t (input i) i (sort_step t (input i) i) v i ins ins.inside (omega arith))
          (same v))
  where
    one_more : i + 1 ≡ suc i
    one_more = omega arith

    next_sorted :
        IsSorted (sort_step t (input i) i) (suc i) → IsSorted (sort_step t (input i) i) (i + 1)
    next_sorted is = rw one_more is

    next_count :
        (v : ℕ)
        → count v (sort_step t (input i) i) (suc i) ≡ count v t i + (if input i == v then 1 else 0)
        → count v t i ≡ count v input i
        → count v (sort_step t (input i) i) (i + 1) ≡ count v input (i + 1)
    next_count v more as_before =
        rw one_more (
          more
          ∙ ap (λ c. c + (if input i == v then 1 else 0)) as_before
          ∙ sym (count-suc v input i))

-- For an input of 16-bit values that is not empty, `sort_array2` leaves the first `n` elements
-- of `test_array` in rising order, and every value is among them as often as in the input.
pub sort_array2-IsSorted :
    (t input : Store) (n v : ℕ)
    → 0 < n
    → ((k : ℕ) → k < n → input k < 2 ^ 16)
    → IsSorted (sort_array2 t input n) n × (count v (sort_array2 t input n) n ≡ count v input n)
unfolding sort_array2
sort_array2-IsSorted t input n v pos words =
    let first = write (zero_words n t 0) 0 (u16 (input 0)) in
    let (sorted, same) =
      sort_loop_lem (n - 1) first input 1 n (omega arith) (omega arith) words
        (λ m low. absurd (omega arith)) (λ w. one w (words 0 pos)) in
    (sorted, same v)
  where
    one :
        (w : ℕ)
        → input 0 < 2 ^ 16
        → count w (write (zero_words n t 0) 0 (u16 (input 0))) 1 ≡ count w input 1
    one w low = let word : u16 (input 0) ≡ input 0 = omega arith in unfold count in rw word refl
