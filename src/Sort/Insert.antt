-- ===== src/Sort/Insert.antt =====
-- One step of `sort_array2` of kernel/util.c puts the element at its place.
use john_os.Common.{
  ℕ, zero, suc, ◌+◌, ◌-◌, ◌^◌, ◌≤◌, ◌<◌, ◌≡◌, refl, ap, ◌∙◌, ◌⊎◌, inl, inr, Bool, true, false, ◌&&◌,
  arith, u16, ltb, leb, ◌==◌, if◌then◌else◌, ==_refl, Bool-cases, ==→eq,
}
use john_os.Common.Store.{Store, write}
use john_os.Sort.{move_up, search_down, sort_step}

-- `t` with `x` put at index `p`, and the elements from there to `i` one index higher.
abbrev pub with_at : Store → (p i x : ℕ) → Store
with_at t p i x m =
    if ltb m p then t m else if m == p then x else if leb m i then t (m - 1) else t m

move_up_lem :
    (n : ℕ) (t : Store) (k m : ℕ)
    → n ≤ k
    → move_up n t k m ≡ (if ltb (k - n) m && leb m k then t (m - 1) else t m)
unfolding move_up
move_up_lem zero t k m low = ground arith
move_up_lem (suc n) t k m low = elim (Bool-cases (m == k)) [
  | inl top ↦
      let e : m ≡ k = ==→eq m k top in
      move_up_lem n (write t k (t (k - 1))) (k - 1) m (omega arith) ∙ at_top e
  | inr under ↦
      move_up_lem n (write t k (t (k - 1))) (k - 1) m (omega arith)
      ∙ rw (same_test under) (lower (ltb (k - suc n) m && leb m k) refl under)
]
  where
    at_top :
        m ≡ k
        → (if ltb (k - 1 - n) m && leb m (k - 1)
            then write t k (t (k - 1)) (m - 1)
            else write t k (t (k - 1)) m)
          ≡ (if ltb (k - suc n) m && leb m k then t (m - 1) else t m)
    at_top e =
        let off : leb m (k - 1) ≡ false = ground arith in
        let on : leb m k ≡ true = ground arith in
        let past : ltb (k - suc n) m ≡ true = ground arith in
        rw (past, off, on) (and_false (ltb (k - 1 - n) m) e)
      where
        and_false :
            (b : Bool)
            → m ≡ k
            → (if b && false then write t k (t (k - 1)) (m - 1) else write t k (t (k - 1)) m)
              ≡ t (m - 1)
        and_false true e = rw (e, ==_refl k) refl
        and_false false e = rw (e, ==_refl k) refl

    same_test :
        (m == k) ≡ false → (ltb (k - 1 - n) m && leb m (k - 1)) ≡ (ltb (k - suc n) m && leb m k)
    same_test under = ground arith

    lower :
        (b : Bool)
        → (ltb (k - suc n) m && leb m k) ≡ b
        → (m == k) ≡ false
        → (if b then write t k (t (k - 1)) (m - 1) else write t k (t (k - 1)) m)
          ≡ (if b then t (m - 1) else t m)
    lower true e under = let off : (k == m - 1) ≡ false = ground arith in rw off refl
    lower false e under = let off : (k == m) ≡ false = ground arith in rw off refl

-- `u` is `t` with `x` inserted: what is above it is not less, and what is just below is less.
pub record Inserted (t : Store) (x i : ℕ) (u : Store) : Type 0 where
  pub p : ℕ
  pub inside : p ≤ i
  pub places : (m : ℕ) → u m ≡ with_at t p i x m
  pub below : (p ≡ 0) ⊎ (t (p - 1) < x)
  pub above : (m : ℕ) → p ≤ m → m < i → x ≤ t m

-- What is found from `j` down, with the element `x` not above what is at `j` and higher.
search_down_lem :
    (j : ℕ) (t : Store) (x i shift : ℕ)
    → shift + j ≡ i - 1
    → 0 < i
    → ((m : ℕ) → j ≤ m → m < i → x ≤ t m)
    → let found = search_down j t x i shift in
      ((found.1 ≡ 0) × (found.0 ≡ t) × ((m : ℕ) → m < i → x ≤ t m))
      ⊎ ((p : ℕ) × (found.1 ≡ 1)
          × (found.2 + p ≡ i)
          × (0 < p)
          × (found.0 ≡ move_up (i - p) t i)
          × (t (p - 1) < x)
          × ((m : ℕ) → p ≤ m → m < i → x ≤ t m))
unfolding search_down
search_down_lem zero t x i shift sum pos above = inl (refl, refl, λ m h. above m (omega arith) h)
search_down_lem (suc j) t x i shift sum pos above = elim (Bool-cases (ltb (t j) x)) [
  | inl less ↦ rw less (
      inr (
        j + 1,
        refl,
        omega arith,
        omega arith,
        refl,
        last (ground arith),
        λ m a b. above m (omega arith) b,
      ))
  | inr more ↦ rw more (
      search_down_lem j t x i (shift + 1) (omega arith) pos
        (λ m a b. at_or_above m a b (ground arith)))
]
  where
    last : t j < x → t (j + 1 - 1) < x
    last less = let e : t (j + 1 - 1) ≡ t j = ap t (omega arith) in omega arith

    at_or_above : (m : ℕ) → j ≤ m → m < i → x ≤ t j → x ≤ t m
    at_or_above m a b at = elim (Bool-cases (m == j)) [
      | inl here ↦ let e : t m ≡ t j = ap t (==→eq m j here) in omega arith
      | inr there ↦ above m (ground arith) b
    ]

move_up-with_at :
    (t : Store) (p i x m : ℕ) → p ≤ i → write (move_up (i - p) t i) p x m ≡ with_at t p i x m
move_up-with_at t p i x m low = elim (Bool-cases (m == p)) [
  | inl here ↦
      let e : m ≡ p = ==→eq m p here in
      let under : ltb m p ≡ false = ground arith in rw (under, e, ==_refl p) refl
  | inr there ↦
      let off : (p == m) ≡ false = ground arith in
      rw (off, there) (move_up_lem (i - p) t i m (omega arith) ∙ cases (t (m - 1)) (t m) there)
]
  where
    cases :
        (a b : ℕ)
        → (m == p) ≡ false
        → (if ltb (i - (i - p)) m && leb m i then a else b)
          ≡ (if ltb m p then b else if leb m i then a else b)
    cases a b there = ground arith

-- A step of the sort inserts the element among those in front of it.
pub sort_step-Inserted :
    (t : Store) (x i : ℕ) → 0 < i → x < 2 ^ 16 → Inserted t x i (sort_step t x i)
unfolding sort_step
sort_step-Inserted t x i pos word = elim (Bool-cases (ltb (t (i - 1)) x)) [
  | inl less ↦ rw less (record {
    p = i;
    inside = omega arith;
    places = λ m. rw same (move_none m);
    below = inr (ground arith);
    above = λ m a b. absurd (omega arith);
  })
  | inr more ↦ rw more (
      by_search
        (search_down_lem (i - 1) t x i 0 (omega arith) pos (λ m a b. at_last m a b (ground arith))))
]
  where
    same : u16 x ≡ x
    same = omega arith

    move_none : (m : ℕ) → write t i x m ≡ with_at t i i x m
    move_none m = ground arith

    whole : (m : ℕ) → write (move_up i t i) 0 x m ≡ write (move_up (i - 0) t i) 0 x m
    whole m = ap (λ n. write (move_up n t i) 0 x m) (omega arith)

    at_last : (m : ℕ) → i - 1 ≤ m → m < i → x ≤ t (i - 1) → x ≤ t m
    at_last m a b low = let e : t m ≡ t (i - 1) = ap t (omega arith) in omega arith

    by_search :
        (let found = search_down (i - 1) t x i 0 in
          ((found.1 ≡ 0) × (found.0 ≡ t) × ((m : ℕ) → m < i → x ≤ t m))
          ⊎ ((p : ℕ) × (found.1 ≡ 1)
              × (found.2 + p ≡ i)
              × (0 < p)
              × (found.0 ≡ move_up (i - p) t i)
              × (t (p - 1) < x)
              × ((m : ℕ) → p ≤ m → m < i → x ≤ t m)))
        → Inserted t x i (
            let found = search_down (i - 1) t x i 0 in
            if found.1 == 0
            then write (move_up i found.0 i) 0 (u16 x)
            else if leb found.2 i
            then write found.0 (i - found.2) (u16 x)
            else found.0)
    by_search (inl (flag, array, above)) =
        rw (flag, array, same)
          (record {
            p = 0;
            inside = omega arith;
            places = λ m. whole m ∙ move_up-with_at t 0 i x m (omega arith);
            below = inl refl;
            above = λ m a b. above m b;
          })
    by_search (inr (p, flag, shift, pos_p, array, below, above)) =
        let room : leb (search_down (i - 1) t x i 0).2 i ≡ true = ground arith in
        let at : i - (search_down (i - 1) t x i 0).2 ≡ p = omega arith in
        rw (flag, room, at, array, same)
          (record {
            p = p;
            inside = omega arith;
            places = λ m. move_up-with_at t p i x m (omega arith);
            below = inr below;
            above = above;
          })
