-- ===== src/Numbers/Binary.antt =====
-- What `dec_to_bin` of kernel/graphics/screen.c prints.
use john_os.Common.{
  ℕ, zero, suc, ◌+◌, ◌-◌, ◌/◌, ◌%◌, ◌^◌, ◌≤◌, ◌<◌, ◌≡◌, refl, ap, ◌∙◌, ◌≢◌, inl, inr, true, false,
  not, arith, ltb, ◌==◌, if◌then◌else◌, ==_refl, Bool-cases, ==→eq,
}
use native.Mathlib.Nat.{pow-suc}
use john_os.Common.Bits.{bit}
use john_os.Common.Store.{Store}
use john_os.Numbers.{padding, bit_loop, temparray, spaced, dec_to_bin}

-- The value behind `d` rounds of the second loop.
shifted : ℕ → ℕ → ℕ
shifted v zero = v
shifted v (suc d) = shifted (v / 2) d

bit-shifted : (v d : ℕ) → bit v d ≡ shifted v d % 2
unfolding shifted
bit-shifted v zero = refl
bit-shifted v (suc d) = bit-shifted (v / 2) d

shifted-zero : (d : ℕ) → shifted 0 d ≡ 0
unfolding shifted
shifted-zero zero = refl
shifted-zero (suc d) = shifted-zero d

-- A round of the second loop.
stored : (v a : ℕ) → Store → Store
stored v a t = λ (i : ℕ). if a == i then (if v % 2 == 0 then b'0' else b'1') else t i

stored-at : (v a : ℕ) (t : Store) → stored v a t a ≡ b'0' + v % 2
unfolding stored
stored-at v a t = rw (==_refl a) (ground arith)

stored-off : (v a k : ℕ) (t : Store) → a ≢ k → stored v a t k ≡ t k
unfolding stored
stored-off v a k t off = ground arith

bit_loop-more :
    (n v a : ℕ) (t : Store)
    → ltb 0 v ≡ true
    → bit_loop (suc n) v a t ≡ bit_loop n (v / 2) (a - 1) (stored v a t)
unfolding bit_loop stored
bit_loop-more n v a t more = rw more refl

bit_loop-end : (n v a : ℕ) (t : Store) → ltb 0 v ≡ false → bit_loop n v a t ≡ t
unfolding bit_loop
bit_loop-end zero v a t end = refl
bit_loop-end (suc n) v a t end = rw end refl

-- What the second loop leaves at an index behind those it writes.
bit_loop-outside : (n v a k : ℕ) (t : Store) → a < k → bit_loop n v a t k ≡ t k
bit_loop-outside zero v a k t h = unfold bit_loop in refl
bit_loop-outside (suc n) v a k t h = elim (Bool-cases (ltb 0 v)) [
  | inr end ↦ ap (λ u. u k) (bit_loop-end (suc n) v a t end)
  | inl more ↦
      ap (λ u. u k) (bit_loop-more n v a t more)
      ∙ bit_loop-outside n (v / 2) (a - 1) k (stored v a t) (omega arith)
      ∙ stored-off v a k t (omega arith)
]

-- What it leaves at the index it starts with.
bit_loop-first : (v a : ℕ) (t : Store) → ltb 0 v ≡ true → bit_loop (suc a) v a t a ≡ b'0' + v % 2
bit_loop-first v zero t more =
    ap (λ u. u 0) (bit_loop-more 0 v 0 t more) ∙ unfold bit_loop in stored-at v 0 t
bit_loop-first v (suc a) t more =
    ap (λ u. u (suc a)) (bit_loop-more (suc a) v (suc a) t more)
    ∙ bit_loop-outside (suc a) (v / 2) (suc a - 1) (suc a) (stored v (suc a) t) (omega arith)
    ∙ stored-at v (suc a) t

-- What it leaves at the others: the bit, as long as the value is not used up.
bit_loop-inside :
    (d v a k : ℕ) (t : Store)
    → k + d ≡ a
    → bit_loop (suc a) v a t k ≡ (if ltb 0 (shifted v d) then b'0' + shifted v d % 2 else t k)
unfolding shifted
bit_loop-inside zero v a k t h = elim (Bool-cases (ltb 0 v)) [
  | inr end ↦ ap (λ u. u k) (bit_loop-end (suc a) v a t end) ∙ rw end refl
  | inl more ↦ rw (more, the_same) (bit_loop-first v a t more)
]
  where
    the_same : k ≡ a
    the_same = omega arith
bit_loop-inside (suc d) v zero k t h = absurd (omega arith)
bit_loop-inside (suc d) v (suc a) k t h = elim (Bool-cases (ltb 0 v)) [
  | inr end ↦
      ap (λ u. u k) (bit_loop-end (suc (suc a)) v (suc a) t end)
      ∙ rw (ap (λ w. shifted w d) (halved end) ∙ shifted-zero d) refl
  | inl more ↦
      ap (λ u. u k) (bit_loop-more (suc a) v (suc a) t more)
      ∙ ap (λ b. bit_loop (suc a) (v / 2) b (stored v (suc a) t) k) (omega arith)
      ∙ bit_loop-inside d (v / 2) a k (stored v (suc a) t) (omega arith)
      ∙ ap (λ x. if ltb 0 (shifted (v / 2) d) then b'0' + shifted (v / 2) d % 2 else x)
          (stored-off v (suc a) k t (omega arith))
]
  where
    halved : ltb 0 v ≡ false → v / 2 ≡ 0
    halved end = ground arith

-- A value has bits from index `d` on unless it is below 2 ^ d.
shifted-lt : (d v : ℕ) → ltb 0 (shifted v d) ≡ not (ltb v (2 ^ d))
unfolding shifted
shifted-lt zero v = ground arith
shifted-lt (suc d) v = shifted-lt d (v / 2) ∙ ap not (ground (arith, pow-suc 2 d))

padding-le : (n v m a : ℕ) → a ≤ padding n v m a
unfolding padding
padding-le zero v m a = omega arith
padding-le (suc n) v m a = elim (Bool-cases (ltb v m)) [
  | inr end ↦ rw end (omega arith)
  | inl more ↦ rw more (omega (arith, padding-le n v (m / 2) (a + 1)))
]

padding-end : (n v m a : ℕ) → ltb v m ≡ false → padding n v m a ≡ a
unfolding padding
padding-end zero v m a end = refl
padding-end (suc n) v m a end = rw end refl

padding-more : (n v m a : ℕ) → ltb v m ≡ true → padding (suc n) v m a ≡ padding n v (m / 2) (a + 1)
unfolding padding
padding-more n v m a more = rw more refl

pow_two_le : (d e : ℕ) → 2 ^ d ≤ 2 ^ (e + d)
pow_two_le d zero = ground arith
pow_two_le d (suc e) = rw (suc_add e d) (omega (arith, pow_two_le d e, pow-suc 2 (e + d)))
  where
    suc_add : (e d : ℕ) → suc e + d ≡ suc (e + d)
    suc_add e d = omega arith

-- Where the loop ends, and where it pads index `k`.
padding-stops :
    (j n v a k d : ℕ)
    → k + d ≤ a + j
    → a ≤ k
    → ltb v (2 ^ j) ≡ false
    → ltb k (padding n v (2 ^ j) a) ≡ ltb v (2 ^ d)
padding-stops j n v a k d sum le end =
    let below : 2 ^ d ≤ 2 ^ j = ap_le (j - d) (omega arith) in
    rw (padding-end n v (2 ^ j) a end) (ground arith)
  where
    ap_le : (e : ℕ) → e + d ≡ j → 2 ^ d ≤ 2 ^ j
    ap_le e is = rw (← is) (pow_two_le d e)

padding-covers :
    (n v j a : ℕ) → ltb v (2 ^ j) ≡ true → ltb a (padding (suc n) v (2 ^ j) a) ≡ ltb v (2 ^ j)
padding-covers n v j a more =
    ap (λ p. ltb a p) (padding-more n v (2 ^ j) a more)
    ∙ ground (arith, padding-le n v (2 ^ j / 2) (a + 1))

-- The padding covers exactly the indexes whose power of 2 is above the value.
padding_lem :
    (j n v a k d : ℕ)
    → a + j ≡ 31
    → j < n
    → a ≤ k
    → k + d ≡ 31
    → ltb k (padding n v (2 ^ j) a) ≡ ltb v (2 ^ d)
padding_lem j zero v a k d sum enough le sum' = absurd (omega arith)
padding_lem zero (suc n) v a k d sum enough le sum' = elim (Bool-cases (ltb v 1)) [
  | inr end ↦ padding-stops 0 (suc n) v a k d (omega arith) le end
  | inl more ↦ rw (here, zero_d) (padding-covers n v 0 a more)
]
  where
    here : k ≡ a
    here = omega arith

    zero_d : d ≡ 0
    zero_d = omega arith
padding_lem (suc j) (suc n) v a k d sum enough le sum' = elim (Bool-cases (ltb v (2 ^ suc j))) [
  | inr end ↦ padding-stops (suc j) (suc n) v a k d (omega arith) le end
  | inl more ↦ elim (Bool-cases (k == a)) [
    | inl here ↦ rw (==→eq k a here, same (==→eq k a here)) (padding-covers n v (suc j) a more)
    | inr there ↦
        ap (λ p. ltb k p) (padding-more n v (2 ^ suc j) a more)
        ∙ ap (λ m. ltb k (padding n v m (a + 1))) (omega (arith, pow-suc 2 j))
        ∙ padding_lem j n v (a + 1) k d (omega arith) (omega arith) (ground arith) sum'
  ]
]
  where
    same : k ≡ a → d ≡ suc j
    same here = omega arith

-- Every character of the array is the bit that it stands for, whatever the array held.
temparray_lem : (g : Store) (v k d : ℕ) → v < 2 ^ 32 → k + d ≡ 31 → temparray v g k ≡ b'0' + bit v d
unfolding temparray
temparray_lem g v k d h sum =
    bit_loop-inside d v 31 k (λ i. if ltb i (padding 33 v (2 ^ 31) 0) then b'0' else g i) sum
    ∙ rw (shifted-lt d v, padding_lem 31 33 v 0 k d refl (omega arith) (omega arith) sum)
        (character v d)
  where
    character :
        (v d : ℕ)
        → (if not (ltb v (2 ^ d))
            then b'0' + shifted v d % 2
            else (if ltb v (2 ^ d) then b'0' else g k))
          ≡ b'0' + bit v d
    character v d = rw (bit-shifted v d) (ground (arith, shifted-lt d v))

spaced_cong :
    (n a : ℕ) (t u : Store) → ((k : ℕ) → k < n + a → t k ≡ u k) → spaced n a t ≡ spaced n a u
unfolding spaced
spaced_cong zero a t u h = refl
spaced_cong (suc n) a t u h =
    rw (h a (omega arith), spaced_cong n (a + 1) t u (λ k lt. h k (omega arith))) refl

-- `dec_to_bin` prints the 32 bits of a number, the highest one first and a space behind each
-- fourth, and no character that the array held before.
pub dec_to_bin_lem :
    (garbage : Store) (v : ℕ)
    → v < 2 ^ 32
    → dec_to_bin garbage v ≡ spaced 32 0 (λ k. b'0' + bit v (31 - k))
unfolding dec_to_bin
dec_to_bin_lem g v h =
    spaced_cong 32 0 (temparray v g) (λ k. b'0' + bit v (31 - k))
      (λ k lt. temparray_lem g v k (31 - k) h (omega arith))
