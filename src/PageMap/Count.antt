-- ===== src/PageMap/Count.antt =====
-- When `alloc_free_blocks` of kernel/mem.c stays inside its arrays.
use john_os.Common.{
  ℕ, zero, suc, ◌+◌, ◌-◌, ◌≤◌, ◌<◌, ◌≡◌, refl, ap, ◌∙◌, ◌⊎◌, inl, inr, true, false, Option, none,
  some, arith, ltb, ◌==◌, Bool-cases, ◌↔◌,
}
use john_os.Common.Store.{Store}
use john_os.PageMap.{
  Pages, set_bit, check_bit, check_first_free_memory, fill_block, take_block,
  alloc_free_blocks_loop, alloc_free_blocks,
}
use john_os.PageMap.Bits.{check_bit-set_bit}
use john_os.PageMap.Search.{Taken, FirstFree, free, full, check_first_free_memory-FirstFree}

-- The number of free pages among the first `n`.
pub free_pages : (n : ℕ) → Store → ℕ
free_pages zero m = 0
free_pages (suc n) m = free_pages n m + (1 - check_bit m n)

free_pages-outside :
    (n : ℕ) (m : Store) (q : ℕ) → n ≤ q → free_pages n (set_bit m q) ≡ free_pages n m
unfolding free_pages
free_pages-outside zero m q le = refl
free_pages-outside (suc n) m q le =
    ground (arith, free_pages-outside n m q (omega arith), check_bit-set_bit m q n)

free_pages-set_bit :
    (n : ℕ) (m : Store) (q : ℕ)
    → q < n
    → check_bit m q ≡ 0
    → free_pages n (set_bit m q) + 1 ≡ free_pages n m
unfolding free_pages
free_pages-set_bit zero m q lt z = absurd (omega arith)
free_pages-set_bit (suc n) m q lt z = elim (Bool-cases (q == n)) [
  | inl same ↦
      let e : n ≡ q = ground arith in
      let marked = check_bit-set_bit m q n in
      let z' : check_bit m n ≡ 0 = ap (check_bit m) e ∙ z in
      ground (arith, free_pages-outside n m q (omega (arith, e)), marked, z')
  | inr other ↦
      let marked = check_bit-set_bit m q n in
      ground (arith, free_pages-set_bit n m q (ground arith) z, marked)
]

free_pages-Taken : (n : ℕ) (m : Store) → Taken m 0 n → free_pages n m ≡ 0
unfolding free_pages
free_pages-Taken zero m t = refl
free_pages-Taken (suc n) m t =
    let last = t n (omega arith) (omega arith) in
    let rest = free_pages-Taken n m (λ b x y. t b x (omega arith)) in omega (arith, last, rest)

-- The page that a round takes is counted before it, and not behind it.
free_pages-fill_block :
    (s : Pages) (i : ℕ)
    → ((check_first_free_memory s.os_memmap < 60800)
        × (free_pages 60800 (fill_block s i).os_memmap + 1 ≡ free_pages 60800 s.os_memmap))
      ⊎ ((60800 ≤ check_first_free_memory s.os_memmap) × (free_pages 60800 s.os_memmap ≡ 0))
unfolding fill_block
free_pages-fill_block s i = by (check_first_free_memory-FirstFree s.os_memmap)
  where
    by :
        FirstFree s.os_memmap (check_first_free_memory s.os_memmap)
        → ((check_first_free_memory s.os_memmap < 60800)
            × (free_pages 60800 (set_bit s.os_memmap (check_first_free_memory s.os_memmap)) + 1
                ≡ free_pages 60800 s.os_memmap))
          ⊎ ((60800 ≤ check_first_free_memory s.os_memmap) × (free_pages 60800 s.os_memmap ≡ 0))
    by (free le zeroed rest) = elim (Bool-cases (ltb (check_first_free_memory s.os_memmap) 60800)) [
      | inl below ↦ inl (
        ground arith,
        free_pages-set_bit 60800 s.os_memmap (check_first_free_memory s.os_memmap) (ground arith)
            zeroed,
      )
      | inr above ↦
          inr (ground arith, free_pages-Taken 60800 s.os_memmap (λ b x y. rest b x (ground arith)))
    ]
    by (full at_end rest) =
        inr (omega arith, free_pages-Taken 60800 s.os_memmap (λ b x y. rest b x (omega arith)))

-- A result, or none.
abbrev Returns : Option Pages → Type 0
Returns o = (t : Pages) × (o ≡ some t)

none-Returns : (o : Option Pages) → o ≡ none → ¬ Returns o
none-Returns o n (t, e) = absurd (cc (n, e))

loop_iff :
    (n : ℕ) (s : Pages) (i : ℕ)
    → i ≤ 128
    → Returns (alloc_free_blocks_loop n s i) ↔ ((i + n ≤ 128) × (n ≤ free_pages 60800 s.os_memmap))
unfolding alloc_free_blocks_loop take_block
loop_iff zero s i low = (λ r. (omega arith, omega arith), λ h. (s, refl))
loop_iff (suc n) s i low = elim (Bool-cases (ltb i 128)) [
  | inr outside ↦
      rw outside (λ r. absurd (none-Returns none refl r), λ h. absurd (ground (arith, h.0)))
  | inl inside ↦ elim (free_pages-fill_block s i) [
    | inr (at_end, zeroed) ↦
        let f : ltb (check_first_free_memory s.os_memmap) 60800 ≡ false = ground arith in
        rw (inside, f)
          (λ r. absurd (none-Returns none refl r), λ h. absurd (omega (arith, h.1, zeroed)))
    | inl (room, counted) ↦
        let f : ltb (check_first_free_memory s.os_memmap) 60800 ≡ true = ground arith in
        let (sound, complete) = loop_iff n (fill_block s i) (i + 1) (ground arith) in
        rw (inside, f)
          (
            λ r. let h = sound r in (omega (arith, h.0), omega (arith, h.1, counted)),
            λ h. complete (omega (arith, h.0), omega (arith, h.1, counted)),
          )
  ]
]

-- `alloc_free_blocks b` stays inside its arrays, and returns, exactly where `b` is at most 128, the
-- number of entries of `mem_block`, and at most the number of free pages of the heap.
pub alloc_free_blocks_iff :
    (s : Pages) (b : ℕ)
    → ((t : Pages) × (alloc_free_blocks s b ≡ some t))
      ↔ ((b ≤ 128) × (b ≤ free_pages 60800 s.os_memmap))
unfolding alloc_free_blocks
alloc_free_blocks_iff s b =
    let (sound, complete) = loop_iff b s 0 (omega arith) in
    (λ r. let h = sound r in (omega (arith, h.0), h.1), λ h. complete (omega (arith, h.0), h.1))
