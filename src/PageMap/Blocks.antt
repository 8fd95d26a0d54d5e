-- ===== src/PageMap/Blocks.antt =====
-- `alloc_free_blocks` of kernel/mem.c, inside its array of 128 entries and behind it.
use john_os.Common.{
  ℕ, zero, suc, ◌+◌, ◌≤◌, ◌<◌, ◌≡◌, sym, ap, ◌∙◌, inl, inr, ◌&&◌, Option, none, some, arith, ltb,
  leb, ◌==◌, if◌then◌else◌, Bool-cases,
}
use mathlib.Core.Path.{subst}
use john_os.PageMap.{
  Pages, check_bit, get_addr_from_bit, check_first_free_memory, fill_block, take_block,
  alloc_free_blocks_loop, alloc_free_blocks,
}
use john_os.PageMap.Bits.{check_bit-set_bit}
use john_os.PageMap.Search.{Taken, FirstFree, free, full, check_first_free_memory-FirstFree}
use john_os.PageMap.Allocate.{page_addr}

-- A round of the loop that returned, and what it went on with.
loop_step :
    (n : ℕ) (s t : Pages) (i : ℕ)
    → alloc_free_blocks_loop (suc n) s i ≡ some t
    → (i < 128)
      × (check_first_free_memory s.os_memmap < 60800)
      × (alloc_free_blocks_loop n (fill_block s i) (i + 1) ≡ some t)
unfolding alloc_free_blocks_loop take_block
loop_step n s t i e =
    elim (Bool-cases (ltb i 128 && ltb (check_first_free_memory s.os_memmap) 60800)) [
      | inl inside ↦ (ground arith, ground arith, rw inside at e)
      | inr outside ↦
          let stopped : ◌≡◌ {A = Option Pages} none (some t) = rw outside at e in
          absurd (cc stopped)
    ]

module _ (s : Pages) (i p : ℕ) where
  fill_block_keeps : check_bit s.os_memmap p ≡ 1 → check_bit (fill_block s i).os_memmap p ≡ 1
  unfolding fill_block
  fill_block_keeps h =
      ground (arith, check_bit-set_bit s.os_memmap (check_first_free_memory s.os_memmap) p)

-- A taken page stays taken while blocks are allocated.
loop_keeps :
    (n : ℕ) (s t : Pages) (i p : ℕ)
    → alloc_free_blocks_loop n s i ≡ some t
    → check_bit s.os_memmap p ≡ 1
    → check_bit t.os_memmap p ≡ 1
unfolding alloc_free_blocks_loop
loop_keeps zero s t i p e h =
    let same : s ≡ t = cc e in subst (λ (u : Pages). check_bit u.os_memmap p ≡ 1) same h
loop_keeps (suc n) s t i p e h =
    let (inside, room, rest) = loop_step n s t i e in
    loop_keeps n (fill_block s i) t (i + 1) p rest (fill_block_keeps s i p h)

-- Entries below the loop's index are not written again.
loop_block_below :
    (n : ℕ) (s t : Pages) (i j : ℕ)
    → alloc_free_blocks_loop n s i ≡ some t
    → j < i
    → t.mem_block j ≡ s.mem_block j
unfolding alloc_free_blocks_loop fill_block
loop_block_below zero s t i j e h =
    let same : s ≡ t = cc e in ap (λ (u : Pages). u.mem_block j) (sym same)
loop_block_below (suc n) s t i j e h =
    let (inside, room, rest) = loop_step n s t i e in
    loop_block_below n (fill_block s i) t (i + 1) j rest (omega arith) ∙ ground arith

-- Entry `j` of `mem_block` is the address of a page from `low` on that was free in `s` and is
-- taken in `t`, and below page 60800.
pub record IsBlock (s t : Pages) (low j page : ℕ) : Type 0 where
  pub address : t.mem_block j ≡ page_addr page
  pub above : low ≤ page
  pub below : page < 60800
  pub was_free : check_bit s.os_memmap page ≡ 0
  pub taken : check_bit t.os_memmap page ≡ 1

-- The page that `fill_block` takes, where there is a free one.
record Took (s : Pages) (i q : ℕ) : Type 0 where
  entry : (fill_block s i).mem_block i ≡ page_addr q
  below : q < 60800
  was_free : check_bit s.os_memmap q ≡ 0
  first : Taken s.os_memmap 0 q
  marked :
      (b : ℕ)
      → check_bit (fill_block s i).os_memmap b ≡ (if q == b then 1 else check_bit s.os_memmap b)

fill_block-Took :
    (s : Pages) (i : ℕ) → check_first_free_memory s.os_memmap < 60800 → (q : ℕ) × Took s i q
unfolding fill_block get_addr_from_bit
fill_block-Took s i room =
    let q = check_first_free_memory s.os_memmap in
    let (zeroed, rest) = free_there (check_first_free_memory-FirstFree s.os_memmap) in
    (
      q,
      record {
        entry = ground arith;
        below = room;
        was_free = zeroed;
        first = rest;
        marked = check_bit-set_bit s.os_memmap q;
      },
    )
  where
    free_there :
        FirstFree s.os_memmap (check_first_free_memory s.os_memmap)
        → (check_bit s.os_memmap (check_first_free_memory s.os_memmap) ≡ 0)
          × Taken s.os_memmap 0 (check_first_free_memory s.os_memmap)
    free_there (free le zeroed rest) = (zeroed, rest)
    free_there (full at_end rest) = absurd (omega arith)

module _ {s : Pages} {i q : ℕ} (took : Took s i q) where
  Taken-next : Taken (fill_block s i).os_memmap 0 (q + 1)
  Taken-next b below above = ground (arith, took.marked b, took.first b)

  low-le : {low : ℕ} → Taken s.os_memmap 0 low → low ≤ q
  low-le {low} rest = elim (Bool-cases (leb low q)) [
    | inl below ↦ ground arith
    | inr above ↦ absurd (omega (arith, took.was_free, rest q (omega arith) (ground arith)))
  ]

  IsBlock-first :
      {low : ℕ} {t : Pages} (n : ℕ)
      → alloc_free_blocks_loop n (fill_block s i) (i + 1) ≡ some t
      → Taken s.os_memmap 0 low
      → IsBlock s t low i q
  IsBlock-first {t} n e rest = record {
    address = loop_block_below n (fill_block s i) t (i + 1) i e (omega arith) ∙ took.entry;
    above = low-le rest;
    below = took.below;
    was_free = took.was_free;
    taken = loop_keeps n (fill_block s i) t (i + 1) q e (ground (arith, took.marked q));
  }

  IsBlock-later :
      {low j page : ℕ} {t : Pages}
      → Taken s.os_memmap 0 low
      → IsBlock (fill_block s i) t (q + 1) j page
      → IsBlock s t low j page
  IsBlock-later {page} rest b =
      let le = low-le rest in
      record {
        address = b.address;
        above = omega (arith, le, b.above);
        below = b.below;
        was_free = ground (arith, b.was_free, b.above, took.marked page);
        taken = b.taken;
      }

loop_blocks :
    (n : ℕ) (s t : Pages) (i low j : ℕ)
    → alloc_free_blocks_loop n s i ≡ some t
    → Taken s.os_memmap 0 low
    → i ≤ j
    → j < i + n
    → (page : ℕ) × IsBlock s t low j page
loop_blocks zero s t i low j e rest le lt = absurd (omega arith)
loop_blocks (suc n) s t i low j e rest le lt =
    let (inside, room, later) = loop_step n s t i e in
    let (q, took) = fill_block-Took s i room in
    elim (Bool-cases (i == j)) [
      | inl same ↦ let e : j ≡ i = ground arith in rw e (q, IsBlock-first took n later rest)
      | inr other ↦
          let (page, b) =
            loop_blocks n (fill_block s i) t (i + 1) (q + 1) j later (Taken-next took)
              (ground arith) (omega arith) in
          (page, IsBlock-later took rest b)
    ]

loop_increasing :
    (n : ℕ) (s t : Pages) (i j k : ℕ)
    → alloc_free_blocks_loop n s i ≡ some t
    → i ≤ j
    → j < k
    → k < i + n
    → t.mem_block j + 4096 ≤ t.mem_block k
loop_increasing zero s t i j k e le lt top = absurd (omega arith)
loop_increasing (suc n) s t i j k e le lt top =
    let (inside, room, later) = loop_step n s t i e in
    elim (Bool-cases (i == j)) [
      | inl same ↦
          let e : j ≡ i = ground arith in
          let (q, took) = fill_block-Took s i room in
          let first = IsBlock-first took {low = 0} n later (λ b x y. absurd (omega arith)) in
          let (page, b) =
            loop_blocks n (fill_block s i) t (i + 1) (q + 1) k later (Taken-next took) (omega arith)
              (omega arith) in
          rw e (omega (arith, first.address, b.address, b.above))
      | inr other ↦
          loop_increasing n (fill_block s i) t (i + 1) j k later (ground arith) lt (omega arith)
    ]

-- Where `alloc_free_blocks b` returns, each of the entries 0 to b - 1 of `mem_block` is the address
-- of a page of the heap that was free before the call and is taken after it.
pub alloc_free_blocks-IsBlock :
    (s t : Pages) (b j : ℕ)
    → alloc_free_blocks s b ≡ some t
    → j < b
    → (page : ℕ) × IsBlock s t 0 j page
unfolding alloc_free_blocks
alloc_free_blocks-IsBlock s t b j e lt =
    loop_blocks b s t 0 0 j e (λ q x y. absurd (omega arith)) (omega arith) (omega arith)

-- Where `alloc_free_blocks b` returns, the blocks in the entries 0 to b - 1 of `mem_block` are
-- pairwise disjoint pages, in rising order.
pub alloc_free_blocks-disjoint :
    (s t : Pages) (b j k : ℕ)
    → alloc_free_blocks s b ≡ some t
    → j < k
    → k < b
    → t.mem_block j + 4096 ≤ t.mem_block k
unfolding alloc_free_blocks
alloc_free_blocks-disjoint s t b j k e lt top =
    loop_increasing b s t 0 j k e (omega arith) lt (omega arith)
