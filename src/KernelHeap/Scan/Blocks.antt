-- ===== src/KernelHeap/Scan/Blocks.antt =====
-- Where `scan_address` of kernel/kernel_heap_alloc_nopaging.c puts a spot of up to 4096 bytes.
use john_os.Common.{
  ℕ, zero, suc, ◌+◌, ◌-◌, ◌*◌, ◌≤◌, ◌<◌, ◌≡◌, refl, ◌∙◌, inl, inr, true, false, Option, none, some,
  arith, u32, ltb, leb, ◌==◌, Bool-cases, ==→eq,
}
use john_os.KernelHeap.{Heap, reject}
use john_os.KernelHeap.Scan.{scan_loop, scan_address, take_small}
use john_os.KernelHeap.Whole.{IsMarked}

-- Byte `i` is reached over taken blocks that end in the page.
pub data Chain (h : Heap) (page : ℕ) : ℕ → Type 0 where
  start : Chain h page 0
  over :
      (i : ℕ)
      → Chain h page i
      → i < 4096
      → h.free_info (page + i) ≡ 1
      → h.size_info (page + i) ≤ 4096 - i
      → Chain h page (i + h.size_info (page + i))

-- Every mark of the page is 0 or 1, and what is taken has a size.
pub record IsPage (h : Heap) (page : ℕ) : Type 0 where
  pub marked : IsMarked h page
  pub sized : (k : ℕ) → k < 4096 → h.free_info (page + k) ≡ 1 → 0 < h.size_info (page + k)

-- The outcomes of a scan for `size` bytes: the page is full, a taken block spans into the next
-- page, or the first free byte is dealt with.
pub data Scanned (h : Heap) (size page : ℕ) (result : Option (Heap × ℕ)) : Type 0 where
  full : Chain h page 4096 → result ≡ some (h, 4096) → Scanned h size page result
  crossing :
      (i : ℕ)
      → Chain h page i
      → i < 4096
      → h.free_info (page + i) ≡ 1
      → 4096 - i < h.size_info (page + i)
      → result ≡ reject h
      → Scanned h size page result
  reached :
      (i : ℕ)
      → Chain h page i
      → i < 4096
      → h.free_info (page + i) ≡ 0
      → result ≡ take_small h size page i
      → Scanned h size page result

scan_loop-Scanned :
    (n : ℕ) (h : Heap) (size page i : ℕ)
    → size ≤ 4096
    → IsPage h page
    → Chain h page i
    → i ≤ 4096
    → 4096 - i < n
    → Scanned h size page (scan_loop n h size page i)
unfolding scan_loop
scan_loop-Scanned zero h size page i small is chain low enough = absurd (omega arith)
scan_loop-Scanned (suc n) h size page i small is chain low enough = elim (Bool-cases (ltb i 4096)) [
  | inr end ↦
      let at_end : i ≡ 4096 = ground arith in full (moved at_end chain) (rw (end, at_end) refl)
  | inl more ↦
      let taken = h.free_info (page + i) in
      let old = h.size_info (page + i) in
      let bit : taken ≤ 1 = is.marked i (ground arith) in
      elim (Bool-cases (taken == 1)) [
        | inr free ↦
            reached i chain (ground arith) (ground arith)
              (rw (more, small_test, free, is_zero bit free) refl)
        | inl busy ↦ elim (Bool-cases (ltb (4096 - i) old)) [
          | inl spans ↦
              crossing i chain (ground arith) (==→eq taken 1 busy) (ground arith)
                (rw (more, small_test, busy, spans) refl)
          | inr inside ↦
              let taken_eq : taken ≡ 1 = ==→eq taken 1 busy in
              let some_size : 0 < old = is.sized i (ground arith) taken_eq in
              rw (more, small_test, busy, inside)
                (scan_loop-Scanned n h size page (i + old) small is
                  (over i chain (ground arith) taken_eq (ground arith)) (ground arith)
                  (ground arith))
        ]
      ]
]
  where
    moved : {j : ℕ} → i ≡ j → Chain h page i → Chain h page j
    moved e chain' = rw (← e) chain'

    small_test : leb size 4096 ≡ true
    small_test = ground arith

    is_zero :
        h.free_info (page + i) ≤ 1
        → (h.free_info (page + i) == 1) ≡ false
        → (h.free_info (page + i) == 0) ≡ true
    is_zero bit free = ground arith

-- On a page whose marks are 0 or 1 and where every taken byte has a size, a scan for at most 4096
-- bytes always gets to an outcome: over taken blocks to the first free byte, where `take_small`
-- decides, to a block that spans into the next page, or to the end of the page. It never passes a
-- free byte.
pub scan_address-Scanned :
    (h : Heap) (size p : ℕ)
    → size ≤ 4096
    → IsPage h (u32 (4096 * p))
    → Scanned h size (u32 (4096 * p)) (scan_address h size p)
unfolding scan_address
scan_address-Scanned h size p small is =
    scan_loop-Scanned 4097 h size (u32 (4096 * p)) 0 small is start (omega arith) (omega arith)

take_small-too_small :
    (h : Heap) (size page i : ℕ)
    → 0 < h.size_info (page + i)
    → h.size_info (page + i) < size
    → take_small h size page i ≡ none
unfolding take_small
take_small-too_small h size page i pos less = ground arith

-- One round over a taken block, and one at a free byte.
scan_loop-over :
    (m : ℕ) (h : Heap) (size page i : ℕ)
    → size ≤ 4096
    → i < 4096
    → h.free_info (page + i) ≡ 1
    → h.size_info (page + i) ≤ 4096 - i
    → scan_loop (suc m) h size page i ≡ scan_loop m h size page (i + h.size_info (page + i))
unfolding scan_loop
scan_loop-over m h size page i small low busy inside = rw (in_page, fits, busy, ends) refl
  where
    in_page : ltb i 4096 ≡ true
    in_page = ground arith

    fits : leb size 4096 ≡ true
    fits = ground arith

    ends : ltb (4096 - i) (h.size_info (page + i)) ≡ false
    ends = ground arith

pub scan_loop-free :
    (m : ℕ) (h : Heap) (size page i : ℕ)
    → size ≤ 4096
    → i < 4096
    → h.free_info (page + i) ≡ 0
    → scan_loop (suc m) h size page i ≡ take_small h size page i
unfolding scan_loop
scan_loop-free m h size page i small low free = rw (in_page, fits, free) refl
  where
    in_page : ltb i 4096 ≡ true
    in_page = ground arith

    fits : leb size 4096 ≡ true
    fits = ground arith

-- A scan from the first byte gets to every byte that a chain leads to, with rounds left.
pub scan_loop-Chain :
    (h : Heap) (size page i : ℕ)
    → size ≤ 4096
    → IsPage h page
    → Chain h page i
    → (m : ℕ) × (4096 < i + m) × (scan_loop 4097 h size page 0 ≡ scan_loop m h size page i)
scan_loop-Chain h size page _ small is start = (4097, omega arith, refl)
scan_loop-Chain h size page _ small is (over i chain low busy inside) =
    go (scan_loop-Chain h size page i small is chain)
  where
    go :
        (m : ℕ) × (4096 < i + m) × (scan_loop 4097 h size page 0 ≡ scan_loop m h size page i)
        → (m : ℕ) × (4096 < i + h.size_info (page + i) + m)
          × (scan_loop 4097 h size page 0 ≡ scan_loop m h size page (i + h.size_info (page + i)))
    go (zero, left, e) = absurd (omega arith)
    go (suc m, left, e) = (
      m,
      omega (arith, is.sized i low busy),
      e ∙ scan_loop-over m h size page i small low busy inside,
    )

-- On a page whose marks are 0 or 1 and where every taken byte has a size: if the first free byte
-- belonged to a released spot that is smaller than the request of at most 4096 bytes,
-- `scan_address` does not come back.
pub scan_address-stuck :
    (h : Heap) (size p i : ℕ)
    → size ≤ 4096
    → IsPage h (u32 (4096 * p))
    → Chain h (u32 (4096 * p)) i
    → i < 4096
    → h.free_info (u32 (4096 * p) + i) ≡ 0
    → 0 < h.size_info (u32 (4096 * p) + i)
    → h.size_info (u32 (4096 * p) + i) < size
    → scan_address h size p ≡ none
unfolding scan_address
scan_address-stuck h size p i small is chain low free used less =
    let (m, left, e) = scan_loop-Chain h size (u32 (4096 * p)) i small is chain in
    e ∙ at_spot m (omega arith)
  where
    at_spot : (m : ℕ) → 0 < m → scan_loop m h size (u32 (4096 * p)) i ≡ none
    at_spot zero pos = absurd (omega arith)
    at_spot (suc m) pos =
        scan_loop-free m h size (u32 (4096 * p)) i small low free
        ∙ take_small-too_small h size (u32 (4096 * p)) i used less
