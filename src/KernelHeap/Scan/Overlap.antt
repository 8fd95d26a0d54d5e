-- ===== src/KernelHeap/Scan/Overlap.antt =====
-- What `scan_address` of kernel/kernel_heap_alloc_nopaging.c does with a released spot that it
-- gives to a smaller request.
use john_os.Common.{
  ℕ, zero, suc, ◌+◌, ◌-◌, ◌*◌, ◌≤◌, ◌<◌, ◌≡◌, refl, ap, ◌∙◌, inl, inr, some, arith, u32, ◌==◌,
  ==_refl, Bool-cases,
}
use mathlib.Core.Path.{subst}
use john_os.KernelHeap.{Heap, page_of}
use john_os.Common.Store.{write}
use john_os.KernelHeap.Scan.{take_small, scan_address, scan_loop}
use john_os.KernelHeap.Scan.Blocks.{Chain, start, over, IsPage, scan_loop-free, scan_loop-Chain}
use john_os.KernelHeap.Whole.{IsMarked}
use john_os.KernelHeap.Scan.Place.{Fits, Placed, take_small-Placed}

place_at :
    (h : Heap) (size i page : ℕ)
    → u32 (4096 * page_of h.mem_bt_temp) ≡ page
    → IsMarked h page
    → Fits h size page i
    → (t : Heap) × (take_small h size page i ≡ some (t, i)) × Placed h (page + i) size t
place_at h size i page e =
    subst
      (λ p.
        IsMarked h p
        → Fits h size p i
        → (t : Heap) × (take_small h size p i ≡ some (t, i)) × Placed h (p + i) size t)
      e (take_small-Placed h size i)

Placed-IsMarked :
    (h t : Heap) (page i size : ℕ) → Placed h (page + i) size t → IsMarked h page → IsMarked t page
Placed-IsMarked h t page i size placed marked k low =
    rw placed.mark_of (ground (arith, marked k low))

-- A scan over taken blocks to a free byte is what `take_small` makes of that byte.
scan_address-free :
    (h : Heap) (size p i : ℕ)
    → size ≤ 4096
    → IsPage h (u32 (4096 * p))
    → Chain h (u32 (4096 * p)) i
    → i < 4096
    → h.free_info (u32 (4096 * p) + i) ≡ 0
    → scan_address h size p ≡ take_small h size (u32 (4096 * p)) i
unfolding scan_address
scan_address-free h size p i small is chain low free =
    let (m, left, e) = scan_loop-Chain h size (u32 (4096 * p)) i small is chain in
    e ∙ at_byte m (omega arith)
  where
    at_byte :
        (m : ℕ)
        → 0 < m
        → scan_loop m h size (u32 (4096 * p)) i ≡ take_small h size (u32 (4096 * p)) i
    at_byte zero pos = absurd (omega arith)
    at_byte (suc m) pos = scan_loop-free m h size (u32 (4096 * p)) i small low free

-- A chain that ends at byte `i` or before is one in every heap with the same marks and sizes there.
Chain-before :
    (h t : Heap) (page j i : ℕ)
    → IsPage h page
    → ((k : ℕ)
        → k < i
        → (t.free_info (page + k) ≡ h.free_info (page + k))
          × (t.size_info (page + k) ≡ h.size_info (page + k)))
    → j ≤ i
    → Chain h page j
    → Chain t page j
Chain-before h t page _ i is same le start = start
Chain-before h t page _ i is same le (over j chain low busy inside) =
    let before : j < i = omega (arith, is.sized j low busy) in
    let (mark_same, size_same) = same j before in
    let rest = Chain-before h t page j i is same (omega arith) chain in
    subst (λ n. Chain t page (j + n)) size_same
      (over j rest low (mark_same ∙ busy) (rw size_same inside))

-- A placed spot keeps the page in order.
Placed-IsPage :
    (h t : Heap) (page i size : ℕ)
    → 0 < size
    → Placed h (page + i) size t
    → IsPage h page
    → IsPage t page
Placed-IsPage h t page i size pos placed is = record {
  marked = Placed-IsMarked h t page i size placed is.marked;
  sized = λ k low busy. sized k low (rw placed.mark_of at busy);
}
  where
    sized :
        (k : ℕ)
        → k < 4096
        → write h.free_info (page + i) 1 (page + k) ≡ 1
        → 0 < t.size_info (page + k)
    sized k low busy = rw placed.size_of (elim (Bool-cases (page + i == page + k)) [
      | inl same ↦ rw same pos
      | inr other ↦ rw other (is.sized k low (ground arith))
    ])

Placed-Chain :
    (h t : Heap) (page i size : ℕ)
    → size < 4096 - i
    → Placed h (page + i) size t
    → IsPage h page
    → Chain h page i
    → Chain t page (i + size)
Placed-Chain h t page i size room placed is chain =
    let here : t.size_info (page + i) ≡ size = rw (placed.size_of, ==_refl (page + i)) refl in
    let busy : t.free_info (page + i) ≡ 1 = rw (placed.mark_of, ==_refl (page + i)) refl in
    let same : (k : ℕ)
        → k < i
        → (t.free_info (page + k) ≡ h.free_info (page + k))
          × (t.size_info (page + k) ≡ h.size_info (page + k)) =
      λ k b. (rw placed.mark_of (ground arith), rw placed.size_of (ground arith)) in
    subst (λ n. Chain t page (i + n)) here
      (over i (Chain-before h t page i i is same (omega arith) chain) (omega arith) busy
        (rw here (omega arith)))

-- The spots at bytes `a` and `b` of a page are both taken, and `b` lies inside the one at `a`.
pub record Overlapping (h : Heap) (page a b : ℕ) : Type 0 where
  pub first_taken : h.free_info (page + a) ≡ 1
  pub second_taken : h.free_info (page + b) ≡ 1
  pub behind : a < b
  pub inside : b < a + h.size_info (page + a)

-- On a page whose marks are 0 or 1 and where every taken byte has a size, let the first free byte
-- belong to a released spot that ends inside the page, with a taken spot directly behind it. Let
-- `first` be a request for the page that is smaller than the released spot, and `second` one that
-- the page has room for behind it, and both together be more than the released spot. Where the byte
-- `first` further was never marked and never got a size, the scans for both requests, one after the
-- other, return; the second spot starts inside the released one, and the taken spot starts inside
-- the second.
pub scan_address-overlap :
    (h : Heap) (i first second : ℕ)
    → IsPage h (u32 (4096 * page_of h.mem_bt_temp))
    → Chain h (u32 (4096 * page_of h.mem_bt_temp)) i
    → h.free_info (u32 (4096 * page_of h.mem_bt_temp) + i) ≡ 0
    → Fits h first (u32 (4096 * page_of h.mem_bt_temp)) i
    → 0 < first
    → first < h.size_info (u32 (4096 * page_of h.mem_bt_temp) + i)
    → h.free_info (u32 (4096 * page_of h.mem_bt_temp) + (i + first)) ≡ 0
    → h.size_info (u32 (4096 * page_of h.mem_bt_temp) + (i + first)) ≡ 0
    → second < 4096 - (i + first)
    → h.size_info (u32 (4096 * page_of h.mem_bt_temp) + i) < first + second
    → h.free_info (
        u32 (4096 * page_of h.mem_bt_temp)
        + (i + h.size_info (u32 (4096 * page_of h.mem_bt_temp) + i)))
      ≡ 1
    → (t u : Heap) × (scan_address h first (page_of h.mem_bt_temp) ≡ some (t, i))
      × (scan_address t second (page_of t.mem_bt_temp) ≡ some (u, i + first))
      × Overlapping u
          (u32 (4096 * page_of h.mem_bt_temp))
          (i + first)
          (i + h.size_info (u32 (4096 * page_of h.mem_bt_temp) + i))
scan_address-overlap h i first second is chain free fits pos smaller unmarked unused room larger
      behind =
    let p = page_of h.mem_bt_temp in
    let page = u32 (4096 * p) in
    let (t, e1, p1) = place_at h first i page refl is.marked fits in
    let is_t = Placed-IsPage h t page i first pos p1 is in
    let at : u32 (4096 * page_of t.mem_bt_temp) ≡ page =
      ap (λ b. u32 (4096 * page_of b)) p1.same_bit in
    let (u, e2, p2) =
      place_at t second (i + first) page at is_t.marked
        (record { room = room; old = inl (rw p1.size_of (ground arith)) }) in
    let s1 =
      scan_address-free h first p i (omega (arith, fits.room)) is chain (omega (arith, fits.room))
        free
      ∙ e1 in
    let chain_t = Placed-Chain h t page i first fits.room p1 is chain in
    let free_t : t.free_info (page + (i + first)) ≡ 0 = rw p1.mark_of (ground arith) in
    let s2 =
      ap (λ b. scan_address t second (page_of b)) p1.same_bit
      ∙ scan_address-free t second p (i + first) (omega (arith, room)) is_t chain_t
          (omega (arith, room)) free_t
      ∙ e2 in
    (
      t,
      u,
      s1,
      s2,
      record {
        first_taken = rw (p2.mark_of, ==_refl (page + (i + first))) refl;
        second_taken = rw p2.mark_of (rw p1.mark_of (ground arith));
        behind = omega arith;
        inside = rw (p2.size_of, ==_refl (page + (i + first))) (omega arith);
      },
    )
