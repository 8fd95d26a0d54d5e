-- ===== src/KernelHeap/Scan/Place.antt =====
-- How a free byte takes a spot of up to 4096 bytes.
use john_os.Common.{
  ℕ, ◌+◌, ◌-◌, ◌*◌, ◌≤◌, ◌<◌, ◌≡◌, refl, ◌∙◌, ◌⊎◌, inl, inr, true, false, some, arith, u32, ltb,
  leb, ◌==◌, Bool-cases,
}
use john_os.Common.Store.{write}
use john_os.PageMap.{set_bit}
use john_os.KernelHeap.{Heap, settle, mark, page_of}
use john_os.KernelHeap.Scan.{settled, take_small}
use john_os.KernelHeap.Whole.{IsMarked, settle_lem}

-- A spot that starts at byte `i` and has `size` bytes: `t` is `h` with the spot marked as taken,
-- and at most the page's bit in the map has changed.
pub record Placed (h : Heap) (k size : ℕ) (t : Heap) : Type 0 where
  pub mark_of : t.free_info ≡ write h.free_info k 1
  pub size_of : t.size_info ≡ write h.size_info k size
  pub same_bit : t.mem_bt_temp ≡ h.mem_bt_temp
  pub map_of : (t.os_memmap ≡ h.os_memmap) ⊎ (t.os_memmap ≡ set_bit h.os_memmap h.mem_bt_temp)

mark-IsMarked : (h : Heap) (page i v : ℕ) → IsMarked h page → IsMarked (mark h (page + i) v) page
unfolding mark
mark-IsMarked h page i v marked k low = ground (arith, marked k low)

-- The request fits the free byte `i`: it never belonged to a spot, or the spot was not smaller and
-- ends in front of the end of the page; and the page goes on behind the request.
pub record Fits (h : Heap) (size page i : ℕ) : Type 0 where
  pub room : size < 4096 - i
  pub old :
      (h.size_info (page + i) ≡ 0)
      ⊎ ((size ≤ h.size_info (page + i)) × (h.size_info (page + i) < 4096 - i))

take_small-settled :
    (h : Heap) (size page i : ℕ)
    → Fits h size page i
    → take_small h size page i ≡ settled (mark h (page + i) size) i
unfolding take_small mark
take_small-settled h size page i fits = elim (Bool-cases (h.size_info (page + i) == 0)) [
  | inl empty ↦ rw (empty, room_test fits.room, not_whole fits.room) refl
  | inr used ↦ by_size used fits.old
]
  where
    room_test : size < 4096 - i → leb size (4096 - i) ≡ true
    room_test room = ground arith

    not_whole : size < 4096 - i → (size == 4096) ≡ false
    not_whole room = ground arith

    not_rest : size < 4096 - i → (size == 4096 - i) ≡ false
    not_rest room = ground arith

    less : (a b : ℕ) → a < b → ltb a b ≡ true
    less a b lt = ground arith

    at_most : (a b : ℕ) → a ≤ b → leb a b ≡ true
    at_most a b le = ground arith

    by_size :
        (h.size_info (page + i) == 0) ≡ false
        → (h.size_info (page + i) ≡ 0)
          ⊎ ((size ≤ h.size_info (page + i)) × (h.size_info (page + i) < 4096 - i))
        → take_small h size page i ≡ settled (mark h (page + i) size) i
    by_size used (inl empty) = absurd (ground arith)
    by_size used (inr (le, inside)) =
        rw
          (
            used,
            not_rest fits.room,
            less size (4096 - i) fits.room,
            less (h.size_info (page + i)) (4096 - i) inside,
            at_most size (h.size_info (page + i)) le,
          )
          refl

-- On a page of marks 0 and 1, a free byte that never belonged to a spot, or to one that is not
-- smaller than the request and ends in front of the end of the page, takes a request that the
-- page goes on behind: `take_small` returns and places the spot there. It marks that byte with
-- the size, leaves every other mark and size alone, and changes the map at most at the bit of the
-- page.
pub take_small-Placed :
    (h : Heap) (size i : ℕ)
    → IsMarked h (u32 (4096 * page_of h.mem_bt_temp))
    → Fits h size (u32 (4096 * page_of h.mem_bt_temp)) i
    → (t : Heap) × (take_small h size (u32 (4096 * page_of h.mem_bt_temp)) i ≡ some (t, i))
      × Placed h (u32 (4096 * page_of h.mem_bt_temp) + i) size t
take_small-Placed h size i marked fits =
    let page = u32 (4096 * page_of h.mem_bt_temp) in
    let m = mark h (page + i) size in
    let (map', e, changed) =
      settle_lem m (page_of h.mem_bt_temp) h.mem_bt_temp (mark-IsMarked h page i size marked) in
    (
      record m { os_memmap = map' },
      take_small-settled h size page i fits
          ∙ settled-some m i (record m { os_memmap = map' }) (unfold mark in e),
      record {
        mark_of = unfold mark in refl;
        size_of = unfold mark in refl;
        same_bit = unfold mark in refl;
        map_of = unfold mark in changed;
      },
    )
  where
    settled-some :
        (m : Heap) (i : ℕ) (t : Heap)
        → settle m (page_of m.mem_bt_temp) m.mem_bt_temp ≡ some t
        → settled m i ≡ some (t, i)
    settled-some m i t e = unfold settled in rw e refl
