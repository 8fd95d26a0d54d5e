-- ===== src/KernelHeap/Release/Inside.antt =====
-- How `kernel_free` of kernel/kernel_heap_alloc_nopaging.c releases a spot inside a page.
use john_os.Common.{
  ℕ, zero, suc, ◌+◌, ◌-◌, ◌*◌, ◌/◌, ◌%◌, ◌^◌, ◌≤◌, ◌<◌, ◌≡◌, refl, ap, ◌∙◌, ◌⊎◌, inl, inr, false,
  Option, some, arith, u32, ltb, ◌==◌, if◌then◌else◌, ◌>>=◌,
}
use john_os.Common.Store.{Store, write}
use john_os.PageMap.{zero_bit}
use john_os.KernelHeap.{Heap, check_if_page_freed}
use john_os.KernelHeap.Release.{settle_freed, clear_mark, free_whole, free_spanning, kernel_free}
use john_os.KernelHeap.Whole.{IsMarked, PageTest, reserved, walked, check_if_page_taken-PageTest}

settle_freed_lem :
    (h : Heap) (page : ℕ)
    → IsMarked h (u32 (4096 * page))
    → (m : Store) × (settle_freed h page ≡ some (record h { os_memmap = m }))
      × ((m ≡ h.os_memmap) ⊎ (m ≡ zero_bit h.os_memmap h.mem_bt_temp))
unfolding settle_freed
settle_freed_lem h page marked =
    from_answer (answered (check_if_page_taken-PageTest h page marked).1)
  where
    answered :
        {answer : Option ℕ} → PageTest h 0 (u32 (4096 * page)) answer → (r : ℕ) × (answer ≡ some r)
    answered (reserved e is) = (_, is)
    answered (walked r e is walk) = (r, is)

    not_zero : (r : ℕ) → (suc r == 0) ≡ false
    not_zero r = ground arith

    from_answer :
        (r : ℕ) × (check_if_page_freed h page ≡ some r)
        → (m : Store) × ((check_if_page_freed h page >>= (λ freed. some (
              if freed == 0
              then h
              else record h { os_memmap = zero_bit h.os_memmap h.mem_bt_temp })))
            ≡ some (record h { os_memmap = m }))
          × ((m ≡ h.os_memmap) ⊎ (m ≡ zero_bit h.os_memmap h.mem_bt_temp))
    from_answer (zero, e) = (h.os_memmap, rw e refl, inl refl)
    from_answer (suc r, e) = (zero_bit h.os_memmap h.mem_bt_temp, rw (e, not_zero r) refl, inr refl)

-- `t` is `h` with the spot at index `k` released: its size stays, and at most the page's bit in
-- the map has changed.
pub record Released (h : Heap) (k bit : ℕ) (t : Heap) : Type 0 where
  pub mark_of : t.free_info ≡ write h.free_info k 0
  pub size_of : t.size_info ≡ h.size_info
  pub bit_of : t.mem_bt_temp ≡ bit
  pub map_of : (t.os_memmap ≡ h.os_memmap) ⊎ (t.os_memmap ≡ zero_bit h.os_memmap bit)

-- The function from its page and offset on.
free_at : (free_address size_address : ℕ) → Heap → (page offset : ℕ) → Option Heap
free_at fa sa h page offset = do
  h1 ← free_whole (record h { mem_bt_temp = u32 (page + 0x200) }) (4096 * page + offset) page
  if ltb (4096 - offset) (h1.size_info (4096 * page + offset))
      then free_spanning fa sa h1 (4096 * page + offset)
      else settle_freed (clear_mark h1 (4096 * page + offset)) page

free_at-inside :
    (fa sa : ℕ) (h : Heap) (p offset : ℕ)
    → h.size_info (4096 * p + offset) ≤ 4096 - offset
    → free_at fa sa h p offset
      ≡ settle_freed (clear_mark (record h { mem_bt_temp = u32 (p + 0x200) }) (4096 * p + offset)) p
unfolding free_at free_whole
free_at-inside fa sa h p offset ends = rw (not_whole, not_over) refl
  where
    not_whole : (h.size_info (4096 * p + offset) == 4097) ≡ false
    not_whole = ground arith

    not_over : ltb (4096 - offset) (h.size_info (4096 * p + offset)) ≡ false
    not_over = ground arith

clear_mark-IsMarked :
    (h : Heap) (page offset bit : ℕ)
    → IsMarked h page
    → IsMarked (clear_mark (record h { mem_bt_temp = bit }) (page + offset)) page
unfolding clear_mark
clear_mark-IsMarked h page offset bit marked k low = ground (arith, marked k low)

free_at-Released :
    (fa sa : ℕ) (h : Heap) (p offset : ℕ)
    → p < 64
    → IsMarked h (4096 * p)
    → h.size_info (4096 * p + offset) ≤ 4096 - offset
    → (t : Heap) × (free_at fa sa h p offset ≡ some t)
      × Released h (4096 * p + offset) (p + 0x200) t
unfolding clear_mark
free_at-Released fa sa h p offset low marked ends =
    let m = clear_mark (record h { mem_bt_temp = u32 (p + 0x200) }) (4096 * p + offset) in
    let (map', e, changed) =
      settle_freed_lem m p
        (at_page m (clear_mark-IsMarked h (4096 * p) offset (u32 (p + 0x200)) marked)) in
    (
      record m { os_memmap = map' },
      free_at-inside fa sa h p offset ends ∙ e,
      record { mark_of = refl; size_of = refl; bit_of = bit; map_of = at_bit changed },
    )
  where
    bit : u32 (p + 0x200) ≡ p + 0x200
    bit = omega arith

    at_page : (m : Heap) → IsMarked m (4096 * p) → IsMarked m (u32 (4096 * p))
    at_page m marked' = rw (page) marked'
      where
        page : u32 (4096 * p) ≡ 4096 * p
        page = omega arith

    at_bit :
        {a : Store}
        → (a ≡ h.os_memmap) ⊎ (a ≡ zero_bit h.os_memmap (u32 (p + 0x200)))
        → (a ≡ h.os_memmap) ⊎ (a ≡ zero_bit h.os_memmap (p + 0x200))
    at_bit (inl same) = inl same
    at_bit (inr changed) = inr (changed ∙ ap (λ b. zero_bit h.os_memmap b) bit)

-- At an address `offset` bytes into page `p` of the heap, p below 64 and with marks 0 and 1,
-- `kernel_free` returns and releases a spot that ends in the page: it clears the mark, keeps the
-- size and every other mark, and at most clears the bit of the page.
pub kernel_free-Released :
    (free_address size_address : ℕ) (h : Heap) (p offset : ℕ)
    → p < 64
    → offset < 4096
    → IsMarked h (4096 * p)
    → h.size_info (4096 * p + offset) ≤ 4096 - offset
    → (t : Heap) × (kernel_free free_address size_address h (0x500000 + 4096 * p + offset) ≡ some t)
      × Released h (4096 * p + offset) (p + 0x200) t
kernel_free-Released fa sa h p offset low inside marked ends =
    let (t, e, released) = free_at-Released fa sa h p offset low marked ends in
    (t, kernel_free-free_at (0x500000 + 4096 * p + offset) ∙ there ∙ e, released)
  where
    kernel_free-free_at :
        (a : ℕ)
        → kernel_free fa sa h a ≡ free_at fa sa h (u32 (a + 2 ^ 32 - 0x500000) / 4096) (a % 4096)
    kernel_free-free_at a = unfold kernel_free free_at in refl

    there :
        free_at fa sa h
          (u32 (0x500000 + 4096 * p + offset + 2 ^ 32 - 0x500000) / 4096)
          ((0x500000 + 4096 * p + offset) % 4096)
        ≡ free_at fa sa h p offset
    there =
        ap (λ q. free_at fa sa h q ((0x500000 + 4096 * p + offset) % 4096)) (omega arith)
        ∙ ap (λ q. free_at fa sa h p q) (omega arith)
