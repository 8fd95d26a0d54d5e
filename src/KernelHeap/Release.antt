-- ===== src/KernelHeap/Release.antt =====
-- `kernel_free` of kernel/kernel_heap_alloc_nopaging.c. The arrays' addresses, which the linker
-- gives, are arguments; an index of an array is taken on 32-bit addresses, and the two arrays are
-- taken not to overlap.
pub mod Inside
mod Tests
use john_os.Common.{
  ℕ, zero, suc, ◌+◌, ◌-◌, ◌*◌, ◌/◌, ◌%◌, ◌^◌, ◌≤◌, ◌<◌, ◌≡◌, refl, sym, ap, ◌∙◌, fun_ext, ◌≢◌, ◌⊎◌,
  inl, inr, Bool, true, false, ◌&&◌, ◌||◌, not, Option, none, some, List, [], ◌∷◌, ◌++◌, arith, u8,
  u16, u32, not32, ◌<<<◌, ◌>>>◌, ltb, leb, ◌==◌, if◌then◌else◌, ==_refl, Bool-cases, eq→==, ==→eq,
  ==_iff, bit_and, bit_or, bit_xor, min, max, ◌↔◌, ◌>>=◌,
}
use john_os.Common.Store.{write}
use john_os.PageMap.{zero_bit}
use john_os.KernelHeap.{Heap, check_if_page_freed, page_of}

-- `freed_check = check_if_page_freed(page); if(freed_check) zero_bit(mem_bt_temp);`
pub settle_freed : Heap → ℕ → Option Heap
settle_freed h page = do
  freed ← check_if_page_freed h page
  some (if freed == 0 then h else record h { os_memmap = zero_bit h.os_memmap h.mem_bt_temp })

clear_mark : Heap → ℕ → Heap
clear_mark h k = record h { free_info = write h.free_info k 0 }

-- One round over a page inside the spot: `taken_at` and `size_at` are the indexes of both pointers.
free_page : Heap → (taken_at size_at : ℕ) → Option Heap
free_page h taken_at size_at =
    let h1 = clear_mark h taken_at in
    let h2 = record h1 {
      os_memmap = zero_bit h1.os_memmap h1.mem_bt_temp;
      mem_bt_temp = u32 (h1.mem_bt_temp + 1);
    } in
    let last = h2.size_info (size_at + 8192) in
    let before = h2.size_info (size_at + 4096) in
    if not (last == 4097) && (not (last == 0) && not (before == 4097))
    then settle_freed (clear_mark h2 taken_at) (page_of h2.mem_bt_temp)
    else some h2

free_pages : ℕ → Heap → (taken_at size_at : ℕ) → Option Heap
free_pages zero h taken_at size_at = some h
free_pages (suc rounds) h taken_at size_at = do
  h' ← free_page h taken_at size_at
  free_pages rounds h' taken_at (size_at + 8192)

-- A spot that spans to another page. `kfree_takeninfo_pos += 4096 - (uint32_t)kfree_takeninfo_pos`
-- leaves a pointer to address 4096, and the same on a pointer to 16-bit words one to 8192 less
-- the old address.
pub free_spanning : (free_address size_address : ℕ) → Heap → ℕ → Option Heap
free_spanning free_address size_address h k =
    let span_pages = h.size_info k / 4096 in
    let taken_at = u32 (2 ^ 32 + 4096 - free_address) in
    let size_at = u32 (5 * 2 ^ 32 + 8192 - 2 * size_address - 2 * k) / 2 in
    let h1 = record (clear_mark h k) { mem_bt_temp = u32 (h.mem_bt_temp + 1) } in
    if h1.size_info size_at == 4097
    then free_pages (span_pages - 1) h1 taken_at size_at
    else some (clear_mark h1 taken_at)

-- The first step: a spot of a whole page.
free_whole : Heap → (k page : ℕ) → Option Heap
free_whole h k page =
    if h.size_info k == 4097
    then settle_freed (record (clear_mark h k) { size_info = write h.size_info k 0 }) page
    else some h

pub kernel_free : (free_address size_address : ℕ) → Heap → (to_be_freed : ℕ) → Option Heap
kernel_free free_address size_address h to_be_freed = do
  let page = u32 (to_be_freed + 2 ^ 32 - 0x500000) / 4096
  let offset = to_be_freed % 4096
  let k = 4096 * page + offset
  h1 ← free_whole (record h { mem_bt_temp = u32 (page + 0x200) }) k page
  if ltb (4096 - offset) (h1.size_info k)
      then free_spanning free_address size_address h1 k
      else settle_freed (clear_mark h1 k) page
