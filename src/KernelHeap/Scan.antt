-- ===== src/KernelHeap/Scan.antt =====
-- `scan_address` and `kmem_allocate` of kernel/kernel_heap_alloc_nopaging.c. A position is the
-- 16 bits that `scan_address` returns.
pub mod Blocks
pub mod Place
pub mod Overlap
mod Tests
use john_os.Common.{
  ℕ, zero, suc, ◌+◌, ◌-◌, ◌*◌, ◌/◌, ◌%◌, ◌^◌, ◌≤◌, ◌<◌, ◌≡◌, refl, sym, ap, ◌∙◌, fun_ext, ◌≢◌, ◌⊎◌,
  inl, inr, Bool, true, false, ◌&&◌, ◌||◌, not, Option, none, some, List, [], ◌∷◌, ◌++◌, arith, u8,
  u16, u32, not32, ◌<<<◌, ◌>>>◌, ltb, leb, ◌==◌, if◌then◌else◌, ==_refl, Bool-cases, eq→==, ==→eq,
  ==_iff, bit_and, bit_or, bit_xor, min, max, ◌↔◌, ◌>>=◌,
}
use john_os.Common.Store.{write}
use john_os.PageMap.{set_bit, check_bit, check_free_memory}
use john_os.KernelHeap.{Heap, page_of, settle, mark, reject}

-- Mark a spot that spans into a page that was never used. The page's first mark is read at
-- `takeninfo_pos`, the start of the page that is scanned.
take_across_fresh : Heap → (size page i : ℕ) → Option (Heap × ℕ)
take_across_fresh h size page i =
    let bt = h.mem_bt_temp in
    let next_page_size = u16 (size + 2 ^ 16 - (4096 - i)) in
    let next = page + 4096 in
    let bt' = u32 (bt + 1) in
    if h.free_info page == 1 || (h.size_info next == 4097 || ltb (h.size_info next) next_page_size)
    then reject h
    else do
      h1 ← settle (record (mark h next next_page_size) { mem_bt_temp = bt' }) (page_of bt') bt'
      let back = u32 (bt' + 2 ^ 32 - 1)
      h2 ← settle (record (mark h1 (page + i) size) { mem_bt_temp = back }) (page_of back) back
      some (h2, i)

-- Mark a spot that was used before and that reaches the end of the page.
take_across_old : Heap → (size page i : ℕ) → Option (Heap × ℕ)
take_across_old h size page i =
    let bt = h.mem_bt_temp in
    let next_page_size = u16 (size + 2 ^ 16 - (4096 - i)) in
    let next = page + 4096 in
    if h.size_info next == 4097 then reject h else if h.free_info next == 1 then reject h else do
      let h1 = if leb next_page_size (h.size_info next) then mark h next next_page_size else h
      h2 ← settle h1 (u32 (page_of bt + 1)) (u32 (bt + 1))
      h3 ← settle (mark h2 (page + i) size) (page_of bt) bt
      some (h3, i)

-- The page's bit, and the position.
settled : Heap → (i : ℕ) → Option (Heap × ℕ)
settled h i = do h1 ← settle h (page_of h.mem_bt_temp) h.mem_bt_temp; some (h1, i)

-- The same with the size written last.
sized : Heap → (k size i : ℕ) → Option (Heap × ℕ)
sized h k size i = do
  h1 ← settle h (page_of h.mem_bt_temp) h.mem_bt_temp
  some (record h1 { size_info = write h1.size_info k size }, i)

-- A free spot at `i`, for a size up to 4096. The last case prints, halts until the next interrupt
-- and tests the same spot again.
pub take_small : Heap → (size page i : ℕ) → Option (Heap × ℕ)
take_small h size page i =
    let k = page + i in
    let bt = h.mem_bt_temp in
    let old = h.size_info k in
    if old == 0 && leb size (4096 - i)
    then settled (mark h k (if size == 4096 then 4097 else size)) i
    else if old == 0
    then take_across_fresh h size page i
    else if size == 4096 - i && (ltb old 4097 && leb size old)
    then (if size == 4096 && i == 0
        then some (record (mark h k 4097) { os_memmap = set_bit h.os_memmap bt }, i)
        else sized (record h { free_info = write h.free_info k 1 }) k size i)
    else if ltb size (4096 - i) && (ltb old (4096 - i) && leb size old)
    then settled (mark h k size) i
    else if leb size old
    then take_across_old h size page i
    else none

-- `for(;b > 0;b--)`: whole pages inside a spot, from byte `i` on.
mark_pages : ℕ → Heap → (page i : ℕ) → Heap
mark_pages zero h page i = h
mark_pages (suc b) h page i = mark_pages b (mark h (page + i) 4097) page (i + 4096)

-- The end of a spot of more than a page: `a` bytes are left at `i`, and the spot starts at `temp`
-- in the page with bit `temp4`.
take_end : Heap → (size page temp temp4 a i : ℕ) → Option (Heap × ℕ)
take_end h size page temp temp4 a i =
    let last = page + i in
    let bt = h.mem_bt_temp in
    if h.free_info last == 1 && ltb 0 a
    then reject h
    else if ltb (h.size_info last) a && not (h.size_info last == 0)
    then reject h
    else do
      h1 ← settle (if ltb 0 a then mark h last a else h) (page_of bt) bt
      h2 ←
          settle (record (mark h1 (page + temp) size) { mem_bt_temp = temp4 }) (page_of temp4) temp4
      some (mark_pages (u16 (size + 2 ^ 16 - a) / 4096) h2 page 4096, temp)

-- `set_bit(mem_bt_temp); mem_bt_temp++;`
take_page : Heap → Heap
take_page h = record h {
  os_memmap = set_bit h.os_memmap h.mem_bt_temp;
  mem_bt_temp = u32 (h.mem_bt_temp + 1);
}

-- `while (a > 0)`: the whole pages of a spot. `i` is behind the page, so `a -= (4096 - i)` in front
-- of the loop takes nothing away.
span_loop : ℕ → Heap → (size page temp temp4 a i : ℕ) → Option (Heap × ℕ)
span_loop zero h size page temp temp4 a i = none
span_loop (suc rounds) h size page temp temp4 a i =
    let rest = span_loop rounds (take_page h) size page temp temp4 (a - 4096) (i + 4096) in
    if ltb 4096 a
    then (if check_bit h.os_memmap h.mem_bt_temp == 0
        then (if ltb (a - 4096) 4096
            then take_end (take_page h) size page temp temp4 (a - 4096) (i + 4096)
            else rest)
        else reject h)
    else if a == 4096
    then take_end (take_page h) size page temp temp4 0 (i + 4096)
    else if a == 0
    then some (h, u16 i)
    else take_end h size page temp temp4 a i

-- A size has 16 bits, so it spans at most 16 pages.
take_large : Heap → (size page i : ℕ) → Option (Heap × ℕ)
take_large h size page i =
    let bt = h.mem_bt_temp in
    span_loop 17 (record h { mem_bt_temp = u32 (bt + 1) }) size page i bt size 4096

-- `while(i < 4096)`.
pub scan_loop : ℕ → Heap → (size page i : ℕ) → Option (Heap × ℕ)
scan_loop zero h size page i = none
scan_loop (suc rounds) h size page i =
    let taken = h.free_info (page + i) in
    let old = h.size_info (page + i) in
    let rest = scan_loop rounds h size page (i + old) in
    if not (ltb i 4096)
    then some (h, u16 i)
    else if leb size 4096
    then (if taken == 1
        then (if ltb (4096 - i) old then reject h else rest)
        else if taken == 0
        then take_small h size page i
        else none)
    else if taken == 1
    then (if old == 4097 then reject h else rest)
    else if taken == 0
    then (if not (old == 0) && ltb old size then rest else take_large h size page i)
    else none

-- Every round that goes on over a block goes on by one byte at least, or the loop does not end.
pub scan_address : Heap → (size parent_pos : ℕ) → Option (Heap × ℕ)
scan_address h size parent_pos = scan_loop 4097 h size (u32 (4096 * parent_pos)) 0

-- A position as `int16_t`, on 32 bits.
abbrev pub sign_extend : ℕ → ℕ
sign_extend pos = if ltb pos 0x8000 then pos else pos + 2 ^ 32 - 2 ^ 16

pub allocate_loop : ℕ → Heap → (bt_size : ℕ) → Option (Heap × ℕ)
allocate_loop zero h size = none
allocate_loop (suc rounds) h size =
    let answer = (do
      found ← scan_address h size (page_of h.mem_bt_temp)
      let rest = allocate_loop rounds found.0 size
      if ltb 4096 found.1 && ltb found.1 0x8000
          then rest
          else some (found.0, u32 (0x300000 + found.0.mem_bt_temp * 4096 + sign_extend found.1))) in
    if ltb h.mem_bt_temp 0x264 then answer else some (h, 0)

-- Each rejected page puts `mem_bt_temp` on by one at least.
pub kmem_allocate : Heap → (bt_size : ℕ) → Option (Heap × ℕ)
kmem_allocate h size =
    let bt = check_free_memory h.os_memmap h.os_memory_bit_pos in
    allocate_loop 0x265 (record h { mbt_freeflag = 0; mem_bt_temp = bt }) size
