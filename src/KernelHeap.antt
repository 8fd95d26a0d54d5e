-- ===== src/KernelHeap.antt =====
-- The kernel heap of kernel/kernel_heap_alloc_nopaging.c: its two arrays, which hold a mark and a
-- size for every byte of the heap's pages, and the tests on a whole page. An index from 262144 on
-- is what lies behind an array. `none` is a loop that does not end; messages are left out.
pub mod Scan
pub mod Release
pub mod Whole
use john_os.Common.{
  ℕ, zero, suc, ◌+◌, ◌-◌, ◌*◌, ◌/◌, ◌%◌, ◌^◌, ◌≤◌, ◌<◌, ◌≡◌, refl, sym, ap, ◌∙◌, fun_ext, ◌≢◌, ◌⊎◌,
  inl, inr, Bool, true, false, ◌&&◌, ◌||◌, not, Option, none, some, List, [], ◌∷◌, ◌++◌, arith, u8,
  u16, u32, not32, ◌<<<◌, ◌>>>◌, ltb, leb, ◌==◌, if◌then◌else◌, ==_refl, Bool-cases, eq→==, ==→eq,
  ==_iff, bit_and, bit_or, bit_xor, min, max, ◌↔◌, ◌>>=◌,
}
use john_os.Common.Store.{Store, write}
use john_os.PageMap.{set_bit}

pub record Heap : Type 0 where
  pub os_memmap : Store
  pub mem_bt_temp : ℕ
  pub mbt_freeflag : ℕ
  pub os_memory_bit_pos : ℕ
  pub free_info : Store
  pub size_info : Store
  pub mem_array_address_start : ℕ

-- `for(int i = 0; i < 262144;i++)` over one of the arrays, from `i` on.
zero_entries : ℕ → Store → ℕ → Store
zero_entries zero m i = m
zero_entries (suc rounds) m i = zero_entries rounds (write m i 0) (i + 1)

-- `size_address` is the address that the linker gives to `Os_memmap_size_info`.
pub init_memallocarrays_nopaging : (size_address : ℕ) → Heap → Heap
init_memallocarrays_nopaging size_address h = record h {
  os_memory_bit_pos = 0x200;
  size_info = zero_entries 262144 h.size_info 0;
  free_info = zero_entries 262144 h.free_info 0;
  mem_array_address_start = size_address;
}

-- The loop of both tests from byte `i` on: `wanted` is the mark that goes on, `other` the one that
-- ends it. At any third value the loop prints and tests the same byte again.
pub page_loop : ℕ → Heap → (wanted other page i : ℕ) → Option ℕ
page_loop zero h wanted other page i = none
page_loop (suc rounds) h wanted other page i =
    let mark = h.free_info (page + i) in
    let size = h.size_info (page + i) in
    let rest = page_loop rounds h wanted other page (i + (if size == 0 then 4 else size)) in
    if ltb i 4096
    then (if mark == wanted
        then (if ltb size (4096 - i) then rest else some 1)
        else if mark == other
        then some 0
        else none)
    else some 1

-- A page has 4096 bytes and every round goes on by one at least.
pub check_if_page_taken : Heap → ℕ → Option ℕ
check_if_page_taken h p_number =
    let page = u32 (4096 * p_number) in
    if h.free_info page == 1 && h.size_info page == 4097
    then some 1
    else if h.free_info page == 0 && h.size_info page == 4097
    then some 0
    else page_loop 4097 h 1 0 page 0

pub check_if_page_freed : Heap → ℕ → Option ℕ
check_if_page_freed h number =
    let page = u32 (4096 * number) in
    if h.free_info page == 0 && h.size_info page == 4097
    then some 1
    else if h.free_info page == 1 && h.size_info page == 4097
    then some 0
    else page_loop 4097 h 0 1 page 0

-- `mem_bt_temp - (uint32_t)0x200`.
abbrev pub page_of : ℕ → ℕ
page_of bit = u32 (bit + 2 ^ 32 - 0x200)

-- `page_taken_check = check_if_page_taken(page); if(page_taken_check) set_bit(bit);`
pub settle : Heap → (page bit : ℕ) → Option Heap
settle h page bit = do
  taken ← check_if_page_taken h page
  some (if taken == 0 then h else record h { os_memmap = set_bit h.os_memmap bit })

-- `(*(takeninfo_pos + k)) = 1; (*(sizeinfo_pos + k)) = size;`
pub mark : Heap → (k size : ℕ) → Heap
mark h k size = record h { free_info = write h.free_info k 1; size_info = write h.size_info k size }

-- `mem_bt_temp++; return 4097;`
pub reject : Heap → Option (Heap × ℕ)
reject h = some (record h { mem_bt_temp = u32 (h.mem_bt_temp + 1) }, 4097)
