-- ===== src/PageMap.antt =====
-- The page allocator of kernel/mem.c: a bitmap with one bit for each page of 4096 bytes from
-- `KERNEL_HEAP_START` on. `Os_memmap` has 1900 words; the model's map is the memory that starts
-- there, so that an index from 1900 on is what lies behind the array. The messages that some of
-- the functions print are left out.
pub mod Bits
pub mod Search
pub mod Allocate
pub mod Blocks
pub mod Count
mod Tests
use john_os.Common.{
  ℕ, zero, suc, ◌+◌, ◌-◌, ◌*◌, ◌/◌, ◌%◌, ◌^◌, ◌≤◌, ◌<◌, ◌≡◌, refl, sym, ap, ◌∙◌, fun_ext, ◌≢◌, ◌⊎◌,
  inl, inr, Bool, true, false, ◌&&◌, ◌||◌, not, Option, none, some, List, [], ◌∷◌, ◌++◌, arith, u8,
  u16, u32, not32, ◌<<<◌, ◌>>>◌, ltb, leb, ◌==◌, if◌then◌else◌, ==_refl, Bool-cases, eq→==, ==→eq,
  ==_iff, bit_and, bit_or, bit_xor, min, max, ◌↔◌, ◌>>=◌,
}
use john_os.Common.Store.{Store, write}
use john_os.MemFill.{memsetint, memsetbyte, setmembyte}

abbrev pub kernel_heap_start : ℕ
kernel_heap_start = 0x300000

-- The globals that the allocator uses, and the memory that it hands out.
-- `mem_block` has the entries 0 to 127; no function reads or writes it at another index.
pub record Pages : Type 0 where
  pub os_memmap : Store
  pub ram : Store
  pub mem_block : Store
  pub mem_bt_temp : ℕ
  pub mbt_freeflag : ℕ

pub set_bit : Store → ℕ → Store
set_bit m b = let a = b / 32 in write m a (bit_or (m a) (2 ^ (b % 32)))

pub zero_bit : Store → ℕ → Store
zero_bit m b = let a = b / 32 in write m a (bit_and (m a) (not32 (2 ^ (b % 32))))

pub check_bit : Store → ℕ → ℕ
check_bit m b = bit_and (m (b / 32) >>> (b % 32)) 1

-- Subtraction wraps on 32 bits.
pub get_bit_from_addr : ℕ → ℕ
get_bit_from_addr addr = u32 (addr + 2 ^ 32 - kernel_heap_start) / 4096

pub get_addr_from_bit : ℕ → ℕ
get_addr_from_bit b = u32 (u32 (b * 4096) + kernel_heap_start)

-- `for(; go_on(memloop) && (temp == 1); memloop++) temp = check_bit(memloop);` with `rounds`
-- rounds allowed; the result is `memloop` behind the loop.
scan : (ℕ → Bool) → ℕ → Store → (memloop temp : ℕ) → ℕ
scan go_on zero m l t = l
scan go_on (suc rounds) m l t =
    let rest = scan go_on rounds m (l + 1) (check_bit m l) in if go_on l && t == 1 then rest else l

-- The loop starts at 0 and makes at most 60801 rounds and one more test.
pub check_first_free_memory : Store → ℕ
check_first_free_memory m = scan (λ l. leb l 60800) 60802 m 0 1 - 1

-- `memloop2 - 1` wraps where the loop ends at 0, which a start of 0 never does: the first round
-- is always made.
pub check_free_memory : Store → ℕ → ℕ
check_free_memory m start = u32 (scan (λ l. ltb l 60800) 60801 m start 1 + 2 ^ 32 - 1)

-- `memsetint` over the words of the map.
clear_words : ℕ → Store → ℕ → Store
clear_words zero m i = m
clear_words (suc n) m i = clear_words n (write m i 0) (i + 1)

-- The check that the map does not lie below 1000001 prints and executes `hlt`, and goes on.
pub init_memoryhandler : Pages → Pages
init_memoryhandler s = record s {
  os_memmap = clear_words 1900 s.os_memmap 0;
  mem_bt_temp = 0;
  mbt_freeflag = 0;
}

pub alloc_free_mem : Pages → Pages × ℕ
alloc_free_mem s =
    let a = check_first_free_memory s.os_memmap in
    (record s { os_memmap = set_bit s.os_memmap a }, get_addr_from_bit a)

pub free_mem : Pages → ℕ → Pages
free_mem s address = record s {
  os_memmap = zero_bit s.os_memmap (get_bit_from_addr address);
  ram = setmembyte s.ram address 0 4096 0;
}

-- The body of the loop of `alloc_free_blocks` at an index of `mem_block`.
fill_block : Pages → ℕ → Pages
fill_block s i =
    let a = check_first_free_memory s.os_memmap in
    record s {
      os_memmap = set_bit s.os_memmap a;
      mem_block = write s.mem_block i (get_addr_from_bit a);
    }

-- The body as it runs inside the arrays: `none` is a write behind `mem_block[128]` or, where every
-- page is taken, behind `Os_memmap[1900]`, and goes to other globals.
take_block : Pages → ℕ → Option Pages
unfolding fill_block
take_block s i =
    if ltb i 128 && ltb (check_first_free_memory s.os_memmap) 60800
    then some (fill_block s i)
    else none

-- The loop at index `i`, with `rounds` rounds to go.
alloc_free_blocks_loop : ℕ → Pages → ℕ → Option Pages
alloc_free_blocks_loop zero s i = some s
alloc_free_blocks_loop (suc rounds) s i =
    take_block s i >>= (λ (t : Pages). alloc_free_blocks_loop rounds t (i + 1))

pub alloc_free_blocks : Pages → ℕ → Option Pages
alloc_free_blocks s b = alloc_free_blocks_loop b s 0

pub kmem_4k_allocate : Pages → Pages × ℕ
kmem_4k_allocate s =
    let temp = check_first_free_memory s.os_memmap in
    if ltb temp 60800
    then (record s { os_memmap = set_bit s.os_memmap temp }, u32 (kernel_heap_start + temp * 4096))
    else (s, kernel_heap_start)

pub free_mem_uint : Pages → ℕ → Pages
free_mem_uint s address = record s {
  os_memmap = zero_bit s.os_memmap (get_bit_from_addr address);
  ram = memsetbyte s.ram address 0 4096;
}

pub kmem_less4k_allocate : Pages → ℕ → Pages × ℕ
kmem_less4k_allocate s size =
    let (s', mem) = kmem_4k_allocate s in
    let address = u32 (mem + size) in
    (s', if leb 4095 (u32 (u32 (address + 2 ^ 32 - mem) + size)) then 0 else address)
