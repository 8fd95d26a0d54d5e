-- ===== src/PageMap/Tests.antt =====
-- Runs of the page allocator on small maps, and its theorems at such maps.
use john_os.Common.{
  ℕ, ◌+◌, ◌-◌, ◌%◌, ◌≤◌, ◌≡◌, refl, ap, ◌∙◌, some, arith, ◌==◌, if◌then◌else◌, ◌↔◌,
}
use john_os.Common.Store.{Store}
use john_os.PageMap.{
  Pages, kernel_heap_start, set_bit, check_bit, scan, get_bit_from_addr, get_addr_from_bit,
  check_first_free_memory, free_mem, alloc_free_blocks, alloc_free_blocks_loop, take_block,
  fill_block, kmem_4k_allocate, free_mem_uint,
}
use john_os.Common.Bits.{bit-zero, bit-complement}
use john_os.PageMap.Bits.{check_bit-bit}
use john_os.PageMap.Search.{Taken, FirstFree, check_first_free_memory-FirstFree}
use john_os.PageMap.Allocate.{
  Allocated, Restored, kmem_4k_allocate-Allocated, kmem_4k_allocate-full, free_mem-kmem_4k_allocate,
  kmem_4k_allocate-twice,
}
use john_os.PageMap.Blocks.{IsBlock, alloc_free_blocks-IsBlock, alloc_free_blocks-disjoint}
use john_os.PageMap.Count.{free_pages, alloc_free_blocks_iff}

-- Pages 0, 1 and 3 are taken.
abbrev few : Store
few i = if i == 0 then 0b1011 else 0

abbrev start : Pages
start = record {
  os_memmap = few;
  ram = λ a. 7;
  mem_block = λ i. 0;
  mem_bt_temp = 0;
  mbt_freeflag = 0;
}

-- Every page is taken.
abbrev all_taken : Store
all_taken i = 0xffff_ffff

abbrev packed : Pages
packed = record start { os_memmap = all_taken }

first_page : check_first_free_memory few ≡ 2
unfolding check_first_free_memory scan check_bit
first_page = refl

page_two_free : check_bit few 2 ≡ 0
unfolding check_bit
page_two_free = refl

page_five_free : check_bit few 5 ≡ 0
unfolding check_bit
page_five_free = refl

all_taken-Taken : (hi : ℕ) → Taken all_taken 0 hi
all_taken-Taken hi q below above =
    check_bit-bit all_taken q
    ∙ bit-complement 32 0 (q % 32) (omega arith) (omega arith)
    ∙ ap (λ t. 1 - t) (bit-zero (q % 32))

kmem_4k_allocate-Allocated_example :
    (q : ℕ) × (q ≤ 2) × Allocated start q (kmem_4k_allocate start).0 (kmem_4k_allocate start).1
kmem_4k_allocate-Allocated_example = kmem_4k_allocate-Allocated start 2 (omega arith) page_two_free

kmem_4k_allocate-full_example :
    (kmem_4k_allocate packed ≡ (packed, kernel_heap_start))
    × (get_bit_from_addr kernel_heap_start ≡ 0)
kmem_4k_allocate-full_example = kmem_4k_allocate-full packed (all_taken-Taken 60800)

free_mem-kmem_4k_allocate_example :
    let (t, addr) = kmem_4k_allocate start in
    Restored start addr (free_mem_uint t addr) × Restored start addr (free_mem t addr)
free_mem-kmem_4k_allocate_example = free_mem-kmem_4k_allocate start 2 (omega arith) page_two_free

kmem_4k_allocate-twice_example :
    let (t, addr) = kmem_4k_allocate start in addr + 4096 ≤ (kmem_4k_allocate t).1
kmem_4k_allocate-twice_example =
    kmem_4k_allocate-twice start 2 5 (omega arith) (omega arith) page_two_free page_five_free

-- What three blocks leave.
abbrev filled : Pages
unfolding fill_block
filled = fill_block (fill_block (fill_block start 0) 1) 2

three_blocks : alloc_free_blocks start 3 ≡ some filled
unfolding alloc_free_blocks alloc_free_blocks_loop take_block fill_block check_first_free_memory
    scan check_bit set_bit
three_blocks = refl

alloc_free_blocks-IsBlock_example : (page : ℕ) × IsBlock start filled 0 1 page
alloc_free_blocks-IsBlock_example =
    alloc_free_blocks-IsBlock start filled 3 1 three_blocks (omega arith)

alloc_free_blocks-disjoint_example : filled.mem_block 0 + 4096 ≤ filled.mem_block 2
alloc_free_blocks-disjoint_example =
    alloc_free_blocks-disjoint start filled 3 0 2 three_blocks (omega arith) (omega arith)

alloc_free_blocks_iff_example :
    ((t : Pages) × (alloc_free_blocks start 3 ≡ some t)) ↔ ((3 ≤ 128) × (3 ≤ free_pages 60800 few))
alloc_free_blocks_iff_example = alloc_free_blocks_iff start 3

first_blocks :
    (filled.mem_block 0 ≡ 0x302000)
    × (filled.mem_block 1 ≡ 0x304000)
    × (filled.mem_block 2 ≡ 0x305000)
unfolding fill_block check_first_free_memory scan check_bit set_bit get_addr_from_bit
first_blocks = (refl, refl, refl)

check_first_free_memory-FirstFree_example : FirstFree few (check_first_free_memory few)
check_first_free_memory-FirstFree_example = check_first_free_memory-FirstFree few
