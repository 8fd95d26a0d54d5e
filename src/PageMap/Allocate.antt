-- ===== src/PageMap/Allocate.antt =====
-- Allocation and release of one page by the functions of kernel/mem.c.
use john_os.Common.{
  ℕ, ◌+◌, ◌*◌, ◌≤◌, ◌<◌, ◌≡◌, refl, ap, inl, inr, true, arith, ltb, leb, ◌==◌, if◌then◌else◌,
  Bool-cases, bit_or,
}
use john_os.Common.Store.{Store}
use john_os.MemFill.Laws.{within, setmembyte_lem, memsetbyte_lem}
use john_os.PageMap.{
  Pages, kernel_heap_start, set_bit, zero_bit, check_bit, get_bit_from_addr, get_addr_from_bit,
  check_first_free_memory, alloc_free_mem, free_mem, kmem_4k_allocate, free_mem_uint,
  kmem_less4k_allocate,
}
use john_os.PageMap.Bits.{check_bit-set_bit, check_bit-zero_bit}
use john_os.PageMap.Search.{Taken, FirstFree, free, full, check_first_free_memory-FirstFree}

-- The address of a page.
abbrev pub page_addr : ℕ → ℕ
page_addr p = kernel_heap_start + p * 4096

-- For the pages that a 32-bit address can name, the two conversions are inverse, also at every
-- address within a page.
pub get_bit_from_addr-get_addr_from_bit :
    (p offset : ℕ)
    → p < 60801
    → offset < 4096
    → (get_addr_from_bit p ≡ page_addr p) × (get_bit_from_addr (get_addr_from_bit p + offset) ≡ p)
unfolding get_bit_from_addr get_addr_from_bit
get_bit_from_addr-get_addr_from_bit p offset h k = (omega arith, omega arith)

-- `q` is the first free page of `s`, and `(t, addr)` is `s` with it taken, and its address.
pub record Allocated (s : Pages) (q : ℕ) (t : Pages) (addr : ℕ) : Type 0 where
  pub first : Taken s.os_memmap 0 q
  pub was_free : check_bit s.os_memmap q ≡ 0
  pub address : addr ≡ page_addr q
  pub marked : (b : ℕ) → check_bit t.os_memmap b ≡ (if q == b then 1 else check_bit s.os_memmap b)
  pub same_ram : t.ram ≡ s.ram

-- Where a page below 60800 is free, the search finds a free page that is not above it.
pub FirstFree-below :
    (m : Store) (p r : ℕ)
    → p < 60800
    → check_bit m p ≡ 0
    → FirstFree m r
    → (r ≤ p) × (check_bit m r ≡ 0) × Taken m 0 r
FirstFree-below m p r h z (free le zeroed rest) = elim (Bool-cases (leb r p)) [
  | inl below ↦ (ground arith, zeroed, rest)
  | inr above ↦ absurd (omega (arith, rest p (omega arith) (ground arith)))
]
FirstFree-below m p r h z (full e rest) = absurd (omega (arith, rest p (omega arith) (omega arith)))

-- As long as one of the 60800 pages is free, `kmem_4k_allocate` takes the first free page: it
-- returns the address of a page that was free, with every page before it taken, marks that page
-- and no other, and leaves the memory alone.
pub kmem_4k_allocate-Allocated :
    (s : Pages) (p : ℕ)
    → p < 60800
    → check_bit s.os_memmap p ≡ 0
    → (q : ℕ) × (q ≤ p) × Allocated s q (kmem_4k_allocate s).0 (kmem_4k_allocate s).1
unfolding kmem_4k_allocate
kmem_4k_allocate-Allocated s p h z =
    let q = check_first_free_memory s.os_memmap in
    let (le, zeroed, rest) =
      FirstFree-below s.os_memmap p q h z (check_first_free_memory-FirstFree s.os_memmap) in
    let test : ltb q 60800 ≡ true = ground arith in
    (
      q,
      le,
      rw test (record {
        first = rest;
        was_free = zeroed;
        address = omega arith;
        marked = λ b. check_bit-set_bit s.os_memmap q b;
        same_ram = refl;
      }),
    )

full_search : (m : Store) → Taken m 0 60800 → check_first_free_memory m ≡ 60800
full_search m t = last (check_first_free_memory-FirstFree m)
  where
    last : {r : ℕ} → FirstFree m r → r ≡ 60800
    last {r} (free le zeroed rest) = elim (Bool-cases (ltb r 60800)) [
      | inl below ↦ absurd (omega (arith, t r (omega arith) (ground arith)))
      | inr above ↦ ground arith
    ]
    last (full e rest) = e

-- With all 60800 pages taken, `kmem_4k_allocate` changes nothing and returns the start of the heap,
-- which is the address of page 0.
pub kmem_4k_allocate-full :
    (s : Pages)
    → Taken s.os_memmap 0 60800
    → (kmem_4k_allocate s ≡ (s, kernel_heap_start)) × (get_bit_from_addr kernel_heap_start ≡ 0)
unfolding kmem_4k_allocate get_bit_from_addr
kmem_4k_allocate-full s t = (rw (full_search s.os_memmap t), refl)

page_of_addr : (q addr : ℕ) → q < 60801 → addr ≡ page_addr q → get_bit_from_addr addr ≡ q
unfolding get_bit_from_addr
page_of_addr q addr h e = omega arith

-- `t` is `s` again, page by page, with the bytes of the page at `addr` zeroed.
abbrev pub Restored : Pages → ℕ → Pages → Type 0
Restored s addr t =
    ((b : ℕ) → check_bit t.os_memmap b ≡ check_bit s.os_memmap b)
    × ((a : ℕ) → t.ram a ≡ (if within addr 4096 a then 0 else s.ram a))

Restored-release :
    {s t : Pages} {q addr : ℕ}
    → q < 60800
    → Allocated s q t addr
    → Restored s addr (free_mem_uint t addr) × Restored s addr (free_mem t addr)
unfolding free_mem_uint free_mem
Restored-release {s} {t} {q} {addr} h al =
    let page = page_of_addr q addr (omega arith) al.address in
    let bits : (b : ℕ) → check_bit (zero_bit t.os_memmap q) b ≡ check_bit s.os_memmap b =
      λ b. ground (arith, check_bit-zero_bit t.os_memmap q b, al.marked b, al.was_free) in
    let same : (a : ℕ) → t.ram a ≡ s.ram a = λ a. ap (λ (r : Store). r a) al.same_ram in
    rw page (
      (bits, λ a. ground (arith, memsetbyte_lem 4096 t.ram addr 0 a, same a)),
      (bits, λ a. ground (arith, setmembyte_lem t.ram addr 0 4096 0 a, same a)),
    )

-- A release looks at the map only.
pub free_mem_uint-same_map :
    (s t : Pages) (addr : ℕ)
    → s.os_memmap ≡ t.os_memmap
    → (free_mem_uint s addr).os_memmap ≡ (free_mem_uint t addr).os_memmap
unfolding free_mem_uint
free_mem_uint-same_map s t addr e = rw e refl

-- Releasing what `kmem_4k_allocate` returned, by `free_mem_uint` or by `free_mem`, gives every page
-- the state back that it had before the allocation, and zeroes the 4096 bytes of the page and no
-- others.
pub free_mem-kmem_4k_allocate :
    (s : Pages) (p : ℕ)
    → p < 60800
    → check_bit s.os_memmap p ≡ 0
    → let (t, addr) = kmem_4k_allocate s in
      Restored s addr (free_mem_uint t addr) × Restored s addr (free_mem t addr)
free_mem-kmem_4k_allocate s p h z =
    let (q, le, al) = kmem_4k_allocate-Allocated s p h z in Restored-release (omega arith) al

-- If two pages are free, two allocations in a row return addresses that are at least a page
-- apart, the second one higher.
pub kmem_4k_allocate-twice :
    (s : Pages) (p p' : ℕ)
    → p < p'
    → p' < 60800
    → check_bit s.os_memmap p ≡ 0
    → check_bit s.os_memmap p' ≡ 0
    → let (t, addr) = kmem_4k_allocate s in addr + 4096 ≤ (kmem_4k_allocate t).1
kmem_4k_allocate-twice s p p' lt h z z' =
    let (q, le, al) = kmem_4k_allocate-Allocated s p (omega arith) z in
    let t = (kmem_4k_allocate s).0 in
    let left : check_bit t.os_memmap p' ≡ 0 = ground (arith, al.marked p') in
    let (q', le', al') = kmem_4k_allocate-Allocated t p' h left in
    ground (arith, al.address, al'.address, al'.was_free, al.marked q', al.first q')

-- `alloc_free_mem` takes the first free page like `kmem_4k_allocate`, as long as there is one.
pub alloc_free_mem-Allocated :
    (s : Pages) (p : ℕ)
    → p < 60800
    → check_bit s.os_memmap p ≡ 0
    → (q : ℕ) × (q ≤ p) × Allocated s q (alloc_free_mem s).0 (alloc_free_mem s).1
unfolding alloc_free_mem get_addr_from_bit
alloc_free_mem-Allocated s p h z =
    let q = check_first_free_memory s.os_memmap in
    let (le, zeroed, rest) =
      FirstFree-below s.os_memmap p q h z (check_first_free_memory-FirstFree s.os_memmap) in
    (
      q,
      le,
      record {
        first = rest;
        was_free = zeroed;
        address = omega arith;
        marked = λ b. check_bit-set_bit s.os_memmap q b;
        same_ram = refl;
      },
    )

-- With every page of the heap taken, `alloc_free_mem` does not notice: it returns the address
-- behind the last page, and writes to word 1900 of the map, an array of 1900 words.
pub alloc_free_mem-full :
    (s : Pages)
    → Taken s.os_memmap 0 60800
    → ((alloc_free_mem s).1 ≡ page_addr 60800)
      × ((alloc_free_mem s).0.os_memmap 1900 ≡ bit_or (s.os_memmap 1900) 1)
unfolding alloc_free_mem get_addr_from_bit set_bit
alloc_free_mem-full s t = rw (full_search s.os_memmap t) (refl, refl)

-- `kmem_less4k_allocate` returns the address `size` bytes into a page that it takes if `size` is
-- below 2048, and 0 for a larger size up to 4096; the page is taken in both cases.
pub kmem_less4k_allocate_lem :
    (s : Pages) (p size : ℕ)
    → p < 60800
    → check_bit s.os_memmap p ≡ 0
    → size ≤ 4096
    → (q : ℕ) × Allocated s q (kmem_less4k_allocate s size).0 (page_addr q)
      × ((kmem_less4k_allocate s size).1 ≡ (if ltb size 2048 then page_addr q + size else 0))
unfolding kmem_less4k_allocate
kmem_less4k_allocate_lem s p size h z small =
    let (q, le, al) = kmem_4k_allocate-Allocated s p h z in
    (
      q,
      record {
        first = al.first;
        was_free = al.was_free;
        address = refl;
        marked = al.marked;
        same_ram = al.same_ram;
      },
      ground (arith, al.address),
    )
