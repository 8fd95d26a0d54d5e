-- ===== src/MemFill.antt =====
-- The functions of kernel/mem.c that fill, copy, zero, read and write memory. Memory is a function from
-- addresses to bytes; a pointer that is stepped past 2 ^ 32 is undefined in C and not modelled.
pub mod Laws
pub mod Pages
pub mod Dwords
mod Tests
use john_os.Common.{
  ℕ, zero, suc, ◌+◌, ◌-◌, ◌*◌, ◌/◌, ◌%◌, ◌^◌, ◌≤◌, ◌<◌, ◌≡◌, refl, sym, ap, ◌∙◌, fun_ext, ◌≢◌, ◌⊎◌,
  inl, inr, Bool, true, false, ◌&&◌, ◌||◌, not, Option, none, some, List, [], ◌∷◌, ◌++◌, arith, u8,
  u16, u32, not32, ◌<<<◌, ◌>>>◌, ltb, leb, ◌==◌, if◌then◌else◌, ==_refl, Bool-cases, eq→==, ==→eq,
  ==_iff, bit_and, bit_or, bit_xor, min, max, ◌↔◌, ◌>>=◌,
}
use john_os.Common.Store.{Store, write, write16, write32, read32}
use john_os.Numbers.{power_of}

-- `for( ; count != 0; count--) *temp++ = val;`
pub memset : Store → ℕ → ℕ → ℕ → Store
memset m dest val zero = m
memset m dest val (suc count) = memset (write m dest (u8 val)) (dest + 1) val count

-- Copies `count` bytes forward, from `val` to `dest`.
pub memset2 : Store → ℕ → ℕ → ℕ → Store
memset2 m dest val zero = m
memset2 m dest val (suc count) = memset2 (write m dest (m val)) (dest + 1) (val + 1) count

pub memsetbyte : Store → ℕ → ℕ → ℕ → Store
memsetbyte m dest val zero = m
memsetbyte m dest val (suc count) = memsetbyte (write m dest (u8 val)) (dest + 1) val count

-- `dest++` steps a pointer to dwords, so the address grows by 4.
pub memsetint : Store → ℕ → ℕ → ℕ → Store
memsetint m dest val zero = m
memsetint m dest val (suc count) = memsetint (write32 m dest (u32 val)) (dest + 4) val count

pub memsetshort : Store → ℕ → ℕ → ℕ → Store
memsetshort m dest val zero = m
memsetshort m dest val (suc count) = memsetshort (write16 m dest (u16 val)) (dest + 2) val count

-- One round of `setmembyte`: four bytes, the highest address first.
set_four : Store → ℕ → ℕ → Store
set_four m p v = write (write (write (write m (p + 3) v) (p + 2) v) (p + 1) v) p v

-- The loop of `setmembyte` at offset `i`, with `rounds` rounds allowed.
setmembyte_loop : ℕ → Store → (pointer_pt i blocks_times_4096 value : ℕ) → Store
unfolding set_four
setmembyte_loop zero m p i stop v = m
setmembyte_loop (suc rounds) m p i stop v =
    let rest = setmembyte_loop rounds (set_four m (p + i) v) p (i + 4) stop v in
    if ltb i stop then rest else m

-- Each round adds 4 to the offset, so as many rounds as the offset has to grow are enough.
pub setmembyte : Store → (pointer_pt start_offset blocks_times_4096 value : ℕ) → Store
setmembyte m p start stop v = setmembyte_loop (stop + 1 - start) m p start stop (u8 v)

-- `for(counter = i; ...; counter++) *(ms_pointr + counter) = 0x00;` with `rounds` rounds to go.
pub zero_bytes : ℕ → Store → (pointer counter : ℕ) → Store
zero_bytes zero m p c = m
zero_bytes (suc rounds) m p c = zero_bytes rounds (write m (p + c) 0) p (c + 1)

-- The same over dwords.
pub zero_dwords : ℕ → Store → (pointer counter : ℕ) → Store
zero_dwords zero m p c = m
zero_dwords (suc rounds) m p c = zero_dwords rounds (write32 m (p + 4 * c) 0) p (c + 1)

-- The pointer that the round `counter1` of `zero_usbms_mem_1` and `zero_usbms_mem_3` takes.
choose5 : (counter1 ptr0 ptr1 ptr2 ptr3 ptr4 : ℕ) → ℕ
choose5 c p0 p1 p2 p3 p4 =
    if c == 0 then p0 else if c == 1 then p1 else if c == 2 then p2 else if c == 3 then p3 else p4

zero_pages5 : ℕ → Store → (counter1 ptr0 ptr1 ptr2 ptr3 ptr4 : ℕ) → Store
unfolding choose5
zero_pages5 zero m c p0 p1 p2 p3 p4 = m
zero_pages5 (suc rounds) m c p0 p1 p2 p3 p4 =
    let m' = zero_bytes 4096 m (choose5 c p0 p1 p2 p3 p4) 0 in
    zero_pages5 rounds m' (c + 1) p0 p1 p2 p3 p4

pub zero_usbms_mem_1 : Store → (ptr0 ptr1 ptr2 ptr3 ptr4 : ℕ) → Store
unfolding zero_pages5
zero_usbms_mem_1 m p0 p1 p2 p3 p4 = zero_pages5 5 m 0 p0 p1 p2 p3 p4

choose4 : (counter1 ptr1 ptr2 ptr3 ptr4 : ℕ) → ℕ
choose4 c p1 p2 p3 p4 = if c == 1 then p1 else if c == 2 then p2 else if c == 3 then p3 else p4

zero_pages4 : ℕ → Store → (counter1 ptr1 ptr2 ptr3 ptr4 : ℕ) → Store
unfolding choose4
zero_pages4 zero m c p1 p2 p3 p4 = m
zero_pages4 (suc rounds) m c p1 p2 p3 p4 =
    let m' = zero_bytes 4096 m (choose4 c p1 p2 p3 p4) 0 in
    zero_pages4 rounds m' (c + 1) p1 p2 p3 p4

pub zero_usbms_mem_2 : Store → (ptr1 ptr2 ptr3 ptr4 : ℕ) → Store
unfolding zero_pages4
zero_usbms_mem_2 m p1 p2 p3 p4 = zero_pages4 4 m 1 p1 p2 p3 p4

-- As `zero_usbms_mem_1`: only the C types of the parameters differ.
pub zero_usbms_mem_3 : Store → (ptr0 ptr1 ptr2 ptr3 ptr4 : ℕ) → Store
unfolding zero_pages5
zero_usbms_mem_3 m p0 p1 p2 p3 p4 = zero_pages5 5 m 0 p0 p1 p2 p3 p4

pub zero_usbms_mem_4 : Store → ℕ → Store
zero_usbms_mem_4 m p = zero_bytes 4096 m p 0

pub zero_usbms_mem_5 : Store → ℕ → Store
zero_usbms_mem_5 m p = zero_bytes 4096 m p 0

pub zero_usbms_mem_6 : Store → ℕ → Store
zero_usbms_mem_6 m p = zero_dwords 1024 m p 0

pub zero_usbms_mem_7 : Store → ℕ → Store
zero_usbms_mem_7 m p = zero_bytes 4096 m p 0

-- `set_mem` steps a pointer to dwords from index `start` to `blocks_times_4096`.
set_mem_loop : ℕ → Store → (pointer_ptr i value : ℕ) → Store
set_mem_loop zero m p i v = m
set_mem_loop (suc rounds) m p i v = set_mem_loop rounds (write32 m (p + 4 * i) v) p (i + 1) v

pub set_mem : Store → (pointer_ptr start blocks_times_4096 value : ℕ) → Store
set_mem m p start stop v = set_mem_loop (stop - start) m p start (u32 v)

-- The accesses to one dword of memory; addresses have 32 bits.
pub read_dword : Store → (base_addr offset : ℕ) → ℕ
read_dword m base offset = read32 m (u32 (base + offset))

pub read_dword_2 : Store → (base_addr offset : ℕ) → ℕ
read_dword_2 m base offset = bit_and (read32 m (u32 (base + offset))) (not32 (0x000000ff * 2 ^ 8))

pub read_dword_addr : (base offset : ℕ) → ℕ
read_dword_addr base offset = u32 (base + offset)

pub write_dword : Store → (base offset value : ℕ) → Store
write_dword m base offset value = write32 m (u32 (base + offset)) (u32 value)

-- `for (;temp <= temp2; temp++)`, from `temp` on: the digits of a decimal number, the highest
-- first. The values that it prints on the way are left out.
read_mem_loop : ℕ → (value : Store) → (temp x memvalue : ℕ) → ℕ
read_mem_loop zero value temp x memvalue = memvalue
read_mem_loop (suc rounds) value temp x memvalue =
    let temp3 = u32 (value temp * power_of 10 x) in
    read_mem_loop rounds value (temp + 1) (u32 (x + 2 ^ 32 - 1)) (u32 (memvalue + temp3))

pub read_mem_address : (value : Store) → (counter1 : ℕ) → ℕ
read_mem_address value counter1 = read_mem_loop (counter1 + 1) value 0 counter1 0
