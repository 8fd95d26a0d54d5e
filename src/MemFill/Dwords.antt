-- ===== src/MemFill/Dwords.antt =====
-- Single dwords that kernel/mem.c writes to memory and reads back.
use john_os.Common.{ℕ, ◌+◌, ◌*◌, ◌/◌, ◌%◌, ◌^◌, ◌≤◌, ◌<◌, ◌≡◌, ap, ◌∙◌, ◌⊎◌, inl, inr, arith, u32}
use john_os.Common.Store.{Store, write32, read32}
use john_os.Numbers.Decimal.{power_of-ten}
use john_os.MemFill.{read_mem_address, read_mem_loop, read_dword, write_dword}

byte0 : (m : Store) (p v : ℕ) → write32 m p v p ≡ v % 256
byte0 m p v = ground arith

byte1 : (m : Store) (p v : ℕ) → write32 m p v (p + 1) ≡ v / 256 % 256
byte1 m p v = ground arith

byte2 : (m : Store) (p v : ℕ) → write32 m p v (p + 2) ≡ v / 65536 % 256
byte2 m p v = ground arith

byte3 : (m : Store) (p v : ℕ) → write32 m p v (p + 2 + 1) ≡ v / 16777216 % 256
byte3 m p v = ground arith

read32-write32 : (m : Store) (p v : ℕ) → v < 2 ^ 32 → read32 (write32 m p v) p ≡ v
read32-write32 m p v word = rw (byte0 m p v, byte1 m p v, byte2 m p v, byte3 m p v) (omega arith)

-- Where the four bytes end in memory, `read_dword` gives back what `write_dword` wrote at the same
-- base and offset, and every address but these four keeps its byte.
pub read_dword-write_dword :
    (m : Store) (base offset value a : ℕ)
    → base + offset + 3 < 2 ^ 32
    → value < 2 ^ 32
    → (a < base + offset) ⊎ (base + offset + 4 ≤ a)
    → (read_dword (write_dword m base offset value) base offset ≡ value)
      × (write_dword m base offset value a ≡ m a)
unfolding read_dword write_dword
read_dword-write_dword m base offset value a fits word other = (inside, outside other)
  where
    inside : read32 (write32 m (u32 (base + offset)) (u32 value)) (u32 (base + offset)) ≡ value
    inside =
        let same : u32 value ≡ value = omega arith in
        ap (λ v. read32 (write32 m (u32 (base + offset)) v) (u32 (base + offset))) same
        ∙ read32-write32 m (u32 (base + offset)) value word

    outside :
        (a < base + offset) ⊎ (base + offset + 4 ≤ a)
        → write32 m (u32 (base + offset)) (u32 value) a ≡ m a
    outside (inl under) =
        let at : u32 (base + offset) ≡ base + offset = omega arith in rw at (ground arith)
    outside (inr over) =
        let at : u32 (base + offset) ≡ base + offset = omega arith in rw at (ground arith)

-- The numbers of one and of two digits.
pub read_mem_address-one : (value : Store) → read_mem_address value 0 ≡ value 0 % 2 ^ 32
unfolding read_mem_address read_mem_loop
read_mem_address-one value = let (p0, p1) = power_of-ten in rw p0 (omega arith)

pub read_mem_address-two :
    (value : Store) → read_mem_address value 1 ≡ (value 0 * 10 + value 1) % 2 ^ 32
unfolding read_mem_address read_mem_loop
read_mem_address-two value = let (p0, p1) = power_of-ten in rw (p0, p1) (omega arith)
