-- ===== src/MemFill/Laws.antt =====
-- What the fill and copy loops of kernel/mem.c leave at every address.
use john_os.Common.{
  ℕ, zero, suc, ◌+◌, ◌-◌, ◌*◌, ◌/◌, ◌%◌, ◌≤◌, ◌<◌, ◌≡◌, ◌⊎◌, Bool, ◌&&◌, arith, u8, u16, u32, ltb,
  leb, ◌==◌, if◌then◌else◌,
}
use john_os.Common.Store.{Store, write, write16, write32}
use john_os.MemFill.{
  memset, memset2, memsetbyte, memsetint, memsetshort, set_four, setmembyte_loop, setmembyte,
  zero_bytes, zero_dwords, set_mem_loop, set_mem,
}

-- `a` lies in the `n` addresses from `p` on.
abbrev pub within : ℕ → ℕ → ℕ → Bool
within p n a = leb p a && ltb a (p + n)

-- `memset` writes the low byte of its value to every address of the range and to no other.
pub memset_lem :
    (n : ℕ) (m : Store) (dest val a : ℕ)
    → memset m dest val n a ≡ (if within dest n a then u8 val else m a)
unfolding memset
memset_lem zero m dest val a = ground arith
memset_lem (suc n) m dest val a =
    ground (arith, memset_lem n (write m dest (u8 val)) (dest + 1) val a)

pub memsetbyte_lem :
    (n : ℕ) (m : Store) (dest val a : ℕ)
    → memsetbyte m dest val n a ≡ (if within dest n a then u8 val else m a)
unfolding memsetbyte
memsetbyte_lem zero m dest val a = ground arith
memsetbyte_lem (suc n) m dest val a =
    ground (arith, memsetbyte_lem n (write m dest (u8 val)) (dest + 1) val a)

-- `memset2` copies `n` bytes between ranges that do not overlap, and changes nothing else.
pub memset2_lem :
    (n : ℕ) (m : Store) (dest src a : ℕ)
    → (dest + n ≤ src) ⊎ (src + n ≤ dest)
    → memset2 m dest src n a ≡ (if within dest n a then m (src + a - dest) else m a)
unfolding memset2
memset2_lem zero m dest src a h = ground arith
memset2_lem (suc n) m dest src a h =
    ground (arith, memset2_lem n (write m dest (m src)) (dest + 1) (src + 1) a)

-- Overlapping or not, `memset2` changes nothing outside the range that it writes.
pub memset2-outside :
    (n : ℕ) (m : Store) (dest src a : ℕ)
    → (dest + n ≤ a) ⊎ (a < dest)
    → memset2 m dest src n a ≡ m a
unfolding memset2
memset2-outside zero m dest src a h = ground arith
memset2-outside (suc n) m dest src a h =
    ground (arith, memset2-outside n (write m dest (m src)) (dest + 1) (src + 1) a)

-- Byte `k` of a word, the lowest first.
abbrev pub byte_of : ℕ → ℕ → ℕ
byte_of v k =
    if k == 0
    then v % 256
    else if k == 1
    then v / 256 % 256
    else if k == 2
    then v / 65536 % 256
    else v / 16777216 % 256

-- `memsetint` fills `count` dwords: every byte of the range is the byte of `val` that stands at its
-- place in a dword, and no byte outside the range changes.
pub memsetint_lem :
    (n : ℕ) (m : Store) (dest val a : ℕ)
    → memsetint m dest val n a
      ≡ (if within dest (4 * n) a then byte_of (u32 val) ((a - dest) % 4) else m a)
unfolding memsetint
memsetint_lem zero m dest val a = ground arith
memsetint_lem (suc n) m dest val a =
    ground (arith, memsetint_lem n (write32 m dest (u32 val)) (dest + 4) val a)

-- `memsetshort` does the same with words of 16 bits.
pub memsetshort_lem :
    (n : ℕ) (m : Store) (dest val a : ℕ)
    → memsetshort m dest val n a
      ≡ (if within dest (2 * n) a then byte_of (u16 val) ((a - dest) % 2) else m a)
unfolding memsetshort
memsetshort_lem zero m dest val a = ground arith
memsetshort_lem (suc n) m dest val a =
    ground (arith, memsetshort_lem n (write16 m dest (u16 val)) (dest + 2) val a)

-- How many bytes `setmembyte` writes: the range rounded up to a multiple of four.
abbrev pub rounded : ℕ → ℕ → ℕ
rounded start stop = (stop - start + 3) / 4 * 4

setmembyte_loop_lem :
    (rounds : ℕ) (m : Store) (p i stop v a : ℕ)
    → stop < i + rounds
    → setmembyte_loop rounds m p i stop v a ≡ (if within (p + i) (rounded i stop) a then v else m a)
unfolding setmembyte_loop set_four
setmembyte_loop_lem zero m p i stop v a h = ground arith
setmembyte_loop_lem (suc rounds) m p i stop v a h =
    ground (arith, setmembyte_loop_lem rounds (set_four m (p + i) v) p (i + 4) stop v a)

-- `setmembyte` writes the value to every address of the range, rounded up to whole groups of four
-- bytes, and to no other.
pub setmembyte_lem :
    (m : Store) (p start stop v a : ℕ)
    → setmembyte m p start stop v a
      ≡ (if within (p + start) (rounded start stop) a then u8 v else m a)
unfolding setmembyte
setmembyte_lem m p start stop v a =
    setmembyte_loop_lem (stop + 1 - start) m p start stop (u8 v) a (omega arith)

pub zero_bytes_lem :
    (n : ℕ) (m : Store) (p c a : ℕ) → zero_bytes n m p c a ≡ (if within (p + c) n a then 0 else m a)
unfolding zero_bytes
zero_bytes_lem zero m p c a = ground arith
zero_bytes_lem (suc n) m p c a = ground (arith, zero_bytes_lem n (write m (p + c) 0) p (c + 1) a)

pub zero_dwords_lem :
    (n : ℕ) (m : Store) (p c a : ℕ)
    → zero_dwords n m p c a ≡ (if within (p + 4 * c) (4 * n) a then 0 else m a)
unfolding zero_dwords
zero_dwords_lem zero m p c a = ground arith
zero_dwords_lem (suc n) m p c a =
    ground (arith, zero_dwords_lem n (write32 m (p + 4 * c) 0) p (c + 1) a)

set_mem_loop_lem :
    (n : ℕ) (m : Store) (p i v a : ℕ)
    → set_mem_loop n m p i v a
      ≡ (if within (p + 4 * i) (4 * n) a then byte_of v ((a - (p + 4 * i)) % 4) else m a)
unfolding set_mem_loop
set_mem_loop_lem zero m p i v a = ground arith
set_mem_loop_lem (suc n) m p i v a =
    ground (arith, set_mem_loop_lem n (write32 m (p + 4 * i) v) p (i + 1) v a)

-- `set_mem` fills the dwords from index `start` to `blocks_times_4096` with the value, and changes
-- no other address.
pub set_mem_lem :
    (m : Store) (p start stop v a : ℕ)
    → set_mem m p start stop v a ≡ (
        if within (p + 4 * start) (4 * (stop - start)) a
        then byte_of (u32 v) ((a - (p + 4 * start)) % 4)
        else m a)
unfolding set_mem
set_mem_lem m p start stop v a = set_mem_loop_lem (stop - start) m p start (u32 v) a
