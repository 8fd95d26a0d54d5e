-- ===== src/MassStorage.antt =====
-- The command blocks of kernel/device/usb/usb_mass_storage.c, and its split of block numbers. A block is a packed structure: its bytes, in the order of the fields, at the
-- start of a page of memory that is zeroed first.
pub mod Commands
pub mod Wrapper
pub mod Prepare
mod Tests
use john_os.Common.{
  ℕ, zero, suc, ◌+◌, ◌-◌, ◌*◌, ◌/◌, ◌%◌, ◌^◌, ◌≤◌, ◌<◌, ◌≡◌, refl, sym, ap, ◌∙◌, fun_ext, ◌≢◌, ◌⊎◌,
  inl, inr, Bool, true, false, ◌&&◌, ◌||◌, not, Option, none, some, List, [], ◌∷◌, ◌++◌, arith, u8,
  u16, u32, not32, ◌<<<◌, ◌>>>◌, ltb, leb, ◌==◌, if◌then◌else◌, ==_refl, Bool-cases, eq→==, ==→eq,
  ==_iff, bit_and, bit_or, bit_xor, min, max, ◌↔◌, ◌>>=◌,
}
use john_os.Common.Store.{Store, write}
use john_os.MemFill.{zero_bytes}

-- The fields of a structure, one byte each, from address `p` on.
pub store_bytes : Store → (p : ℕ) → List ℕ → Store
store_bytes m p [] = m
store_bytes m p (b ∷ bs) = store_bytes (write m p b) (p + 1) bs

-- A block at `pointr`: its page zeroed, then its fields from the first one on; the result points
-- to it. A field that is set to 0 is written like the others.
pub block : (pointr : ℕ) → Store → List ℕ → Store × ℕ
block pointr m fields = (store_bytes (zero_bytes 4096 m pointr 0) pointr fields, pointr)

-- The block at `cbw_10_1` and the result: the pointer, or 0.
pub set_cbw_10_data : (cbw_10_1 : ℕ) → Store → (lba_low_low lba_low_high length : ℕ) → Store × ℕ
unfolding store_bytes
set_cbw_10_data p m low high length =
    let blocks = u8 (length / 512) in
    let announced = u8 (length / 255) in
    let signature = 0x55 ∷ 0x53 ∷ 0x42 ∷ 0x43 ∷ [] in
    let tag = 0xbb ∷ 0xcc ∷ 0xbb ∷ 0xdd ∷ [] in
    let data_transfer_length = 0 ∷ announced ∷ 0 ∷ 0 ∷ [] in
    let flags_lun_length = 0x80 ∷ 0 ∷ 0x0a ∷ [] in
    let command = 0x28 ∷ 0 ∷ 0 ∷ 0 ∷ high ∷ low ∷ 0 ∷ 0 ∷ blocks ∷ 0 ∷ [] in
    let zeros = 0 ∷ 0 ∷ 0 ∷ 0 ∷ 0 ∷ 0 ∷ [] in
    let fields =
      signature ++ (tag ++ (data_transfer_length ++ (flags_lun_length ++ (command ++ zeros)))) in
    if ltb 20000 length && ltb length 512
    then (m, 0)
    else if not (length % 512 == 0)
    then (m, 0)
    else (store_bytes (zero_bytes 4096 m p 0) p fields, p)

pub set_cbw_w_10_data : (cbw_w_10_1 : ℕ) → Store → (lba_low_low lba_low_high : ℕ) → Store × ℕ
unfolding block
set_cbw_w_10_data p m low high =
    let signature = 0x55 ∷ 0x53 ∷ 0x42 ∷ 0x43 ∷ [] in
    let tag = 1 ∷ 2 ∷ 3 ∷ 6 ∷ [] in
    let data_transfer_length = 0 ∷ 2 ∷ 0 ∷ 0 ∷ [] in
    let flags_lun_length = 0 ∷ 0 ∷ 0x0a ∷ [] in
    let command = 0x2a ∷ 0 ∷ 0 ∷ 0 ∷ high ∷ low ∷ 0 ∷ 0 ∷ 1 ∷ 0 ∷ [] in
    let zeros = 0 ∷ 0 ∷ 0 ∷ 0 ∷ 0 ∷ 0 ∷ [] in
    block p m
      (signature ++ (tag ++ (data_transfer_length ++ (flags_lun_length ++ (command ++ zeros)))))

pub set_cbw_16_data : (cbw_16_1 : ℕ) → Store → (lba_low1 lba_low2 : ℕ) → Store × ℕ
unfolding block
set_cbw_16_data cbw_16_1 m lba_low1 lba_low2 = block cbw_16_1 m (
    0x55 ∷ 0x53 ∷ 0x42 ∷ 0x43 ∷ 0x0f ∷ 0x0b ∷ 0x0a ∷ 0x0a ∷ 0 ∷ 2 ∷ 0 ∷ 0 ∷ 0x80 ∷ 0 ∷ 0x10 ∷ 0x88
    ∷ 0 ∷ 0 ∷ 0 ∷ 0 ∷ 0 ∷ 0 ∷ 0 ∷ 0 ∷ 0 ∷ 0 ∷ 0 ∷ 0 ∷ 0 ∷ 1 ∷ 0 ∷ [])

pub set_inquiry : (inq : ℕ) → Store → Store × ℕ
unfolding block
set_inquiry inq m = block inq m (
    0x55 ∷ 0x53 ∷ 0x42 ∷ 0x43 ∷ 0xbb ∷ 0xbb ∷ 0xcc ∷ 0xdd ∷ 0x24 ∷ 0 ∷ 0 ∷ 0 ∷ 0x80 ∷ 0 ∷ 0x06
    ∷ 0x12 ∷ 0 ∷ 0 ∷ 0 ∷ 0x24 ∷ 0 ∷ 0 ∷ 0 ∷ 0 ∷ 0 ∷ 0 ∷ 0 ∷ 0 ∷ 0 ∷ 0 ∷ 0 ∷ [])

pub set_rs : (r_s : ℕ) → Store → Store × ℕ
unfolding block
set_rs r_s m = block r_s m (
    0x55 ∷ 0x53 ∷ 0x42 ∷ 0x43 ∷ 0xcc ∷ 0xbb ∷ 0xcc ∷ 0xdd ∷ 0x12 ∷ 0 ∷ 0 ∷ 0 ∷ 0x80 ∷ 0 ∷ 0x06
    ∷ 0x03 ∷ 0 ∷ 0 ∷ 0 ∷ 0x12 ∷ 0 ∷ 0 ∷ 0 ∷ 0 ∷ 0 ∷ 0 ∷ 0 ∷ 0 ∷ 0 ∷ 0 ∷ 0 ∷ [])

pub set_read_capacity : (read_capacity : ℕ) → Store → Store × ℕ
unfolding block
set_read_capacity read_capacity m = block read_capacity m (
    0x55 ∷ 0x53 ∷ 0x42 ∷ 0x43 ∷ 0xdd ∷ 0xbb ∷ 0xcc ∷ 0xdd ∷ 0x08 ∷ 0 ∷ 0 ∷ 0 ∷ 0x80 ∷ 0 ∷ 0x0a
    ∷ 0x25 ∷ 0 ∷ 0 ∷ 0 ∷ 0 ∷ 0 ∷ 0 ∷ 0 ∷ 0 ∷ 0 ∷ 0 ∷ 0 ∷ 0 ∷ 0 ∷ 0 ∷ 0 ∷ [])

-- The last field, `control`, is not set: it keeps the 0 of the page.
pub set_read_capacity_16 : (r_capacity_16 : ℕ) → Store → Store × ℕ
unfolding block
set_read_capacity_16 r_capacity_16 m = block r_capacity_16 m (
    0x55 ∷ 0x53 ∷ 0x42 ∷ 0x43 ∷ 0xdd ∷ 0xbb ∷ 0xcc ∷ 0xdd ∷ 0x08 ∷ 0 ∷ 0 ∷ 0 ∷ 0x80 ∷ 0 ∷ 0x10
    ∷ 0x9e ∷ 0x10 ∷ 0 ∷ 0 ∷ 0 ∷ 0 ∷ 0 ∷ 0 ∷ 0 ∷ 0 ∷ 0 ∷ 0 ∷ 0 ∷ 0x08 ∷ 0 ∷ [])

pub set_cbw_6_data : (cbw_6_1 : ℕ) → Store → (lba_low_low lba_low_high : ℕ) → Store × ℕ
unfolding block
set_cbw_6_data cbw_6_1 m lba_low_low lba_low_high = block cbw_6_1 m (
    0x55 ∷ 0x53 ∷ 0x42 ∷ 0x43 ∷ 0x0a ∷ 0x01 ∷ 0x02 ∷ 0x0d ∷ 0 ∷ 2 ∷ 0 ∷ 0 ∷ 0x80 ∷ 0 ∷ 0x06 ∷ 0x08
    ∷ 0 ∷ lba_low_high ∷ lba_low_low ∷ 1 ∷ 0 ∷ 0 ∷ 0 ∷ 0 ∷ 0 ∷ 0 ∷ 0 ∷ 0 ∷ 0 ∷ 0 ∷ 0 ∷ [])

pub set_cbw_12_data : (cbw_12_1 : ℕ) → Store → (lba_low_low lba_low_high : ℕ) → Store × ℕ
unfolding block
set_cbw_12_data cbw_12_1 m lba_low_low lba_low_high = block cbw_12_1 m (
    0x55 ∷ 0x53 ∷ 0x42 ∷ 0x43 ∷ 0x04 ∷ 0x03 ∷ 0x02 ∷ 0x01 ∷ 0 ∷ 2 ∷ 0 ∷ 0 ∷ 0x80 ∷ 0 ∷ 0x0c ∷ 0xa8
    ∷ 0 ∷ 0 ∷ 0 ∷ lba_low_high ∷ lba_low_low ∷ 0 ∷ 0 ∷ 0 ∷ 1 ∷ 0 ∷ 0 ∷ 0 ∷ 0 ∷ 0 ∷ 0 ∷ [])

pub set_tur : (tur : ℕ) → Store → Store × ℕ
unfolding block
set_tur tur m = block tur m (
    0x55 ∷ 0x53 ∷ 0x42 ∷ 0x43 ∷ 0xdd ∷ 0xcc ∷ 0xbb ∷ 0xaa ∷ 0 ∷ 0 ∷ 0 ∷ 0 ∷ 0x80 ∷ 0 ∷ 0x06 ∷ 0x00
    ∷ 0 ∷ 0 ∷ 0 ∷ 0 ∷ 0 ∷ 0 ∷ 0 ∷ 0 ∷ 0 ∷ 0 ∷ 0 ∷ 0 ∷ 0 ∷ 0 ∷ 0 ∷ [])

pub set_identify : (idtf : ℕ) → Store → Store × ℕ
unfolding block
set_identify idtf m = block idtf m (
    0x55 ∷ 0x53 ∷ 0x42 ∷ 0x43 ∷ 0xdd ∷ 0xcc ∷ 0xbb ∷ 0xaa ∷ 0 ∷ 0 ∷ 0 ∷ 0 ∷ 0x80 ∷ 0 ∷ 0x01 ∷ 0x80
    ∷ 0 ∷ 0 ∷ 0 ∷ 0 ∷ 0 ∷ 0 ∷ 0 ∷ 0 ∷ 0 ∷ 0 ∷ 0 ∷ 0 ∷ 0 ∷ 0 ∷ 0 ∷ [])

pub select_lba_low : ℕ → ℕ
select_lba_low l = u8 (l % 255)

pub select_lba_low2 : ℕ → ℕ
select_lba_low2 l = if ltb 255 l then u8 (l / 255) else 0

-- `while((l /= 256) > 0) a++;`: a number of 32 bits is 0 after four rounds.
lba_high_loop : ℕ → (l a : ℕ) → ℕ
lba_high_loop zero l a = a
lba_high_loop (suc rounds) l a =
    let rest = lba_high_loop rounds (l / 256) (u8 (a + 1)) in if ltb 0 (l / 256) then rest else a

pub select_lba_high : ℕ → ℕ
select_lba_high l = lba_high_loop 4 l 0
