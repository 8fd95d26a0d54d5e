-- ===== src/MassStorage/Prepare/Transfers.antt =====
-- What the device reads from the blocks of `prepare_usb_storage_bulk_transfer`, and what becomes
-- of the page that holds the block.
use john_os.Common.{
  ℕ, ◌+◌, ◌*◌, ◌/◌, ◌%◌, ◌^◌, ◌<◌, ◌≡◌, refl, ap, ◌∙◌, inl, inr, true, false, ◌&&◌, ◌||◌, not, some,
  List, arith, u8, ◌>>>◌, ltb, ◌==◌, if◌then◌else◌, Bool-cases, bit_and,
}
use john_os.Common.Bits.{bit_and-low_bits}
use john_os.Common.Store.{Store}
use john_os.MemFill.{memsetbyte}
use john_os.PageMap.{Pages, check_bit, kmem_4k_allocate, free_mem_uint}
use john_os.PageMap.Allocate.{
  kmem_4k_allocate-Allocated, free_mem-kmem_4k_allocate, free_mem_uint-same_map,
}
use john_os.MassStorage.Prepare.{
  usd_bytes, refused, lba_bytes, ctl_bytes, usd_block, store_usd, hand_over,
  prepare_usb_storage_bulk_transfer,
}
use john_os.MassStorage.Wrapper.{
  Wrapper, entry, high_first, command_of, wrapper_of, received, read, inquire, sense, capacity,
}
use john_os.MassStorage.Wrapper.Refine.{input}
use john_os.MassStorage.Wrapper.Stored.{length, received-store_bytes}

-- The transfers that the driver asks for.
pub data Transfer : Type 0 where
  read_blocks : (lba blocks : ℕ) → Transfer
  ask_inquiry : Transfer
  ask_sense : Transfer
  ask_capacity : Transfer

-- The arguments of `prepare_usb_storage_bulk_transfer` for a transfer to the host, from unit 0.
pub transfer_block : Transfer → List ℕ
unfolding usd_block
transfer_block (read_blocks lba blocks) = usd_block 0x28 0x80 0 (512 * blocks) 1 lba
transfer_block ask_inquiry = usd_block 0x12 0x80 0 36 2 0
transfer_block ask_sense = usd_block 0x03 0x80 0 18 2 0
transfer_block ask_capacity = usd_block 0x25 0x80 0 8 2 0

pub meaning : Transfer → Wrapper
unfolding input
meaning (read_blocks lba blocks) = input (512 * blocks) (read lba blocks)
meaning ask_inquiry = input 36 (inquire 36)
meaning ask_sense = input 18 (sense 18)
meaning ask_capacity = input 8 capacity

unfoldable pub IsServed : Transfer → Type 0
IsServed (read_blocks lba blocks) = (lba < 2 ^ 16) × (blocks < 128)
IsServed ask_inquiry = 0 < 1
IsServed ask_sense = 0 < 1
IsServed ask_capacity = 0 < 1

low_byte : (lba : ℕ) → u8 (bit_and lba 0xff) ≡ lba % 256
low_byte lba = let m : bit_and lba 0xff ≡ lba % 2 ^ 8 = bit_and-low_bits 8 lba in omega (arith, m)

high_byte : (lba : ℕ) → lba < 2 ^ 16 → u8 (bit_and (lba >>> 8) 0xff) ≡ lba / 256
high_byte lba h =
    let m : bit_and (lba / 2 ^ 8) 0xff ≡ lba / 2 ^ 8 % 2 ^ 8 = bit_and-low_bits 8 (lba / 2 ^ 8) in
    omega (arith, m)

read_blocks-bytes :
    (lba n : ℕ)
    → n < 128
    → lba < 2 ^ 16
    → usd_block 0x28 0x80 0 (512 * n) 1 lba
      ≡ usd_bytes 0x28 0x80 0 0 (2 * n) 0x0a (lba / 256) (lba % 256) n
unfolding usd_block lba_bytes refused
read_blocks-bytes lba n h hl =
    let goes : (ltb 0 (512 * n)
          && (ltb 20000 (512 * n) && ltb (512 * n) 512 || not (512 * n % 512 == 0)))
        ≡ false =
      ground arith in
    let low : u8 (512 * n % 256) ≡ 0 = ground arith in
    let low2 : (if ltb 0 (512 * n) then u8 (512 * n / 256) else 0) ≡ 2 * n = ground arith in
    let blocks : (if ltb 0 (512 * n) then u8 (512 * n / 512) else 0) ≡ n = ground arith in
    rw (goes, low, low2, blocks, low_byte lba, high_byte lba hl) refl

-- The device takes the block of a transfer as the command that was asked for, with the number of
-- bytes and the direction: Read 10 for block numbers below 2 ^ 16 and less than 128 blocks.
pub received-transfer_block :
    (t : Transfer) (m : Store) (usd : ℕ)
    → IsServed t
    → received (store_usd m usd (transfer_block t)) usd ≡ some (meaning t)
unfolding transfer_block meaning IsServed store_usd wrapper_of command_of entry high_first length
    input ctl_bytes usd_bytes
received-transfer_block (read_blocks lba n) m usd (hl, h) =
    let bytes : 0 + 2 * n * 2 ^ 8 + 0 * 2 ^ 16 + 0 * 2 ^ 24 ≡ 512 * n = omega arith in
    let one_byte : 0 * 2 ^ 8 + n ≡ n = omega arith in
    let whole : 0 * 2 ^ 24 + 0 * 2 ^ 16 + lba / 256 * 2 ^ 8 + lba % 256 ≡ lba = omega arith in
    let number = 0 * 2 ^ 24 + 0 * 2 ^ 16 + lba / 256 * 2 ^ 8 + lba % 256 in
    let count = 0 * 2 ^ 8 + n in
    rw (read_blocks-bytes lba n h hl) (
      received-store_bytes _ (memsetbyte m usd 0 64) usd refl
      ∙ ap (λ l. some (input l (read number count))) bytes
      ∙ ap (λ k. some (input (512 * n) (read k count))) whole
      ∙ ap (λ c. some (input (512 * n) (read lba c))) one_byte)
received-transfer_block ask_inquiry m usd served =
    received-store_bytes _ (memsetbyte m usd 0 64) usd refl
received-transfer_block ask_sense m usd served =
    received-store_bytes _ (memsetbyte m usd 0 64) usd refl
received-transfer_block ask_capacity m usd served =
    received-store_bytes _ (memsetbyte m usd 0 64) usd refl

-- Where a page is free, the page of the block is free again behind the function, whatever the
-- transfer does to memory; except for a length that is refused, which gives 0 and keeps the page.
pub prepare_usb_storage_bulk_transfer-page :
    (transfer : Store → ℕ → Store × ℕ)
    → (hci_in_use : ℕ) → (s : Pages) → (transfer_type direction cbwlun length extra0 extra1 p : ℕ)
    → p < 60800
    → check_bit s.os_memmap p ≡ 0
    → let (t, d_area) =
        prepare_usb_storage_bulk_transfer transfer hci_in_use s transfer_type direction cbwlun
          length extra0 extra1 in
      let kept = extra0 == 1 && refused length in
      (q : ℕ) × (check_bit s.os_memmap q ≡ 0)
      × ((b : ℕ)
          → check_bit t.os_memmap b ≡ (if kept && q == b then 1 else check_bit s.os_memmap b))
      × (kept ≡ true → d_area ≡ 0)
unfolding prepare_usb_storage_bulk_transfer hand_over
prepare_usb_storage_bulk_transfer-page transfer hci s type direction lun length e0 e1 p h z =
    let (q, le, al) = kmem_4k_allocate-Allocated s p h z in
    let (restored, r) = free_mem-kmem_4k_allocate s p h z in
    let usd = (kmem_4k_allocate s).1 in
    let same : (t : Pages)
        → t.os_memmap ≡ (kmem_4k_allocate s).0.os_memmap
        → (b : ℕ) → check_bit (free_mem_uint t usd).os_memmap b ≡ check_bit s.os_memmap b =
      λ t e b. ap (λ m. check_bit m b) (free_mem_uint-same_map t _ usd e) ∙ restored.0 b in
    elim (Bool-cases (e0 == 1 && refused length)) [
      | inl y ↦ rw y (q, al.was_free, al.marked, λ e. refl)
      | inr n ↦ elim (Bool-cases (hci == 3)) [
        | inl y ↦ rw (n, y) (q, al.was_free, same _ refl, λ e. ground arith)
        | inr f ↦ rw (n, f) (q, al.was_free, same _ refl, λ e. ground arith)
      ]
    ]
