-- ===== src/MassStorage/Prepare.antt =====
-- `prepare_usb_storage_bulk_transfer` of kernel/device/usb/usb_mass_storage.c, which builds a
-- command block in a page of its own and hands it to the host controller. The transfer itself,
-- `ehci_transfer_bulkstorage_data`, is an argument: it takes the memory and the address of the
-- block, and gives the memory and the address of the data. The messages, the stop of the EHCI and
-- the `hlt` in front of a transfer that is not expected are left out: the code goes on behind them.
pub mod Transfers
use john_os.Common.{
  ℕ, zero, suc, ◌+◌, ◌-◌, ◌*◌, ◌/◌, ◌%◌, ◌^◌, ◌≤◌, ◌<◌, ◌≡◌, refl, sym, ap, ◌∙◌, fun_ext, ◌≢◌, ◌⊎◌,
  inl, inr, Bool, true, false, ◌&&◌, ◌||◌, not, Option, none, some, List, [], ◌∷◌, ◌++◌, arith, u8,
  u16, u32, not32, ◌<<<◌, ◌>>>◌, ltb, leb, ◌==◌, if◌then◌else◌, ==_refl, Bool-cases, eq→==, ==→eq,
  ==_iff, bit_and, bit_or, bit_xor, min, max, ◌↔◌, ◌>>=◌,
}
use john_os.Common.Store.{Store}
use john_os.MemFill.{memsetbyte}
use john_os.PageMap.{Pages, kmem_4k_allocate, free_mem_uint}
use john_os.MassStorage.{store_bytes}

-- The bytes of `struct usb_storage_data`, with the fields that differ between the transfers.
usd_bytes :
    (transfer_type direction cbwlun : ℕ)
    → (length_low length_low2 cbwcw_length extra3 extra4 extra7 : ℕ) → List ℕ
usd_bytes transfer_type direction cbwlun low low2 cbwcw_length extra3 extra4 extra7 =
    0x55 ∷ 0x53 ∷ 0x42 ∷ 0x43 ∷ 0xbb ∷ 0xcc ∷ 0xbb ∷ 0xdd ∷ low ∷ low2 ∷ 0 ∷ 0 ∷ direction ∷ cbwlun
    ∷ cbwcw_length ∷ transfer_type ∷ 0 ∷ 0 ∷ 0 ∷ extra3 ∷ extra4 ∷ 0 ∷ 0 ∷ extra7 ∷ 0 ∷ 0 ∷ 0 ∷ 0
    ∷ 0 ∷ 0 ∷ 0 ∷ []

-- The tests that make the function return 0, where a length is given.
pub refused : (length : ℕ) → Bool
refused length = ltb 0 length && (ltb 20000 length && ltb length 512 || not (length % 512 == 0))

-- `usd_extra_data[0] == USB_BULKSTORAGE_SCSI_LBA`; a refused length leaves the fields behind the
-- tests at 0.
lba_bytes : (transfer_type direction cbwlun length lba : ℕ) → List ℕ
unfolding usd_bytes refused
lba_bytes transfer_type direction cbwlun length lba =
    let cbwcw_length = if transfer_type == 0x28 then 0x0a else 0 in
    let lba_high = u8 (bit_and (lba >>> 8) 0xff) in
    let lba_low = u8 (bit_and lba 0xff) in
    let blocks = if ltb 0 length then u8 (length / 512) else 0 in
    let length_low2 = if ltb 0 length then u8 (length / 256) else 0 in
    if refused length
    then usd_bytes transfer_type direction cbwlun 0 0 cbwcw_length 0 0 0
    else usd_bytes transfer_type direction cbwlun (u8 (length % 256)) length_low2 cbwcw_length
        lba_high lba_low blocks

-- `usd_extra_data[0] == USB_BULKSTORAGE_SCSI_CTL`.
ctl_bytes : (transfer_type direction cbwlun : ℕ) → List ℕ
unfolding usd_bytes
ctl_bytes transfer_type direction cbwlun =
    let bytes = usd_bytes transfer_type direction cbwlun in
    if transfer_type == 0x12
    then bytes 0x24 0 0x06 0x24 0 0
    else if transfer_type == 0x03
    then bytes 0x12 0 0x06 0x12 0 0
    else if transfer_type == 0x25
    then bytes 0x08 0 0x0a 0x00 0 0
    else bytes 0 0 0 0 0 0

-- `extra0` and `extra1` are the two entries of `usd_extra_data`.
usd_block : (transfer_type direction cbwlun length extra0 extra1 : ℕ) → List ℕ
unfolding lba_bytes ctl_bytes
usd_block transfer_type direction cbwlun length extra0 extra1 =
    if extra0 == 1
    then lba_bytes transfer_type direction cbwlun length extra1
    else if extra0 == 2
    then ctl_bytes transfer_type direction cbwlun
    else usd_bytes transfer_type direction cbwlun 0 0 0 0 0 0

pub store_usd : Store → (usd : ℕ) → List ℕ → Store
store_usd m usd bytes = store_bytes (memsetbyte m usd 0 64) usd bytes

module _ (ehci_transfer_bulkstorage_data : Store → ℕ → Store × ℕ) where
  -- The transfer, and the release of the block's page. Only the EHCI (3) has a transfer.
  hand_over : (hci_in_use : ℕ) → Pages → (usd : ℕ) → Pages × ℕ
  hand_over hci_in_use s usd =
      let (ram', d_area) = ehci_transfer_bulkstorage_data s.ram usd in
      if hci_in_use == 3
      then (free_mem_uint (record s { ram = ram' }) usd, d_area)
      else (free_mem_uint s usd, 0)

  pub prepare_usb_storage_bulk_transfer :
      (hci_in_use : ℕ)
      → Pages
      → (transfer_type direction cbwlun length extra0 extra1 : ℕ) → Pages × ℕ
  unfolding usd_block store_usd hand_over
  prepare_usb_storage_bulk_transfer hci_in_use s transfer_type direction cbwlun length extra0
        extra1 =
      let (s1, usd) = kmem_4k_allocate s in
      let bytes = usd_block transfer_type direction cbwlun length extra0 extra1 in
      let s2 = record s1 { ram = store_usd s1.ram usd bytes } in
      if extra0 == 1 && refused length then (s2, 0) else hand_over hci_in_use s2 usd
