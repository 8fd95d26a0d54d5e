-- ===== src/Fat16.antt =====
-- The volume of kernel/fs/fat16.c: where its boot block is, the parameters in that block, and the
-- reading of a file. A block is read by `prepare_usb_storage_bulk_transfer`, with the transfer of
-- the host controller as an argument.
pub mod Sectors
mod Tests
use john_os.Common.{
  ℕ, zero, suc, ◌+◌, ◌-◌, ◌*◌, ◌/◌, ◌%◌, ◌^◌, ◌≤◌, ◌<◌, ◌≡◌, refl, sym, ap, ◌∙◌, fun_ext, ◌≢◌, ◌⊎◌,
  inl, inr, Bool, true, false, ◌&&◌, ◌||◌, not, Option, none, some, List, [], ◌∷◌, ◌++◌, arith, u8,
  u16, u32, not32, ◌<<<◌, ◌>>>◌, ltb, leb, ◌==◌, if◌then◌else◌, ==_refl, Bool-cases, eq→==, ==→eq,
  ==_iff, bit_and, bit_or, bit_xor, min, max, ◌↔◌, ◌>>=◌,
}
use john_os.Common.Store.{Store, read16}
use john_os.MemFill.{memset2}
use john_os.PageMap.{Pages, kmem_4k_allocate}
use john_os.MassStorage.Prepare.{prepare_usb_storage_bulk_transfer}

-- The parameters that `get_bpb_struct` keeps.
pub record Volume : Type 0 where
  pub maximum_root_directory_entries : ℕ
  pub fat_bytes_per_sector : ℕ
  pub fat_sectors_per_cluster : ℕ
  pub fat_reserved_sectors : ℕ
  pub fat_copies : ℕ
  pub fat_sectors_per_fat : ℕ
  pub fat_root_area : ℕ
  pub fat_data_cluster_start : ℕ

-- `0 | ((bpb_high << 8) | bpb_low)` of the block at `bpb_position`.
pub bpb_of : Store → (bpb_position : ℕ) → ℕ
bpb_of m bpb_position = bit_or 0 (bit_or (m (bpb_position + 455) <<< 8) (m (bpb_position + 454)))

-- The parameters in the structure at `p`, for a boot block at `bpb_pos`.
pub parameters : Store → (p bpb_pos : ℕ) → Volume
parameters m p bpb_pos =
    let entries = read16 m (p + 17) in
    let bytes = read16 m (p + 11) in
    let reserved = read16 m (p + 14) in
    let copies = m (p + 16) in
    let sectors_per_fat = read16 m (p + 22) in
    let root_area = u16 (bpb_pos + reserved + sectors_per_fat * copies) in
    record {
      maximum_root_directory_entries = entries;
      fat_bytes_per_sector = bytes;
      fat_sectors_per_cluster = m (p + 13);
      fat_reserved_sectors = reserved;
      fat_copies = copies;
      fat_sectors_per_fat = sectors_per_fat;
      fat_root_area = root_area;
      fat_data_cluster_start = u16 (root_area + entries * 32 / bytes + 2 ^ 16 - 8);
    }

-- The same, where `none` is the division by 0 of a structure with no bytes in a sector.
pub volume_of : Store → (p bpb_pos : ℕ) → Option Volume
volume_of m p bpb_pos = if read16 m (p + 11) == 0 then none else some (parameters m p bpb_pos)

-- The sector where the file at a cluster starts.
pub file_sector : Volume → (cluster_number : ℕ) → ℕ
file_sector v cluster_number =
    u32 (v.fat_data_cluster_start + u32 (v.fat_sectors_per_cluster * cluster_number))

-- `for(uint32_t a = 0; a < f_size; a++)` from `a` on, with `rounds` rounds to go: the characters that
-- are printed, with a new line in front of every 76th.
pub file_text : ℕ → Store → (file_data_area a : ℕ) → List ℕ
file_text zero m p a = []
file_text (suc rounds) m p a =
    let c = if ltb 127 (m (p + a)) then b' ' else m (p + a) in
    let rest = c ∷ file_text rounds m p (a + 1) in
    if a % 76 == 0 && ltb 0 a then b'\n' ∷ rest else rest

module _ (transfer : Store → ℕ → Store × ℕ) (hci_in_use : ℕ) where
  -- One block of 512 bytes.
  read_block : Pages → (lba : ℕ) → Pages × ℕ
  read_block s lba = prepare_usb_storage_bulk_transfer transfer hci_in_use s 0x28 0x80 0 512 1 lba

  -- `USB_MASS_STORAGE` is 52; another device has no block, and 0 is the result.
  pub get_bpb_sector : (current_device_type : ℕ) → Pages → Pages × ℕ
  unfolding read_block
  get_bpb_sector current_device_type s =
      let (s', bpb_position) = if current_device_type == 52 then read_block s 0 else (s, 0) in
      if bpb_position == 0 then (s', 0) else (s', bpb_of s'.ram bpb_position)

  -- The copy of the block has a page of its own. 0x600000 is the address of the data of a transfer
  -- that failed, where the old parameters stay.
  pub get_bpb_struct :
      (current_device_type : ℕ) → Pages → Volume → (bpb_pos : ℕ) → Option (Pages × Volume)
  unfolding read_block
  get_bpb_struct current_device_type s v bpb_pos =
      let (s1, get_bpb) = if current_device_type == 52 then read_block s bpb_pos else (s, 0) in
      let (s2, bpb_struct) = kmem_4k_allocate s1 in
      let ram = memset2 s2.ram bpb_struct get_bpb 512 in
      if get_bpb == 0x600000
      then some (s1, v)
      else (volume_of ram bpb_struct bpb_pos
          >>= (λ (v' : Volume). some (record s2 { ram = ram }, v')))

  -- The text of a file that is printed: `none` for a bad cluster number or a transfer that failed.
  -- One block is read, whatever the size is.
  pub read_fat16_file : Pages → Volume → (cluster_number f_size : ℕ) → Pages × Option (List ℕ)
  unfolding read_block
  read_fat16_file s v cluster_number f_size =
      let (s', file_data_area) = read_block s (file_sector v cluster_number) in
      if not (ltb cluster_number 0x3500)
      then (s, none)
      else if file_data_area == 0x600000
      then (s', none)
      else (s', some (file_text (u32 (f_size + 2 ^ 32 - 1)) s'.ram file_data_area 0))
