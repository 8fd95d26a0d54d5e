-- ===== src/Pci.antt =====
-- The accesses of kernel/device/pci.c to the configuration space, and what it reads from the header
-- of a device. A read writes an address to one port and takes a dword from another: `config` is the
-- dword that the bus gives for an address. Reading is taken to leave the space as it is.
pub mod Address
pub mod Find
pub mod Names
mod Tests
use john_os.Common.{
  ℕ, zero, suc, ◌+◌, ◌-◌, ◌*◌, ◌/◌, ◌%◌, ◌^◌, ◌≤◌, ◌<◌, ◌≡◌, refl, sym, ap, ◌∙◌, fun_ext, ◌≢◌, ◌⊎◌,
  inl, inr, Bool, true, false, ◌&&◌, ◌||◌, not, Option, none, some, List, [], ◌∷◌, ◌++◌, arith, u8,
  u16, u32, not32, ◌<<<◌, ◌>>>◌, ltb, leb, ◌==◌, if◌then◌else◌, ==_refl, Bool-cases, eq→==, ==→eq,
  ==_iff, bit_and, bit_or, bit_xor, min, max, ◌↔◌, ◌>>=◌,
}

-- `(PCI_BUS(p_bus) | (PCI_DEVICE(p_device)) | PCI_FUNCTION(p_func) | (p_offset & 0xfc) | PCI_ENABLE)`
-- on 32 bits; also `PCI_Config_RW3`.
pub config_address : (p_bus p_device p_func p_offset : ℕ) → ℕ
config_address p_bus p_device p_func p_offset =
    bit_or
      (bit_or (bit_or (bit_or (u32 (p_bus <<< 16)) (u32 (p_device <<< 11))) (u32 (p_func <<< 8)))
        (bit_and p_offset 0xfc))
      (2 ^ 31)

module _ (config : (address : ℕ) → ℕ) where
  pub pci_config_rw2 : (p_bus p_device p_func p_offset : ℕ) → ℕ
  pci_config_rw2 p_bus p_device p_func p_offset =
      config (config_address p_bus p_device p_func p_offset)

  -- The word of the dword that the offset means.
  word_of : (p_offset preturn : ℕ) → ℕ
  word_of p_offset preturn = u16 (bit_and (preturn >>> (bit_and p_offset 2 * 8)) 0xffff)

  pub pci_config_rw : (p_bus p_device p_func p_offset : ℕ) → ℕ
  unfolding word_of pci_config_rw2
  pci_config_rw p_bus p_device p_func p_offset =
      word_of p_offset (pci_config_rw2 p_bus p_device p_func p_offset)

  -- The offsets of the base addresses, where the lowest bit tells ports from memory.
  is_port_base : (p_offset preturn : ℕ) → Bool
  is_port_base p_offset preturn = ltb 15 p_offset && (ltb p_offset 37 && bit_and preturn 1 == 1)

  pub pci_config_rw_uhci : (p_bus p_device p_func p_offset : ℕ) → ℕ
  unfolding word_of pci_config_rw2 is_port_base
  pci_config_rw_uhci p_bus p_device p_func p_offset =
      let preturn = pci_config_rw2 p_bus p_device p_func p_offset in
      if is_port_base p_offset preturn
      then u16 (bit_and preturn 0xffe0)
      else word_of p_offset preturn

  pub pci_config_rw_uhci2 : (p_bus p_device p_func p_offset : ℕ) → ℕ
  unfolding pci_config_rw2 is_port_base
  pci_config_rw_uhci2 p_bus p_device p_func p_offset =
      let preturn = pci_config_rw2 p_bus p_device p_func p_offset in
      if is_port_base p_offset preturn then bit_and preturn 0xffff_ffe0 else preturn

  -- The new `ethernetc_io_address`, or `none` where it keeps its value.
  pub pci_config_rw_ethernetc_io : (p_bus p_device p_func p_offset : ℕ) → Option ℕ
  unfolding pci_config_rw2 is_port_base
  pci_config_rw_ethernetc_io p_bus p_device p_func p_offset =
      let preturn = pci_config_rw2 p_bus p_device p_func p_offset in
      if is_port_base p_offset preturn then some (bit_and preturn 0xffff_fff8) else none

  pub get_pci_vd : (bus device funct : ℕ) → ℕ
  unfolding pci_config_rw
  get_pci_vd bus device funct = if pci_config_rw bus device funct 0 == 0xFFFF then 0 else 1

  -- A field of the header, or 512 where the device does not exist. The test looks at function 0.
  field_or_512 : (bus device value : ℕ) → ℕ
  unfolding pci_config_rw
  field_or_512 bus device value = if pci_config_rw bus device 0 0 == 0xFFFF then 512 else value

  pub check_pci_function : (bus device funct : ℕ) → ℕ
  unfolding field_or_512
  check_pci_function bus device funct =
      field_or_512 bus device (bit_and (pci_config_rw bus device funct 10) 0xff)

  pub get_pci_header_type : (bus device funct : ℕ) → ℕ
  unfolding field_or_512
  get_pci_header_type bus device funct =
      field_or_512 bus device (bit_and (pci_config_rw bus device funct 14) 0xff)

  pub check_pci_type : (bus device funct : ℕ) → ℕ
  unfolding field_or_512
  check_pci_type bus device funct =
      field_or_512 bus device (bit_and (pci_config_rw bus device funct 11 >>> 8) 0xff)

  pub check_pci_progif : (bus device funct : ℕ) → ℕ
  unfolding field_or_512
  check_pci_progif bus device funct =
      field_or_512 bus device (bit_and (pci_config_rw bus device funct 9 >>> 8) 0xff)

  pub read_device_intline : (bus device funct : ℕ) → ℕ
  unfolding field_or_512
  read_device_intline bus device funct =
      field_or_512 bus device (bit_and (pci_config_rw bus device funct 0x3c) 0xff)

  -- How often `check_pci_function` is called: the result is never used.
  pub check_pci_devices : (bus device : ℕ) → ℕ
  unfolding get_pci_header_type get_pci_vd
  check_pci_devices bus device =
      let header_type = get_pci_header_type bus device 0 in
      let calls = if get_pci_vd bus device 0 == 0xFFFF then 0 else 7 in
      if not (pci_config_rw bus device 0 0 == 0xFFFF) && header_type == 0
      then (if not (bit_and header_type 0x80 == 0) then calls else 0)
      else 0
