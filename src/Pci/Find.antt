-- ===== src/Pci/Find.antt =====
-- The scans of kernel/device/pci.c over all buses, devices and functions, and what the kernel keeps
-- of a device that it found.
pub mod First
pub mod Candidate
use john_os.Common.{
  ℕ, zero, suc, ◌+◌, ◌-◌, ◌*◌, ◌/◌, ◌%◌, ◌^◌, ◌≤◌, ◌<◌, ◌≡◌, refl, sym, ap, ◌∙◌, fun_ext, ◌≢◌, ◌⊎◌,
  inl, inr, Bool, true, false, ◌&&◌, ◌||◌, not, Option, none, some, List, [], ◌∷◌, ◌++◌, arith, u8,
  u16, u32, not32, ◌<<<◌, ◌>>>◌, ltb, leb, ◌==◌, if◌then◌else◌, ==_refl, Bool-cases, eq→==, ==→eq,
  ==_iff, bit_and, bit_or, bit_xor, min, max, ◌↔◌, ◌>>=◌,
}
use john_os.Pci.{
  pci_config_rw, pci_config_rw2, pci_config_rw_uhci, pci_config_rw_ethernetc_io, check_pci_type,
  check_pci_function, check_pci_progif, get_pci_header_type,
}

or_else : {A : Type 0} → Option A → Option A → Option A
or_else none rest = rest
or_else (some a) rest = some a

-- The first index from `i` on, of `rounds` many, where `try` gives a result: a loop that returns it.
pub first : {A : Type 0} → (rounds : ℕ) → (try : ℕ → Option A) → (i : ℕ) → Option A
unfolding or_else
first zero try i = none
first (suc rounds) try i = let rest = first rounds try (i + 1) in or_else (try i) rest

-- Bus, device and function.
pub record Place : Type 0 where
  pub bus : ℕ
  pub device : ℕ
  pub function : ℕ

-- The addresses that `set_device` stores, each with the place of its device.
pub record Devices : Type 0 where
  pub uhci : Place
  pub uhci_mem_address : ℕ
  pub xhci : Place
  pub xhci_mem_address_attr_doorb : ℕ
  pub ehci : Place
  pub ehci_mem_address : ℕ
  pub ohci : Place
  pub ohci_mem_address : ℕ
  pub ethernetc : Place
  pub ethernetc_mem_address : ℕ
  pub ethernetc_flash_address : ℕ
  pub ethernetc_io_address : ℕ
  pub ahci : Place
  pub ahci_base_address : ℕ

module _ (config : (address : ℕ) → ℕ) where
  pub is_multifunction : (pbus pdevice : ℕ) → Bool
  is_multifunction pbus pdevice =
      not (bit_and (get_pci_header_type config pbus pdevice 0) 0x80 == 0)

  pub matches : (f_class f_subclass f_pprogif pbus pdevice function : ℕ) → Bool
  matches f_class f_subclass f_pprogif pbus pdevice function =
      check_pci_type config pbus pdevice function == f_class
      && (check_pci_function config pbus pdevice function == f_subclass
          && check_pci_progif config pbus pdevice function == f_pprogif)

  try_function : (f_class f_subclass f_pprogif pbus pdevice function : ℕ) → Option Place
  try_function f_class f_subclass f_pprogif pbus pdevice function =
      if matches f_class f_subclass f_pprogif pbus pdevice function
      then some (record { bus = pbus; device = pdevice; function = function })
      else none

  -- The body of the loops of `find_device`. A device with several functions is searched from
  -- function 1 on.
  pub find_function : (f_class f_subclass f_pprogif pbus pdevice : ℕ) → Option Place
  find_function f_class f_subclass f_pprogif pbus pdevice =
      let try = try_function f_class f_subclass f_pprogif pbus pdevice in
      if pci_config_rw config pbus pdevice 0 0 == 0xFFFF
      then none
      else if is_multifunction pbus pdevice
      then first 7 try 1
      else try 0

  find_on_bus : (f_class f_subclass f_pprogif pbus : ℕ) → Option Place
  find_on_bus f_class f_subclass f_pprogif pbus =
      first 32 (find_function f_class f_subclass f_pprogif pbus) 0

  pub find_place : (f_class f_subclass f_pprogif : ℕ) → Option Place
  find_place f_class f_subclass f_pprogif = first 256 (find_on_bus f_class f_subclass f_pprogif) 0

  -- What is stored for an Ethernet controller.
  set_ethernet : Devices → Place → Devices
  set_ethernet s p =
      let read = pci_config_rw2 config p.bus p.device p.function in
      let temp = read 20 in
      record s {
        ethernetc = p;
        ethernetc_mem_address = read 16;
        ethernetc_flash_address = if bit_and temp 1 == 1 then temp - 1 else temp;
        ethernetc_io_address =
            elim (pci_config_rw_ethernetc_io config p.bus p.device p.function 24) [
              | none ↦ s.ethernetc_io_address
              | some address ↦ address
            ];
      }

  -- The first test has no `else`, so a UHCI also gets the message that there is no such device:
  -- the result says whether that is printed.
  pub set_device : Devices → Place → (pci_class pci_func pci_pprogif : ℕ) → Devices × Bool
  unfolding set_ethernet
  set_device s0 p pci_class pci_func pci_pprogif =
      let is = λ (c f i : ℕ). pci_class == c && (pci_func == f && pci_pprogif == i) in
      let read = pci_config_rw2 config p.bus p.device p.function in
      let s =
        if is 0xc 0x3 0
        then record s0 {
          uhci = p;
          uhci_mem_address = pci_config_rw_uhci config p.bus p.device p.function 32;
        }
        else s0 in
      if is 0xc 0x3 0x30
      then (
        record s { xhci = p; xhci_mem_address_attr_doorb = bit_and (read 0x10) 0xffff_fff0 },
        false,
      )
      else if is 0x0c 0x03 0x20
      then (record s { ehci = p; ehci_mem_address = read 16 }, false)
      else if is 0xc 0x3 0x10
      then (record s { ohci = p; ohci_mem_address = read 16 }, false)
      else if is 2 0 0
      then (set_ethernet s p, false)
      else if is 0x1 0x6 0x1
      then (record s { ahci = p; ahci_base_address = bit_and (read 0x24) 0xffff_fff0 }, false)
      else (s, true)

  -- `pci_device_array` and the result, which is 0 where there is no such device.
  pub find_device : Devices → (f_class f_subclass f_pprogif : ℕ) → Devices × Place × Option Place
  unfolding find_place set_device
  find_device s f_class f_subclass f_pprogif = elim (find_place f_class f_subclass f_pprogif) [
    | none ↦ (s, record { bus = 0; device = 1; function = 0 }, none)
    | some p ↦ ((set_device s p f_class f_subclass f_pprogif).0, p, some p)
  ]

  -- The functions of one device that `pci_bscan_devices` lists, with class, subclass and interface.
  listed_functions : (pbus pdevice rounds function : ℕ) → List (ℕ × ℕ × ℕ × ℕ)
  listed_functions pbus pdevice zero function = []
  listed_functions pbus pdevice (suc rounds) function =
      (
        check_pci_type config pbus pdevice function,
        check_pci_function config pbus pdevice function,
        check_pci_progif config pbus pdevice function,
        function,
      )
      ∷ listed_functions pbus pdevice rounds (function + 1)

  -- The calls of `list_pci_devices` for one device.
  pub listed_device : (pbus pdevice : ℕ) → List (ℕ × ℕ × ℕ × ℕ)
  unfolding listed_functions is_multifunction
  listed_device pbus pdevice =
      if pci_config_rw config pbus pdevice 0 0 == 0xFFFF
      then []
      else if is_multifunction pbus pdevice
      then listed_functions pbus pdevice 7 1
      else listed_functions pbus pdevice 1 0

  listed_devices : (pbus rounds pdevice : ℕ) → List (ℕ × ℕ × ℕ × ℕ)
  unfolding listed_device
  listed_devices pbus zero pdevice = []
  listed_devices pbus (suc rounds) pdevice =
      listed_device pbus pdevice ++ listed_devices pbus rounds (pdevice + 1)

  listed_buses : (rounds pbus : ℕ) → List (ℕ × ℕ × ℕ × ℕ)
  unfolding listed_devices
  listed_buses zero pbus = []
  listed_buses (suc rounds) pbus = listed_devices pbus 32 0 ++ listed_buses rounds (pbus + 1)

  pub pci_bscan_devices : List (ℕ × ℕ × ℕ × ℕ)
  unfolding listed_buses
  pci_bscan_devices = listed_buses 256 0
