-- ===== src/Pci/Tests.antt =====
-- A bus with one controller, and the theorems at it.
use john_os.Common.{
  ℕ, ◌/◌, ◌%◌, ◌^◌, ◌<◌, ◌≡◌, refl, ◌≢◌, ◌⊎◌, inl, ◌&&◌, none, some, [], ◌∷◌, ◌++◌, arith, ltb,
  ◌==◌, if◌then◌else◌,
}
use john_os.Pci.{
  config_address, pci_config_rw, pci_config_rw2, check_pci_type, check_pci_function,
  check_pci_progif, get_pci_header_type, read_device_intline, word_of,
}
use john_os.Pci.Address.{header-fields}
use john_os.Pci.Find.{Place, find_place}
use john_os.Pci.Find.Candidate.{Candidate, Earlier, find_place-Earliest}
use john_os.Pci.Names.{Row, Class, find_class}
use john_os.Pci.Names.Low.{mass_storage_rows}
use john_os.Pci.Names.Table.{classes, device, subclass_value, list_pci_devices}
use john_os.Pci.Names.Table.Reached.{func_of, progif_of, In, list_pci_devices-In}

same_dword : config_address 1 2 3 9 ≡ config_address 1 2 3 8
unfolding config_address
same_dword = refl

-- Every dword is that of an EHCI controller.
abbrev ehci : ℕ → ℕ
ehci address = 0x0c03_2000

ehci_small : (a : ℕ) → ehci a < 2 ^ 32
ehci_small a = omega arith

ehci_present : pci_config_rw ehci 0 0 0 0 ≢ 0xFFFF
unfolding pci_config_rw word_of pci_config_rw2
ehci_present = ground arith

header-fields_example :
    let dword = pci_config_rw2 ehci 0 0 0 in
    (check_pci_type ehci 0 0 0 ≡ dword 8 / 2 ^ 24)
    × (check_pci_function ehci 0 0 0 ≡ dword 8 / 2 ^ 16 % 256)
    × (check_pci_progif ehci 0 0 0 ≡ dword 8 / 2 ^ 8 % 256)
    × (get_pci_header_type ehci 0 0 0 ≡ dword 12 / 2 ^ 16 % 256)
    × (read_device_intline ehci 0 0 0 ≡ dword 0x3c % 256)
header-fields_example = header-fields ehci ehci_small 0 0 0 ehci_present

find_place-Earliest_example :
    ((find_place ehci 0xc 0x3 0x20 ≡ none)
      × ((b d f : ℕ) → b < 256 → d < 32 → ¬ Candidate ehci 0xc 0x3 0x20 b d f))
    ⊎ ((p : Place) × (find_place ehci 0xc 0x3 0x20 ≡ some p)
        × (p.bus < 256)
        × (p.device < 32)
        × Candidate ehci 0xc 0x3 0x20 p.bus p.device p.function
        × ((b d f : ℕ) → d < 32 → Earlier b d f p → ¬ Candidate ehci 0xc 0x3 0x20 b d f))
find_place-Earliest_example = find_place-Earliest ehci 0xc 0x3 0x20

abbrev mass_storage : Class
mass_storage = record { kind = "Mass storage controller"; rows = mass_storage_rows }

abbrev scsi : Row
scsi = record { pci_func = some 0; pci_progif = none; function = "SCSI Bus Controller" }

mass_storage_class : find_class classes 1 ≡ some mass_storage
unfolding find_class
mass_storage_class = refl

scsi-In : In scsi mass_storage.rows
unfolding In
scsi-In = inl refl

list_pci_devices-In_example :
    list_pci_devices 1 (func_of scsi) (progif_of scsi) 0
    ≡ (if 1 == 0 && ltb 0 (func_of scsi) then subclass_value (func_of scsi) ∷ [] else [])
      ++ (device mass_storage.kind scsi.function ∷ [])
list_pci_devices-In_example =
    list_pci_devices-In 1 mass_storage scsi (omega arith) mass_storage_class scsi-In
