-- ===== src/Pci/Names/Table.antt =====
-- The `switch` of `list_pci_devices` in kernel/device/pci.c as one table, and the function.
pub mod Reached
use john_os.Common.{
  ℕ, zero, suc, ◌+◌, ◌-◌, ◌*◌, ◌/◌, ◌%◌, ◌^◌, ◌≤◌, ◌<◌, ◌≡◌, refl, sym, ap, ◌∙◌, fun_ext, ◌≢◌, ◌⊎◌,
  inl, inr, Bool, true, false, ◌&&◌, ◌||◌, not, Option, none, some, List, [], ◌∷◌, ◌++◌, arith, u8,
  u16, u32, not32, ◌<<<◌, ◌>>>◌, ltb, leb, ◌==◌, if◌then◌else◌, ==_refl, Bool-cases, eq→==, ==→eq,
  ==_iff, bit_and, bit_or, bit_xor, min, max, ◌↔◌, ◌>>=◌,
}
use Prim.Native.String.{String}
use john_os.Pci.Names.{Row, Class, find_row, find_class}
use john_os.Pci.Names.Low.{
  vga_rows, mass_storage_rows, network_rows, display_rows, multimedia_rows, memory_rows,
  bridge_rows, communication_rows,
}
use john_os.Pci.Names.High.{
  base_system_rows, input_device_rows, docking_rows, processor_rows, serial_bus_rows, wireless_rows,
  intelligent_io_rows, satellite_rows, encryption_rows, data_processing_rows,
}

abbrev class : String → List Row → Class
class kind rows = record { kind = kind; rows = rows }

abbrev pub classes : List (ℕ × Class)
classes =
    (0x0, class "VGA/Non-VGA" vga_rows)
    ∷ (0x1, class "Mass storage controller" mass_storage_rows)
    ∷ (0x2, class "Network Controller" network_rows)
    ∷ (0x3, class "Display Controller" display_rows)
    ∷ (0x4, class "Multimedia Device" multimedia_rows)
    ∷ (0x5, class "Memory Controller" memory_rows)
    ∷ (0x6, class "Bridge Device" bridge_rows)
    ∷ (0x7, class "Simple Communication Controllers" communication_rows)
    ∷ (0x8, class "Base System Peripherals" base_system_rows)
    ∷ (0x9, class "Input Devices" input_device_rows)
    ∷ (0xa, class "Docking Stations" docking_rows)
    ∷ (0xb, class "Processors" processor_rows)
    ∷ (0xc, class "Serial Bus Controllers" serial_bus_rows)
    ∷ (0xd, class "Wireless Controllers" wireless_rows)
    ∷ (0xe, class "Intelligent I/O Controllers" intelligent_io_rows)
    ∷ (0xf, class "Satellite Communication Controllers" satellite_rows)
    ∷ (0x10, class "Encryption/Decryption Controllers" encryption_rows)
    ∷ (0x11, class "Data A/S Processing Controllers" data_processing_rows)
    ∷ []

-- What is printed: the number of a function, the value of a subclass, a type with a function, or
-- `Type: Reserved`.
pub data Printed : Type 0 where
  function_number : (f : ℕ) → Printed
  subclass_value : (pci_func : ℕ) → Printed
  device : (kind function : String) → Printed
  reserved : Printed

-- The type and the function of the row that was found.
described : Class → Option Row → List Printed
described c none = []
described c (some r) = device c.kind r.function ∷ []

listed_class : (pci_type pci_func pci_progif : ℕ) → Option Class → List Printed
unfolding described find_row
listed_class pci_type pci_func pci_progif none =
    if ltb 0x11 pci_type && ltb pci_type 0xff then reserved ∷ [] else []
listed_class pci_type pci_func pci_progif (some c) =
    let value = if pci_type == 0 && ltb 0 pci_func then subclass_value pci_func ∷ [] else [] in
    value ++ described c (find_row c.rows pci_func pci_progif)

pub list_pci_devices : (pci_type pci_func pci_progif f : ℕ) → List Printed
unfolding listed_class find_class
list_pci_devices pci_type pci_func pci_progif f =
    let number = if ltb 0 f then function_number f ∷ [] else [] in
    if ltb 0xff pci_type || (ltb 0xff pci_func || ltb 0xff pci_progif)
    then []
    else number ++ listed_class pci_type pci_func pci_progif (find_class classes pci_type)
