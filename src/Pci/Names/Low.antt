-- ===== src/Pci/Names/Low.antt =====
-- The tests of `list_pci_devices` in kernel/device/pci.c for the classes 0 to 7.
use john_os.Common.{none, some, List, [], ◌∷◌}
use john_os.Pci.Names.{Row, row}

abbrev pub vga_rows : List Row
vga_rows = row (some 0x0) none "Non-VGA" ∷ row none none "VGA compatible device" ∷ []

abbrev pub mass_storage_rows : List Row
mass_storage_rows =
    row (some 0x0) none "SCSI Bus Controller"
    ∷ row (some 0x1) none "IDE Controller"
    ∷ row (some 0x2) none "Floppy Disk Controller"
    ∷ row (some 0x3) none "IPI Bus Controller"
    ∷ row (some 0x4) none "RAID Controller"
    ∷ row (some 0x5) (some 0x20) "ATA Controller(Single DMA)"
    ∷ row (some 0x5) (some 0x30) "ATA Controller(Chained DMA)"
    ∷ row (some 0x6) (some 0x0) "Serial ATA (Vendor Specific Interface)"
    ∷ row (some 0x6) (some 0x1) "Serial ATA (AHCI 1.0)"
    ∷ row (some 0x7) none "Serial Attached SCSI (SAS)"
    ∷ row (some 0x80) none "Other Mass Storage Controller"
    ∷ []

abbrev pub network_rows : List Row
network_rows =
    row (some 0x0) none "Ethernet Controller"
    ∷ row (some 0x1) none "Token Ring Controller"
    ∷ row (some 0x2) none "FDDI Controller"
    ∷ row (some 0x3) none "ATM Controller"
    ∷ row (some 0x4) none "ISDN Controller"
    ∷ row (some 0x5) none "WorldFip Controller"
    ∷ row (some 0x6) none "PICMG 2.14 Multi Computing"
    ∷ row (some 0x80) none "Other Network Controller"
    ∷ []

abbrev pub display_rows : List Row
display_rows =
    row (some 0x0) (some 0x0) "VGA-Compatible Controller"
    ∷ row (some 0x0) (some 0x1) "8512-Compatible Controller"
    ∷ row (some 0x1) none "XGA Controller"
    ∷ row (some 0x2) none "3D Controller (Not VGA-Compatible)"
    ∷ row (some 0x80) none "Other Display Controller"
    ∷ []

abbrev pub multimedia_rows : List Row
multimedia_rows =
    row (some 0x0) none "Video Device"
    ∷ row (some 0x1) none "Audio Device"
    ∷ row (some 0x2) none "Computer Telephony Device"
    ∷ row (some 0x80) none "Other Multimedia Device"
    ∷ []

abbrev pub memory_rows : List Row
memory_rows =
    row (some 0x0) none "RAM Controller"
    ∷ row (some 0x1) none "Flash Controller"
    ∷ row (some 0x80) none "Other Memory Controller"
    ∷ []

abbrev pub bridge_rows : List Row
bridge_rows =
    row (some 0x0) none "Host Bridge"
    ∷ row (some 0x1) none "ISA Bridge"
    ∷ row (some 0x2) none "EISA Bridge"
    ∷ row (some 0x3) none "MCA Bridge"
    ∷ row (some 0x4) (some 0x0) "PCI-to-PCI Bridge"
    ∷ row (some 0x4) (some 0x1) "PCI-to-PCI Bridge (Subtractive Decode)"
    ∷ row (some 0x5) none "PCMCIA Bridge"
    ∷ row (some 0x6) none "NuBus Bridge"
    ∷ row (some 0x7) none "CardBus Bridge"
    ∷ row (some 0x8) none "RACEway Bridge"
    ∷ row (some 0x9) (some 0x40) "PTP Bridge (Semi-Transparent, Primary)"
    ∷ row (some 0x9) (some 0x80) "PTP Bridge (Semi-Transparent, Secondary)"
    ∷ row (some 0xa) none "RAM Controller"
    ∷ row (some 0x80) none "Other Bridge Device"
    ∷ []

abbrev pub communication_rows : List Row
communication_rows =
    row (some 0x0) (some 0x0) "Generic XT-Compatible Serial Controller"
    ∷ row (some 0x0) (some 0x1) "16450-Compatible Serial Controller"
    ∷ row (some 0x0) (some 0x2) "16550-Compatible Serial Controller"
    ∷ row (some 0x0) (some 0x3) "16650-Compatible Serial Controller"
    ∷ row (some 0x0) (some 0x4) "16750-Compatible Serial Controller"
    ∷ row (some 0x0) (some 0x5) "16850-Compatible Serial Controller"
    ∷ row (some 0x0) (some 0x6) "16950-Compatible Serial Controller"
    ∷ row (some 0x1) (some 0x0) "Parallel Port"
    ∷ row (some 0x1) (some 0x1) "Bi-Directional Parallel Port"
    ∷ row (some 0x1) (some 0x2) "ECP 1.X Compliant Parallel Port"
    ∷ row (some 0x1) (some 0x3) "IEEE 1284 Controller"
    ∷ row (some 0x1) (some 0xfe) "IEEE 1284 Target Device"
    ∷ row (some 0x2) none "Multiport Serial Controller"
    ∷ row (some 0x3) (some 0x0) "Generic Modem"
    ∷ row (some 0x3) (some 0x1) "H. Modem (16450-Compatible Interface)"
    ∷ row (some 0x3) (some 0x2) "H. Modem (16550-Compatible Interface)"
    ∷ row (some 0x3) (some 0x3) "H. Modem (16650-Compatible Interface)"
    ∷ row (some 0x3) (some 0x4) "H. Modem (16750-Compatible Interface)"
    ∷ row (some 0x4) none "IEEE 488.1/2 (GPIB) Controller"
    ∷ row (some 0x5) none "Smart Card"
    ∷ row (some 0x80) none "Other Communications Device"
    ∷ []
