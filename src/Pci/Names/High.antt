-- ===== src/Pci/Names/High.antt =====
-- The tests of `list_pci_devices` in kernel/device/pci.c for the classes 8 to 17.
use john_os.Common.{none, some, List, [], ◌∷◌}
use john_os.Pci.Names.{Row, row}

abbrev pub base_system_rows : List Row
base_system_rows =
    row (some 0x0) (some 0x0) "Generic 8259 PIC"
    ∷ row (some 0x0) (some 0x1) "ISA PIC"
    ∷ row (some 0x0) (some 0x2) "EISA PIC"
    ∷ row (some 0x0) (some 0x10) "I/O APIC Interrupt Controller"
    ∷ row (some 0x0) (some 0x20) "I/O(x) APIC Interrupt Controller"
    ∷ row (some 0x1) (some 0x0) "Generic 8237 DMA Controller"
    ∷ row (some 0x1) (some 0x1) "ISA DMA Controller"
    ∷ row (some 0x1) (some 0x2) "EISA DMA Controller"
    ∷ row (some 0x2) (some 0x0) "Generic 8254 System Timer"
    ∷ row (some 0x2) (some 0x1) "ISA System Timer"
    ∷ row (some 0x2) (some 0x2) "EISA System Timer"
    ∷ row (some 0x3) (some 0x0) "Generic RTC Controller"
    ∷ row (some 0x3) (some 0x1) "ISA RTC Controller"
    ∷ row (some 0x4) none "Generic PCI Hot-Plug Controller"
    ∷ row (some 0x80) none "Other System Peripheral"
    ∷ []

abbrev pub input_device_rows : List Row
input_device_rows =
    row (some 0x0) none "Keyboard Controller"
    ∷ row (some 0x1) none "Digitizer"
    ∷ row (some 0x2) none "Mouse Controller"
    ∷ row (some 0x3) none "Scanner Controller"
    ∷ row (some 0x4) (some 0x0) "Gameport Controller (Generic)"
    ∷ row (some 0x4) (some 0x10) "Gameport Controller (Legacy)"
    ∷ row (some 0x80) none "Other Input Controller"
    ∷ []

abbrev pub docking_rows : List Row
docking_rows =
    row (some 0x0) none "Generic Docking Station"
    ∷ row (some 0x80) none "Other Docking Station"
    ∷ []

abbrev pub processor_rows : List Row
processor_rows =
    row (some 0x0) none "386 Processor"
    ∷ row (some 0x1) none "486 Processor"
    ∷ row (some 0x2) none "Pentium Processor"
    ∷ row (some 0x10) none "Alpha Processor"
    ∷ row (some 0x20) none "PowerPC Processor"
    ∷ row (some 0x30) none "MIPS Processor"
    ∷ row (some 0x40) none "Co-Processor"
    ∷ []

abbrev pub serial_bus_rows : List Row
serial_bus_rows =
    row (some 0x0) (some 0x0) "IEEE 1394 Controller (FireWire)"
    ∷ row (some 0x0) (some 0x10) "IEEE 1394 Controller (1394 OHCI Spec)"
    ∷ row (some 0x1) none "ACCESS bus"
    ∷ row (some 0x2) none "SSA"
    ∷ row (some 0x3) (some 0x0) "USB (UHCI Spec)"
    ∷ row (some 0x3) (some 0x10) "USB (OHCI Spec)"
    ∷ row (some 0x3) (some 0x20) "USB2 Host Controller (Intel EHCI)"
    ∷ row (some 0x3) (some 0x30) "USB3 XHCI Controller"
    ∷ row (some 0x3) (some 0x80) "Unspecified USB Controller"
    ∷ row (some 0x3) (some 0xfe) "USB (Not Host Controller)"
    ∷ row (some 0x4) none "Fibre Channel"
    ∷ row (some 0x5) none "SMBus"
    ∷ row (some 0x6) none "InfiniBand"
    ∷ row (some 0x7) (some 0x0) "IPMI SMIC Interface"
    ∷ row (some 0x7) (some 0x1) "IPMI Kybd Controller Style Interface"
    ∷ row (some 0x7) (some 0x2) "IPMI Block Transfer Interface"
    ∷ row (some 0x8) none "SERCOS Interface Standard (IEC 61491)"
    ∷ row (some 0x9) none "CANbus"
    ∷ []

abbrev pub wireless_rows : List Row
wireless_rows =
    row (some 0x0) none "iRDA Compatible Controller"
    ∷ row (some 0x1) none "Consumer IR Controller"
    ∷ row (some 0x10) none "RF Controller"
    ∷ row (some 0x11) none "Bluetooth Controller"
    ∷ row (some 0x12) none "Broadband Controller"
    ∷ row (some 0x20) none "Ethernet Controller (802.11a)"
    ∷ row (some 0x21) none "Ethernet Controller (802.11b)"
    ∷ row (some 0x80) none "Other Wireless Controller"
    ∷ []

abbrev pub intelligent_io_rows : List Row
intelligent_io_rows = row (some 0x0) (some 0x0) "Message FIFO" ∷ []

abbrev pub satellite_rows : List Row
satellite_rows =
    row (some 0x0) none "TV Controller"
    ∷ row (some 0x1) none "Audio Controller"
    ∷ row (some 0x2) none "Voice Controller"
    ∷ row (some 0x3) none "Data Controller"
    ∷ row (some 0x4) none "Broadband Controller"
    ∷ []

abbrev pub encryption_rows : List Row
encryption_rows =
    row (some 0x0) none "N and C Encrpytion/Decryption"
    ∷ row (some 0x10) none "Entertainment Encryption/Decryption"
    ∷ row (some 0x80) none "Other Encryption/Decryption"
    ∷ []

abbrev pub data_processing_rows : List Row
data_processing_rows =
    row (some 0x0) none "DPIO Modules"
    ∷ row (some 0x1) none "Performance Counters"
    ∷ row (some 0x10) none "CSPTFTM"
    ∷ row (some 0x20) none "Management Card"
    ∷ row (some 0x80) none "Other Data A/S Processing Controller"
    ∷ []
