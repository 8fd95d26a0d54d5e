-- ===== src/Keyboard/Commands.antt =====
-- The commands of the shell in kernel/device/kb.c: which text of a line stands for which command, in
-- the order of the tests, and what a command calls. The messages are left out; `prompt` is
-- `print(csptr)`.
pub mod Order
use john_os.Common.{
  ℕ, zero, suc, ◌+◌, ◌-◌, ◌*◌, ◌/◌, ◌%◌, ◌^◌, ◌≤◌, ◌<◌, ◌≡◌, refl, sym, ap, ◌∙◌, fun_ext, ◌≢◌, ◌⊎◌,
  inl, inr, Bool, true, false, ◌&&◌, ◌||◌, not, Option, none, some, List, [], ◌∷◌, ◌++◌, arith, u8,
  u16, u32, not32, ◌<<<◌, ◌>>>◌, ltb, leb, ◌==◌, if◌then◌else◌, ==_refl, Bool-cases, eq→==, ==→eq,
  ==_iff, bit_and, bit_or, bit_xor, min, max, ◌↔◌, ◌>>=◌,
}
use Prim.Native.String.{String}

-- The branches of the chain of tests. `power_off` is the second test for "shutdown".
pub data Command : Type 0 where
  help : Command
  clear : Command
  check_power : Command
  colour : (value : ℕ) → Command
  memory_map : (explained : ℕ) → Command
  list_pci : Command
  stop_the_uhci : Command
  stop_the_ohci : Command
  read_port : (port : ℕ) → Command
  reset_port1 : Command
  stop_the_ehci : Command
  start_the_ehci : Command
  reset_the_ehci : Command
  command_register : Command
  status_register : Command
  fadt : Command
  madt : Command
  dsdt : Command
  ssdt : Command
  signatures : Command
  power_off : Command
  list_directory : Command
  write_test : Command
  directory_back : Command
  directory_root : Command
  change_directory : Command
  invalid : Command

-- The tests in their order. `is` is `strEql(ch, …)`, `begins` is `strEql2(ch, …)`.
pub tests : (is begins : String → Bool) → List (Bool × Command)
tests is begins =
    (is "help", help)
    ∷ (is "clear", clear)
    ∷ (is "shutdown", check_power)
    ∷ (is "green", colour 0x02)
    ∷ (is "magenta", colour 0x05)
    ∷ (is "light green", colour 0xA)
    ∷ (is "grey", colour 0x07)
    ∷ (is "blue", colour 0x01)
    ∷ (is "red", colour 0x04)
    ∷ (is "violet", colour 0x05)
    ∷ (is "yellow", colour 0xE)
    ∷ (is "white", colour 0xF)
    ∷ (is "show memmap", memory_map 1)
    ∷ (is "show memmap -e", memory_map 0)
    ∷ (is "list pci", list_pci)
    ∷ (is "stop uhci", stop_the_uhci)
    ∷ (is "stop ohci", stop_the_ohci)
    ∷ (is "read ehci port1", read_port 1)
    ∷ (is "reset ehci port1", reset_port1)
    ∷ (is "read ehci port2", read_port 2)
    ∷ (is "read ehci port3", read_port 3)
    ∷ (is "read ehci port4", read_port 4)
    ∷ (is "read ehci port5", read_port 5)
    ∷ (is "read ehci port6", read_port 6)
    ∷ (is "read ehci port7", read_port 7)
    ∷ (is "read ehci port8", read_port 8)
    ∷ (is "stop ehci", stop_the_ehci)
    ∷ (is "start ehci", start_the_ehci)
    ∷ (is "reset ehci", reset_the_ehci)
    ∷ (is "read ehci command register", command_register)
    ∷ (is "read ehci status register", status_register)
    ∷ (is "read fadt", fadt)
    ∷ (is "read madt", madt)
    ∷ (is "read dsdt", dsdt)
    ∷ (is "read ssdt", ssdt)
    ∷ (is "read signatures", signatures)
    ∷ (is "shutdown", power_off)
    ∷ (is "ls", list_directory)
    ∷ (is "writetest", write_test)
    ∷ (is "cd b", directory_back)
    ∷ (is "cd r" || is "cd root", directory_root)
    ∷ (begins "cd ", change_directory)
    ∷ []

-- The first test that holds decides.
first_test : List (Bool × Command) → Command
first_test [] = invalid
first_test ((t, c) ∷ rest) = if t then c else first_test rest

pub command : (is begins : String → Bool) → Command
unfolding tests first_test
command is begins = first_test (tests is begins)

-- The functions that the commands call.
pub data Call : Type 0 where
  clear_screen : Call
  check_shutdown_code : Call
  show_memmap : (explained : ℕ) → Call
  pci_bscan_devices : Call
  uhci_hcreset : Call
  timer_install : Call
  stop_ohci : Call
  irq_uninstall_handler : (irq : ℕ) → Call
  sti : Call
  read_ehci_port : (port : ℕ) → Call
  print_port_reset : Call
  stop_ehci : Call
  start_ehci : Call
  reset_ehci : Call
  read_ehci_usbcmd : Call
  print_ehci_usbsts : Call
  print_fadt_struct_info : Call
  print_madt_struct_info : Call
  read_dsdt : Call
  read_ssdt : Call
  read_h_f_rsdt : Call
  shutdown : Call
  test_read_write : Call
  set_sc : (value : ℕ) → Call
  print_names : (directories : List ℕ) → (files : List (ℕ × Bool)) → Call
  prompt : Call

-- What the bodies of the branches call; those that work on the directories stand apart.
pub calls : Command → List Call
calls help = prompt ∷ []
calls clear = clear_screen ∷ prompt ∷ []
calls check_power = check_shutdown_code ∷ []
calls (colour value) = set_sc value ∷ prompt ∷ []
calls (memory_map explained) = show_memmap explained ∷ prompt ∷ []
calls list_pci = pci_bscan_devices ∷ prompt ∷ []
calls stop_the_uhci = uhci_hcreset ∷ prompt ∷ []
calls stop_the_ohci = timer_install ∷ stop_ohci ∷ irq_uninstall_handler 0 ∷ sti ∷ prompt ∷ []
calls (read_port port) = read_ehci_port port ∷ prompt ∷ []
calls reset_port1 = print_port_reset ∷ prompt ∷ []
calls stop_the_ehci = stop_ehci ∷ prompt ∷ []
calls start_the_ehci = start_ehci ∷ prompt ∷ []
calls reset_the_ehci = reset_ehci ∷ prompt ∷ []
calls command_register = read_ehci_usbcmd ∷ prompt ∷ []
calls status_register = print_ehci_usbsts ∷ prompt ∷ []
calls fadt = print_fadt_struct_info ∷ prompt ∷ []
calls madt = print_madt_struct_info ∷ prompt ∷ []
calls dsdt = read_dsdt ∷ prompt ∷ []
calls ssdt = read_ssdt ∷ prompt ∷ []
calls signatures = read_h_f_rsdt ∷ prompt ∷ []
calls power_off = shutdown ∷ []
calls list_directory = []
calls write_test = test_read_write ∷ []
calls directory_back = []
calls directory_root = []
calls change_directory = []
calls invalid = []
