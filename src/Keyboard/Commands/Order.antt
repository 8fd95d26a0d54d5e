-- ===== src/Keyboard/Commands/Order.antt =====
-- The chain of tests of the shell in kernel/device/kb.c, against the texts it is meant to know.
use john_os.Common.{
  ◌≡◌, refl, sym, ◌∙◌, ◌≢◌, inl, inr, Bool, true, false, ◌&&◌, not, List, [], ◌∷◌, arith,
  if◌then◌else◌, Bool-cases,
}
use Prim.Native.String.{String}
use john_os.Keyboard.Commands.{
  Command, tests, first_test, command, power_off, help, clear, check_power, colour, memory_map,
  list_pci, stop_the_uhci, stop_the_ohci, read_port, reset_port1, stop_the_ehci, start_the_ehci,
  reset_the_ehci, command_register, status_register, fadt, madt, dsdt, ssdt, signatures,
  list_directory, write_test, directory_back, directory_root, change_directory, invalid,
}

is_power_off : Command → Bool
is_power_off power_off = true
is_power_off help = false
is_power_off clear = false
is_power_off check_power = false
is_power_off (colour value) = false
is_power_off (memory_map explained) = false
is_power_off list_pci = false
is_power_off stop_the_uhci = false
is_power_off stop_the_ohci = false
is_power_off (read_port port) = false
is_power_off reset_port1 = false
is_power_off stop_the_ehci = false
is_power_off start_the_ehci = false
is_power_off reset_the_ehci = false
is_power_off command_register = false
is_power_off status_register = false
is_power_off fadt = false
is_power_off madt = false
is_power_off dsdt = false
is_power_off ssdt = false
is_power_off signatures = false
is_power_off list_directory = false
is_power_off write_test = false
is_power_off directory_back = false
is_power_off directory_root = false
is_power_off change_directory = false
is_power_off invalid = false

-- No test for `power_off` in the list holds.
avoids : List (Bool × Command) → Bool
avoids [] = true
avoids ((t, c) ∷ rest) = if is_power_off c then not t && avoids rest else avoids rest

avoids-first_test :
    (ts : List (Bool × Command)) → avoids ts ≡ true → is_power_off (first_test ts) ≡ false
unfolding avoids first_test is_power_off
avoids-first_test [] a = refl
avoids-first_test ((t, c) ∷ rest) a = elim (Bool-cases (is_power_off c)) [
  | inl y ↦ elim (Bool-cases t) [
    | inl y2 ↦ let no : false ≡ true = sym (rw (y, y2) refl) ∙ a in absurd (ground arith)
    | inr n2 ↦ rw n2 (avoids-first_test rest (sym (rw (y, n2) refl) ∙ a))
  ]
  | inr n ↦ elim (Bool-cases t) [
    | inl y2 ↦ rw y2 n
    | inr n2 ↦ rw n2 (avoids-first_test rest (sym (rw n refl) ∙ a))
  ]
]

-- No line powers the machine off by `shutdown`: the branch for it stands behind another one for the
-- same text.
pub command-power_off : (is begins : String → Bool) → command is begins ≢ power_off
unfolding command tests first_test avoids is_power_off
command-power_off is begins p =
    let found : is_power_off (command is begins) ≡ true = rw p refl in
    let other : is_power_off (command is begins) ≡ false = elim (Bool-cases (is "shutdown")) [
      | inr n ↦ avoids-first_test (tests is begins) (rw n refl)
      | inl y ↦ rw y (elim (Bool-cases (is "help")) [
        | inl h ↦ rw h refl
        | inr h ↦ rw h (elim (Bool-cases (is "clear")) [ inl c ↦ rw c refl | inr c ↦ rw c refl ])
      ])
    ] in
    absurd (ground (arith, found, other))
