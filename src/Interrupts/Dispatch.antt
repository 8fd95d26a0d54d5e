-- ===== src/Interrupts/Dispatch.antt =====
-- How an interrupt is handled and acknowledged, and how long a delay takes.
use john_os.Common.{
  ℕ, ◌+◌, ◌-◌, ◌^◌, ◌<◌, ◌≡◌, refl, ◌≢◌, inl, inr, false, List, [], ◌∷◌, ◌++◌, arith, u32, leb,
  ◌==◌, if◌then◌else◌, ==_refl, Bool-cases,
}
use john_os.Interrupts.{Machine, outportb, irq_install_handler, irq_uninstall_handler, irq_handler}

-- The bytes that end an interrupt: both controllers for the upper eight, the first one else.
abbrev pub end_of_interrupt : ℕ → List (ℕ × ℕ)
end_of_interrupt int_no =
    if leb 40 int_no then (0x20, 0x20) ∷ (0xA0, 0x20) ∷ [] else (0x20, 0x20) ∷ []

-- For the interrupts 32 to 47 and a handler whose address is not 0: `irq_handler` runs the
-- handler that was last installed for the interrupt, on the machine as it was, and then
-- acknowledges the interrupt; where the handler was uninstalled it only acknowledges.
pub irq_handler_lem :
    (run : (handler int_no : ℕ) → Machine → Machine) (s : Machine) (irq handler : ℕ)
    → irq < 16
    → handler ≢ 0
    → let installed = irq_install_handler s irq handler in
      let removed = irq_uninstall_handler installed irq in
      let after = run handler (irq + 32) installed in
      (irq_handler run (irq + 32) installed
        ≡ record after { ports = end_of_interrupt (irq + 32) ++ after.ports })
      × (irq_handler run (irq + 32) removed
          ≡ record removed { ports = end_of_interrupt (irq + 32) ++ removed.ports })
unfolding irq_handler irq_install_handler irq_uninstall_handler outportb
irq_handler_lem run s irq handler low some_handler = elim (Bool-cases (leb 40 (irq + 32))) [
  | inl upper ↦ rw (index, ==_refl irq, there, upper) (refl, refl)
  | inr lower ↦ rw (index, ==_refl irq, there, lower) (refl, refl)
]
  where
    index : u32 (irq + 32 + 2 ^ 32 - 32) ≡ irq
    index = omega arith

    there : (handler == 0) ≡ false
    there = ground arith
