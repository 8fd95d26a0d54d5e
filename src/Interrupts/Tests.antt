-- ===== src/Interrupts/Tests.antt =====
-- A machine without handlers, whose timer handler has the address 0x1000.
use john_os.Common.{ℕ, ◌≡◌, refl, none, some, [], ◌++◌, arith}
use john_os.Common.Store.{write}
use john_os.Interrupts.{
  Machine, irq_install_handler, irq_uninstall_handler, irq_handler, timer_handler, kernel_delay_100,
}
use john_os.Interrupts.Dispatch.{end_of_interrupt, irq_handler_lem}
use john_os.Interrupts.Delay.{kernel_delay_100_lem}

abbrev machine : Machine
machine = record { irq_routines = λ i. 0; timer_ticks = 0; ports = [] }

abbrev timer_runs : (handler int_no : ℕ) → Machine → Machine
timer_runs handler int_no s = timer_handler s

irq_handler_lem_example :
    let installed = irq_install_handler machine 9 0x1000 in
    let removed = irq_uninstall_handler installed 9 in
    let after = timer_runs 0x1000 41 installed in
    (irq_handler timer_runs 41 installed
      ≡ record after { ports = end_of_interrupt 41 ++ after.ports })
    × (irq_handler timer_runs 41 removed
        ≡ record removed { ports = end_of_interrupt 41 ++ removed.ports })
irq_handler_lem_example =
    irq_handler_lem timer_runs machine 9 0x1000 (omega arith) (λ e. absurd (omega (arith, e)))

kernel_delay_100_lem_example :
    ((t : Machine) × (kernel_delay_100 timer_runs 0x1000 3 3 machine ≡ some t)
      × (t.timer_ticks ≡ 3)
      × (t.irq_routines ≡ write machine.irq_routines 0 0))
    × (kernel_delay_100 timer_runs 0x1000 2 3 machine ≡ none)
kernel_delay_100_lem_example =
    kernel_delay_100_lem timer_runs 0x1000 (λ e. absurd (omega (arith, e))) (λ s. refl) 3 2 machine
      (omega arith) (omega arith)
