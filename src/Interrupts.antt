-- ===== src/Interrupts.antt =====
-- Hardware interrupts and the timer: kernel/irq.c and kernel/timer.c. A handler is a number, its
-- address, and 0 where there is none; what a handler does is an argument. The bytes written to
-- ports are kept with the last one first. `cli` and `sti` are left out.
pub mod Dispatch
pub mod Delay
mod Tests
use john_os.Common.{
  ℕ, zero, suc, ◌+◌, ◌-◌, ◌*◌, ◌/◌, ◌%◌, ◌^◌, ◌≤◌, ◌<◌, ◌≡◌, refl, sym, ap, ◌∙◌, fun_ext, ◌≢◌, ◌⊎◌,
  inl, inr, Bool, true, false, ◌&&◌, ◌||◌, not, Option, none, some, List, [], ◌∷◌, ◌++◌, arith, u8,
  u16, u32, not32, ◌<<<◌, ◌>>>◌, ltb, leb, ◌==◌, if◌then◌else◌, ==_refl, Bool-cases, eq→==, ==→eq,
  ==_iff, bit_and, bit_or, bit_xor, min, max, ◌↔◌, ◌>>=◌,
}
use john_os.Descriptors.{Tables, irq_gates}
use john_os.Common.Store.{Store, write}

pub record Machine : Type 0 where
  pub irq_routines : Store
  pub timer_ticks : ℕ
  pub ports : List (ℕ × ℕ)

pub outportb : Machine → (port byte : ℕ) → Machine
outportb s port byte = record s { ports = (port, u8 byte) ∷ s.ports }

-- An `irq` outside 0 to 15 is behind the array.
pub irq_install_handler : Machine → (irq handler : ℕ) → Machine
irq_install_handler s irq handler = record s { irq_routines = write s.irq_routines irq handler }

pub irq_uninstall_handler : Machine → (irq : ℕ) → Machine
irq_uninstall_handler s irq = record s { irq_routines = write s.irq_routines irq 0 }

pub irq_remap : Machine → Machine
unfolding outportb
irq_remap s =
    let s1 = outportb (outportb s 0x20 0x11) 0xA0 0x11 in
    let s2 = outportb (outportb s1 0x21 0x20) 0xA1 0x28 in
    let s3 = outportb (outportb s2 0x21 0x04) 0xA1 0x02 in
    let s4 = outportb (outportb s3 0x21 0x01) 0xA1 0x01 in outportb (outportb s4 0x21 0x0) 0xA1 0x0

-- The addresses of `irq0` to `irq15` are those of the assembly's stubs.
pub irq_install : (irq : ℕ → ℕ) → Machine × Tables → Machine × Tables
irq_install irq (s, t) = (irq_remap s, irq_gates irq t)

module _ (run : (handler int_no : ℕ) → Machine → Machine) where
  pub irq_handler : (int_no : ℕ) → Machine → Machine
  unfolding outportb
  irq_handler int_no s =
      let handler = s.irq_routines (u32 (int_no + 2 ^ 32 - 32)) in
      let s1 = if handler == 0 then s else run handler int_no s in
      let s2 = if leb 40 int_no then outportb s1 0xA0 0x20 else s1 in outportb s2 0x20 0x20

-- An 8-bit port takes the low byte of what it is given.
pub timer_phase : (hz : ℕ) → Machine → Machine
unfolding outportb
timer_phase hz s =
    let divisor = 1193180 / hz in
    outportb (outportb (outportb s 0x43 0x36) 0x40 (bit_and divisor 0xFF)) 0x40 (divisor / 2 ^ 8)

pub timer_handler : Machine → Machine
timer_handler s = record s { timer_ticks = u32 (s.timer_ticks + 1) }

pub timer_install : (timer_address : ℕ) → Machine → Machine
unfolding irq_install_handler
timer_install timer_address s = irq_install_handler s 0 timer_address

pub set_timer_variable : Machine → Machine
set_timer_variable s = record s { timer_ticks = 0 }

module _ (run : (handler int_no : ℕ) → Machine → Machine) where
  -- `while(timer_ticks < k_time);` with `interrupts` timer interrupts to come. `none` is a wait for
  -- one more.
  pub wait_loop : ℕ → (k_time : ℕ) → Machine → Option Machine
  wait_loop zero k s = if ltb s.timer_ticks k then none else some s
  wait_loop (suc interrupts) k s =
      let rest = wait_loop interrupts k (irq_handler run 32 s) in
      if ltb s.timer_ticks k then rest else some s

  pub kernel_delay_100 : (timer_address interrupts k_time : ℕ) → Machine → Option Machine
  unfolding irq_uninstall_handler timer_phase timer_install
  kernel_delay_100 timer_address interrupts k s = do
    let s1 = timer_install timer_address (timer_phase 100 s)
    t ← wait_loop interrupts k (record s1 { timer_ticks = 0 })
    some (timer_phase 18 (irq_uninstall_handler t 0))
