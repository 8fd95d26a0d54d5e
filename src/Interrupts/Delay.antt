-- ===== src/Interrupts/Delay.antt =====
-- How long `kernel_delay_100` of kernel/timer.c waits.
use john_os.Common.{
  ℕ, zero, suc, ◌+◌, ◌^◌, ◌<◌, ◌≡◌, refl, ◌∙◌, fun_ext, ◌≢◌, true, false, none, some, ◌∷◌, arith,
  u32, ltb, ◌==◌,
}
use john_os.Common.Store.{write}
use john_os.Interrupts.{
  Machine, outportb, irq_install_handler, irq_uninstall_handler, irq_handler, timer_phase,
  timer_handler, timer_install, wait_loop, kernel_delay_100,
}

-- A timer interrupt with the timer's handler installed.
tick : Machine → Machine
tick s = record s { timer_ticks = u32 (s.timer_ticks + 1); ports = (0x20, 0x20) ∷ s.ports }

module _ (run : (handler int_no : ℕ) → Machine → Machine) (timer_address : ℕ)
    (there : timer_address ≢ 0)
    (runs : (s : Machine) → run timer_address 32 s ≡ timer_handler s) where
  irq_handler-tick :
      (s : Machine) → s.irq_routines 0 ≡ timer_address → irq_handler run 32 s ≡ tick s
  unfolding irq_handler tick outportb timer_handler
  irq_handler-tick s at = rw (at, absent, runs s) refl
    where
      absent : (timer_address == 0) ≡ false
      absent = ground arith

  wait_loop-enough :
      (n k : ℕ) (s : Machine)
      → s.irq_routines 0 ≡ timer_address
      → k < 2 ^ 32
      → s.timer_ticks + n ≡ k
      → (t : Machine) × (wait_loop run n k s ≡ some t)
        × (t.timer_ticks ≡ k)
        × (t.irq_routines ≡ s.irq_routines)
  unfolding wait_loop
  wait_loop-enough zero k s at low sum = (s, rw (reached) refl, omega arith, refl)
    where
      reached : ltb s.timer_ticks k ≡ false
      reached = ground arith
  wait_loop-enough (suc n) k s at low sum =
      let (t, e, ticks, routines) = wait_loop-enough n k (tick s) (tick_at at) low (tick_sum sum) in
      (t, rw (waiting, irq_handler-tick s at) e, ticks, routines ∙ tick_routines)
    where
      waiting : ltb s.timer_ticks k ≡ true
      waiting = ground arith

      tick_at : s.irq_routines 0 ≡ timer_address → (tick s).irq_routines 0 ≡ timer_address
      tick_at e = unfold tick in e

      tick_routines : (tick s).irq_routines ≡ s.irq_routines
      tick_routines = unfold tick in refl

      tick_sum : s.timer_ticks + suc n ≡ k → (tick s).timer_ticks + n ≡ k
      tick_sum e = unfold tick in omega arith

  wait_loop-too_few :
      (n k : ℕ) (s : Machine)
      → s.irq_routines 0 ≡ timer_address
      → k < 2 ^ 32
      → s.timer_ticks + n < k
      → wait_loop run n k s ≡ none
  unfolding wait_loop
  wait_loop-too_few zero k s at low less = rw waiting refl
    where
      waiting : ltb s.timer_ticks k ≡ true
      waiting = ground arith
  wait_loop-too_few (suc n) k s at low less =
      rw (waiting, irq_handler-tick s at)
        (wait_loop-too_few n k (tick s) (tick_at at) low (tick_less less))
    where
      waiting : ltb s.timer_ticks k ≡ true
      waiting = ground arith

      tick_at : s.irq_routines 0 ≡ timer_address → (tick s).irq_routines 0 ≡ timer_address
      tick_at e = unfold tick in e

      tick_less : s.timer_ticks + suc n < k → (tick s).timer_ticks + n < k
      tick_less e = unfold tick in omega arith

  -- With interrupts handled by `irq_handler` and the timer's address leading to `timer_handler`,
  -- `kernel_delay_100` returns after exactly `k_time` timer interrupts, with the timer's handler
  -- uninstalled and every other handler as before; with fewer interrupts it does not return.
  pub kernel_delay_100_lem :
      (k_time fewer : ℕ) (s : Machine)
      → k_time < 2 ^ 32
      → fewer < k_time
      → ((t : Machine) × (kernel_delay_100 run timer_address k_time k_time s ≡ some t)
          × (t.timer_ticks ≡ k_time)
          × (t.irq_routines ≡ write s.irq_routines 0 0))
        × (kernel_delay_100 run timer_address fewer k_time s ≡ none)
  unfolding kernel_delay_100 timer_phase timer_install irq_install_handler irq_uninstall_handler
      outportb
  kernel_delay_100_lem k fewer s low less =
      let s1 = timer_install timer_address (timer_phase 100 s) in
      let s2 = record s1 { timer_ticks = 0 } in
      let (t, e, ticks, routines) = wait_loop-enough k k s2 refl low (omega arith) in
      (
        (
          timer_phase 18 (irq_uninstall_handler t 0),
          rw e refl,
          ticks,
          fun_ext (λ i. rw routines (ground arith)),
        ),
        rw (wait_loop-too_few fewer k s2 refl low (omega arith)) refl,
      )
