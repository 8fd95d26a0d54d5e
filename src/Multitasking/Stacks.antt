-- ===== src/Multitasking/Stacks.antt =====
-- The stacks of the two tasks of kernel/multitasking.c.
use john_os.Common.{
  ℕ, ◌+◌, ◌^◌, ◌≤◌, ◌<◌, ◌≡◌, refl, sym, ap, ◌∙◌, ◌⊎◌, inl, inr, arith, u32, ◌==◌, Bool-cases,
  ==→eq,
}
use john_os.Common.Bits.Nibbles.{paragraph}
use john_os.PageMap.{kmem_4k_allocate}
use john_os.Multitasking.{
  Registers, Scheduler, Tasks, new_registers, new_task, put, set_next, init_a_task, init_tasks,
  stack_of,
}
use john_os.Multitasking.Ring.{put-same}

-- The stack pointer of a task.
unfoldable pub esp_of : Scheduler → (task : ℕ) → ℕ
esp_of s task = (s.regs_at (s.task_at task).regs).r_esp

init_a_task-new :
    (allocator eflags entry_point : ℕ) (s : Scheduler)
    → let t = init_a_task allocator eflags entry_point s in esp_of t.0 t.1 ≡ stack_of allocator
unfolding init_a_task new_task new_registers esp_of
init_a_task-new allocator eflags entry_point s =
    let esp = stack_of allocator in
    let (s1, task) = kmem_4k_allocate s.pages in
    let (s2, regs) = kmem_4k_allocate s1 in
    let new = new_registers esp entry_point eflags in
    ap (λ (t : Tasks). (put s.regs_at regs new t.regs).r_esp)
      (put-same s.task_at task (new_task regs esp entry_point))
    ∙ ap (λ (r : Registers). r.r_esp) (put-same s.regs_at regs new)

-- Another value at `p` or the old one.
put-cases {ℓ} :
    {A : Type ℓ}
    → (f : ℕ → A) (p q : ℕ) (a : A) → ((p ≡ q) × (put f p a q ≡ a)) ⊎ (put f p a q ≡ f q)
unfolding put
put-cases f p q a = elim (Bool-cases (p == q)) [
  | inl same ↦ inl (==→eq p q same, rw same refl)
  | inr other ↦ inr (rw other refl)
]

-- A task whose stack pointer is that of a new one keeps it while another task is created.
init_a_task-old :
    (allocator eflags entry_point q : ℕ) (s : Scheduler)
    → esp_of s q ≡ stack_of allocator
    → esp_of (init_a_task allocator eflags entry_point s).0 q ≡ stack_of allocator
unfolding init_a_task new_task new_registers esp_of
init_a_task-old allocator eflags entry_point q s old =
    let esp = stack_of allocator in
    let (s1, task) = kmem_4k_allocate s.pages in
    let (s2, regs) = kmem_4k_allocate s1 in
    let new = new_registers esp entry_point eflags in
    let made = new_task regs esp entry_point in
    elim (put-cases s.task_at task q made) [
      | inl (e, f) ↦
          ap (λ (t : Tasks). (put s.regs_at regs new t.regs).r_esp) f
          ∙ ap (λ (r : Registers). r.r_esp) (put-same s.regs_at regs new)
      | inr f ↦
          ap (λ (t : Tasks). (put s.regs_at regs new t.regs).r_esp) f
          ∙ elim (put-cases s.regs_at regs (s.task_at q).regs new) [
            | inl (e, g) ↦ ap (λ (r : Registers). r.r_esp) g
            | inr g ↦ ap (λ (r : Registers). r.r_esp) g ∙ old
          ]
    ]

set_next-esp : (s : Scheduler) (a b q : ℕ) → esp_of (set_next s a b) q ≡ esp_of s q
unfolding set_next esp_of
set_next-esp s a b q = elim (put-cases s.task_at a q (record (s.task_at a) { next = b })) [
  | inl (e, f) ↦
      ap (λ (t : Tasks). (s.regs_at t.regs).r_esp) f
      ∙ ap (λ p. (s.regs_at (s.task_at p).regs).r_esp) e
  | inr f ↦ ap (λ (t : Tasks). (s.regs_at t.regs).r_esp) f
]

init_tasks-esp :
    (allocator eflags scheduler_task task_2 : ℕ) (s : Scheduler)
    → let t = init_tasks allocator eflags scheduler_task task_2 s in
      (esp_of t t.maintask ≡ stack_of allocator) × (esp_of t t.othertask ≡ stack_of allocator)
unfolding init_tasks
init_tasks-esp allocator eflags scheduler_task task_2 s =
    let one = init_a_task allocator eflags scheduler_task s in
    let two = init_a_task allocator eflags task_2 one.0 in
    let linked = set_next two.0 one.1 two.1 in
    let kept : (q : ℕ) → esp_of (set_next linked two.1 one.1) q ≡ esp_of two.0 q =
      λ q. set_next-esp linked two.1 one.1 q ∙ set_next-esp two.0 one.1 two.1 q in
    (
      unfold esp_of in
          kept one.1
          ∙ init_a_task-old allocator eflags task_2 one.1 one.0
              (init_a_task-new allocator eflags scheduler_task s),
      unfold esp_of in kept two.1 ∙ init_a_task-new allocator eflags task_2 one.0,
    )

stack_of-range :
    (allocator : ℕ)
    → allocator + 512 < 2 ^ 32
    → (allocator + 432 < stack_of allocator) × (stack_of allocator ≤ allocator + 448)
unfolding stack_of
stack_of-range allocator low =
    let v : u32 (allocator + 512) ≡ allocator + 512 = omega arith in
    let cut = paragraph (allocator + 512) low in rw (v, cut) (omega arith, omega arith)

-- Behind `init_tasks` both tasks have one and the same stack pointer, and it points 433 to 448 bytes behind the start of the function `kmem_4k_allocate`, where that
-- address is not within 512 bytes of the end of the 32 bits.
pub init_tasks-stack :
    (allocator eflags scheduler_task task_2 : ℕ) (s : Scheduler)
    → allocator + 512 < 2 ^ 32
    → let t = init_tasks allocator eflags scheduler_task task_2 s in
      (esp_of t t.maintask ≡ esp_of t t.othertask)
      × (allocator + 432 < esp_of t t.maintask)
      × (esp_of t t.maintask ≤ allocator + 448)
init_tasks-stack allocator eflags scheduler_task task_2 s low =
    let (main, other) = init_tasks-esp allocator eflags scheduler_task task_2 s in
    let (above, below) = stack_of-range allocator low in
    (main ∙ sym other, omega (arith, main, above), omega (arith, main, below))
