-- ===== src/Multitasking.antt =====
-- The two tasks of kernel/multitasking.c. The address of the function `kmem_4k_allocate`, the flags
-- and the entry points are arguments. The switch of the registers is assembly and not modelled.
pub mod Ring
pub mod Stacks
mod Tests
use john_os.Common.{
  ℕ, zero, suc, ◌+◌, ◌-◌, ◌*◌, ◌/◌, ◌%◌, ◌^◌, ◌≤◌, ◌<◌, ◌≡◌, refl, sym, ap, ◌∙◌, fun_ext, ◌≢◌, ◌⊎◌,
  inl, inr, Bool, true, false, ◌&&◌, ◌||◌, not, Option, none, some, List, [], ◌∷◌, ◌++◌, arith, u8,
  u16, u32, not32, ◌<<<◌, ◌>>>◌, ltb, leb, ◌==◌, if◌then◌else◌, ==_refl, Bool-cases, eq→==, ==→eq,
  ==_iff, bit_and, bit_or, bit_xor, min, max, ◌↔◌, ◌>>=◌,
}
use john_os.PageMap.{Pages, kmem_4k_allocate}

pub record Registers : Type 0 where
  pub r_eax : ℕ
  pub r_ebx : ℕ
  pub r_ecx : ℕ
  pub r_edx : ℕ
  pub r_esi : ℕ
  pub r_edi : ℕ
  pub r_esp : ℕ
  pub r_ebp : ℕ
  pub r_eip : ℕ
  pub r_eflags : ℕ

pub record Tasks : Type 0 where
  pub regs : ℕ
  pub topstack : ℕ
  pub saved_func : ℕ
  pub next : ℕ

-- The structures by their addresses, and the pointers to them. Two structures do not overlap, as in
-- memory while the allocator still has pages to give.
pub record Scheduler : Type 0 where
  pub pages : Pages
  pub task_at : ℕ → Tasks
  pub regs_at : ℕ → Registers
  pub maintask : ℕ
  pub othertask : ℕ
  pub runningtask : ℕ
  pub lasttask : ℕ

-- A table with a new value at `p`.
pub put {ℓ} : {A : Type ℓ} → (ℕ → A) → ℕ → A → ℕ → A
put f p a q = if p == q then a else f q

-- The stack of a new task: the address is that of the function, which is not called.
pub stack_of : (allocator : ℕ) → ℕ
stack_of allocator = u32 (bit_and (u32 (allocator + 512)) 0xfffffff0 + 2 ^ 32 - 64)

-- What a new task starts with.
new_registers : (esp eip eflags : ℕ) → Registers
new_registers esp eip eflags = record {
  r_eax = 0;
  r_ebx = 0;
  r_ecx = 0;
  r_edx = 0;
  r_esi = 0;
  r_edi = 0;
  r_esp = esp;
  r_ebp = esp;
  r_eip = eip;
  r_eflags = eflags;
}

new_task : (regs esp entry_point : ℕ) → Tasks
new_task regs esp entry_point = record {
  regs = regs;
  topstack = esp;
  saved_func = entry_point;
  next = 0;
}

pub init_a_task : (allocator eflags entry_point : ℕ) → Scheduler → Scheduler × ℕ
init_a_task allocator eflags entry_point s =
    let (s1, temptask) = kmem_4k_allocate s.pages in
    let (s2, regs) = kmem_4k_allocate s1 in
    let esp = stack_of allocator in
    (
      record s {
        pages = s2;
        regs_at = put s.regs_at regs (new_registers esp entry_point eflags);
        task_at = put s.task_at temptask (new_task regs esp entry_point);
      },
      temptask,
    )

-- `task->next = next`.
set_next : Scheduler → (task next : ℕ) → Scheduler
unfolding put
set_next s task next = record s {
  task_at = put s.task_at task (record (s.task_at task) { next = next });
}

pub init_tasks : (allocator eflags scheduler_task task_2 : ℕ) → Scheduler → Scheduler
unfolding init_a_task set_next
init_tasks allocator eflags scheduler_task task_2 s =
    let (s1, maintask) = init_a_task allocator eflags scheduler_task s in
    let (s2, othertask) = init_a_task allocator eflags task_2 s1 in
    let s3 = set_next (set_next s2 maintask othertask) othertask maintask in
    record s3 { maintask = maintask; othertask = othertask; runningtask = maintask }

-- The choice of the next task in `scheduler_task`.
pub choose_next : Scheduler → Scheduler
choose_next s = record s { lasttask = s.runningtask; runningtask = (s.task_at s.runningtask).next }
