-- ===== src/Multitasking/Tests.antt =====
-- Two tasks of kernel/multitasking.c, and the theorems about them.
use john_os.Common.{◌+◌, ◌%◌, ◌≤◌, ◌<◌, ◌≡◌, refl, arith, ◌==◌, if◌then◌else◌}
use john_os.Multitasking.{Scheduler, new_registers, new_task, init_tasks, stack_of}
use john_os.Multitasking.Ring.{choices, init_tasks-turn}
use john_os.Multitasking.Stacks.{esp_of, init_tasks-stack}

abbrev start : Scheduler
unfolding new_registers new_task
start = record {
  pages = record {
    os_memmap = λ a. 0;
    ram = λ a. 0;
    mem_block = λ a. 0;
    mem_bt_temp = 0;
    mbt_freeflag = 0;
  };
  task_at = λ a. new_task 0 0 0;
  regs_at = λ a. new_registers 0 0 0;
  maintask = 0;
  othertask = 0;
  runningtask = 0;
  lasttask = 0;
}

-- The stack of a new task for a function at 0x100000.
stack : stack_of 0x100000 ≡ 0x1001c0
unfolding stack_of
stack = refl

init_tasks-turn_example :
    let t = init_tasks 0x100000 2 0x200000 0x300000 start in
    (choices 25 t).runningtask ≡ (if 25 % 2 == 0 then t.maintask else t.othertask)
init_tasks-turn_example = init_tasks-turn 25 0x100000 2 0x200000 0x300000 start

init_tasks-stack_example :
    let t = init_tasks 0x100000 2 0x200000 0x300000 start in
    (esp_of t t.maintask ≡ esp_of t t.othertask)
    × (0x100000 + 432 < esp_of t t.maintask)
    × (esp_of t t.maintask ≤ 0x100000 + 448)
init_tasks-stack_example = init_tasks-stack 0x100000 2 0x200000 0x300000 start (omega arith)
