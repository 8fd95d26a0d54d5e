-- ===== src/Multitasking/Ring.antt =====
-- The order of the two tasks of kernel/multitasking.c.
use john_os.Common.{
  ℕ, zero, suc, ◌%◌, ◌≡◌, refl, sym, ap, ◌∙◌, inl, inr, arith, ◌==◌, if◌then◌else◌, ==_refl,
  Bool-cases, ==→eq,
}
use john_os.Multitasking.{Scheduler, Tasks, put, set_next, init_a_task, init_tasks, choose_next}

-- `turns` choices of the next task, one after the other.
pub choices : (turns : ℕ) → Scheduler → Scheduler
choices zero s = s
choices (suc turns) s = choices turns (choose_next s)

-- The two tasks point to each other.
pub record IsRing (s : Scheduler) : Type 0 where
  pub main_next : (s.task_at s.maintask).next ≡ s.othertask
  pub other_next : (s.task_at s.othertask).next ≡ s.maintask

pub put-same {ℓ} : {A : Type ℓ} → (f : ℕ → A) (p : ℕ) (a : A) → put f p a p ≡ a
unfolding put
put-same f p a = rw (==_refl p) refl

-- The first of two linked tasks, also where their addresses are the same.
linked :
    (f : ℕ → Tasks) (a b : ℕ) (va vb : Tasks)
    → va.next ≡ b
    → vb.next ≡ a
    → (put (put f a va) b vb a).next ≡ b
unfolding put
linked f a b va vb ea eb = elim (Bool-cases (b == a)) [
  | inl same ↦ let e : b ≡ a = ==→eq b a same in rw same (eb ∙ sym e)
  | inr other ↦ rw (other, ==_refl a) ea
]

set_next-linked :
    (s : Scheduler) (a b : ℕ)
    → (((set_next (set_next s a b) b a).task_at a).next ≡ b)
      × (((set_next (set_next s a b) b a).task_at b).next ≡ a)
unfolding set_next
set_next-linked s a b =
    let va : Tasks = record (s.task_at a) { next = b } in
    let vb : Tasks = record (put s.task_at a va b) { next = a } in
    (
      linked s.task_at a b va vb refl refl,
      ap (λ (t : Tasks). t.next) (put-same (put s.task_at a va) b vb),
    )

init_tasks-IsRing :
    (allocator eflags scheduler_task task_2 : ℕ) (s : Scheduler)
    → IsRing (init_tasks allocator eflags scheduler_task task_2 s)
unfolding init_tasks
init_tasks-IsRing allocator eflags scheduler_task task_2 s =
    let one = init_a_task allocator eflags scheduler_task s in
    let two = init_a_task allocator eflags task_2 one.0 in
    let (main_next, other_next) = set_next-linked two.0 one.1 two.1 in
    record { main_next = main_next; other_next = other_next }

-- The task behind `turns` choices.
turn : (turns maintask othertask : ℕ) → ℕ
turn turns maintask othertask = if turns % 2 == 0 then maintask else othertask

turn-suc : (turns a b : ℕ) → turn turns b a ≡ turn (suc turns) a b
unfolding turn
turn-suc turns a b = ground arith

choices-turn :
    (turns : ℕ) (s : Scheduler)
    → IsRing s
    → (s.runningtask ≡ s.maintask
        → (choices turns s).runningtask ≡ turn turns s.maintask s.othertask)
      × (s.runningtask ≡ s.othertask
          → (choices turns s).runningtask ≡ turn turns s.othertask s.maintask)
unfolding choices turn choose_next
choices-turn zero s r = (λ e. e, λ e. e)
choices-turn (suc turns) s r =
    let (main, other) =
      choices-turn turns (choose_next s)
        (record { main_next = r.main_next; other_next = r.other_next }) in
    (
      λ e. other (rw e r.main_next) ∙ turn-suc turns s.maintask s.othertask,
      λ e. main (rw e r.other_next) ∙ turn-suc turns s.othertask s.maintask,
    )

-- From `init_tasks` on the main task runs behind every even number of choices and the other task
-- behind every odd number.
pub init_tasks-turn :
    (turns allocator eflags scheduler_task task_2 : ℕ) (s : Scheduler)
    → let t = init_tasks allocator eflags scheduler_task task_2 s in
      (choices turns t).runningtask ≡ (if turns % 2 == 0 then t.maintask else t.othertask)
unfolding turn
init_tasks-turn turns allocator eflags scheduler_task task_2 s =
    (choices-turn turns (init_tasks allocator eflags scheduler_task task_2 s)
        (init_tasks-IsRing allocator eflags scheduler_task task_2 s)).0
      (unfold init_tasks in refl)
