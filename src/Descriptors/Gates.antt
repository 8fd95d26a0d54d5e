-- ===== src/Descriptors/Gates.antt =====
-- What the processor reads from the descriptor tables of kernel/gdt.c and kernel/idt.c.
use john_os.Common.{
  ℕ, zero, suc, ◌+◌, ◌-◌, ◌*◌, ◌/◌, ◌%◌, ◌^◌, ◌<◌, ◌≡◌, refl, ◌∙◌, ◌≢◌, inl, inr, ◌&&◌, arith, ltb,
  leb, ◌==◌, if◌then◌else◌, ==_refl, Bool-cases, ==→eq, bit_and, bit_or,
}
use john_os.Common.Bits.{bit_and-low_bits}
use john_os.Common.Bits.Nibbles.{high_nibble, bit_or-disjoint}
use john_os.Descriptors.{
  GdtEntry, Tables, IdtGate, gdt_entry, gdt_set_gate, idt_gate, set_idt, set_gates, isr_install,
  irq_gates,
}

-- The segment base and the limit in units, as the processor puts them together, and the flags.
abbrev pub base_of : GdtEntry → ℕ
base_of e = e.base_low + e.base_middle * 2 ^ 16 + e.base_high * 2 ^ 24

abbrev pub limit_of : GdtEntry → ℕ
limit_of e = e.limit_low + e.granularity % 16 * 2 ^ 16

abbrev pub flags_of : GdtEntry → ℕ
flags_of e = e.granularity / 16

-- The entry point that the processor reads from a gate.
abbrev pub offset_of : IdtGate → ℕ
offset_of g = g.low_offset + g.high_offset * 2 ^ 16

gdt_entry-granularity :
    (limit gran : ℕ)
    → gran < 2 ^ 8
    → bit_or (bit_and (limit / 2 ^ 16) 0x0F) (bit_and gran 0xF0)
      ≡ limit / 2 ^ 16 % 16 + gran / 16 * 16
gdt_entry-granularity limit gran h =
    rw (bit_and-low_bits 4 (limit / 2 ^ 16), high_nibble gran)
      (bit_or-disjoint 4 (limit / 2 ^ 16 % 16) (gran / 16 % 16) (omega arith) ∙ omega arith)

-- `gdt_set_gate` stores what the processor reads back: the whole base, the lower 20 bits of the
-- limit, the access byte and the upper four bits of the granularity; no other entry changes.
pub gdt_set_gate_lem :
    (t : Tables) (num base limit access gran n : ℕ)
    → base < 2 ^ 32
    → limit < 2 ^ 32
    → gran < 2 ^ 8
    → n ≢ num
    → let e = (gdt_set_gate t num base limit access gran).gdt num in
      (base_of e ≡ base)
      × (limit_of e ≡ limit % 2 ^ 20)
      × (flags_of e ≡ gran / 16)
      × (e.access ≡ access)
      × ((gdt_set_gate t num base limit access gran).gdt n ≡ t.gdt n)
unfolding gdt_set_gate gdt_entry
gdt_set_gate_lem t num base limit access gran n hb hl hg off = rw (==_refl num) (
  rw
      (
        bit_and-low_bits 16 base,
        bit_and-low_bits 8 (base / 2 ^ 16),
        bit_and-low_bits 8 (base / 2 ^ 24),
      )
      (omega arith),
  rw (bit_and-low_bits 16 limit, gdt_entry-granularity limit gran hg) (omega arith),
  rw (gdt_entry-granularity limit gran hg) (omega arith),
  refl,
  ground arith,
)

-- The stubs that the table has from `first` on.
set_gates_lem :
    (n : ℕ) (t : Tables) (first : ℕ) (stub : ℕ → ℕ) (k i : ℕ)
    → (set_gates n t first stub k).idt i ≡ (
        if leb (first + k) i && ltb i (first + k + n)
        then idt_gate (stub (i - first)) 0x08 0x8E
        else t.idt i)
unfolding set_gates set_idt
set_gates_lem zero t first stub k i = ground arith
set_gates_lem (suc n) t first stub k i =
    set_gates_lem n (set_idt t (first + k) (stub k) 0x08 0x8E) first stub (k + 1) i
    ∙ elim (Bool-cases (i == first + k)) [
      | inr off ↦ ground arith
      | inl at ↦
          let here : i - first ≡ k = omega (arith, ==→eq i (first + k) at) in
          rw (here) (ground arith)
    ]

-- After `isr_install` and the gates of `irq_install`, interrupt `n` enters the stub `isr n` for n
-- below 32 and `irq (n - 32)` for the next 16, in a present 32-bit interrupt gate of the kernel's
-- code segment; no other gate changes.
pub irq_gates-isr_install :
    (isr irq : ℕ → ℕ) (t : Tables) (n : ℕ)
    → (irq_gates irq (isr_install isr t)).idt n ≡ (
        if ltb n 32
        then idt_gate (isr n) 0x08 0x8E
        else if ltb n 48
        then idt_gate (irq (n - 32)) 0x08 0x8E
        else t.idt n)
unfolding irq_gates isr_install
irq_gates-isr_install isr irq t n =
    set_gates_lem 16 (set_gates 32 t 0 isr 0) 32 irq 0 n
    ∙ ground (arith, set_gates_lem 32 t 0 isr 0 n)

-- A gate holds the whole address of its stub.
pub set_idt_lem :
    (t : Tables) (n offset sel flags k : ℕ)
    → offset < 2 ^ 32
    → k ≢ n
    → let g = (set_idt t n offset sel flags).idt n in
      (offset_of g ≡ offset)
      × (g.selector ≡ sel)
      × (g.flags ≡ flags)
      × ((set_idt t n offset sel flags).idt k ≡ t.idt k)
unfolding set_idt idt_gate
set_idt_lem t n offset sel flags k h off = rw (==_refl n) (
  rw (bit_and-low_bits 16 offset, bit_and-low_bits 16 (offset / 2 ^ 16)) (omega arith),
  refl,
  refl,
  ground arith,
)
