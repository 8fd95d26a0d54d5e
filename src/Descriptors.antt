-- ===== src/Descriptors.antt =====
-- The descriptor tables of kernel/gdt.c and kernel/idt.c. The instructions that load a table,
-- `gdt_flush` and `idt_flush`, are assembly and left out.
pub mod Gates
mod Tests
use john_os.Common.{
  ℕ, zero, suc, ◌+◌, ◌-◌, ◌*◌, ◌/◌, ◌%◌, ◌^◌, ◌≤◌, ◌<◌, ◌≡◌, refl, sym, ap, ◌∙◌, fun_ext, ◌≢◌, ◌⊎◌,
  inl, inr, Bool, true, false, ◌&&◌, ◌||◌, not, Option, none, some, List, [], ◌∷◌, ◌++◌, arith, u8,
  u16, u32, not32, ◌<<<◌, ◌>>>◌, ltb, leb, ◌==◌, if◌then◌else◌, ==_refl, Bool-cases, eq→==, ==→eq,
  ==_iff, bit_and, bit_or, bit_xor, min, max, ◌↔◌, ◌>>=◌,
}

pub record GdtEntry : Type 0 where
  pub limit_low : ℕ
  pub base_low : ℕ
  pub base_middle : ℕ
  pub access : ℕ
  pub granularity : ℕ
  pub base_high : ℕ

-- `struct gdt_ptr`, and `struct idt_ptr`.
pub record TablePtr : Type 0 where
  pub limit : ℕ
  pub bases : ℕ

pub record IdtGate : Type 0 where
  pub low_offset : ℕ
  pub selector : ℕ
  pub always0 : ℕ
  pub flags : ℕ
  pub high_offset : ℕ

pub record Tables : Type 0 where
  pub gdt : ℕ → GdtEntry
  pub gp : TablePtr
  pub idt : ℕ → IdtGate
  pub iptr : TablePtr

pub gdt_entry : (base limit access gran : ℕ) → GdtEntry
gdt_entry base limit access gran = record {
  base_low = bit_and base 0xFFFF;
  base_middle = bit_and (base >>> 16) 0xFF;
  base_high = bit_and (base >>> 24) 0xFF;
  limit_low = bit_and limit 0xFFFF;
  granularity = bit_or (bit_and (limit >>> 16) 0x0F) (bit_and gran 0xF0);
  access = access;
}

pub gdt_set_gate : Tables → (num base limit access gran : ℕ) → Tables
gdt_set_gate t num base limit access gran = record t {
  gdt = λ (n : ℕ). if n == num then gdt_entry base limit access gran else t.gdt n;
}

-- An entry has 8 bytes.
pub gdt_install : (gdt_address : ℕ) → Tables → Tables
gdt_install gdt_address t =
    let t1 = record t { gp = record { limit = 8 * 3 - 1; bases = gdt_address } } in
    let t2 = gdt_set_gate t1 0 0 0 0 0 in
    let t3 = gdt_set_gate t2 1 0 0xFFFF_FFFF 0x9A 0xCF in gdt_set_gate t3 2 0 0xFFFF_FFFF 0x92 0xCF

pub idt_gate : (offset sel flags : ℕ) → IdtGate
idt_gate offset sel flags = record {
  low_offset = bit_and offset 0xFFFF;
  selector = sel;
  always0 = 0;
  flags = flags;
  high_offset = bit_and (offset >>> 16) 0xFFFF;
}

pub set_idt : Tables → (n offset sel flags : ℕ) → Tables
set_idt t n offset sel flags = record t {
  idt = λ (k : ℕ). if k == n then idt_gate offset sel flags else t.idt k;
}

-- `memset` over the table, seen as gates.
pub idt_install : (idt_address : ℕ) → Tables → Tables
idt_install idt_address t = record t {
  idt = λ (k : ℕ).
      if ltb k 256
      then record { low_offset = 0; selector = 0; always0 = 0; flags = 0; high_offset = 0 }
      else t.idt k;
  iptr = record { limit = 8 * 256 - 1; bases = idt_address };
}

-- A run of calls `set_idt(first + k, stub_k, 0x08, 0x8E)`, in the order of the numbers.
set_gates : ℕ → Tables → (first : ℕ) → (stub : ℕ → ℕ) → (k : ℕ) → Tables
set_gates zero t first stub k = t
set_gates (suc rounds) t first stub k =
    set_gates rounds (set_idt t (first + k) (stub k) 0x08 0x8E) first stub (k + 1)

-- The addresses of `isr0` to `isr31` are those of the assembly's stubs.
pub isr_install : (isr : ℕ → ℕ) → Tables → Tables
isr_install isr t = set_gates 32 t 0 isr 0

-- The part of `irq_install` behind `irq_remap`.
pub irq_gates : (irq : ℕ → ℕ) → Tables → Tables
irq_gates irq t = set_gates 16 t 32 irq 0
