-- ===== src/Descriptors/Tests.antt =====
-- The kernel's own tables.
use john_os.Common.{ℕ, ◌≡◌, refl, arith}
use john_os.Descriptors.{Tables, gdt_set_gate, gdt_install, gdt_entry, set_idt}
use john_os.Descriptors.Gates.{limit_of, offset_of, set_idt_lem}

abbrev empty : Tables
empty = record {
  gdt = λ (n : ℕ). record {
    limit_low = 0;
    base_low = 0;
    base_middle = 0;
    access = 0;
    granularity = 0;
    base_high = 0;
  };
  gp = record { limit = 0; bases = 0 };
  idt = λ (n : ℕ). record { low_offset = 0; selector = 0; always0 = 0; flags = 0; high_offset = 0 };
  iptr = record { limit = 0; bases = 0 };
}

-- The code segment spans all 2 ^ 20 units of 4096 bytes.
code_segment : limit_of ((gdt_install 0x1000 empty).gdt 1) ≡ 0xFFFFF
unfolding gdt_install gdt_set_gate gdt_entry
code_segment = refl

set_idt_lem_example :
    let g = (set_idt empty 33 0x12345678 0x08 0x8E).idt 33 in
    (offset_of g ≡ 0x12345678)
    × (g.selector ≡ 0x08)
    × (g.flags ≡ 0x8E)
    × ((set_idt empty 33 0x12345678 0x08 0x8E).idt 34 ≡ empty.idt 34)
set_idt_lem_example =
    set_idt_lem empty 33 0x12345678 0x08 0x8E 34 (omega arith) (λ e. absurd (omega (arith, e)))
