-- ===== src/Acpi/Tests.antt =====
-- Tables of ACPI in memory, and the theorems about kernel/power at them.
use john_os.Common.{
  ℕ, zero, suc, ◌+◌, ◌-◌, ◌*◌, ◌≤◌, ◌<◌, ◌≡◌, refl, sym, ◌∙◌, ◌≢◌, ◌⊎◌, inl, inr, List, [], ◌∷◌,
  ◌++◌, arith, ◌==◌, if◌then◌else◌,
}
use john_os.Common.Store.{Store, write}
use john_os.MemFill.Laws.{memset2-outside}
use john_os.Text.Length.{IsString}
use john_os.Acpi.{Acpi, Arrays, find_rsdp, find_table, table_at, read_dsdt}
use john_os.Acpi.Search.{FirstSigned, NoneSigned, find_rsdp-First, find_table-First}
use john_os.Acpi.Power.{Power, shutdown, check_shutdown_code}
use john_os.Acpi.Power.Sleep.{in_type, shutdown-Sleep}
use john_os.Acpi.Power.Name.{check_shutdown_code-garbage}
use john_os.Common.Bits.{bit}

abbrev text_at : (p : ℕ) → List ℕ → Store → Store
text_at p [] m = m
text_at p (c ∷ cs) m = write (text_at (p + 1) cs m) p c

abbrev rsd_text : List ℕ
rsd_text = b'R' ∷ b'S' ∷ b'D' ∷ b' ' ∷ b'P' ∷ b'T' ∷ b'R' ∷ b' ' ∷ []

-- The literals "RSD PTR ", "FACP" and "_S5" at 100, 110 and 120, a root pointer at 0xe0010, and the
-- array of tables at 300 with a table at 400. The byte at 203 is garbage.
abbrev memory : Store
memory = text_at 100 rsd_text (
    text_at 110 (b'F' ∷ b'A' ∷ b'C' ∷ b'P' ∷ []) (
      text_at 120 (b'_' ∷ b'S' ∷ b'5' ∷ []) (
        text_at 0xe0010 rsd_text (
          text_at 400 (b'F' ∷ b'A' ∷ b'C' ∷ b'P' ∷ [])
            (text_at 203 (7 ∷ []) (text_at 300 (144 ∷ 1 ∷ []) (λ a. 0)))))))

abbrev acpi : Acpi
acpi = record {
  pages = record {
    os_memmap = λ a. 0;
    ram = memory;
    mem_block = λ a. 0;
    mem_bt_temp = 0;
    mbt_freeflag = 0;
  };
  rsdp_address = 0;
  rsdt_entries = 1;
  madt_entries = 0;
  dsdt_code_length = 0;
  ssdt_code_length = 0;
  rsd_ptr = 1000;
  rsd_tbl = 2000;
  fadt = 3000;
  madt = 4000;
  ssdt = 5000;
  dsdt = 6000;
}

abbrev arrays : Arrays
arrays = record {
  dsdt_code = 10000;
  ssdt_code = 30000;
  madt_array = 50000;
  madt_array_pointers = 51000;
  rsdt_array = 300;
}

abbrev power : Power
power = record {
  using_acpi_pm1a_cnt_blk = 0x404;
  using_acpi_pm1b_cnt_blk = 0;
  using_acpi_smi_cmd = 0xb2;
  pm1a_ignore = 0;
  pm1b_ignore = 0;
  using_acpi_sci_en_a = 1;
  using_acpi_sci_en_b = 0;
  using_acpi_slp_typ_a = 5;
  using_acpi_slp_typ_b = 0;
  using_acpi_enable = 0xf1;
}

rsd-IsString : IsString memory 100 8
rsd-IsString = record { chars = λ k b. ground arith; ends = refl }

facp-IsString : IsString memory 110 4
facp-IsString = record { chars = λ k b. ground arith; ends = refl }

table-behind : (a : ℕ) → a < 1 → 200 + 5 * a + 4 ≤ table_at arrays memory a
table-behind zero b = omega arith
table-behind (suc a) b = absurd (omega arith)

dsdt-kept : (a : ℕ) → a < 6000 → (read_dsdt acpi).pages.ram a ≡ memory a
unfolding read_dsdt
dsdt-kept a b = memset2-outside 36 memory 6000 _ a (inr b)

s5-IsString : IsString (read_dsdt acpi).pages.ram 120 3
s5-IsString = record {
  chars = λ k b. rw (dsdt-kept (120 + k) (omega arith)) (ground arith);
  ends = dsdt-kept 123 (omega arith);
}

garbage : (read_dsdt acpi).pages.ram 203 ≢ 0
garbage e =
    let seven : 7 ≡ 0 = sym (dsdt-kept 203 (omega arith)) ∙ e in absurd (omega (arith, seven))

find_rsdp-First_example :
    ((i : ℕ) × FirstSigned memory 100 8 (λ i. 0xe0000 + 16 * i) 8192 i
      × (find_rsdp 200 100 acpi ≡ record acpi { rsdp_address = 0xe0000 + 16 * i }))
    ⊎ (NoneSigned memory 100 8 (λ i. 0xe0000 + 16 * i) 8192 × (find_rsdp 200 100 acpi ≡ acpi))
find_rsdp-First_example =
    find_rsdp-First acpi 200 100 rsd-IsString (inr (omega arith)) (inl (omega arith))

find_table-First_example :
    ((i : ℕ) × FirstSigned memory 110 4 (table_at arrays memory) 1 i
      × (find_table arrays 200 110 acpi ≡ (1, i)))
    ⊎ (NoneSigned memory 110 4 (table_at arrays memory) 1
        × (find_table arrays 200 110 acpi ≡ (0, 0)))
find_table-First_example =
    find_table-First arrays acpi 200 110 facp-IsString (λ a b. inr (ground arith))
      (λ a b. inl (table-behind a b))

shutdown-Sleep_example :
    (words : List (ℕ × ℕ)) × (v : ℕ) × (shutdown (λ port. 1) power ≡ words ++ (0x404, v) ∷ [])
    × ((i : ℕ)
        → i < 16
        → bit v i ≡ (if i == 13 then 1 else if in_type i then bit 5 (i - 10) else bit 1 i))
shutdown-Sleep_example = shutdown-Sleep (λ port. 1) power (omega arith)

check_shutdown_code-garbage_example :
    check_shutdown_code 200 120 (acpi, power) ≡ (read_dsdt acpi, power)
check_shutdown_code-garbage_example =
    check_shutdown_code-garbage acpi power 200 120 s5-IsString (inr (omega arith)) garbage
