-- ===== src/Acpi.antt =====
-- The tables of kernel/power/using_acpi.c: the search for the root pointer, and the tables that the
-- root table lists. Tables are copied to pages and read there. The addresses of local arrays and of
-- string literals are arguments.
pub mod First
pub mod Search
pub mod Power
mod Tests
use john_os.Common.{
  ℕ, zero, suc, ◌+◌, ◌-◌, ◌*◌, ◌/◌, ◌%◌, ◌^◌, ◌≤◌, ◌<◌, ◌≡◌, refl, sym, ap, ◌∙◌, fun_ext, ◌≢◌, ◌⊎◌,
  inl, inr, Bool, true, false, ◌&&◌, ◌||◌, not, Option, none, some, List, [], ◌∷◌, ◌++◌, arith, u8,
  u16, u32, not32, ◌<<<◌, ◌>>>◌, ltb, leb, ◌==◌, if◌then◌else◌, ==_refl, Bool-cases, eq→==, ==→eq,
  ==_iff, bit_and, bit_or, bit_xor, min, max, ◌↔◌, ◌>>=◌,
}
use john_os.Common.Store.{Store, write, write32, read32}
use john_os.MemFill.{memset2}
use john_os.PageMap.{Pages, kmem_4k_allocate}
use john_os.Text.{str_eql}

pub record Acpi : Type 0 where
  pub pages : Pages
  pub rsdp_address : ℕ
  pub rsdt_entries : ℕ
  pub madt_entries : ℕ
  pub dsdt_code_length : ℕ
  pub ssdt_code_length : ℕ
  pub rsd_ptr : ℕ
  pub rsd_tbl : ℕ
  pub fadt : ℕ
  pub madt : ℕ
  pub ssdt : ℕ
  pub dsdt : ℕ

-- The addresses of the arrays.
pub record Arrays : Type 0 where
  pub dsdt_code : ℕ
  pub ssdt_code : ℕ
  pub madt_array : ℕ
  pub madt_array_pointers : ℕ
  pub rsdt_array : ℕ

abbrev pub set_ram : Acpi → Store → Acpi
set_ram s m = record s { pages = record s.pages { ram = m } }

-- `n` bytes at `p`, copied to `temp` with a terminator behind them.
signature : Store → (temp p n : ℕ) → Store
signature m temp p n = write (memset2 m temp p n) (temp + n) 0

-- `strEql` of such a copy and a literal, as a test.
pub same_signature : Store → (temp literal p n : ℕ) → Bool
unfolding signature
same_signature m temp literal p n = not (str_eql (signature m temp p n) temp literal == 0)

-- `for(uint32_t a = 0xe0000; (a < 0x100000) && (rsdp_found == 0); a+=16)` with `rounds` rounds to
-- go: the pointer, which has stepped on behind a match, and the flag.
pub rsdp_loop : ℕ → (is_rsdp : ℕ → Bool) → (find_rsdp : ℕ) → ℕ × ℕ
rsdp_loop zero is_rsdp p = (p, 0)
rsdp_loop (suc rounds) is_rsdp p =
    let rest = rsdp_loop rounds is_rsdp (p + 16) in if is_rsdp p then (p + 16, 1) else rest

-- `literal` is the address of "RSD PTR ".
pub find_rsdp : (temp_str literal : ℕ) → Acpi → Acpi
find_rsdp temp_str literal s =
    let (p, rsdp_found) =
      rsdp_loop 8192 (λ p. same_signature s.pages.ram temp_str literal p 8) 0xe0000 in
    if rsdp_found == 1 then record s { rsdp_address = p - 16 } else s

-- Zeros in two arrays in step, with `rounds` elements to go.
zero_bytes_of : ℕ → Store → (p q a : ℕ) → Store
zero_bytes_of zero m p q a = m
zero_bytes_of (suc rounds) m p q a =
    zero_bytes_of rounds (write (write m (p + a) 0) (q + a) 0) p q (a + 1)

zero_byte_of : ℕ → Store → (p a : ℕ) → Store
zero_byte_of zero m p a = m
zero_byte_of (suc rounds) m p a = zero_byte_of rounds (write m (p + a) 0) p (a + 1)

zero_dwords_of : ℕ → Store → (p q a : ℕ) → Store
zero_dwords_of zero m p q a = m
zero_dwords_of (suc rounds) m p q a =
    zero_dwords_of rounds (write32 (write32 m (p + 4 * a) 0) (q + 4 * a) 0) p q (a + 1)

pub set_acpi_structs : Arrays → Acpi → Acpi
set_acpi_structs arrays s =
    let (s1, rsd_ptr) = kmem_4k_allocate s.pages in
    let (s2, rsd_tbl) = kmem_4k_allocate s1 in
    let (s3, fadt) = kmem_4k_allocate s2 in
    let (s4, madt) = kmem_4k_allocate s3 in
    let (s5, ssdt) = kmem_4k_allocate s4 in
    let (s6, dsdt) = kmem_4k_allocate s5 in
    let m1 = zero_bytes_of 16000 s6.ram arrays.dsdt_code arrays.ssdt_code 0 in
    let m2 = zero_byte_of 512 m1 arrays.madt_array 0 in
    let m3 = zero_dwords_of 128 m2 arrays.madt_array_pointers arrays.rsdt_array 0 in
    record s {
      pages = record s6 { ram = m3 };
      rsd_ptr = rsd_ptr;
      rsd_tbl = rsd_tbl;
      fadt = fadt;
      madt = madt;
      ssdt = ssdt;
      dsdt = dsdt;
    }

pub read_rsdp : Acpi → Acpi
read_rsdp s = set_ram s (memset2 s.pages.ram s.rsd_ptr s.rsdp_address 36)

-- `for(uint32_t a = 0; a < rsdt_entries; a++)` with `rounds` entries to go.
copy_entries : ℕ → Store → (from to : ℕ) → Store
copy_entries zero m from to = m
copy_entries (suc rounds) m from to =
    copy_entries rounds (write32 m to (read32 m from)) (from + 4) (to + 4)

-- The number of entries is not compared with the 128 that the array has room for.
pub test_read_rsdt : Arrays → Acpi → Acpi
test_read_rsdt arrays s =
    let rsdt_addr = read32 s.pages.ram (s.rsd_ptr + 16) in
    let m = memset2 s.pages.ram s.rsd_tbl rsdt_addr 36 in
    let rsdt_entries = u32 (read32 m (s.rsd_tbl + 4) + 2 ^ 32 - 36) / 4 in
    record s {
      pages = record s.pages {
        ram = copy_entries rsdt_entries m (u32 (rsdt_addr + 36)) arrays.rsdt_array;
      };
      rsdt_entries = rsdt_entries;
    }

-- `for(uint32_t a = 0; ((a < rsdt_entries) && (found_flag == 0)); a++)` with `rounds` entries to
-- go: `found_flag` and `index_value`.
pub table_loop : ℕ → (is_table : ℕ → Bool) → (a : ℕ) → ℕ × ℕ
table_loop zero is_table a = (0, 0)
table_loop (suc rounds) is_table a =
    let rest = table_loop rounds is_table (a + 1) in if is_table a then (1, a) else rest

-- The address in entry `a` of the array.
abbrev pub table_at : Arrays → Store → (a : ℕ) → ℕ
table_at arrays m a = read32 m (arrays.rsdt_array + 4 * a)

pub find_table : Arrays → (read_acpi_signatures literal : ℕ) → Acpi → ℕ × ℕ
find_table arrays signatures literal s =
    let m = s.pages.ram in
    table_loop s.rsdt_entries
      (λ a. same_signature m (signatures + 5 * a) literal (table_at arrays m a) 4) 0

-- `literal` is the address of "APIC".
pub print_madt_struct_info : Arrays → (read_acpi_signatures literal : ℕ) → Acpi → Acpi
print_madt_struct_info arrays signatures literal s =
    let (found_flag, index_value) = find_table arrays signatures literal s in
    let table = table_at arrays s.pages.ram index_value in
    let m = memset2 s.pages.ram s.madt table 44 in
    let madt_entries = u32 (read32 m (s.madt + 4) + 2 ^ 32 - 44) in
    if found_flag == 1
    then record s {
      pages = record s.pages { ram = memset2 m arrays.madt_array (table + 44) madt_entries };
      madt_entries = madt_entries;
    }
    else s

-- `literal` is the address of "FACP".
pub print_fadt_struct_info : Arrays → (read_acpi_signatures literal : ℕ) → Acpi → Acpi
print_fadt_struct_info arrays signatures literal s =
    let (found_flag, index_value) = find_table arrays signatures literal s in
    if found_flag == 1
    then set_ram s (memset2 s.pages.ram s.fadt (table_at arrays s.pages.ram index_value) 276)
    else s

pub read_dsdt : Acpi → Acpi
read_dsdt s =
    let m = memset2 s.pages.ram s.dsdt (read32 s.pages.ram (s.fadt + 40)) 36 in
    record s {
      pages = record s.pages { ram = m };
      dsdt_code_length = u32 (read32 m (s.dsdt + 4) + 2 ^ 32 - 36);
    }

-- `literal` is the address of "SSDT".
pub read_ssdt : Arrays → (read_acpi_signatures literal : ℕ) → Acpi → Acpi
read_ssdt arrays signatures literal s =
    let (found_flag, index_value) = find_table arrays signatures literal s in
    let m = memset2 s.pages.ram s.ssdt (table_at arrays s.pages.ram index_value) 36 in
    if found_flag == 1
    then record s {
      pages = record s.pages { ram = m };
      ssdt_code_length = u32 (read32 m (s.ssdt + 4) + 2 ^ 32 - 36);
    }
    else s
