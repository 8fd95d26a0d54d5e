-- ===== src/Acpi/Power.antt =====
-- kernel/power/check_enable_acpi.c, kernel/power/check_shutdown_acpi.c and `init_acpi_variables`:
-- the registers that switch the computer off. `inportw` is the read of a port.
pub mod Sleep
pub mod Name
use john_os.Common.{
  ℕ, zero, suc, ◌+◌, Bool, ◌&&◌, not, Option, none, some, List, [], ◌∷◌, u16, not32, ◌<<<◌, ltb,
  leb, ◌==◌, if◌then◌else◌, bit_and, bit_or, ◌>>=◌,
}
use john_os.Common.Store.{Store, read32}
use john_os.MemFill.{memset2}
use john_os.Text.{str_eql}
use john_os.Acpi.{Acpi, read_dsdt}

pub record Power : Type 0 where
  pub using_acpi_pm1a_cnt_blk : ℕ
  pub using_acpi_pm1b_cnt_blk : ℕ
  pub using_acpi_smi_cmd : ℕ
  pub pm1a_ignore : ℕ
  pub pm1b_ignore : ℕ
  pub using_acpi_sci_en_a : ℕ
  pub using_acpi_sci_en_b : ℕ
  pub using_acpi_slp_typ_a : ℕ
  pub using_acpi_slp_typ_b : ℕ
  pub using_acpi_enable : ℕ

-- Whether one of the three dwords of an extended register at `p` is set.
extended : Store → (p : ℕ) → ℕ
extended m p =
    if bit_or (bit_or (read32 m p) (read32 m (p + 4))) (read32 m (p + 8)) == 0 then 0 else 1

-- With an extended register the plain one is ignored, and no other is used in its place.
pub init_acpi_variables : (inportw : ℕ → ℕ) → Store → (fadt : ℕ) → Power → Power
unfolding extended
init_acpi_variables inportw m fadt p =
    let pm1a_ignore = extended m (fadt + 172) in
    let pm1b_ignore = extended m (fadt + 184) in
    let pm1a = if pm1a_ignore == 0 then read32 m (fadt + 64) else 0 in
    let pm1b = if pm1b_ignore == 0 then read32 m (fadt + 68) else 0 in
    record p {
      pm1a_ignore = pm1a_ignore;
      pm1b_ignore = pm1b_ignore;
      using_acpi_pm1a_cnt_blk = pm1a;
      using_acpi_pm1b_cnt_blk = pm1b;
      using_acpi_smi_cmd = u16 (read32 m (fadt + 48));
      using_acpi_enable = m (fadt + 52);
      using_acpi_sci_en_a =
          if pm1a == 0 then p.using_acpi_sci_en_a else bit_and (inportw (u16 pm1a)) 1;
      using_acpi_sci_en_b =
          if pm1b == 0 then p.using_acpi_sci_en_b else bit_and (inportw (u16 pm1b)) 1;
    }

pub check_acpi_enabled : Power → ℕ
check_acpi_enabled p = if p.using_acpi_sci_en_a == 0 then 0 else 1

-- `while((!enable_flag) && (timer_ticks < 300))` for a list of polls, each with `timer_ticks` where
-- the loop is tested and the word that is read behind the wait: the flag and the ticks at the end,
-- or `none` where the loop still runs.
enable_loop : List (ℕ × ℕ) → (enable_flag : ℕ) → Option (ℕ × ℕ)
enable_loop [] flag = none
enable_loop ((ticks, word) ∷ polls) flag =
    let rest = enable_loop polls (bit_and word 1) in
    if flag == 0 && ltb ticks 300 then rest else some (flag, ticks)

-- The result of `enable_acpi`, with the polls of the two registers. The byte `acpi_enable` has been
-- written to the port `using_acpi_smi_cmd` before.
pub enable_acpi : Power → (polls_a polls_b : List (ℕ × ℕ)) → Option ℕ
unfolding enable_loop
enable_acpi p polls_a polls_b = enable_loop polls_a 0 >>= (λ (a : ℕ × ℕ).
    let b =
      enable_loop polls_b 0
      >>= (λ (b : ℕ × ℕ). if leb 300 b.1 then some 2 else if b.0 == 0 then some 2 else some 1) in
    if p.using_acpi_pm1b_cnt_blk == 0
    then if a.0 == 0 then some 0 else some 1
    else if a.0 == 0
    then some 0
    else b)

-- `strEql` of three bytes at `ptr` in the array `temp_holder` and a literal. Of the array only the
-- first three bytes and the last are written.
pub is_s5 : Store → (temp_holder literal ptr : ℕ) → Bool
is_s5 m temp literal ptr = not (str_eql (memset2 m temp ptr 3) temp literal == 0)

-- `while ((i < dsdt_code_length) && (flag_set == 0))` with `rounds` bytes to go: where the name is.
s5_loop : ℕ → (is_name : ℕ → Bool) → (ptr : ℕ) → Option ℕ
s5_loop zero is_name ptr = none
s5_loop (suc rounds) is_name ptr =
    let rest = s5_loop rounds is_name (ptr + 1) in if is_name ptr then some ptr else rest

-- The two values behind the name, which may end in another `_`.
set_types : Store → Power → (ptr : ℕ) → Power
set_types m p ptr =
    let values = if m (ptr + 3) == b'_' then ptr + 4 else ptr + 3 in
    record p { using_acpi_slp_typ_a = m values; using_acpi_slp_typ_b = m (values + 1) }

-- `literal` is the address of "_S5".
pub check_shutdown_code : (temp_holder literal : ℕ) → Acpi × Power → Acpi × Power
unfolding set_types
check_shutdown_code temp literal (s, p) =
    let s' = read_dsdt s in
    let m = s'.pages.ram in
    let code = read32 s.pages.ram (s.fadt + 40) + 36 in
    let p' : Power = elim (s5_loop s'.dsdt_code_length (is_s5 m temp literal) code) [
      | none ↦ p
      | some ptr ↦ set_types m p ptr
    ] in
    (s', p')

-- `ACPI_PM1_CTL_BLK_IGN_SLP_TYPX`, `ACPI_PM1_CTL_BLK_SET_SLP_TYPX` and `ACPI_PM1_CTL_BLK_SET`.
pub ignore_type : ℕ → ℕ
ignore_type x = u16 (bit_and x (not32 (7 <<< 10)))

pub set_type : (x y : ℕ) → ℕ
set_type x y = u16 (bit_or x (y <<< 10))

pub set_sleep : (x y : ℕ) → ℕ
set_sleep x y = u16 (bit_or x (bit_or (y <<< 10) (1 <<< 13)))

-- The words that `shutdown` writes, each with its port.
pub shutdown : (inportw : ℕ → ℕ) → Power → List (ℕ × ℕ)
shutdown inportw p =
    let a = u16 p.using_acpi_pm1a_cnt_blk in
    let b = u16 p.using_acpi_pm1b_cnt_blk in
    let temp = ignore_type (inportw a) in
    let temp2 = set_type (ignore_type (inportw b)) p.using_acpi_slp_typ_b in
    let last = (a, set_sleep temp p.using_acpi_slp_typ_a) ∷ [] in
    (a, temp) ∷ (if p.using_acpi_pm1b_cnt_blk == 0 then last else (b, temp2) ∷ last)
