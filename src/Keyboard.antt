-- ===== src/Keyboard.antt =====
-- The line editor of kernel/device/kb.c: what `keyboard_handler` does with one scan code before a
-- line is finished. The two buffers stand in memory at `buffstr` and `buffstr2`; what is echoed on
-- the screen is a list.
pub mod Line
mod Tests
pub mod Addresses
pub mod Handler
pub mod Directories
pub mod Commands
pub mod Files
use john_os.Common.{
  ℕ, zero, suc, ◌+◌, ◌-◌, ◌*◌, ◌/◌, ◌%◌, ◌^◌, ◌≤◌, ◌<◌, ◌≡◌, refl, sym, ap, ◌∙◌, fun_ext, ◌≢◌, ◌⊎◌,
  inl, inr, Bool, true, false, ◌&&◌, ◌||◌, not, Option, none, some, List, [], ◌∷◌, ◌++◌, arith, u8,
  u16, u32, not32, ◌<<<◌, ◌>>>◌, ltb, leb, ◌==◌, if◌then◌else◌, ==_refl, Bool-cases, eq→==, ==→eq,
  ==_iff, bit_and, bit_or, bit_xor, min, max, ◌↔◌, ◌>>=◌,
}
use john_os.Common.Store.{Store, write}
use john_os.MemFill.{zero_usbms_mem_7}
use john_os.PageMap.{Pages, kmem_4k_allocate}

pub record Keyboard : Type 0 where
  pub ram : Store
  pub buffstr : ℕ
  pub buffstr2 : ℕ
  pub kb_i : ℕ
  pub input : ℕ
  pub reading : ℕ

-- `printch` with its two arguments, and the scrolling of the screen by one row.
pub data Echo : Type 0 where
  echo : (c i : ℕ) → Echo
  scrolled_down : Echo
  scrolled_up : (line_number : ℕ) → Echo

-- The characters of the scan codes from 0 on.
table : List ℕ
table =
    0 ∷ 27 ∷ 49 ∷ 50 ∷ 51 ∷ 52 ∷ 53 ∷ 54 ∷ 55 ∷ 56 ∷ 57 ∷ 48 ∷ 45 ∷ 61 ∷ 8 ∷ 9 ∷ 113 ∷ 119 ∷ 101
    ∷ 114 ∷ 116 ∷ 121 ∷ 117 ∷ 105 ∷ 111 ∷ 112 ∷ 91 ∷ 93 ∷ 13 ∷ 0 ∷ 97 ∷ 115 ∷ 100 ∷ 102 ∷ 103 ∷ 104
    ∷ 106 ∷ 107 ∷ 108 ∷ 59 ∷ 39 ∷ 96 ∷ 0 ∷ 92 ∷ 122 ∷ 120 ∷ 99 ∷ 118 ∷ 98 ∷ 110 ∷ 109 ∷ 44 ∷ 46 ∷ 47
    ∷ 0 ∷ 42 ∷ 0 ∷ 32 ∷ 0 ∷ 59 ∷ 60 ∷ 61 ∷ 62 ∷ 63 ∷ 64 ∷ 65 ∷ 66 ∷ 67 ∷ 68 ∷ []

pub entry : List ℕ → ℕ → ℕ
entry [] k = 0
entry (c ∷ cs) zero = c
entry (c ∷ cs) (suc k) = entry cs k

pub character : (input : ℕ) → ℕ
unfolding table entry
character input = entry table input

-- The same byte in both buffers.
both : Keyboard → (i c : ℕ) → Store
both k i c = write (write k.ram (k.buffstr + i) c) (k.buffstr2 + i) c

enter : Keyboard → Keyboard × List Echo
unfolding both
enter k = (record k { ram = both k k.kb_i 0; reading = 0 }, [])

-- The echo has the old `kb_i`.
backspace : Keyboard → Keyboard × List Echo
unfolding both
backspace k =
    let i = if ltb 0 k.kb_i then k.kb_i - 1 else k.kb_i in
    (record k { ram = both k i 0; kb_i = i }, echo 8 k.kb_i ∷ [])

letter : Keyboard → Keyboard × List Echo
unfolding both character
letter k =
    if ltb k.input 69 && ltb k.kb_i 127
    then (
      record k { ram = both k k.kb_i (character k.input); kb_i = u8 (k.kb_i + 1) },
      echo (character k.input) 0 ∷ [],
    )
    else (k, [])

-- The `switch` of `keyboard_handler`, behind `reading = 1` and the read of the scan code.
pub press : Keyboard → (scan_code : ℕ) → Keyboard × List Echo
unfolding enter backspace letter
press k0 scan_code =
    let k = record k0 { reading = 1; input = scan_code } in
    if scan_code == 28
    then enter k
    else if scan_code == 14
    then backspace k
    else if scan_code == 0x48
    then (record k { input = 0 }, scrolled_down ∷ [])
    else if scan_code == 0x50
    then (record k { input = 0 }, scrolled_up 1 ∷ [])
    else letter k

-- The variables as they start, with the page at `kb_temp_dir`.
pub set_kbvariables_zero : Pages → Keyboard → Pages × Keyboard × ℕ
set_kbvariables_zero s k =
    let (s1, first) = kmem_4k_allocate s in
    let (s2, second) = kmem_4k_allocate (record s1 { ram = zero_usbms_mem_7 s1.ram first }) in
    let (s3, temp_dir) = kmem_4k_allocate (record s2 { ram = zero_usbms_mem_7 s2.ram second }) in
    let s4 = record s3 { ram = zero_usbms_mem_7 s3.ram temp_dir } in
    (
      s4,
      record k { ram = s4.ram; buffstr = first; buffstr2 = second; kb_i = 0; input = 0 },
      temp_dir,
    )
