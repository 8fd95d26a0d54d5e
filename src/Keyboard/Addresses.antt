-- ===== src/Keyboard/Addresses.antt =====
-- `keyboard_handler2` and `keyboard_handler3` of kernel/device/kb.c, which take a number: the number
-- of a block that is read from the USB device, and the offset of a register that is shown. The
-- digits stand as bytes in `buffstr3` and `buffstr5`. What is printed of the data is left out, as
-- is the handler that is installed again.
pub mod Digits
use john_os.Common.{
  ℕ, zero, suc, ◌+◌, ◌-◌, ◌*◌, ◌/◌, ◌%◌, ◌^◌, ◌≤◌, ◌<◌, ◌≡◌, refl, sym, ap, ◌∙◌, fun_ext, ◌≢◌, ◌⊎◌,
  inl, inr, Bool, true, false, ◌&&◌, ◌||◌, not, Option, none, some, List, [], ◌∷◌, ◌++◌, arith, u8,
  u16, u32, not32, ◌<<<◌, ◌>>>◌, ltb, leb, ◌==◌, if◌then◌else◌, ==_refl, Bool-cases, eq→==, ==→eq,
  ==_iff, bit_and, bit_or, bit_xor, min, max, ◌↔◌, ◌>>=◌,
}
use john_os.Common.Store.{Store, write, read32}
use john_os.MemFill.{read_mem_address, read_dword, read_dword_addr}
use john_os.Numbers.{hex_to_dec}
use john_os.PageMap.{Pages}
use john_os.MassStorage.Prepare.{prepare_usb_storage_bulk_transfer}
use john_os.Keyboard.{Keyboard, Echo, character}

-- The values of the scan codes below 12.
scan_to_value : ℕ → ℕ
scan_to_value code = if ltb 1 code && ltb code 11 then code - 1 else 0

-- What the editor of a number keeps: `digits` is `buffstr3` or `buffstr5`, `shown` the buffer of
-- characters.
pub record Entry : Type 0 where
  pub ram : Store
  pub shown : ℕ
  pub digits : ℕ
  pub kb_i : ℕ

-- Both bytes at `kb_i`.
put_digit : Entry → (i c value : ℕ) → Store
put_digit n i c value = write (write n.ram (n.shown + i) c) (n.digits + i) value

-- The `switch` of both handlers; `allowed` is the test of a digit, `limit` the number of digits, and
-- `value` the digit of a scan code. The result says whether Enter was pressed.
pub type_digit : (allowed : ℕ → Bool) (value : ℕ → ℕ) (limit : ℕ) → Entry → ℕ → Entry × Bool
unfolding put_digit
type_digit allowed value limit n code =
    if code == 28
    then (record n { ram = put_digit n n.kb_i 0 0 }, true)
    else if code == 14
    then (let i = if ltb 0 n.kb_i then n.kb_i - 1 else n.kb_i in
        (record n { ram = put_digit n i 0 0; kb_i = i }, false))
    else if allowed code && ltb n.kb_i limit
    then (
      record n { ram = put_digit n n.kb_i (character code) (value code); kb_i = u8 (n.kb_i + 1) },
      false,
    )
    else (n, false)

-- The dword at index `temp` of a pointer to dwords.
pub dwords : Store → (p temp : ℕ) → ℕ
dwords m p temp = read32 m (p + 4 * temp)

-- The number of `keyboard_handler2`: the bytes are read as dwords, `(uint32_t*)ch2`.
pub typed_number : Entry → ℕ
unfolding dwords
typed_number n = read_mem_address (dwords n.ram n.digits) (u8 (n.kb_i + 2 ^ 8 - 1))

-- What a finished number leads to: the data of a block, or the message of an invalid address.
pub data Finished : Type 0 where
  typing : Finished
  block_read : (lba data_area : ℕ) → Finished
  invalid_address : (lba : ℕ) → Finished

pub keyboard_handler2 :
    (transfer : Store → ℕ → Store × ℕ) (hci_in_use : ℕ)
    → Pages
    → Entry
    → (scan_code : ℕ) → Pages × Entry × Finished
unfolding type_digit typed_number scan_to_value
keyboard_handler2 transfer hci_in_use s n code =
    let (n', entered) = type_digit (λ c. ltb 1 c && ltb c 12) scan_to_value 5 n code in
    let lba = typed_number n' in
    let (s', data_area) =
      prepare_usb_storage_bulk_transfer transfer hci_in_use (record s { ram = n'.ram }) 0x28 0x80 0
        512 1 lba in
    if not entered
    then (s, n', typing)
    else if ltb lba 43008
    then (s', record n' { ram = s'.ram; kb_i = 0 }, block_read lba data_area)
    else (s, record n' { kb_i = 0 }, invalid_address lba)

-- The scan codes of hexadecimal digits.
abbrev pub is_hex_key : ℕ → Bool
is_hex_key c =
    (ltb 1 c && ltb c 12)
    || (c == 18 || (c == 30 || ((ltb 31 c && ltb c 34) || (c == 46 || c == 48))))

-- The digit is taken from `scan_to_value`, an array of 12; `behind` is what stands in memory behind
-- it, where the codes of the letters lead.
pub hex_value : (behind : ℕ → ℕ) → ℕ → ℕ
unfolding scan_to_value
hex_value behind code = if ltb code 12 then scan_to_value code else behind code

-- With eight digits, Enter shows the value at the offset from the registers at `base`, which is
-- `PCI_Config_RW2(0, 6, 0, 16)`: the value and its address.
pub keyboard_handler3 :
    (behind : ℕ → ℕ) (base : ℕ) → Entry → (scan_code : ℕ) → Entry × Option (ℕ × ℕ)
unfolding type_digit hex_value dwords
keyboard_handler3 behind base n code =
    let (n', entered) = type_digit is_hex_key (hex_value behind) 8 n code in
    let offset = hex_to_dec (dwords n'.ram n'.digits) in
    if entered && n'.kb_i == 8
    then (record n' { kb_i = 0 }, some (read_dword n'.ram base offset, read_dword_addr base offset))
    else (n', none)
