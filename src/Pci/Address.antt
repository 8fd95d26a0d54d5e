-- ===== src/Pci/Address.antt =====
-- The addresses of the configuration space in kernel/device/pci.c, and the fields of the header.
use john_os.Common.{
  ℕ, ◌+◌, ◌*◌, ◌/◌, ◌%◌, ◌^◌, ◌<◌, ◌≡◌, refl, ◌∙◌, ◌≢◌, false, arith, u32, ◌<<<◌, ◌==◌, bit_and,
  bit_or,
}
use john_os.Common.Bits.Nibbles.{dword_offset, bit_or-disjoint, bit_or-above}
use john_os.Common.Bits.{bit_and-low_bits}
use john_os.Pci.{
  config_address, word_of, pci_config_rw, pci_config_rw2, check_pci_type, check_pci_function,
  check_pci_progif, get_pci_header_type, read_device_intline,
}

-- The address is made of its parts without overlap.
pub config_address-sum :
    (b d f offset : ℕ)
    → b < 256
    → d < 32
    → f < 8
    → offset < 256
    → config_address b d f offset ≡ 2 ^ 31 + b * 2 ^ 16 + d * 2 ^ 11 + f * 2 ^ 8 + offset / 4 * 4
unfolding config_address
config_address-sum b d f offset hb hd hf ho =
    let b' : u32 (b <<< 16) ≡ b * 2 ^ 16 = omega arith in
    let d' : u32 (d <<< 11) ≡ d * 2 ^ 11 = omega arith in
    let f' : u32 (f <<< 8) ≡ f * 2 ^ 8 = omega arith in
    let one : bit_or (b * 2 ^ 16) (d * 2 ^ 11) ≡ (b * 32 + d) * 2 ^ 11 =
      bit_or-above 8 16 b (d * 2 ^ 11) (omega arith) (omega arith) ∙ omega arith in
    let two : bit_or ((b * 32 + d) * 2 ^ 11) (f * 2 ^ 8) ≡ (b * 256 + d * 8 + f) * 2 ^ 8 =
      bit_or-above 13 11 (b * 32 + d) (f * 2 ^ 8) (omega arith) (omega arith) ∙ omega arith in
    let low = offset / 4 * 4 in
    let three : bit_or ((b * 256 + d * 8 + f) * 2 ^ 8) low ≡ (b * 256 + d * 8 + f) * 2 ^ 8 + low =
      bit_or-above 16 8 (b * 256 + d * 8 + f) low (omega arith) (omega arith) in
    let four : bit_or ((b * 256 + d * 8 + f) * 2 ^ 8 + low) (1 * 2 ^ 31)
        ≡ (b * 256 + d * 8 + f) * 2 ^ 8 + low + 1 * 2 ^ 31 =
      bit_or-disjoint 31 ((b * 256 + d * 8 + f) * 2 ^ 8 + low) 1 (omega arith) in
    rw (b', d', f', dword_offset offset ho, one, two, three) (four ∙ omega arith)

-- Two addresses are the same only for the same bus, device, function and dword of the header.
pub config_address-injective :
    (b d f offset b' d' f' offset' : ℕ)
    → (b < 256) × (d < 32) × (f < 8) × (offset < 256)
    → (b' < 256) × (d' < 32) × (f' < 8) × (offset' < 256)
    → config_address b d f offset ≡ config_address b' d' f' offset'
    → (b ≡ b') × (d ≡ d') × (f ≡ f') × (offset / 4 ≡ offset' / 4)
config_address-injective b d f o b' d' f' o' (hb, hd, hf, ho) (hb', hd', hf', ho') e =
    let s = config_address-sum b d f o hb hd hf ho in
    let s' = config_address-sum b' d' f' o' hb' hd' hf' ho' in
    (
      omega (arith, s, s', e),
      omega (arith, s, s', e),
      omega (arith, s, s', e),
      omega (arith, s, s', e),
    )

-- The two words of a dword.
high_word :
    (config : ℕ → ℕ) (small : (a : ℕ) → config a < 2 ^ 32) (b d f o base : ℕ)
    → bit_and o 2 ≡ 2
    → bit_and o 0xfc ≡ bit_and base 0xfc
    → pci_config_rw config b d f o ≡ pci_config_rw2 config b d f base / 2 ^ 16
unfolding pci_config_rw word_of pci_config_rw2 config_address
high_word config small b d f o base two same =
    let v = pci_config_rw2 config b d f base in
    let mask : bit_and (v / 2 ^ 16) 0xffff ≡ v / 2 ^ 16 % 2 ^ 16 =
      bit_and-low_bits 16 (v / 2 ^ 16) in
    rw (two, same) (omega (arith, mask, small (config_address b d f base)))

low_word :
    (config : ℕ → ℕ) (small : (a : ℕ) → config a < 2 ^ 32) (b d f o base : ℕ)
    → bit_and o 2 ≡ 0
    → bit_and o 0xfc ≡ bit_and base 0xfc
    → pci_config_rw config b d f o ≡ pci_config_rw2 config b d f base % 2 ^ 16
unfolding pci_config_rw word_of pci_config_rw2 config_address
low_word config small b d f o base zeroed same =
    let v = pci_config_rw2 config b d f base in
    let mask : bit_and (v / 2 ^ 0) 0xffff ≡ v / 2 ^ 0 % 2 ^ 16 = bit_and-low_bits 16 (v / 2 ^ 0) in
    rw (zeroed, same) (omega (arith, mask))

dword-lt :
    (config : ℕ → ℕ) (small : (a : ℕ) → config a < 2 ^ 32) (b d f o : ℕ)
    → pci_config_rw2 config b d f o < 2 ^ 32
unfolding pci_config_rw2
dword-lt config small b d f o = small (config_address b d f o)

byte_of : (v : ℕ) → bit_and v 0xff ≡ v % 2 ^ 8
byte_of v = bit_and-low_bits 8 v

-- Of a device that exists, the class, the subclass, and the programming interface are the three
-- high bytes of the dword at offset 8 of its function's header; the header type is the third byte of
-- the dword at 12, and the interrupt line the lowest one of that at 0x3c.
pub header-fields :
    (config : ℕ → ℕ)
    → ((a : ℕ) → config a < 2 ^ 32)
    → (b d f : ℕ) → pci_config_rw config b d 0 0 ≢ 0xFFFF
    → let dword = pci_config_rw2 config b d f in
      (check_pci_type config b d f ≡ dword 8 / 2 ^ 24)
      × (check_pci_function config b d f ≡ dword 8 / 2 ^ 16 % 256)
      × (check_pci_progif config b d f ≡ dword 8 / 2 ^ 8 % 256)
      × (get_pci_header_type config b d f ≡ dword 12 / 2 ^ 16 % 256)
      × (read_device_intline config b d f ≡ dword 0x3c % 256)
unfolding check_pci_type check_pci_function check_pci_progif get_pci_header_type read_device_intline
header-fields config small b d f present =
    let exists : (pci_config_rw config b d 0 0 == 0xFFFF) ≡ false = ground (arith, present) in
    let dword = pci_config_rw2 config b d f in
    let class = high_word config small b d f 11 8 refl refl in
    let subclass = high_word config small b d f 10 8 refl refl in
    let progif = low_word config small b d f 9 8 refl refl in
    let header_type = high_word config small b d f 14 12 refl refl in
    let intline = low_word config small b d f 0x3c 0x3c refl refl in
    rw exists (
      rw class (byte_of (dword 8 / 2 ^ 16 / 2 ^ 8) ∙ omega (arith, dword-lt config small b d f 8)),
      rw subclass (byte_of (dword 8 / 2 ^ 16)),
      rw progif (byte_of (dword 8 % 2 ^ 16 / 2 ^ 8) ∙ omega arith),
      rw header_type (byte_of (dword 12 / 2 ^ 16)),
      rw intline (byte_of (dword 0x3c % 2 ^ 16) ∙ omega arith),
    )
