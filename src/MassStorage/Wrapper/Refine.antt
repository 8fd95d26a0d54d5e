-- ===== src/MassStorage/Wrapper/Refine.antt =====
-- The blocks of kernel/device/usb/usb_mass_storage.c are what the device takes for the command that
-- each of them stands for.
use john_os.Common.{
  ℕ, ◌+◌, ◌*◌, ◌/◌, ◌%◌, ◌^◌, ◌<◌, ◌≡◌, refl, sym, ap, ◌∙◌, true, false, ◌&&◌, Option, none, some,
  List, [], ◌∷◌, arith, u8, ltb, ◌==◌, ◌↔◌,
}
use john_os.Common.Store.{Store}
use john_os.MassStorage.{
  store_bytes, block, set_cbw_10_data, set_cbw_w_10_data, set_cbw_16_data, set_inquiry, set_rs,
  set_read_capacity, set_read_capacity_16, set_cbw_6_data, set_cbw_12_data, set_tur,
}
use john_os.MassStorage.Wrapper.{
  Command, Wrapper, entry, high_first, command_of, wrapper_of, received, read, write_blocks,
  inquire, sense, capacity, capacity_16, unit_ready,
}
use john_os.MassStorage.Wrapper.Stored.{length, taken, taken_padded}

-- The commands that the driver asks for, with the arguments of the function that builds the block.
pub data Request : Type 0 where
  read_6 : (lba_low_low lba_low_high : ℕ) → Request
  read_10 : (lba_low_low lba_low_high blocks : ℕ) → Request
  write_10 : (lba_low_low lba_low_high : ℕ) → Request
  read_12 : (lba_low_low lba_low_high : ℕ) → Request
  read_16 : (lba_low1 lba_low2 : ℕ) → Request
  inquiry : Request
  request_sense : Request
  read_capacity_10 : Request
  read_capacity_16 : Request
  test_unit_ready : Request

-- The block of a request, in the page at `p`.
pub build : ℕ → Store → Request → Store × ℕ
build p m (read_6 low high) = set_cbw_6_data p m low high
build p m (read_10 low high blocks) = set_cbw_10_data p m low high (512 * blocks)
build p m (write_10 low high) = set_cbw_w_10_data p m low high
build p m (read_12 low high) = set_cbw_12_data p m low high
build p m (read_16 low high) = set_cbw_16_data p m low high
build p m inquiry = set_inquiry p m
build p m request_sense = set_rs p m
build p m read_capacity_10 = set_read_capacity p m
build p m read_capacity_16 = set_read_capacity_16 p m
build p m test_unit_ready = set_tur p m

unfoldable pub input : (length : ℕ) → Command → Wrapper
input length c = record { data_transfer_length = length; to_host = true; unit = 0; command = c }

unfoldable pub output : (length : ℕ) → Command → Wrapper
output length c = record { data_transfer_length = length; to_host = false; unit = 0; command = c }

-- What each request means.
pub promised : Request → Wrapper
unfolding input output
promised (read_6 low high) = input 512 (read (high * 2 ^ 8 + low) 1)
promised (read_10 low high blocks) = input (512 * blocks) (read (high * 2 ^ 8 + low) blocks)
promised (write_10 low high) = output 512 (write_blocks (high * 2 ^ 8 + low) 1)
promised (read_12 low high) = input 512 (read (high * 2 ^ 8 + low) 1)
promised (read_16 low high) = input 512 (read (high * 2 ^ 8 + low) 1)
promised inquiry = input 36 (inquire 36)
promised request_sense = input 18 (sense 18)
promised read_capacity_10 = input 8 capacity
promised read_capacity_16 = input 8 (capacity_16 8)
promised test_unit_ready = input 0 unit_ready

-- The number of blocks that a Read 10 asks for, and 0 for the other requests.
unfoldable pub blocks_of : Request → ℕ
blocks_of (read_10 low high blocks) = blocks
blocks_of (read_6 low high) = 0
blocks_of (write_10 low high) = 0
blocks_of (read_12 low high) = 0
blocks_of (read_16 low high) = 0
blocks_of inquiry = 0
blocks_of request_sense = 0
blocks_of read_capacity_10 = 0
blocks_of read_capacity_16 = 0
blocks_of test_unit_ready = 0

-- The fields of Read 10, with the two bytes that depend on the length.
read_10_fields : (low high announced blocks : ℕ) → List ℕ
read_10_fields low high announced blocks =
    0x55 ∷ 0x53 ∷ 0x42 ∷ 0x43 ∷ 0xbb ∷ 0xcc ∷ 0xbb ∷ 0xdd ∷ 0 ∷ announced ∷ 0 ∷ 0 ∷ 0x80 ∷ 0 ∷ 0x0a
    ∷ 0x28 ∷ 0 ∷ 0 ∷ 0 ∷ high ∷ low ∷ 0 ∷ 0 ∷ blocks ∷ 0 ∷ 0 ∷ 0 ∷ 0 ∷ 0 ∷ 0 ∷ 0 ∷ []

read_10_block :
    (p : ℕ) (m : Store) (low high n : ℕ)
    → set_cbw_10_data p m low high (512 * n)
      ≡ block p m (read_10_fields low high (u8 (512 * n / 255)) (u8 n))
unfolding set_cbw_10_data block store_bytes read_10_fields
read_10_block p m low high n =
    let short : (ltb 20000 (512 * n) && ltb (512 * n) 512) ≡ false = ground arith in
    let whole : (512 * n % 512 == 0) ≡ true = ground arith in
    let blocks : u8 (512 * n / 512) ≡ u8 n = omega arith in rw (short, whole, blocks) refl

pub two_bytes : (high low : ℕ) → 0 * 2 ^ 24 + 0 * 2 ^ 16 + high * 2 ^ 8 + low ≡ high * 2 ^ 8 + low
two_bytes high low = omega arith

-- What the device reads from the block of a Read 10.
received-read_10 :
    (p : ℕ) (m : Store) (low high n : ℕ)
    → received (build p m (read_10 low high n)).0 (build p m (read_10 low high n)).1
      ≡ some (input (256 * u8 (512 * n / 255)) (read (high * 2 ^ 8 + low) (u8 n)))
unfolding build wrapper_of command_of entry high_first length input read_10_fields
received-read_10 p m low high n =
    let announced = u8 (512 * n / 255) in
    let bytes : 0 + announced * 2 ^ 8 + 0 * 2 ^ 16 + 0 * 2 ^ 24 ≡ 256 * announced = omega arith in
    let one_byte : 0 * 2 ^ 8 + u8 n ≡ u8 n = omega arith in
    let number = 0 * 2 ^ 24 + 0 * 2 ^ 16 + high * 2 ^ 8 + low in
    let count = 0 * 2 ^ 8 + u8 n in
    rw (read_10_block p m low high n) (
      taken _ m p _ refl (
        ap (λ l. some (input l (read number count))) bytes
        ∙ ap (λ k. some (input (256 * announced) (read k count))) (two_bytes high low)
        ∙ ap (λ c. some (input (256 * announced) (read (high * 2 ^ 8 + low) c))) one_byte))

-- The length and the block of a wrapper, with 0 where there is none.
length_of : Option Wrapper → ℕ
length_of none = 0
length_of (some w) = w.data_transfer_length

block_of : Option Wrapper → ℕ
block_of none = 0
block_of (some w) = elim w.command [
  | read b n ↦ b
  | write_blocks b n ↦ b
  | inquire a ↦ 0
  | sense a ↦ 0
  | capacity ↦ 0
  | capacity_16 a ↦ 0
  | unit_ready ↦ 0
]

-- The block that a Read 16 asks for, and 0 for the other requests.
unfoldable pub block_16 : Request → ℕ
block_16 (read_16 low high) = high * 2 ^ 8 + low
block_16 (read_10 low high blocks) = 0
block_16 (read_6 low high) = 0
block_16 (write_10 low high) = 0
block_16 (read_12 low high) = 0
block_16 inquiry = 0
block_16 request_sense = 0
block_16 read_capacity_10 = 0
block_16 read_capacity_16 = 0
block_16 test_unit_ready = 0

-- No condition, where both numbers are 0.
always {ℓ} : {A : Type ℓ} → A → A ↔ ((0 < 128) × ◌≡◌ {A = ℕ} 0 0)
always a = (λ x. (omega arith, refl), λ h. a)

-- The two requests whose block depends on what is asked.
read_10_iff :
    (p : ℕ) (m : Store) (low high n : ℕ)
    → (received (build p m (read_10 low high n)).0 (build p m (read_10 low high n)).1
        ≡ some (promised (read_10 low high n)))
      ↔ (n < 128)
unfolding promised length_of input
read_10_iff p m low high n = (
  λ e. let l = ap length_of (sym (received-read_10 p m low high n) ∙ e) in ground (arith, l),
  λ few.
      let bytes : 256 * u8 (512 * n / 255) ≡ 512 * n = ground arith in
      let count : u8 n ≡ n = omega arith in
      received-read_10 p m low high n ∙ rw (bytes, count) refl,
)

read_16_iff :
    (p : ℕ) (m : Store) (low high : ℕ)
    → (received (build p m (read_16 low high)).0 (build p m (read_16 low high)).1
        ≡ some (promised (read_16 low high)))
      ↔ (high * 2 ^ 8 + low ≡ 0)
unfolding build promised set_cbw_16_data wrapper_of command_of entry high_first length input
    block_of
read_16_iff p m low high =
    let e : received (set_cbw_16_data p m low high).0 (set_cbw_16_data p m low high).1
        ≡ some (input 512 (read 0 1)) =
      taken _ m p _ refl refl in
    (λ f. sym (ap block_of (sym e ∙ f)), λ z. e ∙ ap (λ k. some (input 512 (read k 1))) (sym z))

-- The device takes the block of a command as the request that it stands for, with the command, the
-- direction, the unit and the number of bytes, exactly where a Read 10 asks for less than 128 blocks
-- and a Read 16 for block 0; there is no condition for the other commands. The block of Identify,
-- whose operation 0x80 is no command of the specification, is not among them.
pub received-build_iff :
    (r : Request) (p : ℕ) (m : Store)
    → (received (build p m r).0 (build p m r).1 ≡ some (promised r))
      ↔ ((blocks_of r < 128) × (block_16 r ≡ 0))
unfolding build promised set_inquiry set_rs set_read_capacity set_read_capacity_16 set_cbw_6_data
    set_cbw_12_data set_tur set_cbw_w_10_data blocks_of block_16 wrapper_of command_of entry
    high_first length input output
received-build_iff (read_6 low high) p m =
    let number : 0 * 2 ^ 16 + high * 2 ^ 8 + low ≡ high * 2 ^ 8 + low = omega arith in
    always (taken _ m p _ refl (ap (λ k. some (input 512 (read k 1))) number))
received-build_iff (read_10 low high blocks) p m =
    let (sound, complete) = read_10_iff p m low high blocks in
    (λ e. (sound e, refl), λ h. complete h.0)
received-build_iff (write_10 low high) p m =
    always
      (taken _ m p _ refl (ap (λ k. some (output 512 (write_blocks k 1))) (two_bytes high low)))
received-build_iff (read_12 low high) p m =
    always (taken _ m p _ refl (ap (λ k. some (input 512 (read k 1))) (two_bytes high low)))
received-build_iff (read_16 low high) p m =
    let (sound, complete) = read_16_iff p m low high in
    (λ e. (omega arith, sound e), λ h. complete h.1)
received-build_iff inquiry p m = always (taken _ m p _ refl refl)
received-build_iff request_sense p m = always (taken _ m p _ refl refl)
received-build_iff read_capacity_10 p m = always (taken _ m p _ refl refl)
received-build_iff read_capacity_16 p m = always (taken_padded _ m p _ refl refl)
received-build_iff test_unit_ready p m = always (taken _ m p _ refl refl)
