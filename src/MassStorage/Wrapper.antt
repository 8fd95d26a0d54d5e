-- ===== src/MassStorage/Wrapper.antt =====
-- What a mass storage device reads from a command block: the specification that the blocks of
-- kernel/device/usb/usb_mass_storage.c are built for.
pub mod Stored
pub mod Refine
use mathlib.Core.Option
use john_os.Common.{
  ℕ, zero, suc, ◌+◌, ◌-◌, ◌*◌, ◌/◌, ◌%◌, ◌^◌, ◌≤◌, ◌<◌, ◌≡◌, refl, sym, ap, ◌∙◌, fun_ext, ◌≢◌, ◌⊎◌,
  inl, inr, Bool, true, false, ◌&&◌, ◌||◌, not, Option, none, some, List, [], ◌∷◌, ◌++◌, arith, u8,
  u16, u32, not32, ◌<<<◌, ◌>>>◌, ltb, leb, ◌==◌, if◌then◌else◌, ==_refl, Bool-cases, eq→==, ==→eq,
  ==_iff, bit_and, bit_or, bit_xor, min, max, ◌↔◌, ◌>>=◌,
}
use john_os.Common.Store.{Store}

-- The commands that a device understands, with what they ask for.
pub data Command : Type 0 where
  read : (block blocks : ℕ) → Command
  write_blocks : (block blocks : ℕ) → Command
  inquire : (allocation : ℕ) → Command
  sense : (allocation : ℕ) → Command
  capacity : Command
  capacity_16 : (allocation : ℕ) → Command
  unit_ready : Command

-- The wrapper as the device takes it: how many bytes it has to send or to take, and for which
-- unit and which command.
pub record Wrapper : Type 0 where
  pub data_transfer_length : ℕ
  pub to_host : Bool
  pub unit : ℕ
  pub command : Command

unfoldable pub entry : List ℕ → ℕ → ℕ
entry [] k = 0
entry (b ∷ bs) zero = b
entry (b ∷ bs) (suc k) = entry bs k

-- A number in four bytes of a command, the highest first.
unfoldable pub high_first : List ℕ → ℕ → ℕ
unfolding entry
high_first bs k =
    entry bs k * 2 ^ 24 + entry bs (k + 1) * 2 ^ 16 + entry bs (k + 2) * 2 ^ 8 + entry bs (k + 3)

-- The command in the bytes from 15 on; each operation comes with one length of the command.
unfoldable pub command_of : List ℕ → Option Command
unfolding entry high_first
command_of bs =
    let operation = entry bs 15 in
    let cdb_length = entry bs 14 in
    if operation == 0x00 && cdb_length == 6
    then some unit_ready
    else if operation == 0x03 && cdb_length == 6
    then some (sense (entry bs 19))
    else if operation == 0x08 && cdb_length == 6
    then some (read (entry bs 16 * 2 ^ 16 + entry bs 17 * 2 ^ 8 + entry bs 18) (entry bs 19))
    else if operation == 0x12 && cdb_length == 6
    then some (inquire (entry bs 18 * 2 ^ 8 + entry bs 19))
    else if operation == 0x25 && cdb_length == 10
    then some capacity
    else if operation == 0x28 && cdb_length == 10
    then some (read (high_first bs 17) (entry bs 22 * 2 ^ 8 + entry bs 23))
    else if operation == 0x2a && cdb_length == 10
    then some (write_blocks (high_first bs 17) (entry bs 22 * 2 ^ 8 + entry bs 23))
    else if operation == 0xa8 && cdb_length == 12
    then some (read (high_first bs 17) (high_first bs 21))
    else if operation == 0x88 && cdb_length == 16
    then some (read (high_first bs 17 * 2 ^ 32 + high_first bs 21) (high_first bs 26))
    else if operation == 0x9e && cdb_length == 16 && entry bs 16 == 0x10
    then some (capacity_16 (high_first bs 25))
    else none

-- A block without the signature `USBC` is not taken.
unfoldable pub wrapper_of : List ℕ → Option Wrapper
unfolding entry command_of
wrapper_of bs =
    let signed =
      entry bs 0 == 0x55 && entry bs 1 == 0x53 && entry bs 2 == 0x42 && entry bs 3 == 0x43 in
    let length = entry bs 8 + entry bs 9 * 2 ^ 8 + entry bs 10 * 2 ^ 16 + entry bs 11 * 2 ^ 24 in
    let wrap : Command → Wrapper = λ c. record {
      data_transfer_length = length;
      to_host = entry bs 12 == 0x80;
      unit = entry bs 13;
      command = c;
    } in
    if signed then Option.map wrap (command_of bs) else none

-- `count` bytes from `p` on.
pub load_bytes : Store → (p count : ℕ) → List ℕ
load_bytes m p zero = []
load_bytes m p (suc count) = m p ∷ load_bytes m (p + 1) count

-- A transfer of one command block has 31 bytes.
pub received : Store → ℕ → Option Wrapper
unfolding wrapper_of load_bytes
received m p = wrapper_of (load_bytes m p 31)
