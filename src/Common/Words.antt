-- ===== src/Common/Words.antt =====
-- Words of fixed width: casts, shifts and the complement of C's unsigned types.
use Prim.Native.Nat.{ℕ, ◌-◌, ◌*◌, ◌/◌, ◌%◌, ◌^◌}

abbrev pub u8 : ℕ → ℕ
u8 n = n % 2 ^ 8

abbrev pub u16 : ℕ → ℕ
u16 n = n % 2 ^ 16

abbrev pub u32 : ℕ → ℕ
u32 n = n % 2 ^ 32

infixl 75 ◌<<<◌ ◌>>>◌
abbrev pub ◌<<<◌ : ℕ → ℕ → ℕ
x <<< k = x * 2 ^ k

abbrev pub ◌>>>◌ : ℕ → ℕ → ℕ
x >>> k = x / 2 ^ k

-- `~x` on 32 bits.
abbrev pub not32 : ℕ → ℕ
not32 x = 0xffff_ffff - x
