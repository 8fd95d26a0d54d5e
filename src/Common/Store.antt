-- ===== src/Common/Store.antt =====
-- Memory as a function from addresses (or array indexes) to values, and a write to it.
use Prim.Native.Nat.{ℕ, ◌+◌, ◌*◌, ◌/◌, ◌%◌}
use john_os.Common.Tests.{◌==◌, if◌then◌else◌}

abbrev pub Store : Type 0
Store = ℕ → ℕ

abbrev pub write : Store → ℕ → ℕ → Store
write m a v b = if a == b then v else m b

-- Little-endian words in a memory of bytes.
abbrev pub write16 : Store → ℕ → ℕ → Store
write16 m a v = write (write m a (v % 256)) (a + 1) (v / 256 % 256)

abbrev pub write32 : Store → ℕ → ℕ → Store
write32 m a v = write16 (write16 m a (v % 65536)) (a + 2) (v / 65536 % 65536)

abbrev pub read16 : Store → ℕ → ℕ
read16 m a = m a + m (a + 1) * 256

abbrev pub read32 : Store → ℕ → ℕ
read32 m a = read16 m a + read16 m (a + 2) * 65536
