-- ===== src/Fat16/Sectors.antt =====
-- The sectors of a volume of kernel/fs/fat16.c.
use john_os.Common.{
  ℕ, zero, suc, ◌+◌, ◌-◌, ◌*◌, ◌/◌, ◌%◌, ◌^◌, ◌≤◌, ◌<◌, ◌≡◌, refl, ap, ◌∙◌, inl, inr, ◌&&◌, some,
  List, [], ◌∷◌, arith, u16, ltb, ◌==◌, if◌then◌else◌, Bool-cases, bit_or, ◌↔◌,
}
use mathlib.Core.Path.{subst}
use john_os.Common.Store.{Store, read16, read32}
use john_os.Common.Bits.Nibbles.{bit_or-above, or_zero}
use john_os.Fat16.{Volume, bpb_of, parameters, volume_of, file_sector, file_text}

-- The sector of the boot block is the low half of the start of the first partition, in the table at
-- 446: so it is that start exactly for partitions that start below 2 ^ 16.
pub bpb_of_lem :
    (m : Store) (p : ℕ)
    → ((a : ℕ) → m a < 256)
    → (bpb_of m p ≡ read32 m (p + 454) % 2 ^ 16)
      × ((bpb_of m p ≡ read32 m (p + 454)) ↔ (read32 m (p + 454) < 2 ^ 16))
unfolding bpb_of
bpb_of_lem m p bytes =
    let low = bytes (p + 454) in
    let high = bytes (p + 455) in
    let e : bpb_of m p ≡ m (p + 455) * 2 ^ 8 + m (p + 454) =
      or_zero (bit_or (m (p + 455) * 2 ^ 8) (m (p + 454)))
      ∙ bit_or-above 8 8 (m (p + 455)) (m (p + 454)) high low in
    let next : m (p + 454 + 1) ≡ m (p + 455) = ap m (omega arith) in
    (omega (arith, e, next), ((λ x. omega (arith, e, next, x)), λ x. omega (arith, e, next, x)))

-- The first sector behind the root directory, and the sector of a cluster: the clusters are counted
-- from 2.
unfoldable pub first_data : (bpb_pos : ℕ) → Volume → ℕ
first_data bpb_pos v =
    bpb_pos
    + v.fat_reserved_sectors
    + v.fat_sectors_per_fat * v.fat_copies
    + v.maximum_root_directory_entries * 32 / v.fat_bytes_per_sector

-- The sum of 16 bits that takes 8 away.
data_start : (r q : ℕ) → 8 ≤ r + q → r + q < 2 ^ 16 → u16 (u16 r + q + 2 ^ 16 - 8) + 8 ≡ r + q
data_start r q low high = omega arith

-- A volume that was read begins with its data 8 sectors before the first one.
begins_at :
    (m : Store) (p bpb_pos : ℕ) (v : Volume)
    → volume_of m p bpb_pos ≡ some v
    → 8 ≤ first_data bpb_pos v
    → first_data bpb_pos v < 2 ^ 16
    → v.fat_data_cluster_start + 8 ≡ first_data bpb_pos v
unfolding volume_of parameters first_data
begins_at m p bpb_pos v e =
    elim (Bool-cases (read16 m (p + 11) == 0))
      as (λ x.
        8 ≤ first_data bpb_pos v
        → first_data bpb_pos v < 2 ^ 16
        → v.fat_data_cluster_start + 8 ≡ first_data bpb_pos v) [
          | inl z ↦ absurd (cc (e, z))
          | inr z ↦
              let same : parameters m p bpb_pos ≡ v = cc (e, z) in
              subst
                (λ w.
                  8 ≤ first_data bpb_pos w
                  → first_data bpb_pos w < 2 ^ 16
                  → w.fat_data_cluster_start + 8 ≡ first_data bpb_pos w)
                same (data_start _ _)
        ]

-- Where no 16-bit sum overflows, the sector of a file is right exactly for volumes with 4 sectors in
-- a cluster: the 8 that is taken away stands for the first two clusters.
pub file_sector_iff :
    (m : Store) (p bpb_pos n : ℕ) (v : Volume)
    → volume_of m p bpb_pos ≡ some v
    → 8 ≤ first_data bpb_pos v
    → first_data bpb_pos v < 2 ^ 16
    → v.fat_sectors_per_cluster * (n + 2) < 2 ^ 16
    → (file_sector v (n + 2) ≡ first_data bpb_pos v + v.fat_sectors_per_cluster * n)
      ↔ (v.fat_sectors_per_cluster ≡ 4)
unfolding volume_of file_sector first_data
file_sector_iff m p bpb_pos n v e low high small =
    let start : v.fat_data_cluster_start + 8 ≡ first_data bpb_pos v =
      begins_at m p bpb_pos v e low high in
    let twice : v.fat_sectors_per_cluster * (n + 2)
        ≡ v.fat_sectors_per_cluster * n + 2 * v.fat_sectors_per_cluster =
      omega arith in
    ((λ x. omega (arith, start, twice, x)), λ x. omega (arith, start, twice, x))

-- Everything that is printed of a file is ASCII.
pub IsAscii : List ℕ → Type 0
IsAscii [] = zero ≡ zero
IsAscii (c ∷ cs) = (c < 128) × IsAscii cs

pub file_text-IsAscii : (rounds : ℕ) (m : Store) (p a : ℕ) → IsAscii (file_text rounds m p a)
unfolding file_text IsAscii
file_text-IsAscii zero m p a = refl
file_text-IsAscii (suc rounds) m p a =
    let rest = file_text-IsAscii rounds m p (a + 1) in
    let c : (if ltb 127 (m (p + a)) then 32 else m (p + a)) < 128 = ground arith in
    elim (Bool-cases (a % 76 == 0 && ltb 0 a)) as (λ x. IsAscii (file_text (suc rounds) m p a)) [
      | inl e ↦ rw e (omega arith, (c, rest))
      | inr e ↦ rw e (c, rest)
    ]
