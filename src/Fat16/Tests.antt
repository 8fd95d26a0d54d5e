-- ===== src/Fat16/Tests.antt =====
-- A volume of kernel/fs/fat16.c, and its theorems at it.
use john_os.Common.{◌+◌, ◌*◌, ◌≡◌, refl, arith, ◌↔◌, ◌==◌, if◌then◌else◌}
use john_os.Common.Store.{Store}
use john_os.Fat16.{Volume, parameters, bpb_of, volume_of, file_sector}
use john_os.Fat16.Sectors.{first_data, file_sector_iff}

-- A boot block: 512 bytes in a sector, 4 sectors in a cluster, 1 reserved, 2 tables of 200 sectors,
-- 512 entries in the root directory. The byte 454 of it is the sector 63 of a partition.
abbrev block : Store
block a =
    if a == 12
    then 2
    else if a == 13
    then 4
    else if a == 14
    then 1
    else if a == 16
    then 2
    else if a == 18
    then 2
    else if a == 22
    then 200
    else if a == 454
    then 63
    else 0

abbrev volume : Volume
volume = parameters block 0 2048

bpb : bpb_of block 0 ≡ 63
unfolding bpb_of
bpb = refl

sector : file_sector volume 5 ≡ 2493
unfolding parameters file_sector
sector = refl

file_sector_iff_example :
    (file_sector volume 5 ≡ first_data 2048 volume + volume.fat_sectors_per_cluster * 3)
    ↔ (volume.fat_sectors_per_cluster ≡ 4)
unfolding parameters volume_of first_data
file_sector_iff_example =
    file_sector_iff block 0 2048 3 volume refl (omega arith) (omega arith) (omega arith)
