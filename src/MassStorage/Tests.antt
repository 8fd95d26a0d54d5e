-- ===== src/MassStorage/Tests.antt =====
-- Command blocks for three blocks of a disk.
use john_os.Common.{ℕ, ◌<◌, ◌≡◌, refl, true, ◌&&◌, some, arith, ◌==◌, if◌then◌else◌, ◌↔◌}
use john_os.Common.Store.{Store}
use john_os.PageMap.{Pages, check_bit}
use john_os.PageMap.Bits.{check_bit-empty}
use john_os.MassStorage.Wrapper.{received}
use john_os.MassStorage.Wrapper.Refine.{
  read_10, build, promised, blocks_of, block_16, received-build_iff,
}
use john_os.MassStorage.Prepare.{refused, store_usd, prepare_usb_storage_bulk_transfer}
use john_os.MassStorage.Prepare.Transfers.{
  read_blocks, transfer_block, meaning, IsServed, received-transfer_block,
  prepare_usb_storage_bulk_transfer-page,
}
use john_os.MassStorage.{select_lba_low, select_lba_low2, select_lba_high, lba_high_loop}

-- Block 255 is taken for block 0.
block_255 : (select_lba_low 255 ≡ 0) × (select_lba_low2 255 ≡ 0)
unfolding select_lba_low select_lba_low2
block_255 = (refl, refl)

-- `select_lba_high` counts the bytes above the lowest one.
counts_bytes : (select_lba_high 0x12345 ≡ 2) × (select_lba_high 0xff ≡ 0)
unfolding select_lba_high lba_high_loop
counts_bytes = (refl, refl)

received-build_iff_example :
    (received
        (build 0x1000 (λ a. 7) (read_10 0x34 0x12 3)).0
        (build 0x1000 (λ a. 7) (read_10 0x34 0x12 3)).1
      ≡ some (promised (read_10 0x34 0x12 3)))
    ↔ ((blocks_of (read_10 0x34 0x12 3) < 128) × (block_16 (read_10 0x34 0x12 3) ≡ 0))
received-build_iff_example = received-build_iff (read_10 0x34 0x12 3) 0x1000 (λ a. 7)

served : IsServed (read_blocks 0x1234 3)
unfolding IsServed
served = (omega arith, omega arith)

received-transfer_block_example :
    received (store_usd (λ a. 7) 0x1000 (transfer_block (read_blocks 0x1234 3))) 0x1000
    ≡ some (meaning (read_blocks 0x1234 3))
received-transfer_block_example =
    received-transfer_block (read_blocks 0x1234 3) (λ a. 7) 0x1000 served

abbrev no_pages : Pages
no_pages = record {
  os_memmap = λ i. 0;
  ram = λ a. 7;
  mem_block = λ i. 0;
  mem_bt_temp = 0;
  mbt_freeflag = 0;
}

-- A transfer that leaves memory alone, and data at 0x500.
abbrev quiet : Store → ℕ → Store × ℕ
quiet m usd = (m, 0x500)

prepare_usb_storage_bulk_transfer-page_example :
    let (t, d_area) = prepare_usb_storage_bulk_transfer quiet 3 no_pages 0x28 0x80 0 100 1 5 in
    (q : ℕ) × (check_bit no_pages.os_memmap q ≡ 0)
    × ((b : ℕ)
        → check_bit t.os_memmap b
          ≡ (if (1 == 1 && refused 100) && q == b then 1 else check_bit no_pages.os_memmap b))
    × ((1 == 1 && refused 100) ≡ true → d_area ≡ 0)
prepare_usb_storage_bulk_transfer-page_example =
    prepare_usb_storage_bulk_transfer-page quiet 3 no_pages 0x28 0x80 0 100 1 5 0 (omega arith)
      (check_bit-empty 0)
