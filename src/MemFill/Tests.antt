-- ===== src/MemFill/Tests.antt =====
-- Runs of the fills on small ranges, and their theorems at such ranges.
use john_os.Common.{◌≡◌, refl, inl, arith, u8}
use john_os.Common.Store.{Store}
use john_os.MemFill.{
  memset, memset2, memsetint, memsetshort, setmembyte, set_mem, zero_usbms_mem_1, zero_usbms_mem_2,
  zero_usbms_mem_3, zero_usbms_mem_4, zero_usbms_mem_5, zero_usbms_mem_6, zero_usbms_mem_7,
  setmembyte_loop, set_four,
}
use john_os.MemFill.Laws.{memset_lem, memset2_lem, memsetint_lem, memsetshort_lem, set_mem_lem}
use john_os.MemFill.Pages.{zero_usbms_mem_1-and-3, zero_usbms_mem_2_lem, zero_one_page}

-- Every address holds its own low byte.
abbrev mem : Store
mem a = u8 a

dword_bytes :
    let m = memsetint mem 8 0x11223344 1 in
    (m 7 ≡ 7) × (m 8 ≡ 0x44) × (m 9 ≡ 0x33) × (m 10 ≡ 0x22) × (m 11 ≡ 0x11) × (m 12 ≡ 12)
unfolding memsetint
dword_bytes = (refl, refl, refl, refl, refl, refl)

-- A length of 5 is rounded up to 8.
rounded_up : let m = setmembyte mem 16 0 5 0xaa in (m 23 ≡ 0xaa) × (m 24 ≡ 24)
unfolding setmembyte setmembyte_loop set_four
rounded_up = (refl, refl)

memset_lem_example : memset mem 4 0x1ff 2 5 ≡ 0xff
memset_lem_example = memset_lem 2 mem 4 0x1ff 5

memset2_lem_example : memset2 mem 4 40 3 6 ≡ 42
memset2_lem_example = memset2_lem 3 mem 4 40 6 (inl (omega arith))

memsetint_lem_example : memsetint mem 8 0x11223344 2 13 ≡ 0x33
memsetint_lem_example = memsetint_lem 2 mem 8 0x11223344 13

memsetshort_lem_example : memsetshort mem 8 0x1122 2 11 ≡ 0x11
memsetshort_lem_example = memsetshort_lem 2 mem 8 0x1122 11

set_mem_lem_example : set_mem mem 16 1 3 0x11223344 21 ≡ 0x33
set_mem_lem_example = set_mem_lem mem 16 1 3 0x11223344 21

zero_usbms_mem_1-and-3_example :
    (zero_usbms_mem_1 mem 0x1000 0x2000 0x3000 0x4000 0x5001 0x6000 ≡ 0)
    × (zero_usbms_mem_3 mem 0x1000 0x2000 0x3000 0x4000 0x5001 0x6000 ≡ 0)
zero_usbms_mem_1-and-3_example =
    zero_usbms_mem_1-and-3 mem 0x1000 0x2000 0x3000 0x4000 0x5001 0x6000

zero_usbms_mem_2_lem_example : zero_usbms_mem_2 mem 0x1000 0x2000 0x3000 0x4000 0x5001 ≡ 1
zero_usbms_mem_2_lem_example = zero_usbms_mem_2_lem mem 0x1000 0x2000 0x3000 0x4000 0x5001

zero_one_page_example :
    (zero_usbms_mem_4 mem 0x1000 0x1fff ≡ 0)
    × (zero_usbms_mem_5 mem 0x1000 0x1fff ≡ 0)
    × (zero_usbms_mem_6 mem 0x1000 0x1fff ≡ 0)
    × (zero_usbms_mem_7 mem 0x1000 0x1fff ≡ 0)
zero_one_page_example = zero_one_page mem 0x1000 0x1fff
