-- ===== src/MemFill/Pages.antt =====
-- The functions of kernel/mem.c that zero whole pages.
use john_os.Common.{ℕ, ◌≡◌, arith, ◌||◌, if◌then◌else◌, Bool}
use john_os.Common.Store.{Store}
use john_os.MemFill.{
  zero_bytes, zero_pages5, zero_usbms_mem_1, zero_pages4, zero_usbms_mem_2, zero_usbms_mem_3,
  zero_usbms_mem_4, zero_usbms_mem_5, zero_usbms_mem_6, zero_usbms_mem_7,
}
use john_os.MemFill.Laws.{within, zero_bytes_lem, zero_dwords_lem}

zero_page : (m : Store) (p a : ℕ) → zero_bytes 4096 m p 0 a ≡ (if within p 4096 a then 0 else m a)
zero_page m p a = ground (arith, zero_bytes_lem 4096 m p 0 a)

-- One test on five conditions for five tests in a row.
five_tests :
    (b0 b1 b2 b3 b4 : Bool) (x : ℕ)
    → (if b4 then 0 else if b3 then 0 else if b2 then 0 else if b1 then 0 else if b0 then 0 else x)
      ≡ (if b0 || (b1 || (b2 || (b3 || b4))) then 0 else x)
five_tests b0 b1 b2 b3 b4 x = ground arith

-- `a` lies in one of the five pages.
abbrev pub in_pages : (p0 p1 p2 p3 p4 a : ℕ) → Bool
in_pages p0 p1 p2 p3 p4 a =
    within p0 4096 a
    || (within p1 4096 a || (within p2 4096 a || (within p3 4096 a || within p4 4096 a)))

zero_pages5_lem :
    (m : Store) (p0 p1 p2 p3 p4 a : ℕ)
    → zero_pages5 5 m 0 p0 p1 p2 p3 p4 a ≡ (if in_pages p0 p1 p2 p3 p4 a then 0 else m a)
unfolding zero_pages5
zero_pages5_lem m p0 p1 p2 p3 p4 a =
    let m1 = zero_bytes 4096 m p0 0 in
    let m2 = zero_bytes 4096 m1 p1 0 in
    let m3 = zero_bytes 4096 m2 p2 0 in
    let m4 = zero_bytes 4096 m3 p3 0 in
    rw
      (zero_page m4 p4 a, zero_page m3 p3 a, zero_page m2 p2 a, zero_page m1 p1 a, zero_page m p0 a)
      (five_tests (within p0 4096 a) (within p1 4096 a) (within p2 4096 a) (within p3 4096 a)
        (within p4 4096 a) (m a))

-- `zero_usbms_mem_1` and `zero_usbms_mem_3` zero exactly the bytes of their five pages, whether
-- the pages overlap or not.
pub zero_usbms_mem_1-and-3 :
    (m : Store) (p0 p1 p2 p3 p4 a : ℕ)
    → (zero_usbms_mem_1 m p0 p1 p2 p3 p4 a ≡ (if in_pages p0 p1 p2 p3 p4 a then 0 else m a))
      × (zero_usbms_mem_3 m p0 p1 p2 p3 p4 a ≡ (if in_pages p0 p1 p2 p3 p4 a then 0 else m a))
unfolding zero_usbms_mem_1 zero_usbms_mem_3
zero_usbms_mem_1-and-3 m p0 p1 p2 p3 p4 a =
    (zero_pages5_lem m p0 p1 p2 p3 p4 a, zero_pages5_lem m p0 p1 p2 p3 p4 a)

-- `zero_usbms_mem_2` zeroes exactly the bytes of its four pages.
pub zero_usbms_mem_2_lem :
    (m : Store) (p1 p2 p3 p4 a : ℕ)
    → zero_usbms_mem_2 m p1 p2 p3 p4 a ≡ (if in_pages p1 p1 p2 p3 p4 a then 0 else m a)
unfolding zero_usbms_mem_2 zero_pages4
zero_usbms_mem_2_lem m p1 p2 p3 p4 a =
    let m1 = zero_bytes 4096 m p1 0 in
    let m2 = zero_bytes 4096 m1 p2 0 in
    let m3 = zero_bytes 4096 m2 p3 0 in
    rw (zero_page m3 p4 a, zero_page m2 p3 a, zero_page m1 p2 a, zero_page m p1 a) (ground arith)

-- Each of the four functions that zero one page zeroes the 4096 bytes from its pointer on, and no
-- other.
pub zero_one_page :
    (m : Store) (p a : ℕ)
    → let zeroed = if within p 4096 a then 0 else m a in
      (zero_usbms_mem_4 m p a ≡ zeroed)
      × (zero_usbms_mem_5 m p a ≡ zeroed)
      × (zero_usbms_mem_6 m p a ≡ zeroed)
      × (zero_usbms_mem_7 m p a ≡ zeroed)
unfolding zero_usbms_mem_4 zero_usbms_mem_5 zero_usbms_mem_6 zero_usbms_mem_7
zero_one_page m p a =
    let z = zero_page m p a in (z, z, ground (arith, zero_dwords_lem 1024 m p 0 a), z)
