-- ===== src/MassStorage/Commands.antt =====
-- What the command blocks of kernel/device/usb/usb_mass_storage.c tell the device.
use john_os.Common.{
  ℕ, zero, suc, ◌+◌, ◌*◌, ◌/◌, ◌%◌, ◌^◌, ◌<◌, ◌≡◌, refl, ◌∙◌, true, false, ◌&&◌, List, [], ◌∷◌,
  arith, u8, ltb, ◌==◌, ◌↔◌,
}
use john_os.Common.Store.{Store, write}
use john_os.MemFill.{zero_bytes}
use john_os.MassStorage.{
  store_bytes, set_cbw_10_data, select_lba_low, select_lba_low2, set_cbw_w_10_data,
}

nth : List ℕ → (k old : ℕ) → ℕ
nth [] k old = old
nth (b ∷ bs) zero old = b
nth (b ∷ bs) (suc k) old = nth bs k old

pub store_bytes-before : (bs : List ℕ) (m : Store) (p a : ℕ) → a < p → store_bytes m p bs a ≡ m a
unfolding store_bytes
store_bytes-before [] m p a low = refl
store_bytes-before (b ∷ bs) m p a low =
    store_bytes-before bs (write m p b) (p + 1) a (omega arith) ∙ ground arith

store_bytes-nth :
    (bs : List ℕ) (m : Store) (p k a : ℕ) → p + k ≡ a → store_bytes m p bs a ≡ nth bs k (m a)
unfolding store_bytes nth
store_bytes-nth [] m p k a at = refl
store_bytes-nth (b ∷ bs) m p zero a at =
    let here : (p == a) ≡ true = ground arith in
    store_bytes-before bs (write m p b) (p + 1) a (omega arith) ∙ rw here refl
store_bytes-nth (b ∷ bs) m p (suc k) a at =
    let there : (p == a) ≡ false = ground arith in
    store_bytes-nth bs (write m p b) (p + 1) k a (omega arith) ∙ rw there refl

-- The announced length of the data, the number of blocks, and the block number, as the device
-- reads them from the bytes at `p`.
abbrev pub data_length : Store → ℕ → ℕ
data_length m p = m (p + 8) + m (p + 9) * 2 ^ 8 + m (p + 10) * 2 ^ 16 + m (p + 11) * 2 ^ 24

abbrev pub block_count : Store → ℕ → ℕ
block_count m p = m (p + 22) * 2 ^ 8 + m (p + 23)

abbrev pub block_number : Store → ℕ → ℕ
block_number m p = m (p + 17) * 2 ^ 24 + m (p + 18) * 2 ^ 16 + m (p + 19) * 2 ^ 8 + m (p + 20)

fields : (announced blocks low high : ℕ) → List ℕ
fields announced blocks low high =
    0x55 ∷ 0x53 ∷ 0x42 ∷ 0x43 ∷ 0xbb ∷ 0xcc ∷ 0xbb ∷ 0xdd ∷ 0 ∷ announced ∷ 0 ∷ 0 ∷ 0x80 ∷ 0 ∷ 0x0a
    ∷ 0x28 ∷ 0 ∷ 0 ∷ 0 ∷ high ∷ low ∷ 0 ∷ 0 ∷ blocks ∷ 0 ∷ 0 ∷ 0 ∷ 0 ∷ 0 ∷ 0 ∷ 0 ∷ []

set_cbw_10_data-fields :
    (p : ℕ) (m : Store) (low high n k : ℕ)
    → (set_cbw_10_data p m low high (512 * n)).0 (p + k)
      ≡ nth
          (fields (u8 (512 * n / 255)) (u8 (512 * n / 512)) low high)
          k
          (zero_bytes 4096 m p 0 (p + k))
unfolding set_cbw_10_data fields
set_cbw_10_data-fields p m low high n k =
    let short : (ltb 20000 (512 * n) && ltb (512 * n) 512) ≡ false = ground arith in
    let whole : (512 * n % 512 == 0) ≡ true = ground arith in
    rw (short, whole) (store_bytes-nth _ (zero_bytes 4096 m p 0) p k (p + k) refl)

-- For `n` blocks of 512 bytes, n below 256, the block of Read 10 has the right operation, block
-- number and number of blocks; the announced length of the data is right exactly for n below 128.
pub set_cbw_10_data_lem :
    (p : ℕ) (m : Store) (low high n : ℕ)
    → low < 256
    → high < 256
    → n < 256
    → let b = (set_cbw_10_data p m low high (512 * n)).0 in
      (b (p + 15) ≡ 0x28)
      × (block_number b p ≡ high * 2 ^ 8 + low)
      × (block_count b p ≡ n)
      × ((data_length b p ≡ 512 * n) ↔ (n < 128))
unfolding fields nth
set_cbw_10_data_lem p m low high n hl hh hn =
    let at = set_cbw_10_data-fields p m low high n in
    (
      at 15,
      rw (at 17, at 18, at 19, at 20) (omega arith),
      rw (at 22, at 23) (omega arith),
      rw (at 8, at 9, at 10, at 11) (ground arith),
    )

-- For a number below 65280, the two bytes that `select_lba_low` and `select_lba_low2` give stand
-- for the number exactly where it is below 255.
pub select_lba_low_iff :
    (l : ℕ) → l < 65280 → (select_lba_low l + select_lba_low2 l * 2 ^ 8 ≡ l) ↔ (l < 255)
unfolding select_lba_low select_lba_low2
select_lba_low_iff l h = ground arith

-- The block of Write 10 asks for one block of 512 bytes at the given number.
pub set_cbw_w_10_data_lem :
    (p : ℕ) (m : Store) (low high : ℕ)
    → let b = (set_cbw_w_10_data p m low high).0 in
      (b (p + 15) ≡ 0x2a)
      × (block_number b p ≡ high * 2 ^ 8 + low)
      × (block_count b p ≡ 1)
      × (data_length b p ≡ 512)
unfolding set_cbw_w_10_data nth
set_cbw_w_10_data_lem p m low high =
    let at = λ (k : ℕ).
      store_bytes-nth
        (0x55 ∷ 0x53 ∷ 0x42 ∷ 0x43 ∷ 1 ∷ 2 ∷ 3 ∷ 6 ∷ 0 ∷ 2 ∷ 0 ∷ 0 ∷ 0 ∷ 0 ∷ 0x0a ∷ 0x2a ∷ 0 ∷ 0 ∷ 0
          ∷ high ∷ low ∷ 0 ∷ 0 ∷ 1 ∷ 0 ∷ 0 ∷ 0 ∷ 0 ∷ 0 ∷ 0 ∷ 0 ∷ [])
        (zero_bytes 4096 m p 0) p k (p + k) refl in
    (
      at 15,
      rw (at 17, at 18, at 19, at 20) (omega arith),
      rw (at 22, at 23) (omega arith),
      rw (at 8, at 9, at 10, at 11) (omega arith),
    )
