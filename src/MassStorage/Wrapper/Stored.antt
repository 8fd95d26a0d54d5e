-- ===== src/MassStorage/Wrapper/Stored.antt =====
-- What the device reads of a block of kernel/device/usb/usb_mass_storage.c is what was stored.
use john_os.Common.{
  ℕ, zero, suc, ◌+◌, ◌≡◌, refl, ap, ◌∙◌, true, some, List, [], ◌∷◌, ◌++◌, arith, ◌==◌,
}
use john_os.Common.Store.{Store, write}
use john_os.MemFill.{zero_bytes}
use john_os.MemFill.Laws.{zero_bytes_lem}
use john_os.MassStorage.{store_bytes, block}
use john_os.MassStorage.Wrapper.{Wrapper, wrapper_of, load_bytes, received}
use john_os.MassStorage.Commands.{store_bytes-before}

unfoldable pub length : List ℕ → ℕ
length [] = 0
length (b ∷ bs) = suc (length bs)

load_bytes-store_bytes :
    (bs : List ℕ) (m : Store) (p n : ℕ) → length bs ≡ n → load_bytes (store_bytes m p bs) p n ≡ bs
unfolding load_bytes store_bytes length
load_bytes-store_bytes [] m p zero e = refl
load_bytes-store_bytes [] m p (suc n) e = absurd (omega arith)
load_bytes-store_bytes (b ∷ bs) m p zero e = absurd (omega arith)
load_bytes-store_bytes (b ∷ bs) m p (suc n) e =
    let here : (p == p) ≡ true = ground arith in
    let first : store_bytes (write m p b) (p + 1) bs p ≡ b =
      store_bytes-before bs (write m p b) (p + 1) p (omega arith) ∙ rw here refl in
    rw (first, load_bytes-store_bytes bs (write m p b) (p + 1) n (omega arith)) refl

-- A byte behind the fields that is 0 already counts as one more field.
load_bytes-padded :
    (bs : List ℕ) (m : Store) (p n : ℕ)
    → length bs ≡ n
    → m (p + n) ≡ 0
    → load_bytes (store_bytes m p bs) p (suc n) ≡ bs ++ (0 ∷ [])
unfolding load_bytes store_bytes length
load_bytes-padded [] m p zero e z = let here : m p ≡ 0 = ground arith in rw here refl
load_bytes-padded [] m p (suc n) e z = absurd (omega arith)
load_bytes-padded (b ∷ bs) m p zero e z = absurd (omega arith)
load_bytes-padded (b ∷ bs) m p (suc n) e z =
    let here : (p == p) ≡ true = ground arith in
    let behind : write m p b (p + 1 + n) ≡ 0 = ground arith in
    let first : store_bytes (write m p b) (p + 1) bs p ≡ b =
      store_bytes-before bs (write m p b) (p + 1) p (omega arith) ∙ rw here refl in
    rw (first, load_bytes-padded bs (write m p b) (p + 1) n (omega arith) behind) refl

-- The device reads what was stored, whatever was in memory before.
pub received-store_bytes :
    (bs : List ℕ) (m : Store) (p : ℕ)
    → length bs ≡ 31
    → received (store_bytes m p bs) p ≡ wrapper_of bs
unfolding received
received-store_bytes bs m p n = ap wrapper_of (load_bytes-store_bytes bs m p 31 n)

pub taken :
    (bs : List ℕ) (m : Store) (p : ℕ) (w : Wrapper)
    → length bs ≡ 31
    → wrapper_of bs ≡ some w
    → received (block p m bs).0 (block p m bs).1 ≡ some w
unfolding received block
taken bs m p w n e = received-store_bytes bs (zero_bytes 4096 m p 0) p n ∙ e

-- The same for a block of 30 fields: the page is zeroed first.
pub taken_padded :
    (bs : List ℕ) (m : Store) (p : ℕ) (w : Wrapper)
    → length bs ≡ 30
    → wrapper_of (bs ++ (0 ∷ [])) ≡ some w
    → received (block p m bs).0 (block p m bs).1 ≡ some w
unfolding received block
taken_padded bs m p w n e =
    let zeroed : zero_bytes 4096 m p 0 (p + 30) ≡ 0 =
      ground (arith, zero_bytes_lem 4096 m p 0 (p + 30)) in
    ap wrapper_of (load_bytes-padded bs (zero_bytes 4096 m p 0) p 30 n zeroed) ∙ e
