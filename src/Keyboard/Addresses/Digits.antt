-- ===== src/Keyboard/Addresses/Digits.antt =====
-- The numbers that `keyboard_handler2` of kernel/device/kb.c reads from the digits.
use john_os.Common.{ℕ, ◌+◌, ◌-◌, ◌*◌, ◌^◌, ◌≤◌, ◌<◌, ◌≡◌, refl, ◌∙◌, arith, u8, ◌↔◌}
use john_os.Common.Store.{Store}
use john_os.MemFill.Dwords.{read_mem_address-one, read_mem_address-two}
use john_os.Keyboard.Addresses.{Entry, dwords, typed_number}

-- The bytes from index `a` to 8 are 0.
unfoldable pub Cleared : Entry → (a : ℕ) → Type 0
Cleared n a = (i : ℕ) → a ≤ i → i < 8 → n.ram (n.digits + i) ≡ 0

dwords-bytes :
    (m : Store) (p t q b0 b1 b2 b3 : ℕ)
    → p + 4 * t ≡ q
    → m q ≡ b0
    → m (q + 1) ≡ b1
    → m (q + 2) ≡ b2
    → m (q + 3) ≡ b3
    → dwords m p t ≡ b0 + 256 * b1 + 65536 * b2 + 16777216 * b3
unfolding dwords
dwords-bytes m p t q b0 b1 b2 b3 e e0 e1 e2 e3 =
    let third : q + 2 + 1 ≡ q + 3 = omega arith in rw (e, third, e0, e1, e2, e3) (omega arith)

byte-at : (m : Store) (p i q : ℕ) → q ≡ p + i → m (p + i) ≡ 0 → m q ≡ 0
byte-at m p i q e z = rw e z

-- A number of one digit is read right.
pub typed_number-one :
    (n : Entry) (a : ℕ)
    → n.kb_i ≡ 1
    → n.ram n.digits ≡ a
    → a < 10
    → Cleared n 1
    → typed_number n ≡ a
unfolding typed_number Cleared
typed_number-one n a k e h z =
    let first : dwords n.ram n.digits 0 ≡ a =
      dwords-bytes n.ram n.digits 0 n.digits a 0 0 0 (omega arith) e
        (z 1 (omega arith) (omega arith)) (z 2 (omega arith) (omega arith))
        (z 3 (omega arith) (omega arith))
      ∙ omega arith in
    let count : u8 (n.kb_i + 2 ^ 8 - 1) ≡ 0 = omega (arith, k) in
    rw count (read_mem_address-one (dwords n.ram n.digits) ∙ rw first (omega arith))

-- Where the six bytes behind the two digits are 0, as they are before the first number is typed, the
-- second digit counts 2560 times: the digits are bytes and are read as dwords. So such a number is
-- read right exactly when its second digit is 0. With digits of an earlier number behind, nothing is
-- said.
pub typed_number-two :
    (n : Entry) (a b : ℕ)
    → n.kb_i ≡ 2
    → n.ram n.digits ≡ a
    → n.ram (n.digits + 1) ≡ b
    → a < 10
    → b < 10
    → Cleared n 2
    → (typed_number n ≡ 10 * a + 2560 * b) × ((typed_number n ≡ 10 * a + b) ↔ (b ≡ 0))
unfolding typed_number Cleared
typed_number-two n a b k ea eb ha hb z =
    let first : dwords n.ram n.digits 0 ≡ a + 256 * b =
      dwords-bytes n.ram n.digits 0 n.digits a b 0 0 (omega arith) ea eb
        (z 2 (omega arith) (omega arith)) (z 3 (omega arith) (omega arith))
      ∙ omega arith in
    let second : dwords n.ram n.digits 1 ≡ 0 =
      dwords-bytes n.ram n.digits 1 (n.digits + 4) 0 0 0 0 (omega arith)
        (z 4 (omega arith) (omega arith))
        (byte-at n.ram n.digits 5 _ (omega arith) (z 5 (omega arith) (omega arith)))
        (byte-at n.ram n.digits 6 _ (omega arith) (z 6 (omega arith) (omega arith)))
        (byte-at n.ram n.digits 7 _ (omega arith) (z 7 (omega arith) (omega arith))) in
    let count : u8 (n.kb_i + 2 ^ 8 - 1) ≡ 1 = omega (arith, k) in
    let number : typed_number n ≡ 10 * a + 2560 * b =
      rw count (read_mem_address-two (dwords n.ram n.digits) ∙ rw (first, second) (omega arith)) in
    rw number (refl, ground arith)
