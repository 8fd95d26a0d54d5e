-- ===== src/Keyboard/Line.antt =====
-- The editor of kernel/device/kb.c as a line of characters: what the keys mean, and that the two
-- buffers hold that line.
use john_os.Common.{
  ℕ, zero, suc, ◌+◌, ◌-◌, ◌≤◌, ◌<◌, ◌≡◌, refl, sym, ◌≢◌, ◌⊎◌, inl, inr, true, false, ◌&&◌, List, [],
  ◌∷◌, arith, ltb, ◌==◌, if◌then◌else◌, Bool-cases,
}
use john_os.Common.Store.{Store, write}
use john_os.Keyboard.{entry, Keyboard, character, both, press, letter, backspace, enter}

unfoldable pub length : List ℕ → ℕ
length [] = 0
length (c ∷ cs) = length cs + 1

pub without_last : List ℕ → List ℕ
without_last [] = []
without_last (c ∷ cs) = cs

-- A line, its last character first, after one more key: a backspace takes the last character away,
-- another key below 69, but Enter, adds its character as long as there are less than 127 of them, and no other key
-- changes the line.
pub edit : List ℕ → (scan_code : ℕ) → List ℕ
unfolding length without_last
edit line scan_code =
    if scan_code == 14
    then without_last line
    else if scan_code == 28
    then line
    else if ltb scan_code 69 && ltb (length line) 127
    then character scan_code ∷ line
    else line

pub edits : List ℕ → (scan_codes : List ℕ) → List ℕ
unfolding edit
edits line [] = line
edits line (c ∷ cs) = edits (edit line c) cs

pub presses : Keyboard → (scan_codes : List ℕ) → Keyboard
presses k [] = k
presses k (c ∷ cs) = presses (press k c).0 cs

-- The characters of the line from `p` on, the last one at the highest address.
unfoldable pub Holds : Store → (p : ℕ) → List ℕ → Type 0
Holds m p [] = zero ≡ zero
Holds m p (c ∷ cs) = (m (p + length cs) ≡ c) × Holds m p cs

-- Both buffers hold the line, with room for 128 characters each.
pub record Shows (line : List ℕ) (k : Keyboard) : Type 0 where
  pub count : k.kb_i ≡ length line
  pub bounded : k.kb_i < 128
  pub apart : (k.buffstr + 128 ≤ k.buffstr2) ⊎ (k.buffstr2 + 128 ≤ k.buffstr)
  pub first : Holds k.ram k.buffstr line
  pub second : Holds k.ram k.buffstr2 line

-- A write that is not to one of the line's places.
Holds-write :
    (line : List ℕ) (m : Store) (p a c : ℕ)
    → (a < p) ⊎ (p + length line ≤ a)
    → Holds m p line
    → Holds (write m a c) p line
unfolding Holds length
Holds-write [] m p a c away h = refl
Holds-write (x ∷ xs) m p a c away (here, rest) =
    let other : (a == p + length xs) ≡ false = ground arith in
    (rw other here, Holds-write xs m p a c (ground arith) rest)

-- The byte behind the line, written in both buffers.
Shows-both :
    (line : List ℕ) (k : Keyboard) (i c : ℕ)
    → Shows line k
    → length line ≡ i
    → (Holds (both k i c) k.buffstr line × (both k i c (k.buffstr + i) ≡ c))
      × (Holds (both k i c) k.buffstr2 line × (both k i c (k.buffstr2 + i) ≡ c))
unfolding both
Shows-both line k i c s e =
    let m = write k.ram (k.buffstr + i) c in
    let b1 = k.buffstr in
    let b2 = k.buffstr2 in
    let short : i < 128 = omega (arith, s.count, s.bounded) in
    let away1 : (b2 + i < b1) ⊎ (b1 + length line ≤ b2 + i) = ground (arith, s.apart) in
    let away2 : (b1 + i < b2) ⊎ (b2 + length line ≤ b1 + i) = ground (arith, s.apart) in
    let other : (b2 + i == b1 + i) ≡ false = ground (arith, s.apart) in
    let same1 : (b1 + i == b1 + i) ≡ true = ground arith in
    let same2 : (b2 + i == b2 + i) ≡ true = ground arith in
    (
      (
        Holds-write line m b1 (b2 + i) c away1
            (Holds-write line k.ram b1 (b1 + i) c (inr (omega arith)) s.first),
        rw (other, same1) refl,
      ),
      (
        Holds-write line m b2 (b2 + i) c (inr (omega arith))
            (Holds-write line k.ram b2 (b1 + i) c away2 s.second),
        rw same2 refl,
      ),
    )

Shows-letter :
    (line : List ℕ) (k : Keyboard)
    → Shows line k
    → Shows
        (if ltb k.input 69 && ltb (length line) 127 then character k.input ∷ line else line)
        (letter k).0
unfolding letter length Holds
Shows-letter line k s =
    let c = character k.input in
    let ((h1, e1), (h2, e2)) = Shows-both line k k.kb_i c s (sym s.count) in
    let at1 : both k k.kb_i c (k.buffstr + length line) ≡ c = rw (← s.count) e1 in
    let at2 : both k k.kb_i c (k.buffstr2 + length line) ≡ c = rw (← s.count) e2 in
    rw (← s.count) (elim (Bool-cases (ltb k.input 69 && ltb k.kb_i 127)) [
      | inl y ↦ rw y (record {
        count = ground (arith, s.count);
        bounded = ground arith;
        apart = s.apart;
        first = (at1, h1);
        second = (at2, h2);
      })
      | inr n ↦ rw n s
    ])

Shows-backspace :
    (line : List ℕ) (k : Keyboard) → Shows line k → Shows (without_last line) (backspace k).0
unfolding backspace without_last length Holds
Shows-backspace [] k s =
    let ((h1, e1), (h2, e2)) = Shows-both [] k 0 0 s refl in
    let none_left : ltb 0 k.kb_i ≡ false = ground (arith, s.count) in
    rw (none_left) (record {
      count = s.count;
      bounded = s.bounded;
      apart = s.apart;
      first = refl;
      second = refl;
    })
Shows-backspace (c ∷ cs) k s =
    let some_left : ltb 0 k.kb_i ≡ true = ground (arith, s.count) in
    let less : k.kb_i - 1 ≡ length cs = omega (arith, s.count) in
    let k' = record k { kb_i = k.kb_i - 1 } in
    let shorter : Shows cs k' = record {
      count = less;
      bounded = omega (arith, s.bounded);
      apart = s.apart;
      first = s.first.1;
      second = s.second.1;
    } in
    let ((h1, e1), (h2, e2)) = Shows-both cs k' (k.kb_i - 1) 0 shorter (sym less) in
    rw (some_left)
      (record { count = less; bounded = shorter.bounded; apart = s.apart; first = h1; second = h2 })

Shows-keys :
    (line : List ℕ) (k : Keyboard)
    → Shows line k
    → (code now : ℕ) → Shows line (record k { input = code; reading = now })
Shows-keys line k s code now = record {
  count = s.count;
  bounded = s.bounded;
  apart = s.apart;
  first = s.first;
  second = s.second;
}

-- A key that is not Enter changes the buffers as it changes the line.
Shows-press :
    (line : List ℕ) (k : Keyboard) (scan_code : ℕ)
    → scan_code ≢ 28
    → Shows line k
    → Shows (edit line scan_code) (press k scan_code).0
unfolding edit press
Shows-press line k code not_enter s =
    let no_enter : (code == 28) ≡ false = ground (arith, not_enter) in
    let s' = Shows-keys line k s code 1 in
    elim (Bool-cases (code == 14)) [
      | inl y ↦ rw (no_enter, y) (Shows-backspace line _ s')
      | inr n ↦ elim (Bool-cases (code == 0x48)) [
        | inl y ↦
            let high : ltb code 69 ≡ false = ground arith in
            rw (no_enter, n, y, high) (Shows-keys line k s 0 1)
        | inr n2 ↦ elim (Bool-cases (code == 0x50)) [
          | inl y ↦
              let high : ltb code 69 ≡ false = ground arith in
              rw (no_enter, n, n2, y, high) (Shows-keys line k s 0 1)
          | inr n3 ↦ rw (no_enter, n, n2, n3) (Shows-letter line _ s')
        ]
      ]
    ]

-- After any keys but Enter, the buffers hold the line that the keys stand for, of at most 127
-- characters.
pub presses-Shows :
    (scan_codes line : List ℕ) (k : Keyboard)
    → ((i : ℕ) → entry scan_codes i ≢ 28)
    → Shows line k
    → Shows (edits line scan_codes) (presses k scan_codes)
unfolding edits presses entry
presses-Shows [] line k no_enter s = s
presses-Shows (c ∷ cs) line k no_enter s =
    presses-Shows cs (edit line c) (press k c).0 (λ i. no_enter (suc i))
      (Shows-press line k c (no_enter 0) s)

-- Enter ends the line: both buffers hold it with a terminator behind it.
pub enter-Shows :
    (line : List ℕ) (k : Keyboard)
    → Shows line k
    → let k' = (press k 28).0 in
      Shows line k'
      × (k'.ram (k'.buffstr + length line) ≡ 0)
      × (k'.ram (k'.buffstr2 + length line) ≡ 0)
      × (k'.reading ≡ 0)
unfolding press enter
enter-Shows line k s =
    let ((h1, e1), (h2, e2)) = Shows-both line k k.kb_i 0 s (sym s.count) in
    rw (← s.count) (
      record { count = s.count; bounded = s.bounded; apart = s.apart; first = h1; second = h2 },
      e1,
      e2,
      refl,
    )

-- Only Enter finishes a line.
pub press-reading :
    (k : Keyboard) (scan_code : ℕ) → scan_code ≢ 28 → (press k scan_code).0.reading ≡ 1
unfolding press backspace letter
press-reading k code h = ground (arith, h)
