-- ===== src/Keyboard/Directories/Scan/Prompt.antt =====
-- The prompt of kernel/device/kb.c: "cd …" puts the name of a directory behind it, and "cd b" takes
-- it away again.
use john_os.Common.{
  ℕ, zero, suc, ◌+◌, ◌-◌, ◌^◌, ◌≤◌, ◌<◌, ◌≡◌, refl, sym, ◌∙◌, ◌≢◌, ◌⊎◌, inl, inr, true, false,
  arith, u32, ltb, ◌==◌, Bool-cases, ==→eq,
}
use john_os.Common.Store.{Store, write}
use john_os.Keyboard.Directories.{Places, prompt_end, add_name, shown}

-- A string of `n` characters at `p`, looked at from character `a` on.
pub record Text (m : Store) (p a n : ℕ) : Type 0 where
  pub letters : (i : ℕ) → a ≤ i → i < n → m (p + i) ≢ 0
  pub ends : m (p + n) ≡ 0

pub Text-tail : {m : Store} {p a n : ℕ} → Text m p a n → Text m p (a + 1) n
Text-tail t = record { letters = λ i l h. t.letters i (omega arith) h; ends = t.ends }

-- The length of the prompt, where it is within the bound.
pub prompt_end_lem :
    (rounds : ℕ) (m : Store) (csptr bound b n : ℕ)
    → b ≤ n
    → n ≤ bound
    → n < rounds + b
    → Text m csptr b n
    → prompt_end rounds m csptr bound b ≡ n
unfolding prompt_end
prompt_end_lem zero m csptr bound b n low high enough t = absurd (omega arith)
prompt_end_lem (suc rounds) m csptr bound b n low high enough t = elim (Bool-cases (b == n)) [
  | inl y ↦
      let s = ==→eq b n y in
      let zeroed : (m (csptr + b) == 0) ≡ true = rw s (ground (arith, t.ends)) in rw zeroed s
  | inr f ↦
      let letter = t.letters b (omega arith) (ground arith) in
      let other : (m (csptr + b) == 0) ≡ false = ground (arith, letter) in
      let inside : ltb b bound ≡ true = ground arith in
      rw (other, inside)
        (prompt_end_lem rounds m csptr bound (b + 1) n (ground arith) high (omega arith)
          (Text-tail t))
]

pub Text-write :
    {m : Store} {p a n : ℕ}
    → (x v : ℕ) → (x < p) ⊎ (p + n < x)
    → Text m p a n
    → Text (write m x v) p a n
Text-write x v away t = record {
  letters = λ i l h z. t.letters i l h (ground (arith, z));
  ends = ground (arith, t.ends);
}

-- The name of `k` characters is written from `b` on, each character to one that is not 0.
pub record Added (m m' : Store) (csptr b b' : ℕ) : Type 0 where
  pub same : (x : ℕ) → (x < csptr + b) ⊎ (csptr + b' ≤ x) → m' x ≡ m x
  pub letters : (i : ℕ) → b ≤ i → i < b' → m' (csptr + i) ≢ 0

Added-first :
    (m m' : Store) (csptr b b' v : ℕ)
    → v ≢ 0
    → b < b'
    → Added (write m (csptr + b) v) m' csptr (b + 1) b'
    → Added m m' csptr b b'
Added-first m m' csptr b b' v letter low d =
    let here : (csptr + b == csptr + b) ≡ true = ground arith in
    let first : m' (csptr + b) ≡ v = d.same (csptr + b) (inl (omega arith)) ∙ rw here refl in
    record {
      same = λ x h.
          let other : (csptr + b == x) ≡ false = ground arith in
          d.same x (ground arith) ∙ rw other refl;
      letters = λ i l h. elim (Bool-cases (i == b)) [
        | inl y ↦ let s = ==→eq i b y in rw s (λ z. letter (sym first ∙ z))
        | inr f ↦ d.letters i (ground arith) h
      ];
    }

shown-letter : (c a : ℕ) → c ≢ 0 → shown c a ≢ 0
unfolding shown
shown-letter c a h = ground (arith, h)

add_name-step :
    (rounds : ℕ) (p : Places) (m : Store) (b a : ℕ)
    → m (p.fs_current_directory_ptr + a) ≢ 0
    → a < 9
    → b < 128
    → p.csptr + 128 < 2 ^ 32
    → add_name (suc rounds) p m b a
      ≡ add_name rounds p
          (write m (p.csptr + b) (shown (m (p.fs_current_directory_ptr + a)) a))
          (b + 1)
          (a + 1)
unfolding add_name
add_name-step rounds p m b a letter ha hb h =
    let other : (m (p.fs_current_directory_ptr + a) == 0) ≡ false = ground (arith, letter) in
    let in_name : ltb a 9 ≡ true = ground arith in
    let in_prompt : ltb b 128 ≡ true = ground arith in
    let at : u32 (p.csptr + b) ≡ p.csptr + b = omega arith in
    let next : u32 (b + 1) ≡ b + 1 = omega arith in rw (other, in_name, in_prompt, at, next) refl

add_name_lem :
    (rounds : ℕ) (p : Places) (m : Store) (b a k : ℕ)
    → a ≤ k
    → k ≤ 8
    → k < rounds + a
    → b + (k - a) < 128
    → p.csptr + 128 < 2 ^ 32
    → (p.fs_current_directory_ptr + 9 ≤ p.csptr) ⊎ (p.csptr + 128 ≤ p.fs_current_directory_ptr)
    → Text m p.fs_current_directory_ptr a k
    → let (m', b') = add_name rounds p m b a in
      (b' ≡ b + (k - a)) × Added m m' p.csptr b (b + (k - a))
unfolding add_name
add_name_lem zero p m b a k h1 h2 h3 h4 h5 apart t = absurd (omega arith)
add_name_lem (suc rounds) p m b a k h1 h2 h3 h4 h5 apart t =
    let cur = p.fs_current_directory_ptr in
    let c = m (cur + a) in
    elim (Bool-cases (a == k)) [
      | inl y ↦
          let s = ==→eq a k y in
          let zeroed : (m (cur + a) == 0) ≡ true = rw s (ground (arith, t.ends)) in
          rw zeroed
            (omega arith, record { same = λ x h. refl; letters = λ i l h. absurd (omega arith) })
      | inr f ↦
          let letter = t.letters a (omega arith) (ground arith) in
          let m2 = write m (p.csptr + b) (shown c a) in
          let rest : b + 1 + (k - (a + 1)) ≡ b + (k - a) = ground arith in
          let (e, d) =
            add_name_lem rounds p m2 (b + 1) (a + 1) k (ground arith) h2 (omega arith)
              (ground arith) h5 apart
              (Text-write (p.csptr + b) (shown c a) (ground arith) (Text-tail t)) in
          let d' : Added m2 _ p.csptr (b + 1) (b + (k - a)) = rw (← rest) d in
          rw (add_name-step rounds p m b a letter (ground arith) (ground arith) h5) (
            e ∙ rest,
            Added-first m _ p.csptr b (b + (k - a)) (shown c a) (shown-letter c a letter)
                (ground arith) d',
          )
    ]

-- The whole name.
pub add_name-whole :
    (p : Places) (m : Store) (b k : ℕ)
    → k ≤ 8
    → b + k < 128
    → p.csptr + 128 < 2 ^ 32
    → (p.fs_current_directory_ptr + 9 ≤ p.csptr) ⊎ (p.csptr + 128 ≤ p.fs_current_directory_ptr)
    → Text m p.fs_current_directory_ptr 0 k
    → let (m', b') = add_name 9 p m b 0 in (b' ≡ b + k) × Added m m' p.csptr b (b + k)
add_name-whole p m b k h2 h4 h5 apart t =
    let whole : b + (k - 0) ≡ b + k = omega arith in
    rw (← whole) (add_name_lem 9 p m b 0 k (omega arith) h2 (omega arith) (omega arith) h5 apart t)
