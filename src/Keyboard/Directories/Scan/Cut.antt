-- ===== src/Keyboard/Directories/Scan/Cut.antt =====
-- "cd b" undoes what "cd …" did to the prompt, in kernel/device/kb.c.
use john_os.Common.{
  ℕ, ◌+◌, ◌-◌, ◌^◌, ◌≤◌, ◌<◌, ◌≡◌, refl, sym, ◌∙◌, ◌≢◌, ◌⊎◌, inl, inr, true, false, some, [], ◌∷◌,
  arith, u32, ltb, ◌==◌, if◌then◌else◌, Bool-cases, ==→eq,
}
use john_os.Common.Store.{Store, write}
use john_os.Keyboard.Directories.{Places, store_text, prompt_end, add_name, extend_prompt}
use john_os.Keyboard.Directories.Scan.{cut_prompt}
use john_os.Keyboard.Directories.Scan.Prompt.{
  Text, Text-write, prompt_end_lem, Added, add_name-whole,
}

-- `$`, a blank and the terminator at `q`.
abbrev finish : Store → ℕ → Store
finish m q = store_text m q (b'$' ∷ b' ' ∷ 0 ∷ [])

finish_lem :
    (m : Store) (q x : ℕ)
    → q + 2 < 2 ^ 32
    → finish m q x
      ≡ (if q == x then b'$' else if q + 1 == x then b' ' else if q + 2 == x then 0 else m x)
unfolding store_text
finish_lem m q x h =
    let one : u32 (q + 1) ≡ q + 1 = omega arith in
    let two : u32 (q + 1 + 1) ≡ q + 2 = omega arith in rw (one, two) (ground arith)

-- A prompt of `n` characters that ends with `$` and a blank, and the name of the current directory,
-- of `k` characters, outside the prompt's 128 bytes.
pub record IsPrompt (p : Places) (m : Store) (n k : ℕ) : Type 0 where
  pub prompt : Text m p.csptr 0 n
  pub two : 2 ≤ n
  pub dollar : m (p.csptr + (n - 2)) ≡ b'$'
  pub blank : m (p.csptr + (n - 1)) ≡ b' '
  pub name : Text m p.fs_current_directory_ptr 0 k
  pub length : (1 ≤ k) × (k ≤ 8)
  pub room : n + k < 126
  pub apart :
      (p.fs_current_directory_ptr + 9 ≤ p.csptr) ⊎ (p.csptr + 128 ≤ p.fs_current_directory_ptr)
  pub no_wrap : p.csptr + 128 < 2 ^ 32

-- What the prompt is after "cd …".
extend_prompt-Added :
    (p : Places) (m : Store) (n k bound : ℕ)
    → 125 ≤ bound
    → IsPrompt p m n k
    → (m2 : Store) × (extend_prompt bound p m ≡ finish m2 (p.csptr + (n - 1 + k)))
      × Added (write m (p.csptr + (n - 2)) b'/') m2 p.csptr (n - 1) (n - 1 + k)
unfolding extend_prompt
extend_prompt-Added p m n k bound hb s =
    let len : prompt_end 129 m p.csptr bound 0 ≡ n =
      prompt_end_lem 129 m p.csptr bound 0 n (omega arith) (omega (arith, s.room))
        (omega (arith, s.room)) s.prompt in
    let b : u32 (n + 2 ^ 32 - 2) ≡ n - 2 = omega (arith, s.two, s.room) in
    let at : u32 (p.csptr + (n - 2)) ≡ p.csptr + (n - 2) = omega (arith, s.room, s.no_wrap) in
    let next : u32 (n - 2 + 1) ≡ n - 1 = omega (arith, s.two, s.room) in
    let m1 = write m (p.csptr + (n - 2)) b'/' in
    let away : (p.csptr + (n - 2) < p.fs_current_directory_ptr)
        ⊎ (p.fs_current_directory_ptr + k < p.csptr + (n - 2)) =
      elim s.apart [
        | inl l ↦ inr (omega (arith, s.length.1, s.two))
        | inr r ↦ inl (omega (arith, s.room, s.two, s.length.0))
      ] in
    let name1 = Text-write (p.csptr + (n - 2)) b'/' away s.name in
    let (e, d) =
      add_name-whole p m1 (n - 1) k s.length.1 (omega (arith, s.room)) s.no_wrap s.apart name1 in
    let low : ltb (n - 1 + k) 125 ≡ true = ground (arith, s.room) in
    ((add_name 9 p m1 (n - 1) 0).0, rw (len, b, at, next, e, low) refl, d)

finish-outside : (m : Store) (q x : ℕ) → q + 2 < 2 ^ 32 → (x < q) ⊎ (q + 2 < x) → finish m q x ≡ m x
finish-outside m q x h away = finish_lem m q x h ∙ ground arith

-- In the longer prompt, the characters in front of the old `$`, and what stands in its place.
kept :
    (p : Places) (m m2 : Store) (n k i : ℕ)
    → IsPrompt p m n k
    → Added (write m (p.csptr + (n - 2)) b'/') m2 p.csptr (n - 1) (n - 1 + k)
    → i < n - 1
    → finish m2 (p.csptr + (n - 1 + k)) (p.csptr + i)
      ≡ (if i == n - 2 then b'/' else m (p.csptr + i))
kept p m m2 n k i s d h =
    let x = p.csptr + i in
    let fits : p.csptr + (n - 1 + k) + 2 < 2 ^ 32 = omega (arith, s.room, s.no_wrap) in
    let written : write m (p.csptr + (n - 2)) b'/' x ≡ (if i == n - 2 then b'/' else m x) =
      elim (Bool-cases (i == n - 2)) [
        | inl y ↦ let there : (p.csptr + (n - 2) == x) ≡ true = ground arith in rw (y, there) refl
        | inr f ↦ let other : (p.csptr + (n - 2) == x) ≡ false = ground arith in rw (f, other) refl
      ] in
    finish-outside m2 (p.csptr + (n - 1 + k)) x fits (inl (omega arith))
    ∙ d.same x (inl (omega arith))
    ∙ written

letter-from : {x v : ℕ} → x ≡ v → v ≢ 0 → x ≢ 0
letter-from e h z = h (sym e ∙ z)

-- The longer prompt is a string again.
Text-extended :
    (p : Places) (m m2 : Store) (n k : ℕ)
    → IsPrompt p m n k
    → Added (write m (p.csptr + (n - 2)) b'/') m2 p.csptr (n - 1) (n - 1 + k)
    → Text (finish m2 (p.csptr + (n - 1 + k))) p.csptr 0 (n + k + 1)
Text-extended p m m2 n k s d =
    let q = p.csptr + (n - 1 + k) in
    let fits : q + 2 < 2 ^ 32 = omega (arith, s.room, s.no_wrap) in
    let last : p.csptr + (n + k + 1) ≡ q + 2 = omega (arith, s.two) in
    record {
      letters = λ i l h. elim (Bool-cases (ltb i (n - 1))) [
        | inl y ↦
            let at = kept p m m2 n k i s d (ground arith) in
            elim (Bool-cases (i == n - 2)) [
              | inl y2 ↦ letter-from {v = b'/'} (at ∙ rw y2 refl) (ground arith)
              | inr f ↦
                  letter-from {v = m (p.csptr + i)} (at ∙ rw f refl)
                    (s.prompt.letters i l (ground arith))
            ]
        | inr f1 ↦ elim (Bool-cases (ltb i (n - 1 + k))) [
          | inl y ↦
              letter-from {v = m2 (p.csptr + i)}
                (finish-outside m2 q (p.csptr + i) fits (inl (ground arith)))
                (d.letters i (ground arith) (ground arith))
          | inr f2 ↦ elim (Bool-cases (i == n - 1 + k)) [
            | inl y ↦
                let here : p.csptr + i ≡ q = ground arith in
                let first : (q == q) ≡ true = ground arith in
                letter-from {v = b'$'} (rw here (finish_lem m2 q q fits ∙ rw first refl))
                  (ground arith)
            | inr f3 ↦
                let here : p.csptr + i ≡ q + 1 = ground (arith, s.two) in
                let first : (q == q + 1) ≡ false = ground arith in
                let second : (q + 1 == q + 1) ≡ true = ground arith in
                letter-from {v = b' '}
                  (rw here (finish_lem m2 q (q + 1) fits ∙ rw (first, second) refl)) (ground arith)
          ]
        ]
      ];
      ends = rw last (finish_lem m2 q (q + 2) fits ∙ ground arith);
    }

-- The end of the old prompt, written over memory that holds the part in front of it.
finish-restored :
    (p : Places) (m m3 : Store) (n k i : ℕ)
    → IsPrompt p m n k
    → (i < n - 2 → m3 (p.csptr + i) ≡ m (p.csptr + i))
    → i ≤ n
    → finish m3 (p.csptr + (n - 2)) (p.csptr + i) ≡ m (p.csptr + i)
finish-restored p m m3 n k i s front h =
    let r = p.csptr + (n - 2) in
    let fits : r + 2 < 2 ^ 32 = omega (arith, s.room, s.no_wrap) in
    elim (Bool-cases (ltb i (n - 2))) [
      | inl y ↦ finish-outside m3 r (p.csptr + i) fits (inl (ground arith)) ∙ front (ground arith)
      | inr f ↦ elim (Bool-cases (i == n - 2)) [
        | inl y ↦
            let e = ==→eq i (n - 2) y in
            let first : (r == r) ≡ true = ground arith in
            rw e (finish_lem m3 r r fits ∙ rw first (sym s.dollar))
        | inr f2 ↦ elim (Bool-cases (i == n - 1)) [
          | inl y ↦
              let e : i ≡ n - 1 = ==→eq i (n - 1) y in
              let here : r + 1 ≡ p.csptr + (n - 1) = omega (arith, s.two) in
              let first : (r == r + 1) ≡ false = ground arith in
              let second : (r + 1 == r + 1) ≡ true = ground arith in
              let blank : m (r + 1) ≡ b' ' = rw here s.blank in
              rw (e, ← here) (finish_lem m3 r (r + 1) fits ∙ rw (first, second) (sym blank))
          | inr f3 ↦
              let e : i ≡ n = ground arith in
              let here : r + 2 ≡ p.csptr + n = omega (arith, s.two) in
              let first : (r == r + 2) ≡ false = ground arith in
              let second : (r + 1 == r + 2) ≡ false = ground arith in
              let third : (r + 2 == r + 2) ≡ true = ground arith in
              let ends : m (r + 2) ≡ 0 = rw here s.prompt.ends in
              rw (e, ← here) (finish_lem m3 r (r + 2) fits ∙ rw (first, second, third) (sym ends))
        ]
      ]
    ]

-- Leaving a directory right after entering it gives the prompt back that was there before, for
-- prompts of less than 126 characters with the name.
pub cut_prompt-extend_prompt :
    (p : Places) (m : Store) (n k bound : ℕ)
    → 125 ≤ bound
    → IsPrompt p m n k
    → (m' : Store) × (cut_prompt p (extend_prompt bound p m) k ≡ some m')
      × ((i : ℕ) → i ≤ n → m' (p.csptr + i) ≡ m (p.csptr + i))
unfolding cut_prompt
cut_prompt-extend_prompt p m n k bound hb s =
    let (m2, e, d) = extend_prompt-Added p m n k bound hb s in
    let q = p.csptr + (n - 1 + k) in
    let m3 = finish m2 q in
    let text : Text m3 p.csptr 0 (n + k + 1) = Text-extended p m m2 n k s d in
    let len : prompt_end 129 m3 p.csptr 128 0 ≡ n + k + 1 =
      prompt_end_lem 129 m3 p.csptr 128 0 (n + k + 1) (omega arith) (omega (arith, s.room))
        (omega (arith, s.room)) text in
    let b : u32 (n + k + 1 + 2 ^ 32 - 2) ≡ n + k - 1 = omega (arith, s.room, s.two) in
    let b1 : n + k - 1 - k ≡ n - 1 = omega (arith, s.two) in
    let long : ltb k (n + k - 1) ≡ true = ground (arith, s.two) in
    let some_left : ltb 0 (n - 1) ≡ true = ground (arith, s.two) in
    let b2 : n - 1 - 1 ≡ n - 2 = omega arith in
    let low : ltb (n - 2) 125 ≡ true = ground (arith, s.room) in
    let front : (i : ℕ) → i < n - 2 → m3 (p.csptr + i) ≡ m (p.csptr + i) = λ i h.
      let other : (i == n - 2) ≡ false = ground arith in
      kept p m m2 n k i s d (omega arith) ∙ rw other refl in
    (
      finish m3 (p.csptr + (n - 2)),
      rw (e, len, b, b1, long, some_left, b2, low) refl,
      λ i h. finish-restored p m m3 n k i s (front i) h,
    )
