-- ===== src/Text/Upper.antt =====
-- `str_eql3` of kernel/string.c: a typed name against a name of the FAT16 file system.
use john_os.Common.{
  ℕ, zero, suc, ◌+◌, ◌-◌, ◌≤◌, ◌<◌, ◌≡◌, refl, ◌∙◌, inl, inr, Bool, true, false, ◌&&◌, arith, ltb,
  leb, ◌==◌, if◌then◌else◌, ==_refl, Bool-cases, eq→==, ==→eq, ◌↔◌,
}
use john_os.Common.Store.{Store, write}
use john_os.Text.{Upcase, upcase, upcase_loop, copy_loop, pad_loop, file_name, str_eql3}
use john_os.Text.Length.{IsString, strlength_lem}

-- `k` lies in the `n` indexes from `i` on.
abbrev among : ℕ → ℕ → ℕ → Bool
among i n k = leb i k && ltb k (i + n)

copy_loop_lem :
    (n : ℕ) (from to : Store) (i k : ℕ)
    → copy_loop n from to i k ≡ (if among i n k then from k else to k)
unfolding copy_loop
copy_loop_lem zero from to i k = ground arith
copy_loop_lem (suc n) from to i k =
    ground (arith, copy_loop_lem n from (write to i (from i)) (i + 1) k)

pad_loop_lem :
    (n : ℕ) (to : Store) (i k : ℕ) → pad_loop n to i k ≡ (if among i n k then 0x20 else to k)
unfolding pad_loop
pad_loop_lem zero to i k = ground arith
pad_loop_lem (suc n) to i k = ground (arith, pad_loop_lem n (write to i 0x20) (i + 1) k)

-- The characters `lo` up to, and without, `hi` of the second string are those of the first less
-- 0x20.
abbrev pub UpcasedFrom : Store → (p q lo hi : ℕ) → Type 0
UpcasedFrom m p q lo hi = (k : ℕ) → lo ≤ k → k < hi → upcase (m (p + k)) ≡ m (q + k)

module _ (m : Store) (p q : ℕ) where
  abbrev round : ℕ → Upcase → Upcase
  round f u = record {
    temp3 = write u.temp3 f (upcase (m (p + f)));
    result = if upcase (m (p + f)) == m (q + f) then u.result else 0;
  }

  upcase_loop-temp3 :
      (n f : ℕ) (u : Upcase) (k : ℕ)
      → (upcase_loop n m p q f u).temp3 k ≡ (if among f n k then upcase (m (p + k)) else u.temp3 k)
  unfolding upcase_loop
  upcase_loop-temp3 zero f u k = ground arith
  upcase_loop-temp3 (suc n) f u k = elim (Bool-cases (k == f)) [
    | inl same ↦
        let e : k ≡ f = ==→eq k f same in
        rw e (ground (arith, upcase_loop-temp3 n (f + 1) (round f u) f))
    | inr other ↦ upcase_loop-temp3 n (f + 1) (round f u) k ∙ ground arith
  ]

  upcase_loop-zero : (n f : ℕ) (u : Upcase) → u.result ≡ 0 → (upcase_loop n m p q f u).result ≡ 0
  unfolding upcase_loop
  upcase_loop-zero zero f u z = z
  upcase_loop-zero (suc n) f u z = upcase_loop-zero n (f + 1) (round f u) (ground arith)

  upcase_loop_sound :
      (n f : ℕ) (u : Upcase) → (upcase_loop n m p q f u).result ≡ 1 → UpcasedFrom m p q f (f + n)
  unfolding upcase_loop
  upcase_loop_sound zero f u r k le lt = absurd (omega arith)
  upcase_loop_sound (suc n) f u r k le lt = elim (Bool-cases (upcase (m (p + f)) == m (q + f))) [
    | inl same ↦ elim (Bool-cases (k == f)) [
      | inl here ↦ let e : k ≡ f = ==→eq k f here in rw e (==→eq _ _ same)
      | inr later ↦ upcase_loop_sound n (f + 1) (round f u) r k (ground arith) (omega arith)
    ]
    | inr other ↦ absurd (omega (arith, r, upcase_loop-zero n (f + 1) (round f u) (rw other)))
  ]

  upcase_loop_complete :
      (n f : ℕ) (u : Upcase)
      → UpcasedFrom m p q f (f + n)
      → u.result ≡ 1
      → (upcase_loop n m p q f u).result ≡ 1
  unfolding upcase_loop
  upcase_loop_complete zero f u all r = r
  upcase_loop_complete (suc n) f u all r =
      upcase_loop_complete n (f + 1) (round f u) (λ k a b. all k (omega arith) (omega arith))
        (rw (eq→== _ _ (all f (omega arith) (omega arith))) r)

file_name-result :
    (size result : ℕ) (t g : Store) → size ≤ 11 → (file_name size result t g).1 ≡ result
unfolding file_name
file_name-result size result t g h = ground arith

abbrev start : Upcase
start = record { temp3 = λ i. 0; result = 1 }

-- What the last part of `str_eql3` returns, whichever way it goes.
returned :
    (n : ℕ) (u : Upcase) (g : Store)
    → n ≤ 11
    → (if u.result == 1 then file_name n u.result u.temp3 g else (g, u.result)).1 ≡ u.result
returned n u g top = elim (Bool-cases (u.result == 1)) [
  | inl one ↦ rw one (file_name-result n u.result u.temp3 g top)
  | inr other ↦ rw other
]

-- The loop also compares the terminators.
upcase-closed :
    (m : Store) (p q n : ℕ)
    → m (p + n) ≡ 0
    → m (q + n) ≡ 0
    → UpcasedFrom m p q 0 n
    → UpcasedFrom m p q 0 (0 + (n + 1))
upcase-closed m p q n z z' all k a b = elim (Bool-cases (k == n)) [
  | inl last ↦ let s : k ≡ n = ground arith in rw s (ground arith)
  | inr before ↦ all k a (ground arith)
]

-- For names of 1 to 11 characters `str_eql3` returns 1 exactly when the second string has the same
-- length and holds the characters of the first less 0x20.
pub str_eql3_iff :
    (m g : Store) (p q n n' : ℕ)
    → IsString m p n
    → IsString m q n'
    → 1 ≤ n
    → n ≤ 11
    → 1 ≤ n'
    → n' ≤ 127
    → ((str_eql3 m g p q).1 ≡ 1) ↔ ((n ≡ n') × UpcasedFrom m p q 0 n)
unfolding str_eql3
str_eql3_iff m g p q n n' is is' low top low' top' =
    rw (strlength_lem is low (omega arith), strlength_lem is' low' top')
      (elim (Bool-cases (n == n')) [
        | inr other ↦ rw other (λ r. cc, λ r. absurd (ground (arith, r.0)))
        | inl same ↦
            let e : n ≡ n' = ==→eq n n' same in
            let u = upcase_loop (n + 1) m p q 0 start in
            let ends : m (q + n) ≡ 0 = rw e is'.ends in
            rw (same, returned n u g top)
              (
                λ r. (e, λ k a b. upcase_loop_sound m p q (n + 1) 0 start r k a (omega arith)),
                λ r.
                    upcase_loop_complete m p q (n + 1) 0 start
                      (upcase-closed m p q n is.ends ends r.1) refl,
              )
      ])

-- The entry of `get_file` for the name of `n` characters at `p`: the name in capitals, padded with
-- spaces to eight, and the ending `TXT`.
abbrev pub name_entry : Store → (p n k : ℕ) → ℕ
name_entry m p n k =
    if ltb k n
    then upcase (m (p + k))
    else if ltb k 8
    then 0x20
    else if k == 8
    then b'T'
    else if k == 9
    then b'X'
    else if k == 10
    then b'T'
    else 0

-- When a name of at most 7 characters matches, `str_eql3` leaves in `get_file` the 11 characters of
-- a directory entry for a text file, and a terminator.
pub str_eql3-name_entry :
    (m g : Store) (p q n k : ℕ)
    → IsString m p n
    → IsString m q n
    → 1 ≤ n
    → n ≤ 7
    → UpcasedFrom m p q 0 n
    → k < 12
    → (str_eql3 m g p q).0 k ≡ name_entry m p n k
unfolding str_eql3 file_name
str_eql3-name_entry m g p q n k is is' low top all lt =
    let u = upcase_loop (n + 1) m p q 0 start in
    let one : u.result ≡ 1 =
      upcase_loop_complete m p q (n + 1) 0 start (upcase-closed m p q n is.ends is'.ends all)
        refl in
    let small : ltb n 8 ≡ true = ground arith in
    let fits : ltb 11 n ≡ false = ground arith in
    rw
      (
        strlength_lem is low (omega arith),
        strlength_lem is' low (omega arith),
        ==_refl n,
        one,
        small,
        fits,
      )
      (ground (
        arith,
        pad_loop_lem (8 - n) (write (copy_loop (n + 1) u.temp3 g 0) (n + 1) 0) n k,
        copy_loop_lem (n + 1) u.temp3 g 0 k,
        upcase_loop-temp3 m p q (n + 1) 0 start k,
      ))
