-- ===== src/Keyboard/Files/Search.antt =====
-- What the search for a file in kernel/device/kb.c finds.
use john_os.Common.{
  ℕ, zero, suc, ◌+◌, ◌≤◌, ◌<◌, ◌≡◌, refl, ◌⊎◌, inl, inr, Bool, true, false, ◌&&◌, not, arith, ltb,
  ◌==◌, if◌then◌else◌, Bool-cases, ==→eq,
}
use john_os.Common.Store.{Store}
use john_os.Keyboard.{Keyboard}
use john_os.Keyboard.Files.{open_file, FileTable, find_file, same_text, name_at, file_loop, Store}

-- The file with the searched name that comes first behind entry `c`, before the end mark.
pub record FoundFile (is_end is_name : ℕ → Bool) (c at : ℕ) : Type 0 where
  pub behind : c < at
  pub in_table : at ≤ 409
  pub named : is_name at ≡ true
  pub before : (j : ℕ) → c ≤ j → j < at → (is_end j ≡ false) × (is_name j ≡ false)

-- No file of that name up to the place where the search stops, which is the end mark, the end of
-- the table, or the start itself, when the directory has that name.
pub record NoFile (is_end is_name : ℕ → Bool) (c at : ℕ) : Type 0 where
  pub behind : c ≤ at
  pub none_before : (j : ℕ) → c < j → j ≤ at → is_name j ≡ false
  pub stopped : (is_end at ≡ true) ⊎ ((409 ≤ at) ⊎ ((is_name at ≡ true) × (at ≡ c)))

file_loop-found :
    (rounds : ℕ) (is_end is_name : ℕ → Bool) (c : ℕ) → file_loop rounds is_end is_name c 1 ≡ (c, 1)
unfolding file_loop
file_loop-found zero is_end is_name c = refl
file_loop-found (suc rounds) is_end is_name c =
    elim (Bool-cases (not (is_end c) && (ltb c 409 && false))) [
      | inl y ↦ absurd (ground arith)
      | inr n ↦ rw n refl
    ]

-- What the counter and `check_root` say when the search from entry `c` has ended.
abbrev pub Outcome : (is_end is_name : ℕ → Bool) (c at found : ℕ) → Type 0
Outcome is_end is_name c at found =
    ((found ≡ 1) × FoundFile is_end is_name c at) ⊎ ((found ≡ 0) × NoFile is_end is_name c at)

Outcome-stop :
    (is_end is_name : ℕ → Bool) (c : ℕ)
    → (is_end c ≡ true) ⊎ ((409 ≤ c) ⊎ (is_name c ≡ true))
    → Outcome is_end is_name c c 0
Outcome-stop is_end is_name c stop = inr (
  refl,
  record {
    behind = omega arith;
    none_before = λ j a b. absurd (omega arith);
    stopped = elim stop [
      | inl e ↦ inl e
      | inr rest ↦ elim rest [ inl full ↦ inr (inl full) | inr n ↦ inr (inr (n, refl)) ]
    ];
  },
)

Outcome-next :
    (is_end is_name : ℕ → Bool) (c at found : ℕ)
    → is_end c ≡ false
    → is_name c ≡ false
    → is_name (c + 1) ≡ false
    → Outcome is_end is_name (c + 1) at found
    → Outcome is_end is_name c at found
Outcome-next is_end is_name c at found e n n1 o =
    let from : (j : ℕ) → c < j → (j ≡ c + 1) ⊎ (c + 1 < j) = λ j a. ground arith in
    elim o [
      | inl (one, f) ↦ inl (
        one,
        record {
          behind = omega (arith, f.behind);
          in_table = f.in_table;
          named = f.named;
          before = λ j a b. elim (Bool-cases (j == c)) [
            | inl same ↦ let s = ==→eq j c same in rw s (e, n)
            | inr other ↦ f.before j (ground arith) b
          ];
        },
      )
      | inr (none_found, f) ↦ inr (
        none_found,
        record {
          behind = omega (arith, f.behind);
          none_before = λ j a b. elim (from j a) [
            | inl same ↦ rw same n1
            | inr later ↦ f.none_before j later b
          ];
          stopped = elim f.stopped [
            | inl y ↦ inl y
            | inr rest ↦ elim rest [
              | inl full ↦ inr (inl full)
              | inr (named, same) ↦
                  let no : is_name at ≡ false = rw same n1 in absurd (ground arith)
            ]
          ];
        },
      )
    ]

-- The search for a file ends: with `check_root` 1 at the first entry of that name behind the
-- directory's own, or with `check_root` 0 where it stopped before it met one.
pub file_loop_lem :
    (rounds : ℕ) (is_end is_name : ℕ → Bool) (c : ℕ)
    → 410 ≤ rounds + c
    → let (at, found) = file_loop rounds is_end is_name c 0 in Outcome is_end is_name c at found
unfolding file_loop
file_loop_lem zero is_end is_name c h = Outcome-stop is_end is_name c (inr (inl (omega arith)))
file_loop_lem (suc rounds) is_end is_name c h = elim (Bool-cases (is_end c)) [
  | inl y ↦ rw y (Outcome-stop is_end is_name c (inl y))
  | inr e ↦ elim (Bool-cases (ltb c 409)) [
    | inr n ↦ rw (e, n) (Outcome-stop is_end is_name c (inr (inl (ground arith))))
    | inl low ↦ elim (Bool-cases (is_name c)) [
      | inl y ↦ rw (e, low, y) (Outcome-stop is_end is_name c (inr (inr y)))
      | inr n ↦ elim (Bool-cases (is_name (c + 1))) [
        | inl y ↦
            rw (e, low, n, y, file_loop-found rounds is_end is_name (c + 1))
              (inl (
                refl,
                record {
                  behind = omega arith;
                  in_table = ground arith;
                  named = y;
                  before = λ j a b. let s : j ≡ c = omega arith in rw s (e, n);
                },
              ))
        | inr n1 ↦
            rw (e, low, n, n1)
              (Outcome-next is_end is_name c _ _ e n n1
                (file_loop_lem rounds is_end is_name (c + 1) (omega arith)))
      ]
    ]
  ]
]

-- `find_file` either finds the first entry behind that of the directory whose name is the typed
-- line, with nothing of that name and no end mark from the directory's entry up to it, in front of
-- entry 410, and `check_root` is 1; or `check_root` stays 0, and no entry behind the directory's own,
-- up to where the search stopped, has the name. It stops then at the end mark, at entry 409 or
-- behind, or at the directory's own entry where that has the typed name, and in this last case says
-- nothing about the entries behind it.
pub find_file-Outcome :
    (m : Store) (t : FileTable) (eod ch2 c : ℕ)
    → let (at, found) = find_file m t eod ch2 c in
      Outcome (λ i. same_text m (name_at t i) eod) (λ i. same_text m (name_at t i) ch2) c at found
unfolding find_file
find_file-Outcome m t eod ch2 c =
    file_loop_lem 410 (λ i. same_text m (name_at t i) eod) (λ i. same_text m (name_at t i) ch2) c
      (omega arith)

-- Only the opening of a text file starts a new line.
pub open_file-kb_i :
    (read_fat16_file : Store → (cluster length : ℕ) → Store)
    → (k : Keyboard) → (t : FileTable) → (c : ℕ)
    → (open_file read_fat16_file k t c).kb_i
      ≡ (if k.ram (name_at t c + 8) == b't' then 0 else k.kb_i)
unfolding open_file
open_file-kb_i r k t c = elim (Bool-cases (k.ram (name_at t c + 8) == b't')) [
  | inl y ↦ rw y refl
  | inr n ↦ rw n refl
]
