-- ===== src/Keyboard/Directories/Scan.antt =====
-- The commands "ls" and "cd b" of kernel/device/kb.c, which walk through the table of directories
-- byte by byte.
pub mod Ends
pub mod Prompt
pub mod Cut
use john_os.Common.{
  ℕ, zero, suc, ◌+◌, ◌-◌, ◌*◌, ◌/◌, ◌%◌, ◌^◌, ◌≤◌, ◌<◌, ◌≡◌, refl, sym, ap, ◌∙◌, fun_ext, ◌≢◌, ◌⊎◌,
  inl, inr, Bool, true, false, ◌&&◌, ◌||◌, not, Option, none, some, List, [], ◌∷◌, ◌++◌, arith, u8,
  u16, u32, not32, ◌<<<◌, ◌>>>◌, ltb, leb, ◌==◌, if◌then◌else◌, ==_refl, Bool-cases, eq→==, ==→eq,
  ==_iff, bit_and, bit_or, bit_xor, min, max, ◌↔◌, ◌>>=◌,
}
use john_os.Common.Store.{Store, write}
use john_os.Text.{strlength}
use john_os.Keyboard.Files.{FileTable, name_at, same_text}
use john_os.Keyboard.Directories.{
  Places, Reply, refused, prompted, differs, store_text, is_mark, prompt_end, silent,
}

-- `while(byte == 0 or not, as asked, && (fs_c < 456)) fs_c++;` with `rounds` rounds allowed.
pub skip : ℕ → (zeros : Bool) → Store → (table fs_c : ℕ) → ℕ
skip zero zeros m table c = c
skip (suc rounds) zeros m table c =
    let rest = skip rounds zeros m table (c + 1) in
    let is_zero = m (table + c) == 0 in
    if (if zeros then is_zero else not is_zero) && ltb c 456 then rest else c

-- Over the name at `fs_c` and over the zeros behind it.
pub skip_name : Store → (table fs_c : ℕ) → ℕ
skip_name m table c = skip 456 true m table (skip 456 false m table c)

-- `while(!strEql(table + fs_c, text) && (fs_c < 456))` with `rounds` rounds allowed.
pub scan_for : ℕ → Store → (table text fs_c : ℕ) → ℕ
scan_for zero m table text c = c
scan_for (suc rounds) m table text c =
    let rest = scan_for rounds m table text (skip_name m table c) in
    if differs m (table + c) text && ltb c 456 then rest else c

-- The names from entry `fs_c` up to `eod`, as the addresses that are printed.
names_from : ℕ → Places → Store → (fs_c : ℕ) → List ℕ
unfolding is_mark
names_from zero p m c = []
names_from (suc rounds) p m c =
    let rest = names_from rounds p m (c + 1) in
    if not (is_mark p m p.eod c) && ltb c 456 then (p.fs_filenames_dirinfo + c * 9) ∷ rest else []

-- The files from entry `counter3` up to `eod`, each with whether ".TXT" is printed behind it.
files_from : ℕ → FileTable → (eod : ℕ) → Store → (counter3 : ℕ) → List (ℕ × Bool)
files_from zero t eod m c = []
files_from (suc rounds) t eod m c =
    let rest = files_from rounds t eod m (c + 1) in
    let here = name_at t c in
    if not (same_text m here eod) && ltb c 456 then (here, m (here + 8) == b't') ∷ rest else []

-- The entry behind the mark of the current directory, where "ls" starts, or `none` for an invalid
-- command. `0` stands for the branch that executes `hlt` and lists no directory.
pub listed_entry : Places → Store → Option ℕ
unfolding scan_for differs
listed_entry p m =
    let table = p.fs_filenames_dirinfo in
    let cur = p.fs_current_directory_ptr in
    let c = skip_name m table (scan_for 456 m table cur 0) in
    let c' = skip_name m table (scan_for 456 m table cur c) in
    if leb 456 c
    then none
    else if differs m (table + c) p.percent
    then (if leb 456 c' || differs m (table + c') p.percent || leb 456 (c' + 9)
        then none
        else some ((c' + 9) / 9))
    else if c == 9
    then some ((c + 9) / 9)
    else some 0

-- "ls": the directories and the files that are printed; `counter3` is the entry of the current
-- directory in the table of files.
pub list_names : Places → FileTable → Store → (counter3 : ℕ) → Option (List ℕ × List (ℕ × Bool))
unfolding listed_entry names_from files_from
list_names p t m counter3 = do
  c ← listed_entry p m
  some (if c == 0 then [] else names_from 456 p m c, files_from 456 t p.eod m (counter3 + 1))

-- `while(!strEql(table + fs_c, text) && (fs_c >= 1)) fs_c -= 9;` with `rounds` rounds allowed. The
-- subtraction wraps, so a place that is no multiple of 9 leaves the table: `none`.
pub scan_back : ℕ → Store → (table text fs_c : ℕ) → Option ℕ
unfolding differs
scan_back zero m table text c = none
scan_back (suc rounds) m table text c =
    let rest = scan_back rounds m table text (u32 (c + 2 ^ 32 - 9)) in
    if differs m (u32 (table + c)) text && ltb 0 c then rest else some c

-- `while(from[fs_c] && (fs_b < 8))` copies, then `for(;fs_b < 9; fs_b++)` writes zeros, with
-- `rounds` places to go.
copy_padded : ℕ → (copying : Bool) → Store → (to from : ℕ) → Store
copy_padded zero copying m to from = m
copy_padded (suc rounds) copying m to from =
    let more = copying && not (m from == 0) && ltb 0 rounds in
    copy_padded rounds more (write m to (if more then m from else 0)) (to + 1) (from + 1)

-- The prompt without its last directory, whose name has `kb_str_length` characters: `none` for
-- "Erroneous string operation".
pub cut_prompt : Places → Store → (kb_str_length : ℕ) → Option Store
cut_prompt p m kb_str_length =
    let b = u32 (prompt_end 129 m p.csptr 128 0 + 2 ^ 32 - 2) in
    let b1 = b - kb_str_length in
    let b2 = if ltb 0 b1 then b1 - 1 else b1 in
    if not (ltb kb_str_length b)
    then none
    else some (if ltb b2 125 then store_text m (p.csptr + b2) (b'$' ∷ b' ' ∷ 0 ∷ []) else m)

-- "cd b", once the parent's entry is known.
leave_directory : Places → Store → (parent : ℕ) → Reply
unfolding copy_padded cut_prompt
leave_directory p m parent =
    let cur = p.fs_current_directory_ptr in
    let m' = copy_padded 9 true m cur (u32 (p.fs_filenames_dirinfo + parent)) in
    elim (cut_prompt p m' (strlength m cur)) [ none ↦ refused m' | some m2 ↦ prompted m2 ]

-- Where the parent stands: from the mark behind the current directory back to the directory's first
-- entry, and from there back to the mark of its parent, with the parent in front of it. `false` is
-- an invalid command.
parent_entry : Places → Store → (mark : ℕ) → Option (Bool × ℕ)
unfolding scan_back
parent_entry p m mark = do
  let table = p.fs_filenames_dirinfo
  own ← scan_back 52 m table p.fs_current_directory_ptr (u32 (mark + 2 ^ 32 - 18))
  above ← scan_back 52 m table p.percent own
  some (not (own == 0) && not (above == 0), u32 (above + 2 ^ 32 - 9))

-- "cd b"; `none` where the search leaves the table.
pub cd_back : Places → Store → Option Reply
unfolding scan_for differs parent_entry leave_directory
cd_back p m =
    let table = p.fs_filenames_dirinfo in
    let cur = p.fs_current_directory_ptr in
    let c = skip_name m table (scan_for 456 m table cur 0) in
    let c' = skip_name m table (scan_for 456 m table cur c) in
    if not (differs m cur p.root)
    then some (prompted m)
    else if leb 456 c
    then some (refused m)
    else if not (differs m (table + c) p.percent)
    then some (silent m)
    else if leb 456 c' || differs m (table + c') p.percent
    then some (refused m)
    else parent_entry p m c'
      >>= (λ (found : Bool × ℕ). some (if found.0 then leave_directory p m found.1 else refused m))
