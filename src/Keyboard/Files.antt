-- ===== src/Keyboard/Files.antt =====
-- The search of `keyboard_handler` in kernel/device/kb.c for a file with the name that was typed,
-- and the opening of that file. The table of names has ten bytes for each entry.
pub mod Search
use john_os.Common.{
  ℕ, zero, suc, ◌+◌, ◌-◌, ◌*◌, ◌/◌, ◌%◌, ◌^◌, ◌≤◌, ◌<◌, ◌≡◌, refl, sym, ap, ◌∙◌, fun_ext, ◌≢◌, ◌⊎◌,
  inl, inr, Bool, true, false, ◌&&◌, ◌||◌, not, Option, none, some, List, [], ◌∷◌, ◌++◌, arith, u8,
  u16, u32, not32, ◌<<<◌, ◌>>>◌, ltb, leb, ◌==◌, if◌then◌else◌, ==_refl, Bool-cases, eq→==, ==→eq,
  ==_iff, bit_and, bit_or, bit_xor, min, max, ◌↔◌, ◌>>=◌,
}
use john_os.Common.Store.{Store, write}
use john_os.Text.{strlength, str_eql}
use john_os.Keyboard.{Keyboard}

-- The globals of kernel/fs/fat16.c that the search uses: pointers into memory, and the two arrays
-- that go with the names.
pub record FileTable : Type 0 where
  pub fs_current_directory_ptr : ℕ
  pub fs_filenames : ℕ
  pub fs_filelocation_cluster : Store
  pub fs_filelength : Store

-- `strEql` as a test.
pub same_text : Store → (a b : ℕ) → Bool
same_text m a b = not (str_eql m a b == 0)

-- The address of an entry.
abbrev pub name_at : FileTable → ℕ → ℕ
name_at t c = u32 (t.fs_filenames + u32 (c * 10))

-- `while(!is_directory(counter2) && (counter2 < 455)) counter2++;` with `rounds` rounds allowed.
pub directory_loop : ℕ → (is_directory : ℕ → Bool) → (counter2 : ℕ) → ℕ
directory_loop zero is_directory c = c
directory_loop (suc rounds) is_directory c =
    let rest = directory_loop rounds is_directory (c + 1) in
    if not (is_directory c) && ltb c 455 then rest else c

pub find_directory : Store → FileTable → ℕ
unfolding directory_loop same_text
find_directory m t =
    directory_loop 456 (λ c. same_text m t.fs_current_directory_ptr (name_at t c)) 0

-- `for(; fs_q < fs_p; fs_q++)` with `rounds` rounds to go: small letters become capitals.
capitals : ℕ → Store → (p : ℕ) → Store
capitals zero m p = m
capitals (suc rounds) m p =
    let c = m p in
    let m' = if ltb 0x60 c && ltb c 0x7b then write m p (c - 0x20) else m in
    capitals rounds m' (p + 1)

-- The second buffer in capitals, with its terminator.
pub upper_line : Store → (ch2 : ℕ) → Store
unfolding capitals
upper_line m ch2 = let fs_p = strlength m ch2 in write (capitals fs_p m ch2) (ch2 + fs_p) 0

-- The second loop: the counter and `check_root`.
pub file_loop : ℕ → (is_end is_name : ℕ → Bool) → (counter2 check_root : ℕ) → ℕ × ℕ
file_loop zero is_end is_name c found = (c, found)
file_loop (suc rounds) is_end is_name c found =
    let found' = if is_name (c + 1) then 1 else found in
    let rest = file_loop rounds is_end is_name (c + 1) found' in
    if not (is_end c) && (ltb c 409 && (found == 0 && not (is_name c))) then rest else (c, found)

-- `eod` is the address of the literal of that name.
pub find_file : Store → FileTable → (eod ch2 : ℕ) → (counter2 : ℕ) → ℕ × ℕ
unfolding file_loop same_text
find_file m t eod ch2 c =
    file_loop 410 (λ i. same_text m (name_at t i) eod) (λ i. same_text m (name_at t i) ch2) c 0

-- The file at entry `c`, where `read_fat16_file` is what reads it. Only a text file is opened, and
-- only then `kb_i` is set back.
pub open_file :
    (read_fat16_file : Store → (cluster length : ℕ) → Store)
    → Keyboard
    → FileTable
    → (c : ℕ) → Keyboard
open_file read_fat16_file k t c =
    let mark = name_at t c + 8 in
    if not (k.ram mark == b't')
    then k
    else (let opened =
          read_fat16_file (write k.ram mark 0) (t.fs_filelocation_cluster c) (t.fs_filelength c) in
        record k { ram = write opened mark b't'; kb_i = 0 })
