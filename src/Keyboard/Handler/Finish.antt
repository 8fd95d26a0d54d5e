-- ===== src/Keyboard/Handler/Finish.antt =====
-- What `keyboard_handler` of kernel/device/kb.c leaves behind: the count of characters, and pages.
use john_os.Common.{
  ℕ, zero, ◌+◌, ◌<◌, ◌≡◌, refl, ◌≢◌, Bool, true, false, Option, none, some, List, [], ◌∷◌, ◌==◌,
  if◌then◌else◌,
}
use john_os.PageMap.{Pages, check_bit, kmem_4k_allocate}
use john_os.PageMap.Allocate.{kmem_4k_allocate-Allocated}
use john_os.Keyboard.{Keyboard, Echo, press}
use john_os.Keyboard.Line.{press-reading}
use john_os.Keyboard.Files.{FileTable, name_at, find_directory, upper_line, find_file, open_file}
use john_os.Keyboard.Files.Search.{open_file-kb_i}
use john_os.Keyboard.Commands.{
  Command, Call, prompt, list_directory, directory_back, directory_root, change_directory,
}
use john_os.Keyboard.Directories.{Places, Reply, refused, prompted, silent, cd_root, cd_to}
use john_os.Keyboard.Directories.Scan.{list_names, cd_back}
use john_os.Keyboard.Handler.{
  Setting, prompt, listed, left, temp_page, answer, run, finish_line, keyboard_handler,
}

-- A result has `kb_i` 0; nothing is said of a search that leaves the table.
pub Reset : Option (Keyboard × List Call) → Type 0
Reset none = zero ≡ zero
Reset (some (k, calls)) = k.kb_i ≡ 0

answer-Reset : (k : Keyboard) (r : Reply) → Reset (some (answer k r))
unfolding answer Reset
answer-Reset k (refused m) = refl
answer-Reset k (prompted m) = refl
answer-Reset k (silent m) = refl

listed-Reset : (k : Keyboard) (o : Option (List ℕ × List (ℕ × Bool))) → Reset (listed k o)
unfolding listed Reset
listed-Reset k none = refl
listed-Reset k (some (directories, files)) = refl

left-Reset : (k : Keyboard) (o : Option Reply) → Reset (left k o)
unfolding left Reset
left-Reset k none = refl
left-Reset k (some r) = answer-Reset k r

-- Every command starts a new line.
run-Reset :
    (p : Places) (t : FileTable) (counter3 : ℕ) (k : Keyboard) (c : Command)
    → Reset (run p t counter3 k c)
unfolding run Reset
run-Reset p t counter3 k list_directory = listed-Reset k (list_names p t k.ram counter3)
run-Reset p t counter3 k directory_back = left-Reset k (cd_back p k.ram)
run-Reset p t counter3 k directory_root = answer-Reset k (cd_root p k.ram)
run-Reset p t counter3 k change_directory = answer-Reset k (cd_to p k.ram)
run-Reset p t counter3 k c = refl

-- Where the search for the typed name ends, in the line's memory with the capitals.
abbrev pub found_file : Setting → Keyboard → ℕ × ℕ
found_file e k =
    find_file (upper_line k.ram k.buffstr2) e.files e.places.eod k.buffstr2
      (find_directory k.ram e.files)

-- Whether the line names a file, and whether that is a text file.
abbrev pub names_file : Setting → Keyboard → Bool
names_file e k = (found_file e k).1 == 1

abbrev pub names_text : Setting → Keyboard → Bool
names_text e k = upper_line k.ram k.buffstr2 (name_at e.files (found_file e k).0 + 8) == b't'

-- A finished line starts a new one, `kb_i` being 0: after a command, as well as after a text file
-- that was opened. After the name of another file the old line stays: `kb_i` is as it was.
pub finish_line-Reset :
    (e : Setting) (kb_temp_dir : ℕ) (k : Keyboard)
    → (names_file e k ≡ false → Reset (finish_line e kb_temp_dir k))
      × (names_file e k ≡ true
          → (k' : Keyboard) × (finish_line e kb_temp_dir k ≡ some (k', prompt ∷ []))
            × (k'.kb_i ≡ (if names_text e k then 0 else k.kb_i)))
unfolding finish_line
finish_line-Reset e kb_temp_dir k = (
  λ n. rw n (run-Reset _ _ _ (record k { ram = upper_line k.ram k.buffstr2 }) _),
  λ y. (
    open_file e.read_fat16_file (record k { ram = upper_line k.ram k.buffstr2 }) e.files
        (found_file e k).0,
    rw y refl,
    open_file-kb_i e.read_fat16_file _ e.files (found_file e k).0,
  ),
)

-- Every key but Enter takes a page for good: one that was free is marked, and none is given back.
pub keyboard_handler-page :
    (e : Setting) (s : Pages) (k : Keyboard) (scan_code p : ℕ)
    → scan_code ≢ 28
    → p < 60800
    → check_bit s.os_memmap p ≡ 0
    → (s' : Pages) × (k' : Keyboard) × (echoes : List Echo) × (keyboard_handler e s k scan_code
        ≡ some (s', k', echoes, []))
      × (q : ℕ) × (check_bit s.os_memmap q ≡ 0)
      × ((b : ℕ) → check_bit s'.os_memmap b ≡ (if q == b then 1 else check_bit s.os_memmap b))
unfolding keyboard_handler temp_page
keyboard_handler-page e s k code p not_enter h z =
    let s0 = record s { ram = k.ram } in
    let (q, le, al) = kmem_4k_allocate-Allocated s0 p h z in
    let k1 = (temp_page s k).1 in
    let one : ((press k1 code).0.reading == 0) ≡ false =
      rw (press-reading k1 code not_enter) refl in
    (
      record (kmem_4k_allocate s0).0 { ram = (press k1 code).0.ram },
      (press k1 code).0,
      (press k1 code).1,
      rw one refl,
      q,
      al.was_free,
      al.marked,
    )
