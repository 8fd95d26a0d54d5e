-- ===== src/Keyboard/Handler.antt =====
-- `keyboard_handler` of kernel/device/kb.c as a whole: a page for each key, the editor, and for a
-- finished line the search for a file and the commands.
pub mod Finish
use john_os.Common.{
  ℕ, zero, suc, ◌+◌, ◌-◌, ◌*◌, ◌/◌, ◌%◌, ◌^◌, ◌≤◌, ◌<◌, ◌≡◌, refl, sym, ap, ◌∙◌, fun_ext, ◌≢◌, ◌⊎◌,
  inl, inr, Bool, true, false, ◌&&◌, ◌||◌, not, Option, none, some, List, [], ◌∷◌, ◌++◌, arith, u8,
  u16, u32, not32, ◌<<<◌, ◌>>>◌, ltb, leb, ◌==◌, if◌then◌else◌, ==_refl, Bool-cases, eq→==, ==→eq,
  ==_iff, bit_and, bit_or, bit_xor, min, max, ◌↔◌, ◌>>=◌,
}
use Prim.Native.String.{String}
use john_os.Common.Store.{Store}
use john_os.MemFill.{zero_usbms_mem_7}
use john_os.PageMap.{Pages, kmem_4k_allocate}
use john_os.Text.{str_eql2}
use john_os.Keyboard.{Keyboard, Echo, press}
use john_os.Keyboard.Files.{FileTable, same_text, find_directory, upper_line, find_file, open_file}
use john_os.Keyboard.Commands.{
  Command, Call, print_names, prompt, command, calls, list_directory, directory_back,
  directory_root, change_directory,
}
use john_os.Keyboard.Directories.{Places, Reply, refused, prompted, silent, cd_root, cd_to}
use john_os.Keyboard.Directories.Scan.{list_names, cd_back}

-- `kb_temp_dir = kmem_4k_allocate(); zero_usbms_mem_7(kb_temp_dir);`, which keeps the page that it
-- had before.
temp_page : Pages → Keyboard → Pages × Keyboard × ℕ
temp_page s k =
    let (s1, page) = kmem_4k_allocate (record s { ram = k.ram }) in
    (s1, record k { ram = zero_usbms_mem_7 s1.ram page }, page)

answer : Keyboard → Reply → Keyboard × List Call
answer k (refused m) = (record k { ram = m; kb_i = 0 }, [])
answer k (prompted m) = (record k { ram = m; kb_i = 0 }, prompt ∷ [])
answer k (silent m) = (record k { ram = m; kb_i = 0 }, [])

-- "ls" prints the names that were found.
listed : Keyboard → Option (List ℕ × List (ℕ × Bool)) → Option (Keyboard × List Call)
unfolding answer
listed k none = some (answer k (refused k.ram))
listed k (some (directories, files)) =
    some (record k { kb_i = 0 }, print_names directories files ∷ prompt ∷ [])

left : Keyboard → Option Reply → Option (Keyboard × List Call)
unfolding answer
left k none = none
left k (some r) = some (answer k r)

-- The branch of a command; `counter3` is the entry of the current directory in the table of files.
run : Places → FileTable → (counter3 : ℕ) → Keyboard → Command → Option (Keyboard × List Call)
unfolding listed left
run p t counter3 k list_directory = listed k (list_names p t k.ram counter3)
run p t counter3 k directory_back = left k (cd_back p k.ram)
run p t counter3 k directory_root = some (answer k (cd_root p k.ram))
run p t counter3 k change_directory = some (answer k (cd_to p k.ram))
run p t counter3 k c = some (record k { kb_i = 0 }, calls c)

-- What the handler is given besides its state: the reading of a file, the addresses of the
-- literals, and the tables.
pub record Setting : Type 0 where
  pub read_fat16_file : Store → (cluster length : ℕ) → Store
  pub literal : String → ℕ
  pub places : Places
  pub files : FileTable

-- The part for `reading == 0`.
pub finish_line : Setting → (kb_temp_dir : ℕ) → Keyboard → Option (Keyboard × List Call)
unfolding run
finish_line e kb_temp_dir k0 =
    let counter3 = find_directory k0.ram e.files in
    let k = record k0 { ram = upper_line k0.ram k0.buffstr2 } in
    let (at, check_root) = find_file k.ram e.files e.places.eod k.buffstr2 counter3 in
    let is = λ (text : String). same_text k.ram k.buffstr (e.literal text) in
    let begins = λ (text : String). not (str_eql2 k.ram k.buffstr (e.literal text) == 0) in
    let places = record e.places { ch = k.buffstr; kb_temp_dir = kb_temp_dir } in
    if check_root == 1
    then some (open_file e.read_fat16_file k e.files at, prompt ∷ [])
    else run places e.files counter3 k (command is begins)

-- `none` is a search of "cd b" that leaves the table of directories.
pub keyboard_handler :
    Setting → Pages → Keyboard → (scan_code : ℕ) → Option (Pages × Keyboard × List Echo × List Call)
unfolding temp_page finish_line
keyboard_handler e s k scan_code =
    let (s1, k1, page) = temp_page s k in
    let (k2, echoes) = press k1 scan_code in
    let (s2, k3, page2) = temp_page s1 k2 in
    if k2.reading == 0
    then (finish_line e page2 k3
        >>= (λ (r : Keyboard × List Call). some (record s2 { ram = r.0.ram }, r.0, echoes, r.1)))
    else some (record s1 { ram = k2.ram }, k2, echoes, [])
