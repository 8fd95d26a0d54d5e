-- ===== src/Keyboard/Tests.antt =====
-- The keyboard with the line "ls", and its theorems at such inputs.
use john_os.Common.{
  ℕ, zero, suc, ◌+◌, ◌*◌, ◌≤◌, ◌<◌, ◌≡◌, refl, ◌≢◌, ◌⊎◌, inl, true, false, some, List, [], ◌∷◌,
  arith, ◌==◌, if◌then◌else◌, ◌↔◌,
}
use john_os.Common.Store.{Store}
use john_os.PageMap.{Pages, check_bit}
use john_os.PageMap.Bits.{check_bit-empty}
use john_os.Keyboard.{Keyboard, Echo, entry, press}
use john_os.Keyboard.Line.{length, edits, presses, Shows, Holds, presses-Shows, enter-Shows}
use john_os.Keyboard.Files.{FileTable, same_text, name_at, find_file}
use john_os.Keyboard.Files.Search.{Outcome, find_file-Outcome}
use john_os.Keyboard.Commands.{prompt}
use john_os.Keyboard.Directories.{Places, differs, extend_prompt}
use john_os.Keyboard.Directories.Scan.{scan_for, cut_prompt}
use john_os.Keyboard.Directories.Scan.Ends.{scan_for_lem}
use john_os.Keyboard.Directories.Scan.Cut.{IsPrompt, cut_prompt-extend_prompt}
use john_os.Keyboard.Handler.{Setting, finish_line, keyboard_handler}
use john_os.Keyboard.Handler.Finish.{
  Reset, names_file, names_text, finish_line-Reset, keyboard_handler-page,
}
use john_os.Keyboard.Addresses.{Entry, typed_number}
use john_os.Keyboard.Addresses.Digits.{Cleared, typed_number-two}

abbrev start : Keyboard
start = record {
  ram = λ a. 0;
  buffstr = 0x1000;
  buffstr2 = 0x2000;
  kb_i = 0;
  input = 0;
  reading = 1;
}

start-Shows : Shows [] start
unfolding length Holds
start-Shows = record {
  count = refl;
  bounded = omega arith;
  apart = inl (omega arith);
  first = refl;
  second = refl;
}

-- The keys for "l" and "s".
abbrev keys : List ℕ
keys = 38 ∷ 31 ∷ []

keys_no_enter : (i : ℕ) → entry keys i ≢ 28
unfolding entry
keys_no_enter zero = ground arith
keys_no_enter (suc zero) = ground arith
keys_no_enter (suc (suc i)) = ground arith

presses-Shows_example : Shows (edits [] keys) (presses start keys)
presses-Shows_example = presses-Shows keys [] start keys_no_enter start-Shows

enter-Shows_example :
    let k' = (press start 28).0 in
    Shows [] k'
    × (k'.ram (k'.buffstr + length []) ≡ 0)
    × (k'.ram (k'.buffstr2 + length []) ≡ 0)
    × (k'.reading ≡ 0)
enter-Shows_example = enter-Shows [] start start-Shows

abbrev table : FileTable
table = record {
  fs_current_directory_ptr = 0x3000;
  fs_filenames = 0x4000;
  fs_filelocation_cluster = λ i. 0;
  fs_filelength = λ i. 0;
}

find_file-Outcome_example :
    let (at, found) = find_file (λ a. 0) table 0x5000 0x2000 0 in
    Outcome
      (λ i. same_text (λ a. 0) (name_at table i) 0x5000)
      (λ i. same_text (λ a. 0) (name_at table i) 0x2000)
      0
      at
      found
find_file-Outcome_example = find_file-Outcome (λ a. 0) table 0x5000 0x2000 0

abbrev places : Places
places = record {
  fs_filenames_dirinfo = 0x6000;
  fs_current_directory_ptr = 0x3000;
  csptr = 0x7000;
  kb_temp_dir = 0x8000;
  ch = 0x1000;
  eod = 0x5000;
  percent = 0x5010;
  root = 0x5020;
}

abbrev setting : Setting
setting = record {
  read_fat16_file = λ m cluster length. m;
  literal = λ text. 0x5030;
  places = places;
  files = table;
}

finish_line-Reset_example :
    (names_file setting start ≡ false → Reset (finish_line setting 0x8000 start))
    × (names_file setting start ≡ true
        → (k' : Keyboard) × (finish_line setting 0x8000 start ≡ some (k', prompt ∷ []))
          × (k'.kb_i ≡ (if names_text setting start then 0 else start.kb_i)))
finish_line-Reset_example = finish_line-Reset setting 0x8000 start

abbrev no_pages : Pages
no_pages = record {
  os_memmap = λ i. 0;
  ram = λ a. 0;
  mem_block = λ i. 0;
  mem_bt_temp = 0;
  mbt_freeflag = 0;
}

keyboard_handler-page_example :
    (s' : Pages) × (k' : Keyboard) × (echoes : List Echo) × (keyboard_handler setting no_pages start
        38
      ≡ some (s', k', echoes, []))
    × (q : ℕ) × (check_bit no_pages.os_memmap q ≡ 0)
    × ((b : ℕ) → check_bit s'.os_memmap b ≡ (if q == b then 1 else check_bit no_pages.os_memmap b))
keyboard_handler-page_example =
    keyboard_handler-page setting no_pages start 38 0 (ground arith) (omega arith)
      (check_bit-empty 0)

scan_for_lem_example :
    let c' = scan_for 456 (λ a. 0) 0x6000 0x3000 0 in
    (differs (λ a. 0) (0x6000 + c') 0x3000 ≡ false) ⊎ (456 ≤ c')
scan_for_lem_example = scan_for_lem 456 (λ a. 0) 0x6000 0x3000 0 (omega arith)

-- The prompt "$ ", and the directory "A".
abbrev prompt_memory : Store
prompt_memory a =
    if a == 0x7000 then b'$' else if a == 0x7001 then b' ' else if a == 0x3000 then b'A' else 0

prompt_memory-IsPrompt : IsPrompt places prompt_memory 2 1
prompt_memory-IsPrompt = record {
  prompt = record { letters = two_letters; ends = refl };
  two = omega arith;
  dollar = refl;
  blank = refl;
  name = record { letters = one_letter; ends = refl };
  length = (omega arith, omega arith);
  room = omega arith;
  apart = inl (omega arith);
  no_wrap = omega arith;
}
  where
    two_letters : (i : ℕ) → 0 ≤ i → i < 2 → prompt_memory (0x7000 + i) ≢ 0
    two_letters zero l h = ground arith
    two_letters (suc zero) l h = ground arith
    two_letters (suc (suc i)) l h = absurd (omega arith)

    one_letter : (i : ℕ) → 0 ≤ i → i < 1 → prompt_memory (0x3000 + i) ≢ 0
    one_letter zero l h = ground arith
    one_letter (suc i) l h = absurd (omega arith)

cut_prompt-extend_prompt_example :
    (m' : Store) × (cut_prompt places (extend_prompt 128 places prompt_memory) 1 ≡ some m')
    × ((i : ℕ) → i ≤ 2 → m' (places.csptr + i) ≡ prompt_memory (places.csptr + i))
cut_prompt-extend_prompt_example =
    cut_prompt-extend_prompt places prompt_memory 2 1 128 (omega arith) prompt_memory-IsPrompt

-- The digits 4 and 2.
abbrev forty_two : Entry
forty_two = record {
  ram = λ a. if a == 0x9000 then 4 else if a == 0x9001 then 2 else 0;
  shown = 0x2000;
  digits = 0x9000;
  kb_i = 2;
}

forty_two-Cleared : Cleared forty_two 2
unfolding Cleared
forty_two-Cleared i l h = ground arith

typed_number-two_example :
    (typed_number forty_two ≡ 10 * 4 + 2560 * 2)
    × ((typed_number forty_two ≡ 10 * 4 + 2) ↔ (◌≡◌ {A = ℕ} 2 0))
typed_number-two_example =
    typed_number-two forty_two 4 2 refl refl refl (omega arith) (omega arith) forty_two-Cleared
