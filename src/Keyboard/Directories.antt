-- ===== src/Keyboard/Directories.antt =====
-- The commands of kernel/device/kb.c that change or list the directory. The directories stand in
-- a table of names with nine bytes each, from `fs_filenames_dirinfo` on: a directory, the name `%`,
-- its children, and `eod`. All strings are pointers into one memory.
pub mod Scan
use john_os.Common.{
  ℕ, zero, suc, ◌+◌, ◌-◌, ◌*◌, ◌/◌, ◌%◌, ◌^◌, ◌≤◌, ◌<◌, ◌≡◌, refl, sym, ap, ◌∙◌, fun_ext, ◌≢◌, ◌⊎◌,
  inl, inr, Bool, true, false, ◌&&◌, ◌||◌, not, Option, none, some, List, [], ◌∷◌, ◌++◌, arith, u8,
  u16, u32, not32, ◌<<<◌, ◌>>>◌, ltb, leb, ◌==◌, if◌then◌else◌, ==_refl, Bool-cases, eq→==, ==→eq,
  ==_iff, bit_and, bit_or, bit_xor, min, max, ◌↔◌, ◌>>=◌,
}
use john_os.Common.Store.{Store, write}
use john_os.MemFill.{zero_usbms_mem_7}
use john_os.Text.{str_eql, strlength, stringlength}

-- The pointers, and the addresses of the literals "eod", "%" and "ROOT".
pub record Places : Type 0 where
  pub fs_filenames_dirinfo : ℕ
  pub fs_current_directory_ptr : ℕ
  pub csptr : ℕ
  pub kb_temp_dir : ℕ
  pub ch : ℕ
  pub eod : ℕ
  pub percent : ℕ
  pub root : ℕ

-- What a command leaves in memory: it is refused as invalid, goes on to print the prompt, or prints
-- nothing.
pub data Reply : Type 0 where
  refused : Store → Reply
  prompted : Store → Reply
  silent : Store → Reply

pub differs : Store → (a b : ℕ) → Bool
differs m a b = str_eql m a b == 0

-- The bytes of a string, one after the other.
pub store_text : Store → (p : ℕ) → List ℕ → Store
store_text m p [] = m
store_text m p (c ∷ cs) = store_text (write m p c) (u32 (p + 1)) cs

-- "cd r" and "cd root".
pub cd_root : Places → Store → Reply
unfolding store_text
cd_root p m =
    let m1 =
      store_text m p.fs_current_directory_ptr
        (b'R' ∷ b'O' ∷ b'O' ∷ b'T' ∷ 0 ∷ 0 ∷ 0 ∷ 0 ∷ 0 ∷ []) in
    prompted (store_text m1 p.csptr (b'~' ∷ b'R' ∷ b'o' ∷ b'o' ∷ b't' ∷ b'$' ∷ b' ' ∷ 0 ∷ []))

-- `while(!strEql(dirinfo + (fs_c*9), text) && (fs_c < 456)) fs_c++;` with `rounds` rounds allowed.
pub find_name : ℕ → (is_name : ℕ → Bool) → (fs_c : ℕ) → ℕ
find_name zero is_name c = c
find_name (suc rounds) is_name c =
    let rest = find_name rounds is_name (c + 1) in if not (is_name c) && ltb c 456 then rest else c

is_current : Places → Store → ℕ → Bool
unfolding differs
is_current p m c = not (differs m (p.fs_filenames_dirinfo + c * 9) p.fs_current_directory_ptr)

pub is_mark : Places → Store → (mark c : ℕ) → Bool
unfolding differs
is_mark p m mark c = not (differs m (p.fs_filenames_dirinfo + c * 9) mark)

-- `for(;kb_temp2 < 8; kb_temp2++)` with `rounds` rounds to go: bytes from `from` to `to`.
copy_bytes : ℕ → Store → (to from : ℕ) → Store
copy_bytes zero m to from = m
copy_bytes (suc rounds) m to from = copy_bytes rounds (write m to (m from)) (to + 1) (from + 1)

-- The names from `fs_c` to the next `eod`, copied to the temporary table: memory, `fs_c`, and
-- `kb_temp1`.
pub copy_names : ℕ → Places → Store → (fs_c kb_temp1 : ℕ) → Store × ℕ × ℕ
unfolding copy_bytes is_mark
copy_names zero p m c t = (m, c, t)
copy_names (suc rounds) p m c t =
    let m' = copy_bytes 8 m (p.kb_temp_dir + t * 9) (p.fs_filenames_dirinfo + c * 9) in
    let rest = copy_names rounds p m' (c + 1) (t + 1) in
    if not (is_mark p m p.eod c) && ltb c 456 then rest else (m, c, t)

-- The end mark behind the copied names.
end_names : Places → Store → (kb_temp1 : ℕ) → Store
unfolding store_text
end_names p m t =
    if ltb (t * 9) 4090
    then store_text m (p.kb_temp_dir + t * 9) (b'e' ∷ b'o' ∷ b'd' ∷ 0 ∷ [])
    else m

-- The typed name in capitals, at `ch + 3 + fs_b`; the line has at most 127 characters.
upper_name : ℕ → Store → (at : ℕ) → Store
upper_name zero m at = write m at 0
upper_name (suc rounds) m at =
    let c = m at in
    let m' = if ltb 0x60 c && ltb c 0x7b then write m at (c - 0x20) else m in
    let rest = upper_name rounds m' (at + 1) in if not (c == 0) then rest else write m at 0

-- `fs_b` behind the search of the temporary table; for a child of the root it ends at 456.
pub find_typed : ℕ → Places → Store → (child : Bool) (fs_b : ℕ) → ℕ
unfolding differs
find_typed zero p m child b = b
find_typed (suc rounds) p m child b =
    let rest = find_typed rounds p m child (b + 9) in
    if differs m (p.ch + 3) (p.kb_temp_dir + b)
      && (differs m (p.kb_temp_dir + b) p.eod && (child || ltb b 456))
    then rest
    else b

-- `while(from[fs_a] && (fs_a < 8)) to[fs_a] = from[fs_a];`, with a terminator behind it.
copy_name : ℕ → Store → (to from : ℕ) → Store
copy_name zero m to from = write m to 0
copy_name (suc rounds) m to from =
    let rest = copy_name rounds (write m to (m from)) (to + 1) (from + 1) in
    if m from == 0 then write m to 0 else rest

-- The length of the prompt, at most `bound`.
pub prompt_end : ℕ → Store → (csptr bound fs_b : ℕ) → ℕ
prompt_end zero m csptr bound b = b
prompt_end (suc rounds) m csptr bound b =
    let rest = prompt_end rounds m csptr bound (b + 1) in
    if not (m (csptr + b) == 0) && ltb b bound then rest else b

-- The character at index `fs_a` of a name, as the prompt shows it.
pub shown : (c fs_a : ℕ) → ℕ
shown c a = if ltb 0x40 c && (ltb c 0x5b && not (a == 0)) then c + 0x20 else c

-- The name of the directory behind the prompt, in small letters but for the first one: memory and
-- `fs_b`.
pub add_name : ℕ → Places → Store → (fs_b fs_a : ℕ) → Store × ℕ
unfolding shown
add_name zero p m b a = (m, b)
add_name (suc rounds) p m b a =
    let c = m (p.fs_current_directory_ptr + a) in
    let rest = add_name rounds p (write m (u32 (p.csptr + b)) (shown c a)) (u32 (b + 1)) (a + 1) in
    if not (c == 0) && (ltb a 9 && ltb b 128) then rest else (m, b)

-- The prompt with `/` and the name in place of its `$`.
pub extend_prompt : (bound : ℕ) → Places → Store → Store
extend_prompt bound p m =
    let b = u32 (prompt_end 129 m p.csptr bound 0 + 2 ^ 32 - 2) in
    let (m2, b2) = add_name 9 p (write m (u32 (p.csptr + b)) b'/') (u32 (b + 1)) 0 in
    if ltb b2 125 then store_text m2 (p.csptr + b2) (b'$' ∷ b' ' ∷ 0 ∷ []) else m2

-- The part that both branches of "cd …" share: the names from `fs_c` on are copied, and the typed
-- one is looked for among them. `child` is the branch for a directory that is not the root.
pub enter_directory : (child : Bool) → Places → Store → (fs_c : ℕ) → Reply
unfolding copy_names end_names upper_name find_typed copy_name extend_prompt differs
enter_directory child p m fs_c =
    let (m1, c, t) = copy_names 457 p (zero_usbms_mem_7 m p.kb_temp_dir) fs_c 0 in
    let kb_temp2 = if t == 0 then 0 else 8 in
    let m2 = end_names p (if child then write m1 (p.kb_temp_dir + t * 9 + kb_temp2) 0 else m1) t in
    let m3 = upper_name 125 m2 (p.ch + 3) in
    let found = p.kb_temp_dir + find_typed 457 p m3 child 0 in
    let prompt_bound = if child then 125 else 128 in
    if leb 456 c
    then refused m2
    else if not child && m2 (p.ch + 3) == 0
    then refused m2
    else if differs m3 (p.ch + 3) found
    then refused m3
    else prompted (extend_prompt prompt_bound p (copy_name 8 m3 p.fs_current_directory_ptr found))

-- The length of the line is 3.
has_no_name : Store → ℕ → Bool
has_no_name m ch = elim (stringlength 4 m ch 0) [ none ↦ false | some n ↦ n == 3 ]

-- "cd …". The first entry with the name of the current directory is the root's, with the mark
-- behind it, or it stands among its siblings, and the second one has the mark. Behind the test that
-- executes `hlt` the code goes on to the prompt.
pub cd_to : Places → Store → Reply
unfolding has_no_name find_name is_current is_mark enter_directory
cd_to p m =
    let c1 = find_name 457 (is_current p m) 0 in
    let c2 = find_name 457 (is_current p m) (c1 + 1) in
    if has_no_name m p.ch || leb 456 (c1 + 1)
    then refused m
    else if not (is_mark p m p.percent (c1 + 1))
    then (if leb 456 (c2 + 1) || not (is_mark p m p.percent (c2 + 1)) || leb 456 (c2 + 2)
        then refused m
        else enter_directory true p m (c2 + 2))
    else if c1 + 1 == 1
    then (if is_mark p m p.eod 2 then refused m else enter_directory false p m 2)
    else prompted m
