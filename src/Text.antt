-- ===== src/Text.antt =====
-- kernel/string.c: lengths and comparisons of C strings. A string is a pointer into a memory of
-- bytes; `int8_t` is `char`, and its values only matter here as bit patterns.
pub mod Length
pub mod Equal
pub mod Upper
mod Tests
use john_os.Common.{
  ℕ, zero, suc, ◌+◌, ◌-◌, ◌*◌, ◌/◌, ◌%◌, ◌^◌, ◌≤◌, ◌<◌, ◌≡◌, refl, sym, ap, ◌∙◌, fun_ext, ◌≢◌, ◌⊎◌,
  inl, inr, Bool, true, false, ◌&&◌, ◌||◌, not, Option, none, some, List, [], ◌∷◌, ◌++◌, arith, u8,
  u16, u32, not32, ◌<<<◌, ◌>>>◌, ltb, leb, ◌==◌, if◌then◌else◌, ==_refl, Bool-cases, eq→==, ==→eq,
  ==_iff, bit_and, bit_or, bit_xor, min, max, ◌↔◌,
}
use john_os.Common.Store.{Store, write}

-- `while((ch[e++]) && (e < 128)); return --e;` at `e`, with `rounds` rounds allowed. A round that
-- goes on leaves `e` at most 127, so 127 rounds from 1 on are enough.
strlength_loop : ℕ → Store → (ch e : ℕ) → ℕ
strlength_loop zero m ch e = e
strlength_loop (suc rounds) m ch e =
    let rest = strlength_loop rounds m ch (e + 1) in
    if not (m (ch + e) == 0) && ltb (e + 1) 128 then rest else e

pub strlength : Store → ℕ → ℕ
strlength m ch = strlength_loop 127 m ch 1

-- The same loop, written with `!= '\0'`.
pub strlength3 : Store → ℕ → ℕ
strlength3 m ch = strlength_loop 127 m ch 1

-- `while(teststring[i]) i += 1;` has no bound: `none` where no terminator stands among the first
-- `fuel` bytes.
pub stringlength : ℕ → Store → (teststring i : ℕ) → Option ℕ
stringlength zero m s i = none
stringlength (suc fuel) m s i =
    let rest = stringlength fuel m s (i + 1) in if m (s + i) == 0 then some i else rest

-- `for(;f<=size;f++)` of `str_eql`, with `rounds` rounds to go: 0 at the first difference.
equal_loop : ℕ → Store → (ch1 ch2 f : ℕ) → ℕ
equal_loop zero m ch1 ch2 f = 1
equal_loop (suc rounds) m ch1 ch2 f =
    let rest = equal_loop rounds m ch1 ch2 (f + 1) in if m (ch1 + f) == m (ch2 + f) then rest else 0

-- Both sizes are kept in a byte.
pub str_eql : Store → (ch1 ch2 : ℕ) → ℕ
str_eql m ch1 ch2 =
    let size = u8 (strlength m ch1) in
    let size2 = u8 (strlength m ch2) in
    if not (size == size2) then 0 else equal_loop (size + 1) m ch1 ch2 0

-- Three bytes, with no break.
pub str_eql2 : Store → (ch1 ch2 : ℕ) → ℕ
str_eql2 m ch1 ch2 =
    let r0 = if m ch1 == m ch2 then 1 else 0 in
    let r1 = if m (ch1 + 1) == m (ch2 + 1) then r0 else 0 in
    if m (ch1 + 2) == m (ch2 + 2) then r1 else 0

-- The loop variables of `str_eql3`.
pub record Upcase : Type 0 where
  pub temp3 : Store
  pub result : ℕ

-- `temp1` of `str_eql3`: each character less 0x20, and the terminator as it is.
abbrev pub upcase : ℕ → ℕ
upcase c = if c == 0 then c else u8 (c + 256 - 0x20)

upcase_loop : ℕ → Store → (ch1 ch2 f : ℕ) → Upcase → Upcase
upcase_loop zero m ch1 ch2 f u = u
upcase_loop (suc rounds) m ch1 ch2 f u =
    let temp1 = upcase (m (ch1 + f)) in
    upcase_loop rounds m ch1 ch2 (f + 1) (record {
      temp3 = write u.temp3 f temp1;
      result = if temp1 == m (ch2 + f) then u.result else 0;
    })

-- `for(...) get_file[i] = temp3[i]` for `rounds` entries from `i` on.
copy_loop : ℕ → Store → Store → ℕ → Store
copy_loop zero from to i = to
copy_loop (suc rounds) from to i = copy_loop rounds from (write to i (from i)) (i + 1)

-- `for(;size < 8; size++) get_file[size] = 0x20;` with `8 - size` rounds to go.
pad_loop : ℕ → Store → ℕ → Store
pad_loop zero to i = to
pad_loop (suc rounds) to i = pad_loop rounds (write to i 0x20) (i + 1)

-- What follows in `str_eql3` when the strings match: the name of the file to get. The result is
-- `get_file` with the return value.
file_name : (size result : ℕ) → Store → Store → Store × ℕ
file_name size result temp3 get_file =
    let count = if ltb size 8 then size + 1 else 0 in
    let g = write (copy_loop count temp3 get_file 0) count 0 in
    if ltb 11 size then (g, 0) else (
      write (write (write (write (pad_loop (8 - size) g size) 8 b'T') 9 b'X') 10 b'T') 11 0,
      result,
    )

-- The 12 bytes of `temp3` start as zeros; the model's array goes on behind them.
pub str_eql3 : Store → (get_file : Store) → (ch1 ch2 : ℕ) → Store × ℕ
str_eql3 m get_file ch1 ch2 =
    let size = strlength m ch1 in
    if not (size == strlength m ch2)
    then (get_file, 0)
    else (let u = upcase_loop (size + 1) m ch1 ch2 0 (record { temp3 = λ i. 0; result = 1 }) in
        if u.result == 1 then file_name size u.result u.temp3 get_file else (get_file, u.result))
