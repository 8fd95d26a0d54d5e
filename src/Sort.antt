-- ===== src/Sort.antt =====
-- `sort_array2` of kernel/util.c: insertion sort into the global `test_array`, an array of 16-bit
-- words that is here a function from indexes.
pub mod Insert
pub mod Sorted
mod Tests
use john_os.Common.{
  ℕ, zero, suc, ◌+◌, ◌-◌, ◌*◌, ◌/◌, ◌%◌, ◌^◌, ◌≤◌, ◌<◌, ◌≡◌, refl, sym, ap, ◌∙◌, fun_ext, ◌≢◌, ◌⊎◌,
  inl, inr, Bool, true, false, ◌&&◌, ◌||◌, not, Option, none, some, List, [], ◌∷◌, ◌++◌, arith, u8,
  u16, u32, not32, ◌<<<◌, ◌>>>◌, ltb, leb, ◌==◌, if◌then◌else◌, ==_refl, Bool-cases, eq→==, ==→eq,
  ==_iff, bit_and, bit_or, bit_xor, min, max, ◌↔◌, ◌>>=◌,
}
use john_os.Common.Store.{Store, write}

-- `*(temp_array_ptr + k) = *(temp_array_ptr + k - 1);` for `rounds` indexes from `k` down.
move_up : ℕ → Store → ℕ → Store
move_up zero t k = t
move_up (suc rounds) t k = move_up rounds (write t k (t (k - 1))) (k - 1)

-- The loop over `j`, from `j - 1` down: the array, `sort_flag` and `shift_var` behind it.
search_down : ℕ → Store → (x i shift_var : ℕ) → Store × ℕ × ℕ
search_down zero t x i shift = (t, 0, shift)
search_down (suc j) t x i shift =
    let rest = search_down j t x i (shift + 1) in
    if ltb (t j) x then (move_up (i - (j + 1)) t i, 1, shift + 1) else rest

-- The body of the loop over `i`, for the element `x` of the input.
pub sort_step : Store → (x i : ℕ) → Store
sort_step t x i =
    let found = search_down (i - 1) t x i 0 in
    if ltb (t (i - 1)) x
    then write t i (u16 x)
    else if found.1 == 0
    then write (move_up i found.0 i) 0 (u16 x)
    else if leb found.2 i
    then write found.0 (i - found.2) (u16 x)
    else found.0

sort_loop : ℕ → Store → (input : Store) → (i : ℕ) → Store
sort_loop zero t input i = t
sort_loop (suc rounds) t input i = sort_loop rounds (sort_step t (input i) i) input (i + 1)

zero_words : ℕ → Store → ℕ → Store
zero_words zero t i = t
zero_words (suc rounds) t i = zero_words rounds (write t i 0) (i + 1)

-- `test_array` behind the call.
pub sort_array2 : (test_array input : Store) → (sort_size : ℕ) → Store
sort_array2 t input n = sort_loop (n - 1) (write (zero_words n t 0) 0 (u16 (input 0))) input 1
