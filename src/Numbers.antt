-- ===== src/Numbers.antt =====
-- The functions of kernel/graphics/screen.c that print numbers, and `power_of` of kernel/util.c.
-- A printing function gives the characters that it hands to `printch`, in order.
pub mod Decimal
pub mod Hex
pub mod Binary
mod Tests
use john_os.Common.{
  ℕ, zero, suc, ◌+◌, ◌-◌, ◌*◌, ◌/◌, ◌%◌, ◌^◌, ◌≤◌, ◌<◌, ◌≡◌, refl, sym, ap, ◌∙◌, fun_ext, ◌≢◌, ◌⊎◌,
  inl, inr, Bool, true, false, ◌&&◌, ◌||◌, not, Option, none, some, List, [], ◌∷◌, ◌++◌, arith, u8,
  u16, u32, not32, ◌<<<◌, ◌>>>◌, ltb, leb, ◌==◌, if◌then◌else◌, ==_refl, Bool-cases, eq→==, ==→eq,
  ==_iff, bit_and, bit_or, bit_xor, min, max, ◌↔◌,
}
use john_os.Common.Store.{Store}
use mathlib.Core.List.{reverse}

-- `for (counter = 0; counter < arg2; counter++) result *= arg1;` on 32 bits.
power_loop : ℕ → (arg1 result : ℕ) → ℕ
power_loop zero b r = r
power_loop (suc rounds) b r = power_loop rounds b (u32 (r * b))

pub power_of : (arg1 arg2 : ℕ) → ℕ
power_of b e = power_loop e b 1

-- `chr[d]` of the decimal digits.
abbrev pub digit : ℕ → ℕ
digit d = b'0' + d

-- `do { chr2[integ] = chr[value%10]; integ++; } while ((value /= 10) > 0);`: what is stored, from
-- index 0 on, with `rounds` rounds allowed.
decimal_loop : ℕ → ℕ → List ℕ
decimal_loop zero value = []
decimal_loop (suc rounds) value =
    let rest = decimal_loop rounds (value / 10) in
    digit (value % 10) ∷ (if ltb 0 (value / 10) then rest else [])

-- `for (;integ > 0; integ--) printch(chr2[integ - 1], 0);`
pub printi : ℕ → List ℕ
printi value = reverse (decimal_loop 10 value)

pub printbyte : ℕ → List ℕ
printbyte value = reverse (decimal_loop 3 value)

-- What `printword` stores into `chr2`, an array of three bytes.
pub printword_stored : ℕ → List ℕ
printword_stored value = decimal_loop 5 value

pub printword : ℕ → List ℕ
unfolding printword_stored
printword value = reverse (printword_stored value)

-- A negative `int8_t` divides towards 0, so its remainder is not positive: at 0 the digit `0` is
-- stored and the loop ends, elsewhere `chr` is read in front of its start, which is `none`.
pub printbytechar : ℕ → Option (List ℕ)
unfolding printbyte
printbytechar value =
    if ltb value 128
    then some (printbyte value)
    else if (256 - value) % 10 == 0
    then some (b'0' ∷ [])
    else none

-- `hexbuffer[d]`.
abbrev pub hex_digit : ℕ → ℕ
hex_digit d = if ltb d 10 then b'0' + d else b'A' + (d - 10)

-- `while (value >= 1)`: what is stored, from index 0 on. `hextemp2 - value*16` is the remainder.
hex_loop : ℕ → ℕ → List ℕ
hex_loop zero value = []
hex_loop (suc rounds) value =
    let rest = hex_loop rounds (value / 16) in
    if leb 1 value then hex_digit (value - value / 16 * 16) ∷ rest else []

-- The value that the scratch variable `hextemp2` is left with: the last one that was not 0.
last_hextemp2 : ℕ → ℕ → ℕ → ℕ
last_hextemp2 zero value old = old
last_hextemp2 (suc rounds) value old =
    let rest = last_hextemp2 rounds (value / 16) value in if leb 1 value then rest else old

-- The characters, and `hextemp2` behind the call.
pub print_hex : (hextemp2 value : ℕ) → List ℕ × ℕ
print_hex hextemp2 value =
    let zeros = b'0' ∷ b'0' ∷ b'0' ∷ b'0' ∷ b'0' ∷ b'0' ∷ b'0' ∷ b'0' ∷ [] in
    (
      (b'0' ∷ b'x' ∷ []) ++ ((if value == 0 then zeros else []) ++ reverse (hex_loop 8 value)),
      last_hextemp2 8 value hextemp2,
    )

-- The buffer starts as `00`, so what the loop does not store stays `0`.
pub print_hex_byte : (hexbytetemp2 value : ℕ) → List ℕ × ℕ
print_hex_byte hexbytetemp2 value =
    let low = if leb 1 value then hex_digit (value - value / 16 * 16) else b'0' in
    let value' = value / 16 in
    let high = if leb 1 value' then hex_digit (value' - value' / 16 * 16) else b'0' in
    (high ∷ low ∷ [], last_hextemp2 2 value hexbytetemp2)

-- `while(c >= 0) { result += value[c]*power_of(16,c); c--; }`, from `c` rounds on.
hex_to_dec_loop : ℕ → Store → ℕ → ℕ
hex_to_dec_loop zero value result = result
hex_to_dec_loop (suc c) value result =
    hex_to_dec_loop c value (u32 (result + u32 (value c * power_of 16 c)))

pub hex_to_dec : Store → ℕ
unfolding hex_to_dec_loop power_of power_loop
hex_to_dec value = hex_to_dec_loop 8 value 0

-- The padding loop of `dec_to_bin`: `a` behind it, with `max` at 2 ^ k and `a` at 31 - k at the
-- start. It ends with `max` at 0 where the value is 0.
padding : ℕ → (value max a : ℕ) → ℕ
padding zero value max a = a
padding (suc rounds) value max a =
    let rest = padding rounds value (max / 2) (a + 1) in if ltb value max then rest else a

-- The second loop, from index `a` down: the bits of the value from the lowest on. The array is a
-- function; indexes that neither loop writes keep what they had.
bit_loop : ℕ → (value a : ℕ) → Store → Store
bit_loop zero value a t = t
bit_loop (suc rounds) value a t =
    let t' = λ (i : ℕ). if a == i then (if value % 2 == 0 then b'0' else b'1') else t i in
    let rest = bit_loop rounds (value / 2) (a - 1) t' in if ltb 0 value then rest else t

-- Index `i` of `temparray` behind both loops.
temparray : ℕ → Store → Store
temparray value garbage =
    let padded = λ (i : ℕ). if ltb i (padding 33 value (2 ^ 31) 0) then b'0' else garbage i in
    bit_loop 32 value 31 padded

-- `while(a < 32)`: a character, and a space behind each fourth.
pub spaced : ℕ → ℕ → Store → List ℕ
spaced zero a t = []
spaced (suc rounds) a t =
    t a ∷ ((if (a + 1) % 4 == 0 then b' ' ∷ [] else []) ++ spaced rounds (a + 1) t)

pub dec_to_bin : (garbage : Store) → ℕ → List ℕ
dec_to_bin garbage value = spaced 32 0 (temparray value garbage)
