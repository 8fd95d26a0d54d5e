-- ===== src/Console/Scroll.antt =====
-- Scrolling and printing of kernel/graphics/screen.c. `scrollUp`, `newLineCheck` and `printch` call
-- each other through the printing of the prompt: here they take that as an argument, and `prompt`
-- ties the knot with a bound on the depth. `none` is a deeper nesting.
pub mod Cursor
pub mod Put
pub mod Printed
mod Tests
use john_os.Common.{
  ℕ, zero, suc, ◌+◌, ◌-◌, ◌*◌, ◌/◌, ◌%◌, ◌^◌, ◌≤◌, ◌<◌, ◌≡◌, refl, sym, ap, ◌∙◌, fun_ext, ◌≢◌, ◌⊎◌,
  inl, inr, Bool, true, false, ◌&&◌, ◌||◌, not, Option, none, some, List, [], ◌∷◌, ◌++◌, arith, u8,
  u16, u32, not32, ◌<<<◌, ◌>>>◌, ltb, leb, ◌==◌, if◌then◌else◌, ==_refl, Bool-cases, eq→==, ==→eq,
  ==_iff, bit_and, bit_or, bit_xor, min, max, ◌↔◌, ◌>>=◌,
}
use john_os.Common.Store.{Store, write}
use john_os.Console.{
  Screen, adjusted_buf_limit, buffer_row, fill_upscreen_buffer, adjust_upscreen_buffer,
  fill_dwnscreen_buffer, clear_line, cell_at, update_cursor, negative, pred32, blank_cells,
}

-- `for (;b < sw*(sh-1)*2;b++) vidmem[b] = vidmem[lineNumber*2*sw+b];`
pub rows_up : ℕ → Store → (line_number b : ℕ) → Store
rows_up zero m ln b = m
rows_up (suc rounds) m ln b = rows_up rounds (write m b (m (160 * ln + b))) ln (b + 1)

-- Bytes of a buffer's row.
zero_row : ℕ → Store → ℕ → Store
zero_row zero m a = m
zero_row (suc rounds) m a = zero_row rounds (write m (u32 a) 0) (a + 1)

-- `vidmem[to + a] = buffer[from + a]; vidmem[to + a + 1] = sc;` for the 80 cells of a row.
pub show_row : ℕ → Store → (to : ℕ) (buffer : Store) (from sc : ℕ) → Store
show_row zero m to buffer from sc = m
show_row (suc rounds) m to buffer from sc =
    show_row rounds (write (write m to (buffer (u32 from))) (to + 1) sc) (to + 2) buffer (from + 2)
      sc

-- The cursor at the start of the last row but one.
last_row : Screen → Screen
last_row s = record (clear_line s 24 24) { cursor_x = 0; cursor_y = 23 }

-- The branch that takes a row back from the lower buffer.
take_lower_row : Screen → Screen
take_lower_row s =
    let row = buffer_row (u32 (s.pos + 1)) in
    record s {
      vidmem = show_row 80 s.vidmem (22 * 160) s.screen_buffer2 row s.sc;
      screen_buffer2 = zero_row 160 s.screen_buffer2 row;
    }

pub scroll_up : (print_prompt : Screen → Option Screen) → Screen → (line_number : ℕ) → Option Screen
scroll_up print_prompt s ln =
    let s1 =
      if s.poscheck == 0 && ltb s.pos adjusted_buf_limit
      then fill_upscreen_buffer s (u32 (s.pos + 1))
      else s in
    let s2 = if s1.pos == adjusted_buf_limit then adjust_upscreen_buffer s1 else s1 in
    let s3 = record s2 { vidmem = rows_up 3840 s2.vidmem ln 0 } in
    let s4 =
      if ltb s3.cursor_y ln || negative s3.cursor_y
      then record s3 { cursor_x = 0; cursor_y = 0 }
      else s3 in
    let finish = λ (t : Screen). some (record t { poscheck = 0 }) in
    if not (s.screen_buffer2 0 == 0) || leb 24 (u32 (s.pos + 1))
    then (if s4.poscheck == 0 && ltb s4.pos adjusted_buf_limit
        then (print_prompt (update_cursor (last_row (take_lower_row s4))) >>= (λ t.
            finish (if ltb t.pos adjusted_buf_limit then record t { pos = t.pos + 1 } else t)))
        else if s4.poscheck == 0 && leb 24 s4.pos
        then print_prompt (update_cursor (last_row s4)) >>= finish
        else finish (if s4.poscheck == 1 then last_row s4 else s4))
    else finish s

pub new_line_check : (print_prompt : Screen → Option Screen) → Screen → Option Screen
new_line_check print_prompt s =
    let s1 =
      if ltb (u32 (s.pos + 1 + 2 ^ 32 - 24)) 77
      then fill_upscreen_buffer s (u32 (s.pos + 1))
      else s in
    let count = λ (t : Screen).
      some (if ltb t.pos adjusted_buf_limit then record t { pos = t.pos + 1 } else t) in
    if leb 24 s.cursor_y && not (negative s.cursor_y)
    then scroll_up print_prompt s1 1 >>= count
    else count s

-- Go to the next row.
pub next_row : Screen → Screen
next_row s = record s { cursor_x = 0; cursor_y = u32 (s.cursor_y + 1) }

-- The `switch` of `printch`.
pub put : (print_prompt : Screen → Option Screen) → Screen → (c i : ℕ) → Option Screen
put print_prompt s c i =
    if c == 8
    then some (
        if ltb 0 i && not (negative i)
        then (let x = pred32 s.cursor_x in
            record s { cursor_x = x; vidmem = write s.vidmem (cell_at x s.cursor_y) 0 })
        else s)
    else if c == 9
    then some (record s { cursor_x = u32 ((s.cursor_x + 8) / 8 * 8) })
    else if c == b'\n'
    then (let t = next_row s in
        new_line_check print_prompt (record t {
          vidmem = blank_cells 80 t.vidmem (u32 (t.cursor_y * 160)) t.sc;
          poscheck = 1;
        }))
    else some (record s {
      vidmem =
          write (write s.vidmem (cell_at s.cursor_x s.cursor_y) c)
            (u32 (cell_at s.cursor_x s.cursor_y + 1)) s.sc;
      cursor_x = u32 (s.cursor_x + 1);
    })

-- The tests behind it.
pub adjust : (print_prompt : Screen → Option Screen) → Screen → (c : ℕ) → Option Screen
adjust print_prompt s c =
    if leb 80 s.cursor_x && not (negative s.cursor_x)
    then new_line_check print_prompt (record (next_row s) { poscheck = 1 })
    else if negative s.cursor_x && not (c == b'\n')
    then (let y = pred32 s.cursor_y in
        some (record s {
          cursor_x = 79;
          cursor_y = y;
          pos = pred32 s.pos;
          vidmem = write s.vidmem (u32 (y * 160 + 79 * 2)) 0;
        }))
    else some (record s { vidmem = write s.vidmem (u32 (cell_at s.cursor_x s.cursor_y + 3)) s.sc })

pub printch_with : (print_prompt : Screen → Option Screen) → Screen → (c i : ℕ) → Option Screen
printch_with print_prompt s c i = do
  t ← put print_prompt s c i
  u ← adjust print_prompt t c
  some (update_cursor u)

-- The characters of a string in front of its terminator.
pub print_with : (print_prompt : Screen → Option Screen) → Screen → List ℕ → Option Screen
print_with print_prompt s [] = some s
print_with print_prompt s (c ∷ cs) = do
  t ← printch_with print_prompt s c 0
  print_with print_prompt t cs

-- `print(csptr)`, with prompts nested at most `depth` deep.
pub print_prompt : ℕ → Screen → Option Screen
print_prompt zero s = none
print_prompt (suc depth) s = print_with (print_prompt depth) s s.prompt

pub printch : Screen → (c i : ℕ) → Option Screen
printch s c i = printch_with (print_prompt 0) s c i

pub print : Screen → List ℕ → Option Screen
print s ch = print_with (print_prompt 0) s ch

-- `for(int i = 3838; i >= 0; i = i - 2)`, with `cells` cells to go.
rows_down : ℕ → Store → ℕ → Store
rows_down zero m sc = m
rows_down (suc cells) m sc =
    let i = 2 * cells in rows_down cells (write (write m (i + 160) (m i)) (i + 1) sc) sc

pub scroll_down : Screen → Option Screen
scroll_down s =
    let s1 = if ltb s.pos adjusted_buf_limit then fill_dwnscreen_buffer s else s in
    let s2 = record s1 { vidmem = rows_down 1920 s1.vidmem s1.sc } in
    let row = buffer_row s2.pos in
    let s3 =
      if ltb s2.pos adjusted_buf_limit
      then record s2 {
        vidmem = show_row 80 s2.vidmem 0 s2.screen_buffer row s2.sc;
        screen_buffer = zero_row 160 s2.screen_buffer row;
      }
      else s2 in
    let s4 = record (clear_line s3 23 24) { cursor_x = 0; cursor_y = 23 } in
    if leb 24 s.pos
    then (print (update_cursor s4) s4.prompt >>= (λ t. some (record t { pos = pred32 t.pos })))
    else some s
