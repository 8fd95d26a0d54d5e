-- ===== src/Console.antt =====
-- The screen of kernel/graphics/screen.c: text memory of 25 rows of 80 cells with two bytes each,
-- the cursor, and the two buffers of rows that were scrolled away. An index into text memory is
-- the offset from 0xb8000 on 32 bits; cursorX and cursorY are `int`, here in two's complement.
pub mod Scroll
use john_os.Common.{
  ℕ, zero, suc, ◌+◌, ◌-◌, ◌*◌, ◌/◌, ◌%◌, ◌^◌, ◌≤◌, ◌<◌, ◌≡◌, refl, sym, ap, ◌∙◌, fun_ext, ◌≢◌, ◌⊎◌,
  inl, inr, Bool, true, false, ◌&&◌, ◌||◌, not, Option, none, some, List, [], ◌∷◌, ◌++◌, arith, u8,
  u16, u32, not32, ◌<<<◌, ◌>>>◌, ltb, leb, ◌==◌, if◌then◌else◌, ==_refl, Bool-cases, eq→==, ==→eq,
  ==_iff, bit_and, bit_or, bit_xor, min, max, ◌↔◌,
}
use john_os.Common.Store.{Store, write}

pub record Screen : Type 0 where
  pub vidmem : Store
  pub screen_buffer : Store
  pub screen_buffer2 : Store
  pub pos : ℕ
  pub poscheck : ℕ
  pub cursor_x : ℕ
  pub cursor_y : ℕ
  pub sc : ℕ
  -- The characters at `csptr` in front of the terminator.
  pub prompt : List ℕ
  -- The bytes written to ports, with the last one first.
  pub ports : List (ℕ × ℕ)

-- `ADJUSTEDBUFLIMIT`.
abbrev pub adjusted_buf_limit : ℕ
adjusted_buf_limit = 100

pub init_screen_driver : (console_string : List ℕ) → Screen → Screen
init_screen_driver console_string s = record s {
  sc = 2;
  poscheck = 0;
  pos = 0;
  cursor_x = 0;
  cursor_y = 0;
  prompt = console_string;
}

-- `for (int i = 0; i < 16000; i++)` over one buffer.
zero_buffer : ℕ → Store → ℕ → Store
zero_buffer zero m i = m
zero_buffer (suc rounds) m i = zero_buffer rounds (write m i 0) (i + 1)

pub init_screenbuffers : Screen → Screen
init_screenbuffers s = record s {
  screen_buffer = zero_buffer 16000 s.screen_buffer 0;
  screen_buffer2 = zero_buffer 16000 s.screen_buffer2 0;
}

-- Every second byte of `rounds` cells, from index `from` of one memory to index `to` of another.
pub copy_cells : ℕ → (to_memory : Store) (to : ℕ) (from_memory : Store) (from : ℕ) → Store
copy_cells zero m to source from = m
copy_cells (suc rounds) m to source from =
    copy_cells rounds (write m (u32 to) (source (u32 from))) (to + 2) source (from + 2)

-- `160*(temppos - 24)` on 32 bits.
abbrev pub buffer_row : ℕ → ℕ
buffer_row temppos = u32 (160 * u32 (temppos + 2 ^ 32 - 24))

pub fill_upscreen_buffer : Screen → ℕ → Screen
fill_upscreen_buffer s temppos = record s {
  screen_buffer = copy_cells 80 s.screen_buffer (buffer_row temppos) s.vidmem 0;
}

-- A row of a buffer, moved up by one; a row of cells does not overlap the next one.
move_row : Store → ℕ → Store
move_row m a = copy_cells 80 m (160 * (a - 1)) m (160 * a)

move_rows : ℕ → Store → ℕ → Store
move_rows zero m a = m
move_rows (suc rounds) m a = move_rows rounds (move_row m a) (a + 1)

pub adjust_upscreen_buffer : Screen → Screen
adjust_upscreen_buffer s = record s {
  screen_buffer = copy_cells 80 (move_rows 75 s.screen_buffer 1) (160 * 75) s.vidmem 0;
}

pub fill_dwnscreen_buffer : Screen → Screen
fill_dwnscreen_buffer s = record s {
  screen_buffer2 = copy_cells 80 s.screen_buffer2 (buffer_row s.pos) s.vidmem (22 * 160);
}

-- Cells with no character and the screen's colour, from index `a` on.
pub blank_cells : ℕ → Store → (a sc : ℕ) → Store
blank_cells zero m a sc = m
blank_cells (suc rounds) m a sc = blank_cells rounds (write (write m a 0) (a + 1) sc) (a + 2) sc

pub clear_line : Screen → (from to : ℕ) → Screen
clear_line s from to = record s {
  vidmem = blank_cells (80 * (to + 1 - from)) s.vidmem (160 * from) s.sc;
}

-- The index of the cursor's cell, `(cursorY*sw+cursorX)*sd`.
abbrev pub cell_at : (x y : ℕ) → ℕ
cell_at x y = u32 ((y * 80 + x) * 2)

pub update_cursor : Screen → Screen
update_cursor s =
    let temp1 = u16 (s.cursor_y * 80 + s.cursor_x) in
    record s {
      ports =
          (0x3D5, u8 (temp1 / 256)) ∷ (0x3D4, 0x0E) ∷ (0x3D5, u8 temp1) ∷ (0x3D4, 0x0F) ∷ s.ports;
    }

pub clear_screen : Screen → Screen
clear_screen s =
    update_cursor (record (clear_line s 0 24) { cursor_x = 0; cursor_y = 0; poscheck = 0; pos = 0 })

-- `int` is negative.
abbrev pub negative : ℕ → Bool
negative x = leb (2 ^ 31) x

-- One less, on 32 bits.
abbrev pub pred32 : ℕ → ℕ
pred32 x = u32 (x + 2 ^ 32 - 1)
