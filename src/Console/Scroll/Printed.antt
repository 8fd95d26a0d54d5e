-- ===== src/Console/Scroll/Printed.antt =====
-- What printing characters does to the cursor of kernel/graphics/screen.c.
use john_os.Common.{
  ℕ, ◌+◌, ◌-◌, ◌*◌, ◌^◌, ◌≤◌, ◌<◌, ◌≡◌, refl, ◌∙◌, ◌≢◌, ◌⊎◌, inl, inr, true, false, ◌&&◌, not,
  Option, some, List, [], ◌∷◌, arith, u32, leb, ◌==◌, Bool-cases, ==→eq,
}
use john_os.Common.Store.{write}
use john_os.Console.{Screen, negative, pred32, update_cursor, cell_at}
use john_os.Console.Scroll.{next_row, adjust, printch_with, print_with}
use john_os.Console.Scroll.Cursor.{InScreen, SameBehind, new_line_check-InScreen}
use john_os.Console.Scroll.Put.{Placed, InScreen-Placed, put_enter, put_char}

-- `adjust` brings the column back onto the screen.
adjust-InScreen :
    (s t : Screen) (c : ℕ)
    → Placed s t
    → (c ≢ b'\n') ⊎ (t.cursor_x ≤ 80)
    → (u : Screen) × ((pp : Screen → Option Screen) → adjust pp t c ≡ some u)
      × InScreen u
      × SameBehind s u
unfolding adjust next_row
adjust-InScreen s t c placed kind = elim placed.column [
  | inr (left, below) ↦
      let over : (leb 80 t.cursor_x && not (negative t.cursor_x)) ≡ false = ground arith in
      let under : (negative t.cursor_x && not (c == b'\n')) ≡ true =
        ground (arith, not_enter left kind) in
      (
        record t {
          cursor_x = 79;
          cursor_y = pred32 t.cursor_y;
          pos = pred32 t.pos;
          vidmem = write t.vidmem (u32 (pred32 t.cursor_y * 160 + 79 * 2)) 0;
        },
        λ pp. rw (over, under) refl,
        record {
          column = omega arith;
          row = omega (arith, placed.row);
          counted = omega (arith, placed.row, placed.counted, placed.bounded);
          bounded = omega (arith, placed.row, placed.counted, placed.bounded);
        },
        λ a h. ground (arith, placed.row, placed.behind a h),
      )
  | inl low ↦ elim (Bool-cases (leb 80 t.cursor_x)) [
    | inl at ↦
        let over : (leb 80 t.cursor_x && not (negative t.cursor_x)) ≡ true = ground arith in
        let down : u32 (t.cursor_y + 1) ≡ t.cursor_y + 1 = omega (arith, placed.row) in
        let (u, e, inside, same) =
          new_line_check-InScreen
            (record t { cursor_x = 0; cursor_y = u32 (t.cursor_y + 1); poscheck = 1 }) refl refl
            (omega arith) (omega (arith, placed.row)) (omega (arith, placed.counted))
            placed.bounded in
        (u, λ pp. rw over (e pp), inside, λ a h. same a h ∙ placed.behind a h)
    | inr inside ↦
        let over : (leb 80 t.cursor_x && not (negative t.cursor_x)) ≡ false = ground arith in
        let under : (negative t.cursor_x && not (c == b'\n')) ≡ false = ground arith in
        (
          record t { vidmem = write t.vidmem (u32 (cell_at t.cursor_x t.cursor_y + 3)) t.sc },
          λ pp. rw (over, under) refl,
          record {
            column = ground arith;
            row = placed.row;
            counted = placed.counted;
            bounded = placed.bounded;
          },
          λ a h. ground (arith, placed.row, placed.behind a h),
        )
  ]
]
  where
    not_enter : t.cursor_x ≡ 2 ^ 32 - 1 → (c ≢ b'\n') ⊎ (t.cursor_x ≤ 80) → c ≢ b'\n'
    not_enter left (inl off) = off
    not_enter left (inr low) = absurd (omega arith)

-- With the cursor in the upper 24 rows and `pos` at least its row and at most 100, `printch`
-- always returns and never prints the prompt, it leaves the cursor in these rows, and it writes
-- nothing behind the 4000 bytes of text memory. The backspace at the very first cell is left out.
pub printch-InScreen :
    (s : Screen) (c i : ℕ)
    → InScreen s
    → (c ≢ 8) ⊎ (0 < s.cursor_x + s.cursor_y)
    → (u : Screen) × ((pp : Screen → Option Screen) → printch_with pp s c i ≡ some u)
      × InScreen u
      × SameBehind s u
unfolding printch_with update_cursor
printch-InScreen s c i is erases = elim (Bool-cases (c == b'\n')) [
  | inl enter ↦
      let (t, e, on, behind) = put_enter s i is in
      let (u, e', inside, same) =
        adjust-InScreen s t b'\n' (InScreen-Placed s t on behind)
          (inr (omega (arith, on.column))) in
      (
        update_cursor u,
        λ pp. rw (==→eq c b'\n' enter, e pp) (rw (e' pp) refl),
        record {
          column = inside.column;
          row = inside.row;
          counted = inside.counted;
          bounded = inside.bounded;
        },
        same,
      )
  | inr other ↦
      let (t, e, placed) = put_char s c i is erases (ground arith) in
      let (u, e', inside, same) = adjust-InScreen s t c placed (inl (ground arith)) in
      (
        update_cursor u,
        λ pp. rw (e pp) (rw (e' pp) refl),
        record {
          column = inside.column;
          row = inside.row;
          counted = inside.counted;
          bounded = inside.bounded;
        },
        same,
      )
]

-- No character of the text is a backspace.
abbrev pub NoBackspace : List ℕ → Type 0
NoBackspace [] = Unit {0}
NoBackspace (c ∷ cs) = (c ≢ 8) × NoBackspace cs

-- With the cursor in the upper 24 rows, `print` always returns for every text that holds no
-- backspace, also for one that scrolls the screen many times: it never prints the prompt, leaves
-- the cursor in these rows, and writes nothing behind the 4000 bytes of text memory.
pub print-InScreen :
    (s : Screen) (cs : List ℕ)
    → InScreen s
    → NoBackspace cs
    → (u : Screen) × ((pp : Screen → Option Screen) → print_with pp s cs ≡ some u)
      × InScreen u
      × SameBehind s u
unfolding print_with
print-InScreen s [] is none_left = (s, λ pp. refl, is, λ a h. refl)
print-InScreen s (c ∷ cs) is free =
    let (t, e, on, behind) = printch-InScreen s c 0 is (inl free.0) in
    let (u, e', inside, same) = print-InScreen t cs on free.1 in
    (u, λ pp. rw (e pp) (e' pp), inside, λ a h. same a h ∙ behind a h)
