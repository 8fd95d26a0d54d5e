-- ===== src/Console/Scroll/Put.antt =====
-- What `put`, the switch of `printch` in kernel/graphics/screen.c, does to the cursor.
use john_os.Common.{
  ℕ, ◌+◌, ◌-◌, ◌*◌, ◌/◌, ◌^◌, ◌≤◌, ◌<◌, ◌≡◌, refl, ◌∙◌, ◌≢◌, ◌⊎◌, inl, inr, false, ◌&&◌, not,
  Option, some, arith, u32, ltb, ◌==◌, Bool-cases, ==→eq,
}
use john_os.Common.Store.{write}
use john_os.Console.{Screen, negative, pred32, blank_cells, cell_at}
use john_os.Console.Scroll.{next_row, put}
use john_os.Console.Scroll.Cursor.{
  InScreen, SameBehind, blank_cells-outside, new_line_check-InScreen,
}

-- Behind `put`, the column is at most one off the screen on either side.
pub record Placed (s t : Screen) : Type 0 where
  pub column : (t.cursor_x ≤ 80) ⊎ ((t.cursor_x ≡ 2 ^ 32 - 1) × (0 < t.cursor_y))
  pub row : t.cursor_y < 24
  pub counted : t.cursor_y ≤ t.pos
  pub bounded : t.pos ≤ 100
  pub behind : SameBehind s t

pub InScreen-Placed : (s t : Screen) → InScreen t → SameBehind s t → Placed s t
InScreen-Placed s t is same = record {
  column = inl (omega (arith, is.column));
  row = is.row;
  counted = is.counted;
  bounded = is.bounded;
  behind = same;
}

pub put_enter :
    (s : Screen) (i : ℕ)
    → InScreen s
    → (t : Screen) × ((pp : Screen → Option Screen) → put pp s b'\n' i ≡ some t)
      × InScreen t
      × SameBehind s t
unfolding put next_row
put_enter s i is =
    let y = u32 (s.cursor_y + 1) in
    let down : y ≡ s.cursor_y + 1 = omega (arith, is.row) in
    let (t, e, inside, same) =
      new_line_check-InScreen
        (record s {
          cursor_x = 0;
          cursor_y = y;
          vidmem = blank_cells 80 s.vidmem (u32 (y * 160)) s.sc;
          poscheck = 1;
        })
        refl refl (omega arith) (omega (arith, is.row)) (omega (arith, is.counted)) is.bounded in
    (
      t,
      e,
      inside,
      λ a h.
          same a h ∙ blank_cells-outside 80 s.vidmem (u32 (y * 160)) s.sc a (omega (arith, is.row)),
    )

abbrev erased : Screen → Screen
erased s = record s {
  cursor_x = pred32 s.cursor_x;
  vidmem = write s.vidmem (cell_at (pred32 s.cursor_x) s.cursor_y) 0;
}

abbrev typed : Screen → ℕ → Screen
typed s c = record s {
  vidmem =
      write (write s.vidmem (cell_at s.cursor_x s.cursor_y) c)
        (u32 (cell_at s.cursor_x s.cursor_y + 1)) s.sc;
  cursor_x = u32 (s.cursor_x + 1);
}

pub put_char :
    (s : Screen) (c i : ℕ)
    → InScreen s
    → (c ≢ 8) ⊎ (0 < s.cursor_x + s.cursor_y)
    → c ≢ b'\n'
    → (t : Screen) × ((pp : Screen → Option Screen) → put pp s c i ≡ some t) × Placed s t
unfolding put
put_char s c i is erases other = elim (Bool-cases (c == 8)) [
  | inl back ↦ elim (Bool-cases (ltb 0 i && not (negative i))) [
    | inr start ↦ (
      s,
      λ pp. rw (back, start) refl,
      record {
        column = inl (omega (arith, is.column));
        row = is.row;
        counted = is.counted;
        bounded = is.bounded;
        behind = λ a h. refl;
      },
    )
    | inl later ↦ (
      erased s,
      λ pp. rw (back, later) refl,
      record {
        column = before (==→eq c 8 back) erases;
        row = is.row;
        counted = is.counted;
        bounded = is.bounded;
        behind = λ a h. clear (==→eq c 8 back) erases a h;
      },
    )
  ]
  | inr text ↦ elim (Bool-cases (c == 9)) [
    | inl tab ↦ (
      record s { cursor_x = u32 ((s.cursor_x + 8) / 8 * 8) },
      λ pp. rw (text, tab) refl,
      record {
        column = inl (omega (arith, is.column));
        row = is.row;
        counted = is.counted;
        bounded = is.bounded;
        behind = λ a h. refl;
      },
    )
    | inr char ↦ (
      typed s c,
      λ pp. rw (text, char, no_enter) refl,
      record {
        column = inl (omega (arith, is.column));
        row = is.row;
        counted = is.counted;
        bounded = is.bounded;
        behind = λ a h. ground (arith, is.row, is.column);
      },
    )
  ]
]
  where
    before :
        c ≡ 8
        → (c ≢ 8) ⊎ (0 < s.cursor_x + s.cursor_y)
        → (pred32 s.cursor_x ≤ 80) ⊎ ((pred32 s.cursor_x ≡ 2 ^ 32 - 1) × (0 < s.cursor_y))
    before e (inl off) = absurd (off e)
    before e (inr some_left) = elim (Bool-cases (s.cursor_x == 0)) [
      | inl at ↦ inr (omega (arith, ==→eq s.cursor_x 0 at), omega (arith, ==→eq s.cursor_x 0 at))
      | inr past ↦ inl (ground (arith, is.column))
    ]

    clear :
        c ≡ 8
        → (c ≢ 8) ⊎ (0 < s.cursor_x + s.cursor_y)
        → (a : ℕ) → 4000 ≤ a
        → write s.vidmem (cell_at (pred32 s.cursor_x) s.cursor_y) 0 a ≡ s.vidmem a
    clear e (inl off) a h = absurd (off e)
    clear e (inr some_left) a h =
        let low : cell_at (pred32 s.cursor_x) s.cursor_y < 4000 =
          omega (arith, is.column, is.row) in
        ground arith

    no_enter : (c == b'\n') ≡ false
    no_enter = ground arith
