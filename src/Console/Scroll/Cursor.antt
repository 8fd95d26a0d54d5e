-- ===== src/Console/Scroll/Cursor.antt =====
-- Where the cursor of kernel/graphics/screen.c can be, and what printing a character does to it.
use john_os.Common.{
  ℕ, zero, suc, ◌+◌, ◌-◌, ◌*◌, ◌^◌, ◌≤◌, ◌<◌, ◌≡◌, refl, ap, ◌∙◌, inl, inr, Bool, true, false, ◌||◌,
  not, Option, some, arith, u32, ltb, leb, ◌==◌, if◌then◌else◌, Bool-cases, ◌>>=◌,
}
use john_os.Common.Store.{Store, write}
use john_os.Console.{
  Screen, adjusted_buf_limit, adjust_upscreen_buffer, fill_upscreen_buffer, negative, blank_cells,
  clear_line,
}
use john_os.Console.Scroll.{rows_up, last_row, scroll_up, new_line_check}

-- The cursor is in one of the upper 24 rows, and `pos` counts at least the rows above it.
pub record InScreen (s : Screen) : Type 0 where
  pub column : s.cursor_x < 80
  pub row : s.cursor_y < 24
  pub counted : s.cursor_y ≤ s.pos
  pub bounded : s.pos ≤ 100

-- `scrollUp` behind a new row, where `poscheck` is 1: no prompt is printed.
scrolled : Screen → Screen
scrolled s =
    let s2 = if s.pos == adjusted_buf_limit then adjust_upscreen_buffer s else s in
    let s3 = record s2 { vidmem = rows_up 3840 s2.vidmem 1 0 } in
    record (last_row s3) { poscheck = 0 }

scroll_up-scrolled :
    (pp : Screen → Option Screen) (s : Screen)
    → s.poscheck ≡ 1
    → 1 ≤ s.cursor_y
    → s.cursor_y ≤ 24
    → 23 ≤ s.pos
    → s.pos ≤ 100
    → scroll_up pp s 1 ≡ some (scrolled s)
unfolding scroll_up scrolled adjust_upscreen_buffer last_row clear_line
scroll_up-scrolled pp s one low high many few = elim (Bool-cases (s.pos == adjusted_buf_limit)) [
  | inl at ↦ rw (one, at, cursor_test, far, or_true (not (s.screen_buffer2 0 == 0))) refl
  | inr below ↦ rw (one, below, cursor_test, far, or_true (not (s.screen_buffer2 0 == 0))) refl
]
  where
    or_true : (b : Bool) → (b || true) ≡ true
    or_true true = refl
    or_true false = refl

    cursor_test : (ltb s.cursor_y 1 || negative s.cursor_y) ≡ false
    cursor_test = ground arith

    far : leb 24 (u32 (s.pos + 1)) ≡ true
    far = ground arith

pub blank_cells-outside :
    (n : ℕ) (m : Store) (from sc a : ℕ) → from + 2 * n ≤ a → blank_cells n m from sc a ≡ m a
unfolding blank_cells
blank_cells-outside zero m from sc a behind = refl
blank_cells-outside (suc n) m from sc a behind =
    blank_cells-outside n (write (write m from 0) (from + 1) sc) (from + 2) sc a (omega arith)
    ∙ ground arith

rows_up-outside : (n : ℕ) (m : Store) (ln b a : ℕ) → b + n ≤ a → rows_up n m ln b a ≡ m a
unfolding rows_up
rows_up-outside zero m ln b a behind = refl
rows_up-outside (suc n) m ln b a behind =
    rows_up-outside n (write m b (m (160 * ln + b))) ln (b + 1) a (omega arith) ∙ ground arith

-- `t` holds what `s` holds behind the 4000 bytes of text memory.
abbrev pub SameBehind : Screen → Screen → Type 0
SameBehind s t = (a : ℕ) → 4000 ≤ a → t.vidmem a ≡ s.vidmem a

scrolled-InScreen :
    (s : Screen)
    → 23 ≤ s.pos
    → s.pos ≤ 100
    → InScreen (scrolled s) × SameBehind s (scrolled s) × ((scrolled s).pos ≡ s.pos)
unfolding scrolled adjust_upscreen_buffer last_row clear_line
scrolled-InScreen s many few = elim (Bool-cases (s.pos == adjusted_buf_limit)) [
  | inl at ↦ rw at (
    record { column = omega arith; row = omega arith; counted = many; bounded = few },
    behind,
    refl,
  )
  | inr below ↦ rw below (
    record { column = omega arith; row = omega arith; counted = many; bounded = few },
    behind,
    refl,
  )
]
  where
    behind :
        (a : ℕ) → 4000 ≤ a → blank_cells 80 (rows_up 3840 s.vidmem 1 0) 3840 s.sc a ≡ s.vidmem a
    behind a high =
        blank_cells-outside 80 (rows_up 3840 s.vidmem 1 0) 3840 s.sc a (omega arith)
        ∙ rows_up-outside 3840 s.vidmem 1 0 a (omega arith)

-- The count of rows.
counted_row : Screen → Screen
counted_row t = if ltb t.pos adjusted_buf_limit then record t { pos = t.pos + 1 } else t

counted_row-InScreen :
    (s t : Screen)
    → t.cursor_x < 80
    → t.cursor_y < 24
    → t.cursor_y ≤ t.pos + 1
    → t.pos ≤ 100
    → SameBehind s t
    → InScreen (counted_row t) × SameBehind s (counted_row t)
unfolding counted_row
counted_row-InScreen s t x y count few behind = elim (Bool-cases (ltb t.pos adjusted_buf_limit)) [
  | inl below ↦
      rw below
        (record { column = x; row = y; counted = omega arith; bounded = ground arith }, behind)
  | inr at ↦ rw at (record { column = x; row = y; counted = ground arith; bounded = few }, behind)
]

-- The upper buffer filled by `newLineCheck`: nothing else changes.
filled : Screen → Screen
filled s =
    if ltb (u32 (s.pos + 1 + 2 ^ 32 - 24)) 77 then fill_upscreen_buffer s (u32 (s.pos + 1)) else s

filled_lem :
    (s : Screen)
    → ((filled s).poscheck ≡ s.poscheck)
      × ((filled s).cursor_y ≡ s.cursor_y)
      × ((filled s).pos ≡ s.pos)
      × ((filled s).vidmem ≡ s.vidmem)
unfolding filled fill_upscreen_buffer
filled_lem s = elim (Bool-cases (ltb (u32 (s.pos + 1 + 2 ^ 32 - 24)) 77)) [
  | inl near ↦ rw near (refl, refl, refl, refl)
  | inr far ↦ rw far (refl, refl, refl, refl)
]

-- `newLineCheck` behind the start of a new row.
pub new_line_check-InScreen :
    (s : Screen)
    → s.poscheck ≡ 1
    → s.cursor_x ≡ 0
    → 1 ≤ s.cursor_y
    → s.cursor_y ≤ 24
    → s.cursor_y ≤ s.pos + 1
    → s.pos ≤ 100
    → (t : Screen) × ((pp : Screen → Option Screen) → new_line_check pp s ≡ some t)
      × InScreen t
      × SameBehind s t
new_line_check-InScreen s one x low high count few = elim (Bool-cases (leb 24 s.cursor_y)) [
  | inr above ↦ (
    counted_row s,
    λ pp. unfold new_line_check counted_row in rw above refl,
    (counted_row-InScreen s s (omega (arith, x)) (ground arith) count few (λ a h. refl)).0,
    (counted_row-InScreen s s (omega (arith, x)) (ground arith) count few (λ a h. refl)).1,
  )
  | inl at ↦
      let (p, y, n, v) = filled_lem s in
      let many : 23 ≤ s.pos = ground arith in
      let (inside, behind, same) =
        scrolled-InScreen (filled s) (omega (arith, n)) (omega (arith, n)) in
      (
        counted_row (scrolled (filled s)),
        λ pp.
            new_line_check-scroll_up pp at
            ∙ ap (λ r. r >>= (λ t. some (counted_row t)))
                (scroll_up-scrolled pp (filled s) (p ∙ one) (omega (arith, y)) (omega (arith, y))
                  (omega (arith, n)) (omega (arith, n))),
        (done v inside behind).0,
        (done v inside behind).1,
      )
]
  where
    done :
        (filled s).vidmem ≡ s.vidmem
        → InScreen (scrolled (filled s))
        → SameBehind (filled s) (scrolled (filled s))
        → InScreen (counted_row (scrolled (filled s)))
          × SameBehind s (counted_row (scrolled (filled s)))
    done v inside behind =
        counted_row-InScreen s (scrolled (filled s)) inside.column inside.row
          (omega (arith, inside.counted)) inside.bounded (λ a h. behind a h ∙ ap (λ m. m a) v)

    new_line_check-scroll_up :
        (pp : Screen → Option Screen)
        → leb 24 s.cursor_y ≡ true
        → new_line_check pp s ≡ (scroll_up pp (filled s) 1 >>= (λ t. some (counted_row t)))
    new_line_check-scroll_up pp at =
        let positive : negative s.cursor_y ≡ false = ground arith in
        unfold new_line_check counted_row filled in rw (at, positive) refl
