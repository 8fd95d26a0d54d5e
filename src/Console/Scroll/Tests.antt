-- ===== src/Console/Scroll/Tests.antt =====
-- A screen with the cursor at the end of the last row that it uses.
use john_os.Common.{◌≡◌, inr, Option, some, [], ◌∷◌, arith}
use john_os.Console.{Screen}
use john_os.Console.Scroll.{printch_with}
use john_os.Console.Scroll.Cursor.{InScreen, SameBehind}
use john_os.Console.Scroll.Printed.{printch-InScreen}

abbrev screen : Screen
screen = record {
  vidmem = λ a. 0;
  screen_buffer = λ a. 0;
  screen_buffer2 = λ a. 0;
  pos = 30;
  poscheck = 0;
  cursor_x = 79;
  cursor_y = 23;
  sc = 2;
  prompt = b'$' ∷ [];
  ports = [];
}

screen-InScreen : InScreen screen
screen-InScreen = record {
  column = omega arith;
  row = omega arith;
  counted = omega arith;
  bounded = omega arith;
}

printch-InScreen_example :
    (u : Screen) × ((pp : Screen → Option Screen) → printch_with pp screen b'a' 0 ≡ some u)
    × InScreen u
    × SameBehind screen u
printch-InScreen_example = printch-InScreen screen b'a' 0 screen-InScreen (inr (omega arith))
