-- ===== src/UserInterface.antt =====
-- client/user_interface.c: the windows that the client makes of the terminal. What ncurses draws in
-- them is left out.
pub mod Tiling
pub mod Drawing
use chat_application.Prelude.{
  ℕ, zero, suc, ◌+◌, ◌-◌, ◌/◌, Bool, true, false, ◌||◌, Option, none, some, ltb, leb, if◌then◌else◌,
}
use chat_application.Prelude.Int.{ℤ, pos, negsuc, minus, plus}

abbrev pub input_window_height : ℕ
input_window_height = 3

abbrev pub output_window_height : ℕ
output_window_height = 20

-- The arguments of `newwin`, or of `derwin` in the border window.
pub record Window : Type 0 where
  pub height : ℕ
  pub width : ℤ
  pub begin_y : ℕ
  pub begin_x : ℤ

-- The five windows, and the columns of the two lines in the border window.
pub record Layout : Type 0 where
  pub boarder_win : Window
  pub output_win : Window
  pub msg_win : Window
  pub info_win : Window
  pub input_win : Window
  pub left_line : ℤ
  pub right_line : ℤ

-- `screen_width * 0.2` and `screen_width * 0.5`, as an `int`: the first product is rounded, but not
-- below a whole number that it should be.
abbrev pub msg_width : ℕ → ℕ
msg_width screen_width = screen_width / 5

abbrev pub info_width : ℕ → ℕ
info_width screen_width = screen_width / 2

abbrev pub output_width : ℕ → ℤ
output_width screen_width =
    minus screen_width (info_width screen_width + msg_width screen_width + 4)

abbrev pub window : ℕ → ℤ → ℕ → ℤ → Window
window height width begin_y begin_x = record {
  height = height;
  width = width;
  begin_y = begin_y;
  begin_x = begin_x;
}

abbrev pub inner_height : ℕ
inner_height = output_window_height - 2

-- `none` is the exit on a terminal that is too small.
unfoldable pub ui_init : ℕ → ℕ → Option Layout
unfolding minus plus
ui_init screen_height screen_width =
    if ltb screen_height (output_window_height + input_window_height + 1) || ltb screen_width 6
    then none
    else let output = output_width screen_width in
      let msg = msg_width screen_width in
      some (record {
        boarder_win = window output_window_height (pos screen_width) 0 (pos 0);
        left_line = plus output 1;
        right_line = plus output (msg + 2);
        output_win = window inner_height output 1 (pos 1);
        msg_win = window inner_height (pos msg) 1 (plus output 2);
        info_win = window inner_height (pos (info_width screen_width)) 1 (plus output (msg + 3));
        input_win = window input_window_height (pos screen_width) output_window_height (pos 0);
      })
