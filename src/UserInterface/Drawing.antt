-- ===== src/UserInterface/Drawing.antt =====
-- What `ui_msg_display` and `ui_input_prompt` ask of ncurses under `print_mutex`,
-- and `ui_cleanup`.
use chat_application.Prelude.{ℕ, List, [], ◌∷◌}
use chat_application.CString.{Bytes}
use chat_application.ChatClient.Display.{
  WindowRef, boarder_win, output_win, msg_win, info_win, input_win,
}

-- The calls of ncurses on a window.
pub data Draw : Type 0 where
  vw_printw : WindowRef → Bytes → Draw
  mvwprintw : WindowRef → ℕ → ℕ → Bytes → Draw
  wclrtoeol wrefresh : WindowRef → Draw

-- `ui_msg_display` and `ui_input_prompt` between `pthread_mutex_lock` and `pthread_mutex_unlock`, for
-- the text that the format makes.
unfoldable pub msg_display_draws : WindowRef → Bytes → List Draw
msg_display_draws window string = vw_printw window string ∷ wrefresh window ∷ []

unfoldable pub input_prompt_draws : WindowRef → Bytes → List Draw
input_prompt_draws window string =
    mvwprintw window 1 1 string ∷ wclrtoeol window ∷ wrefresh window ∷ []

-- What `ui_cleanup` does with the windows.
unfoldable pub ui_cleanup : List WindowRef
ui_cleanup = output_win ∷ msg_win ∷ info_win ∷ input_win ∷ boarder_win ∷ []
