-- ===== src/Tests/Sessions.antt =====
-- Applications of the theorems on the client program.
use chat_application.Prelude.{
  ◌≤◌, ◌≡◌, refl, ◌⊎◌, true, false, Option, none, some, List, [], ◌∷◌, ◌++◌, arith,
}
use chat_application.CString.{Bytes, codes, write_text}
use chat_application.ChatClient.{
  validate_and_format, handle_commands, scan, format_scanned, word, skip_whitespace, first_line,
  with_dummy,
}
use chat_application.ChatClient.Receiving.{failed, received}
use chat_application.ChatClient.Program.Texts.{connection_ended, exiting}
use chat_application.ChatClient.Program.{
  Call, shows, sends, closes, InputAt, ReceiveAt, Process, input, receive, step, thread_step,
  input_step, receive_step, threads_created, is_over,
}
use chat_application.ChatClient.Program.Order.{IsOrderly}
use chat_application.ChatClient.Program.Reached.{Reached, created, stepped, Reached-IsOrderly}
use chat_application.ChatClient.Program.Progress.{
  Steps, one_more, no_more, CanGo, stopped_client-ends,
}
use chat_application.ChatClient.Program.Race.{text-sent_on_closed}
use chat_application.ChatClient.Program.Start.{Opened, main, Surroundings}
use chat_application.ChatClient.Program.Naming.{Opens, main-Opens}
use chat_application.Prelude.Int.{pos}
use chat_application.ChatClient.Display.{ui_msg_display, output_win, input_win}

-- The server has ended the connection before the user has typed anything.
abbrev parted : Process
parted = record threads_created {
  is_running = false;
  receive_at = ReceiveAt.ended;
  calls =
      shows (ui_msg_display output_win connection_ended)
      ∷ shows (ui_msg_display output_win exiting)
      ∷ closes
      ∷ [];
}

parted-Reached : Reached parted
unfolding step thread_step receive_step
parted-Reached =
    stepped (receive (received []))
      (stepped (receive (received []))
        (stepped (receive (received [])) (stepped (receive (received [])) created tt refl) tt refl)
        tt refl)
      tt refl

Reached-IsOrderly_example : IsOrderly parted
Reached-IsOrderly_example = Reached-IsOrderly parted-Reached

abbrev prompted : Process
prompted = record parted {
  input_at = InputAt.checking;
  calls = parted.calls ++ shows (ui_msg_display input_win (codes "> ")) ∷ [];
}

one_step : Steps 1 parted prompted
unfolding step thread_step input_step
one_step = one_more (input none true) tt refl no_more

stopped_client-ends_example :
    (1 ≤ 12)
    × ((is_over prompted.main_at ≡ true) ⊎ CanGo (some (codes "/list")) true failed prompted)
stopped_client-ends_example =
    stopped_client-ends (some (codes "/list")) true failed parted-Reached refl one_step
      (omega arith)

text-sent_on_closed_example :
    (q : Process) × Reached q
    × (before : List Call) × (q.calls ≡ before ++ closes ∷ sends (with_dummy 4 []) ∷ [])
unfolding validate_and_format handle_commands scan format_scanned word skip_whitespace write_text
    first_line
text-sent_on_closed_example =
    text-sent_on_closed (codes "/list") (with_dummy 4 []) (omega arith) refl

-- An error, an empty line, and a name
abbrev typed_names : List (Option Bytes)
typed_names = none ∷ some [] ∷ some (codes "ann") ∷ []

-- An address, a terminal of 30 lines and 100 columns, and the names
abbrev at_home : Surroundings
at_home = record {
  inet_pton = λ address. some 0x0100007F;
  socket_fd = some 3;
  connects = true;
  screen_height = 30;
  screen_width = 100;
  first_message = failed;
  answers = typed_names;
  name_sent = true;
}

main-Opens_example :
    (o : Opened) × (main at_home 3 (codes "127.0.0.1") (pos 30000) (codes "30000") ≡ some o)
    × Opens at_home (codes "127.0.0.1") (pos 30000) o
main-Opens_example =
    main-Opens at_home (codes "127.0.0.1") (pos 30000) (codes "30000")
      (tt, (omega arith, (omega arith, tt)))
