-- ===== src/Tests/Terminal.antt =====
-- Applications of the theorems on client/main.c and client/user_interface.c.
use chat_application.Prelude.{◌≡◌, refl, true, false, some, [], arith, replicate, ◌∷◌, ◌++◌, List}
use chat_application.CString.{Bytes, codes, write_text, decimal}
use chat_application.Config.{
  max_message_len_to_server, zeroed_client, Event, send, cmd_room_msg, cmd_room_leave_ok, World,
  in_chat_lobby,
}
use chat_application.ClientStateManager.Framing.{frames}
use chat_application.ChatClient.{
  Session, scan, word, skip_whitespace, first_line, with_arg, format_scanned, handle_commands,
  validate_and_format, name_command,
}
use chat_application.ChatClient.Limits.{validate_and_format-cut}
use chat_application.Send.{packet}
use chat_application.RoomManager.{parse_room_number}
use chat_application.ChatClient.Joining.{validate_and_format-parse_room_number}
use chat_application.ChatClient.Replies.{heard}
use chat_application.ChatClient.Receiving.{receive_messages}
use chat_application.ChatClient.Receiving.Chunks.{IsReadable, one_by_one, receive_messages-heard}
use chat_application.Tests.{with_ann}
use chat_application.ClientStateManager
use chat_application.UserInterface.{Layout, ui_init}
use chat_application.UserInterface.Tiling.{HasNoColumn, ui_init-too_narrow}

creates :
    handle_commands false (codes "/create den") max_message_len_to_server
    ≡ some (some (with_arg 3 (codes "den")))
unfolding handle_commands scan format_scanned word skip_whitespace write_text
creates = refl

validate_and_format-cut_example :
    (out : Bytes) × (validate_and_format true true (replicate 128 b'x') max_message_len_to_server
      ≡ some (some out))
    × (frames out ≡ ([], out))
validate_and_format-cut_example = validate_and_format-cut (replicate 128 b'x') refl refl refl

named : name_command (codes "ann") ≡ some (with_arg 2 (codes "ann"))
unfolding name_command first_line
named = refl

abbrev in_room : Session
in_room = record { is_running = true; is_in_room = true; sent = []; closed = false }

validate_and_format-parse_room_number_example :
    (msg : Bytes) × (validate_and_format true false
        (codes "/join " ++ decimal 42)
        max_message_len_to_server
      ≡ some (some (msg ++ b'\r' ∷ b'\n' ∷ [])))
    × (frames (msg ++ b'\r' ∷ b'\n' ∷ []) ≡ (msg ∷ [], []))
    × (parse_room_number (record zeroed_client { current_msg = msg }) ≡ some 42)
validate_and_format-parse_room_number_example =
    validate_and_format-parse_room_number 42 zeroed_client (omega arith)

-- The confirmation that the client has left its room
abbrev confirmation : Bytes
confirmation = packet cmd_room_leave_ok (codes "You have left")

-- The two messages, and one for another client
abbrev told : List Event
told = send 9 (packet cmd_room_msg (codes "hello")) ∷ send 8 [] ∷ send 9 confirmation ∷ []

told-IsReadable : IsReadable 9 told
unfolding IsReadable
told-IsReadable = (
  (λ e. (omega arith, λ f. ground arith)),
  ((λ e. absurd (ground arith)), ((λ e. (omega arith, λ f. ground arith)), tt)),
)

receive_messages-heard_example :
    receive_messages (one_by_one 9 told) in_room ≡ some (heard 9 told in_room)
receive_messages-heard_example = receive_messages-heard 9 told in_room refl told-IsReadable

ui_init-too_narrow_example :
    (l : Layout) × (ui_init 30 12 ≡ some l) × HasNoColumn l.output_win.width
ui_init-too_narrow_example = ui_init-too_narrow 30 12 (omega arith) (omega arith) (omega arith)

-- The client of Tests.start, in the lobby, with its server
abbrev in_lobby : Session
in_lobby = record { is_running = true; is_in_room = false; sent = []; closed = false }

abbrev waiting : World
waiting = with_ann in_chat_lobby []
