-- ===== src/ChatClient/Display.antt =====
-- `ui_msg_display` as the client calls it: the windows, the texts printed in them, and what
-- `parse_server_msg` shows of the messages of the server.
pub mod Delivery
pub mod Everyone
use chat_application.Prelude.{
  ℕ, ◌+◌, Bool, true, false, not, ◌&&◌, ◌||◌, Option, none, some, List, [], ◌∷◌, ◌++◌, ◌==◌, ltb,
  if◌then◌else◌, length, drop,
}
use chat_application.CString.{Bytes, codes, char_at}
use chat_application.Config.{
  Event, send, cmd_welcome_request, cmd_room_create_ok, cmd_room_list_response, cmd_room_join_ok,
  cmd_room_msg, cmd_room_leave_ok,
}
use chat_application.ChatClient.Receiving.{shown_message}

-- The global pointers to windows.
pub data WindowRef : Type 0 where
  boarder_win output_win msg_win info_win input_win : WindowRef

-- A call of `ui_msg_display` or of `ui_input_prompt`: the window, and the text that is printed.
pub record Shown : Type 0 where
  pub window : WindowRef
  pub text : Bytes

abbrev pub ui_msg_display : WindowRef → Bytes → Shown
ui_msg_display window text = record { window = window; text = text }

-- What `parse_server_msg` prints, by the first byte of the message.
unfoldable pub display_server_msg : Bytes → Shown
display_server_msg buffer =
    let cmd_code = char_at buffer 0 in
    if cmd_code == cmd_welcome_request
    then ui_msg_display output_win
        (codes " Server: Welcome request received. Please submit your username.\n")
    else if cmd_code == cmd_room_create_ok
    then ui_msg_display output_win
        (codes " Server: Room created successfully\nPlease type a message:\n")
    else if cmd_code == cmd_room_list_response
    then ui_msg_display output_win
        (codes " Server: Room list received:\n" ++ drop 1 buffer ++ b'\n' ∷ [])
    else if cmd_code == cmd_room_join_ok
    then ui_msg_display output_win
        (codes " Server: Room joined successfully\nPlease type a message:\n")
    else if cmd_code == cmd_room_msg
    then ui_msg_display msg_win (b' ' ∷ shown_message buffer)
    else if cmd_code == cmd_room_leave_ok
    then ui_msg_display output_win (codes " Server: You have left the room.\n")
    else ui_msg_display output_win (codes "\n Server: " ++ drop 1 buffer ++ b'\n' ∷ [])

-- What a client on the descriptor shows of a list of events, where each message comes in a `recv`
-- of its own.
unfoldable pub screen : ℕ → List Event → List Shown
unfolding display_server_msg
screen fd [] = []
screen fd (send to text ∷ es) =
    let rest = screen fd es in if to == fd then display_server_msg text ∷ rest else rest
screen fd (e ∷ es) = screen fd es
