-- ===== src/ClientStateManager/Table.antt =====
-- `command_valid_for_state` against the table of commands and states of protocol.md.
use chat_application.Prelude.{ℕ, ◌≡◌, ◌↔◌, refl, ◌⊎◌, none, arith}
use chat_application.CString.{char_at}
use chat_application.Config.{
  Client, ClientState, awaiting_username, in_chat_lobby, in_chat_room, cmd_exit,
  cmd_username_submit, cmd_room_create_request, cmd_room_list_request, cmd_room_join_request,
  cmd_leave_room, cmd_room_message_send,
}
use chat_application.ClientStateManager.{state_error}

-- The commands available in each state.
abbrev pub IsAvailable : ClientState → ℕ → Type 0
IsAvailable awaiting_username cmd = (cmd ≡ cmd_username_submit) ⊎ (cmd ≡ cmd_exit)
IsAvailable in_chat_lobby cmd =
    (cmd ≡ cmd_exit)
    ⊎ (cmd ≡ cmd_room_create_request)
    ⊎ (cmd ≡ cmd_room_list_request)
    ⊎ (cmd ≡ cmd_room_join_request)
IsAvailable in_chat_room cmd =
    (cmd ≡ cmd_exit) ⊎ (cmd ≡ cmd_room_message_send) ⊎ (cmd ≡ cmd_leave_room)

by_state :
    (client : Client) (state : ClientState)
    → client.state ≡ state
    → (state_error client ≡ none) ↔ IsAvailable state (char_at client.current_msg 0)
unfolding state_error
by_state client awaiting_username e = ground arith
by_state client in_chat_lobby e = ground arith
by_state client in_chat_room e = ground arith

-- A command passes the check against the state exactly if the table of commands and states lists
-- it.
pub state_error-none_iff :
    (client : Client)
    → (state_error client ≡ none) ↔ IsAvailable client.state (char_at client.current_msg 0)
state_error-none_iff client = by_state client client.state refl
