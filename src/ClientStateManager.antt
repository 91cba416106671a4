-- ===== src/ClientStateManager.antt =====
-- server/client_state_manager.c: what a worker does with the bytes that a client sends. `t` is the
-- worker, `c` the client's address.
pub mod Texts
pub mod Format
pub mod Table
pub mod Transition
pub mod Handlers
pub mod Disconnect
pub mod Route
pub mod Framing
pub mod Reading
pub mod Moves
use chat_application.Prelude.{
  ℕ, zero, suc, ◌+◌, Bool, true, false, not, ◌&&◌, ◌||◌, Option, none, some, List, [], ◌∷◌, ◌++◌,
  ltb, ◌==◌, if◌then◌else◌, ◌>>=◌, length,
}
use chat_application.Prelude.Int.{decr}
use chat_application.CString.{Bytes, c_string, char_at, write_text, strcat, strstr_crlf}
use chat_application.Config.{
  ClientRef, Client, ClientState, is_state, awaiting_username, in_chat_lobby, in_chat_room,
  zeroed_client, World, close, epoll_del, emit, set_client, set_count, current_msg_size,
  max_username_len, max_content_len, max_message_len_from_server, cmd_exit, cmd_username_submit,
  cmd_room_create_request, cmd_room_list_request, cmd_room_join_request, cmd_leave_room,
  cmd_room_message_send, cmd_room_leave_ok, err_protocol_invalid_state_cmd,
  err_protocol_invalid_format, err_msg_empty_content, err_username_length,
}
use chat_application.Send.{send_message_to_client}
use chat_application.RoomManager.{
  content, create_chat_room, join_chat_room, send_avail_rooms, leave_room,
  broadcast_message_in_room,
}
use Texts.{
  too_short, too_long, space_missing, unknown_command, content_empty, not_for_awaiting,
  not_for_lobby, not_for_room, username_too_long, left_room, has_left,
}

-- `while (*content == ' ') content++;`
pub skip_spaces : Bytes → Bytes
skip_spaces [] = []
skip_spaces (c ∷ s) = let rest = skip_spaces s in if c == b' ' then rest else c ∷ s

-- The reply of `validate_msg_format` to a message that it refuses. The command is a signed `char`:
-- a byte from 128 on is negative there and above the last command here, refused both ways.
unfoldable pub format_error : Client → Option (ℕ × Bytes)
format_error client =
    let msg = client.current_msg in
    if ltb (length msg) 3
    then some (err_protocol_invalid_format, too_short)
    else if ltb max_content_len (length (content client))
    then some (err_protocol_invalid_format, too_long)
    else if not (char_at msg 1 == b' ')
    then some (err_protocol_invalid_format, space_missing)
    else if ltb (char_at msg 0) cmd_exit || ltb cmd_room_message_send (char_at msg 0)
    then some (err_protocol_invalid_format, unknown_command)
    else if length (skip_spaces (content client)) == 0
    then some (err_msg_empty_content, content_empty)
    else none

-- Send the reply, if there is one; the message is good if there is none.
unfoldable pub reply_if : ClientRef → Option (ℕ × Bytes) → World → Option (Bool × World)
reply_if c none w = some (true, w)
reply_if c (some (code, text)) w = do
  w' ← send_message_to_client (w.clients c).client_fd code text w
  some (false, w')

unfoldable pub validate_msg_format : ClientRef → World → Option (Bool × World)
unfolding reply_if
validate_msg_format c w = reply_if c (format_error (w.clients c)) w

-- The reply of `command_valid_for_state` to a command that the state does not allow.
unfoldable pub state_error : Client → Option (ℕ × Bytes)
state_error client =
    let command = char_at client.current_msg 0 in
    if command == cmd_exit
    then none
    else if is_state client.state awaiting_username && not (command == cmd_username_submit)
    then some (err_protocol_invalid_state_cmd, not_for_awaiting)
    else if is_state client.state in_chat_lobby
        && (not (command == cmd_room_create_request)
            && (not (command == cmd_room_join_request) && not (command == cmd_room_list_request)))
    then some (err_protocol_invalid_state_cmd, not_for_lobby)
    else if is_state client.state in_chat_room
        && (not (command == cmd_room_message_send) && not (command == cmd_leave_room))
    then some (err_protocol_invalid_state_cmd, not_for_room)
    else none

unfoldable pub command_valid_for_state : ClientRef → World → Option (Bool × World)
unfolding reply_if
command_valid_for_state c w = reply_if c (state_error (w.clients c)) w

unfoldable pub handle_awaiting_username : ClientRef → World → Option World
handle_awaiting_username c w =
    let client = w.clients c in
    if ltb max_username_len (length (content client))
    then send_message_to_client client.client_fd err_username_length username_too_long w
    else do
      name ← write_text (max_username_len + 1) (content client)
      send_avail_rooms c (set_client c (record client { name = name; state = in_chat_lobby }) w)

unfoldable pub handle_in_chat_lobby : ClientRef → World → Option World
handle_in_chat_lobby c w =
    let command = char_at (w.clients c).current_msg 0 in
    if command == cmd_room_create_request
    then create_chat_room c w
    else if command == cmd_room_join_request
    then join_chat_room c w
    else if command == cmd_room_list_request
    then send_avail_rooms c w
    else some w

-- The branch of `handle_in_chat_room` that leaves; its buffer `msg` is written and not read.
unfoldable pub leave_and_confirm : ClientRef → ℕ → World → Option World
leave_and_confirm c room_index w = do
  msg ← write_text max_message_len_from_server ((w.clients c).name ++ has_left)
  w₁ ← leave_room c room_index w
  w₂ ← send_message_to_client (w₁.clients c).client_fd cmd_room_leave_ok left_room w₁
  some (set_client c (record (w₂.clients c) { state = in_chat_lobby }) w₂)

unfoldable pub handle_in_chat_room : ClientRef → World → Option World
unfolding leave_and_confirm
handle_in_chat_room c w =
    let client = w.clients c in
    if char_at client.current_msg 0 == cmd_room_message_send
    then (do
      msg ← write_text max_message_len_from_server (client.name ++ b':' ∷ b' ' ∷ content client)
      broadcast_message_in_room msg client.room_index c w)
    else leave_and_confirm c client.room_index w

-- What `epoll_ctl` and `close` answer is only logged.
unfoldable pub cleanup_client : ℕ → ClientRef → World → World
cleanup_client t c w =
    let fd = (w.clients c).client_fd in
    set_count t (decr (w.num_of_clients t))
      (set_client c zeroed_client (emit (epoll_del t fd ∷ close fd ∷ []) w))

unfoldable pub handle_client_disconnection : ℕ → ClientRef → World → Option World
handle_client_disconnection t c w = do
  w' ←
      if is_state (w.clients c).state in_chat_room
      then leave_room c (w.clients c).room_index w
      else some w
  some (cleanup_client t c w')

-- The `switch` of `route_client_command`.
unfoldable pub dispatch : ClientState → ClientRef → World → Option World
dispatch awaiting_username c w = handle_awaiting_username c w
dispatch in_chat_lobby c w = handle_in_chat_lobby c w
dispatch in_chat_room c w = handle_in_chat_room c w

unfoldable pub route_client_command : ℕ → ClientRef → World → Option World
unfolding dispatch
route_client_command t c w = do
  (well_formed, w₁) ← validate_msg_format c w
  if not well_formed then some w₁ else do
    (allowed, w₂) ← command_valid_for_state c w₁
    if not allowed
        then some w₂
        else if char_at (w₂.clients c).current_msg 0 == cmd_exit
        then handle_client_disconnection t c w₂
        else dispatch (w₂.clients c).state c w₂

-- `strcat(client->current_msg, text)`
unfoldable pub append_msg : ClientRef → Bytes → World → Option World
append_msg c text w = do
  current_msg ← strcat current_msg_size (w.clients c).current_msg text
  some (set_client c (record (w.clients c) { current_msg = current_msg }) w)

-- `memset(client->current_msg, 0, ...)`
abbrev pub clear_msg : ClientRef → World → World
clear_msg c w = set_client c (record (w.clients c) { current_msg = [] }) w

-- The loop of `read_and_process_client_message` from `temp` on, and the partial message behind it.
-- Each round takes two bytes at least, so that fuel above the length of the text is enough.
unfoldable pub process_messages : ℕ → ℕ → ClientRef → Bytes → World → Option World
process_messages zero t c temp w = none
process_messages (suc fuel) t c temp w = elim (strstr_crlf temp) [
  | none ↦ if length temp == 0 then some w else append_msg c temp w
  | some (message, rest) ↦ do
    w₁ ← append_msg c message w
    w₂ ← route_client_command t c w₁
    process_messages fuel t c rest (clear_msg c w₂)
]

-- What `recv` answers: the bytes, or a number not above 0 with `errno` then being EAGAIN or
-- EWOULDBLOCK, or not. (At the end of the stream `recv` returns 0 and leaves `errno` as it was.)
pub data RecvResult : Type 0 where
  received : Bytes → RecvResult
  nothing : Bool → RecvResult

unfoldable pub read_and_process_client_message : ℕ → ClientRef → RecvResult → World → Option World
read_and_process_client_message t c (nothing true) w = some w
read_and_process_client_message t c (nothing false) w = handle_client_disconnection t c w
read_and_process_client_message t c (received bytes) w =
    let read_buffer = c_string bytes in
    process_messages (suc (length read_buffer)) t c read_buffer w
