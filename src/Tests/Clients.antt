-- ===== src/Tests/Clients.antt =====
-- Applications of the theorems on server/client_state_manager.c.
use chat_application.Tests.{
  with_ann, with_ann-IsConsistent, start-ListFits, in_den, in_den-IsConsistent, start, submitting,
  submitting-IsConsistent, two_and_more,
}
use chat_application.Config.{in_chat_lobby, World}
use chat_application.Prelude.{
  ◌>>=◌, ◌++◌, ◌∷◌, ◌≡◌, refl, none, some, arith, [], ◌↔◌, replicate, ◌≤◌,
}
use chat_application.CString.{codes, char_at, c_string}
use chat_application.ClientStateManager.{
  route_client_command, process_messages, handle_client_disconnection, format_error, state_error,
  received, read_and_process_client_message, clear_msg,
}
use chat_application.ClientStateManager.Format.{IsMessage, format_error-none_iff}
use chat_application.ClientStateManager.Table.{IsAvailable, state_error-none_iff}
use chat_application.ClientStateManager.Route.{Routes, route_client_command-Routes}
use chat_application.ClientStateManager.Disconnect.{
  Disconnects, IsGone, handle_client_disconnection-Disconnects,
}
use chat_application.ClientStateManager.Reading.{read_and_process_client_message-overflows}
use chat_application.ClientStateManager.Reading.Exit.{
  two_exits, read_and_process_client_message-two_exits,
}
use chat_application.Prelude.Int.{negsuc}
use chat_application.RoomManager.Listing.Bound.{used_from, used_rooms}
use chat_application.ClientStateManager.Framing.{frames, deliver, process_messages-deliver}
use chat_application.ClientStateManager.Framing.Chunks.{
  first_chunk, second_chunk, keep_more, process_messages-split_terminator,
}

route_client_command-Routes_example :
    (w' : World) × (route_client_command 0 0 submitting ≡ some w') × Routes 0 0 submitting w'
route_client_command-Routes_example =
    route_client_command-Routes 0 0 submitting submitting-IsConsistent start-ListFits

handle_client_disconnection-Disconnects_example :
    (w' : World) × (handle_client_disconnection 0 0 in_den ≡ some w')
    × Disconnects 0 0 in_den w'
    × IsGone 0 in_den w'
handle_client_disconnection-Disconnects_example =
    handle_client_disconnection-Disconnects 0 0 in_den in_den-IsConsistent

process_messages-deliver_example :
    process_messages 20 0 0 two_and_more submitting
    ≡ deliver 0 0 (frames two_and_more).0 (frames two_and_more).1 submitting
process_messages-deliver_example =
    process_messages-deliver 0 0 20 two_and_more submitting (omega arith)

-- "ab", the terminator in two chunks, and "cd"
process_messages-split_terminator_example :
    (do
      w₁ ← process_messages 4 0 0 (first_chunk (codes "ab")) submitting
      process_messages 6 0 0 (second_chunk (codes "cd")) w₁)
    ≡ (do
      w' ←
          route_client_command 0 0
            (keep_more 0 (first_chunk (codes "ab") ++ b'\n' ∷ codes "cd") submitting)
      some (clear_msg 0 w'))
process_messages-split_terminator_example =
    process_messages-split_terminator 0 0 (codes "ab") (codes "cd") submitting refl refl
      (omega arith)

format_error-none_iff_example :
    (format_error (submitting.clients 0) ≡ none) ↔ IsMessage (submitting.clients 0).current_msg
format_error-none_iff_example = format_error-none_iff (submitting.clients 0)

state_error-none_iff_example :
    (state_error (submitting.clients 0) ≡ none)
    ↔ IsAvailable (submitting.clients 0).state (char_at (submitting.clients 0).current_msg 0)
state_error-none_iff_example = state_error-none_iff (submitting.clients 0)

no_rooms_used : used_rooms start.rooms ≤ 40
unfolding used_from
no_rooms_used = omega arith

read_and_process_client_message-two_exits_example :
    (w' : World) × (read_and_process_client_message 0 0
        (received two_exits)
        (with_ann in_chat_lobby [])
      ≡ some w')
    × (w'.num_of_clients 0 ≡ negsuc 1)
read_and_process_client_message-two_exits_example =
    read_and_process_client_message-two_exits 0 0 (with_ann in_chat_lobby [])
      (with_ann-IsConsistent in_chat_lobby [] refl) no_rooms_used refl

-- A client that has sent 390 bytes without a terminator, and ten bytes more
abbrev nearly_full : World
nearly_full = with_ann in_chat_lobby (replicate 390 b'x')

read_and_process_client_message-overflows_example :
    read_and_process_client_message 0 0 (received (codes "xxxxxxxxxx")) nearly_full ≡ none
unfolding frames c_string
read_and_process_client_message-overflows_example =
    read_and_process_client_message-overflows 0 0 (codes "xxxxxxxxxx") nearly_full refl
      (omega arith) (omega arith)
