-- ===== src/RoomManager.antt =====
-- server/room_manager.c. A function that changes the state takes the client's address and the
-- state, and returns the new one; `none` is a write past the end of one of its buffers.
pub mod Texts
pub mod Slots
pub mod Broadcast
pub mod Listing
pub mod Leave
pub mod Join
pub mod Create
use chat_application.Prelude.{
  ℕ, zero, suc, ◌+◌, Bool, true, false, not, ◌&&◌, ◌||◌, Option, none, some, List, [], ◌∷◌, ◌++◌,
  ltb, leb, ◌==◌, if◌then◌else◌, ◌>>=◌, drop, length,
}
use chat_application.Prelude.Int.{ℤ, pos, incr, is_num}
use chat_application.Prelude.Memory.{first_from}
use chat_application.CString.{Bytes, char_at, write_text, strcat, isdigit, atoi, decimal}
use chat_application.Config.{
  ClientRef, Client, ClientState, in_chat_room, Room, World, no_clients, set_client, set_room,
  max_rooms, max_clients_room, max_room_name_len, max_message_len_from_server, cmd_room_create_ok,
  cmd_room_list_response, cmd_room_join_ok, cmd_room_msg, err_room_name_invalid,
  err_room_capacity_full, err_room_not_found,
}
use chat_application.Send.{send_message_to_client}
use Slots.{points_to, remove_client, place_client, set_first}
use Texts.{
  name_invalid, rooms_exhausted, created, list_header, room_word, no_rooms, left_suffix,
  entered_suffix, bad_number, no_such_room, room_full, joined,
}

-- The text behind the command and the space.
abbrev pub content : Client → Bytes
content client = drop 2 client.current_msg

-- `none` stands for -1.
unfoldable pub parse_room_number : Client → Option ℕ
unfolding isdigit atoi
parse_room_number client =
    let room_index = content client in
    if not (isdigit (char_at room_index 0))
    then none
    else if not (char_at room_index 1 == 0)
        && (not (isdigit (char_at room_index 1)) || not (char_at room_index 2 == 0))
    then none
    else some (atoi 0 room_index)

-- The branch of a free room in the loop of `create_chat_room`.
unfoldable pub open_room : ClientRef → ℕ → Bytes → Bytes → World → Option World
open_room c i room_name success_msg w = do
  stored ← write_text (max_room_name_len + 1) room_name
  send_message_to_client (w.clients c).client_fd cmd_room_create_ok success_msg (
      set_client c (record (w.clients c) { room_index = i; state = in_chat_room })
        (set_room i
          (record (w.rooms i) {
            in_use = true;
            num_clients = pos 1;
            room_name = stored;
            clients = set_first c (w.rooms i).clients;
          })
          w))

abbrev pub is_free : World → ℕ → Bool
is_free w i = not (w.rooms i).in_use

unfoldable pub create_chat_room : ClientRef → World → Option World
create_chat_room c w = do
  let fd = (w.clients c).client_fd
  let room_name = content (w.clients c)
  success_msg ← write_text max_message_len_from_server (created ++ room_name ++ b'\n' ∷ [])
  if ltb max_room_name_len (length room_name)
      then send_message_to_client fd err_room_name_invalid name_invalid w
      else elim (first_from (is_free w) max_rooms 0) [
        | none ↦ send_message_to_client fd err_room_capacity_full rooms_exhausted w
        | some i ↦ open_room c i room_name success_msg w
      ]

-- `"Room %d: %s\n"`
abbrev pub room_entry_text : ℕ → Room → Bytes
room_entry_text i room = room_word ++ decimal i ++ b':' ∷ b' ' ∷ (room.room_name ++ b'\n' ∷ [])

-- The loop of `send_avail_rooms`, with `rounds` rooms to go.
pub list_rooms : (ℕ → Room) → ℕ → ℕ → Bytes → Bool → Option (Bytes × Bool)
list_rooms rooms zero i room_list_msg rooms_avail = some (room_list_msg, rooms_avail)
list_rooms rooms (suc rounds) i room_list_msg rooms_avail =
    let skip = list_rooms rooms rounds (i + 1) room_list_msg rooms_avail in
    let add : Option (Bytes × Bool) = (do
      room_entry ← write_text 100 (room_entry_text i (rooms i))
      longer ← strcat max_message_len_from_server room_list_msg room_entry
      list_rooms rooms rounds (i + 1) longer true) in
    if (rooms i).in_use then add else skip

unfoldable pub send_avail_rooms : ClientRef → World → Option World
send_avail_rooms c w = do
  (listed, rooms_avail) ← list_rooms w.rooms max_rooms 0 list_header false
  room_list_msg ←
      if rooms_avail then some listed else strcat max_message_len_from_server listed no_rooms
  send_message_to_client (w.clients c).client_fd cmd_room_list_response room_list_msg w

-- The loop of `broadcast_message_in_room` over the array.
unfoldable pub broadcast : Bytes → ClientRef → List (Option ClientRef) → World → Option World
broadcast msg c [] w = some w
broadcast msg c (none ∷ ss) w = broadcast msg c ss w
broadcast msg c (some d ∷ ss) w =
    let skip = broadcast msg c ss w in
    let tell : Option World = (do
      w' ← send_message_to_client (w.clients d).client_fd cmd_room_msg msg w
      broadcast msg c ss w') in
    if d == c then skip else tell

unfoldable pub broadcast_message_in_room : Bytes → ℕ → ClientRef → World → Option World
broadcast_message_in_room msg i c w = broadcast msg c (w.rooms i).clients w

-- The room after its last client has left: `num_clients` is 0 already.
abbrev pub cleared : Room → Room
cleared room = record room { room_name = []; clients = no_clients; in_use = false }

unfoldable pub leave_room : ClientRef → ℕ → World → Option World
leave_room c i w = do
  client_left_msg ← write_text max_message_len_from_server ((w.clients c).name ++ left_suffix)
  let (clients, num) = remove_client c (w.rooms i).clients (w.rooms i).num_clients
  w' ←
      broadcast_message_in_room client_left_msg i c
        (set_room i (record (w.rooms i) { clients = clients; num_clients = num }) w)
  some (if is_num (w'.rooms i).num_clients 0 then set_room i (cleared (w'.rooms i)) w' else w')

-- The branch of a NULL slot in the loop of `join_chat_room`.
unfoldable pub enter_room : ClientRef → ℕ → Bytes → List (Option ClientRef) → World → Option World
enter_room c i msg clients w = do
  w₁ ← broadcast_message_in_room msg i c (
      set_room i
        (record (w.rooms i) { clients = clients; num_clients = incr (w.rooms i).num_clients }) w)
  w₂ ← send_message_to_client (w.clients c).client_fd cmd_room_join_ok joined w₁
  some (set_client c (record (w₂.clients c) { state = in_chat_room; room_index = i }) w₂)

unfoldable pub join_numbered : ClientRef → ℕ → Bytes → World → Option World
join_numbered c i msg w =
    let fd = (w.clients c).client_fd in
    if not (w.rooms i).in_use
    then send_message_to_client fd err_room_not_found no_such_room w
    else if is_num (w.rooms i).num_clients max_clients_room
    then send_message_to_client fd err_room_capacity_full room_full w
    else elim (place_client c (w.rooms i).clients) [
      | none ↦ some w
      | some clients ↦ enter_room c i msg clients w
    ]

unfoldable pub join_chat_room : ClientRef → World → Option World
join_chat_room c w = do
  client_room_join_msg ←
      write_text max_message_len_from_server ((w.clients c).name ++ entered_suffix)
  let invalid = send_message_to_client (w.clients c).client_fd err_room_not_found bad_number w
  elim (parse_room_number (w.clients c)) [
    | none ↦ invalid
    | some i ↦ if leb max_rooms i then invalid else join_numbered c i client_room_join_msg w
  ]
