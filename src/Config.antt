-- ===== src/Config.antt =====
-- server/server_config.h and server/protocol.h: the constants, the structures, and the state that
-- the threads share. Pointers to clients are addresses: worker `t`'s `clients[i]` has the address
-- `t * max_clients_per_thread + i`.
use chat_application.Prelude.{
  ℕ, ◌+◌, ◌*◌, Bool, true, false, Option, none, List, [], ◌∷◌, ◌++◌, replicate,
}
use chat_application.Prelude.Int.{ℤ}
use chat_application.Prelude.Memory.{update}
use chat_application.CString.{Bytes}

abbrev pub cmd_exit : ℕ
cmd_exit = 0x01

abbrev pub cmd_username_submit : ℕ
cmd_username_submit = 0x02

abbrev pub cmd_room_create_request : ℕ
cmd_room_create_request = 0x03

abbrev pub cmd_room_list_request : ℕ
cmd_room_list_request = 0x04

abbrev pub cmd_room_join_request : ℕ
cmd_room_join_request = 0x05

abbrev pub cmd_leave_room : ℕ
cmd_leave_room = 0x06

abbrev pub cmd_room_message_send : ℕ
cmd_room_message_send = 0x07

abbrev pub cmd_welcome_request : ℕ
cmd_welcome_request = 0x16

abbrev pub cmd_room_create_ok : ℕ
cmd_room_create_ok = 0x18

abbrev pub cmd_room_list_response : ℕ
cmd_room_list_response = 0x1A

abbrev pub cmd_room_join_ok : ℕ
cmd_room_join_ok = 0x1B

abbrev pub cmd_room_msg : ℕ
cmd_room_msg = 0x1C

abbrev pub cmd_room_leave_ok : ℕ
cmd_room_leave_ok = 0x1D

abbrev pub err_room_name_invalid : ℕ
err_room_name_invalid = 0x24

abbrev pub err_room_capacity_full : ℕ
err_room_capacity_full = 0x25

abbrev pub err_room_not_found : ℕ
err_room_not_found = 0x26

abbrev pub err_protocol_invalid_state_cmd : ℕ
err_protocol_invalid_state_cmd = 0x28

abbrev pub err_protocol_invalid_format : ℕ
err_protocol_invalid_format = 0x29

abbrev pub err_msg_empty_content : ℕ
err_msg_empty_content = 0x2A

abbrev pub err_server_full : ℕ
err_server_full = 0x2B

abbrev pub err_connecting : ℕ
err_connecting = 0x2C

abbrev pub err_username_length : ℕ
err_username_length = 0x2D

abbrev pub max_username_len : ℕ
max_username_len = 32

abbrev pub max_room_name_len : ℕ
max_room_name_len = 24

abbrev pub max_message_len_to_server : ℕ
max_message_len_to_server = 132

abbrev pub max_message_len_from_server : ℕ
max_message_len_from_server = max_room_name_len * 50 + 256

abbrev pub max_content_len : ℕ
max_content_len = 128

abbrev pub msg_terminator : Bytes
msg_terminator = b'\r' ∷ b'\n' ∷ []

abbrev pub max_threads : ℕ
max_threads = 4

abbrev pub max_clients_per_thread : ℕ
max_clients_per_thread = 1500

abbrev pub max_clients_room : ℕ
max_clients_room = 120

abbrev pub max_rooms : ℕ
max_rooms = 50

pub data ClientState : Type 0 where
  awaiting_username in_chat_lobby in_chat_room : ClientState

-- `==` on the states
abbrev pub is_state : ClientState → ClientState → Bool
is_state awaiting_username awaiting_username = true
is_state in_chat_lobby in_chat_lobby = true
is_state in_chat_room in_chat_room = true
is_state _ _ = false

pub record Client : Type 0 where
  pub client_fd : ℕ
  pub name : Bytes
  pub state : ClientState
  pub room_index : ℕ
  pub in_use : Bool
  pub current_msg : Bytes

-- `sizeof` of `current_msg`
abbrev pub current_msg_size : ℕ
current_msg_size = max_message_len_to_server * 3

-- A client after `memset(client, 0, sizeof(Client))`.
abbrev pub zeroed_client : Client
zeroed_client = record {
  client_fd = 0;
  name = [];
  state = awaiting_username;
  room_index = 0;
  in_use = false;
  current_msg = [];
}

abbrev pub ClientRef : Type 0
ClientRef = ℕ

pub record Room : Type 0 where
  pub clients : List (Option ClientRef)
  pub room_name : Bytes
  pub num_clients : ℤ
  pub in_use : Bool

-- The array of pointers after `memset(..., 0, ...)`.
unfoldable pub no_clients : List (Option ClientRef)
no_clients = replicate max_clients_room none

-- What the threads ask of the kernel, in order: the loop of `send` calls of a message, `close`,
-- and the calls on the epoll instance, the semaphore and the eventfd of a worker.
pub data Event : Type 0 where
  send : ℕ → Bytes → Event
  close : ℕ → Event
  epoll_add epoll_del : ℕ → ℕ → Event
  sem_wait sem_post : ℕ → Event
  notify : ℕ → ℕ → Event

-- `SERVER_ROOMS`; the clients of all workers, by address; `num_of_clients` and `notification_fd`,
-- by worker; the static `worker_index` of the distributor; the events so far, oldest first.
pub record World : Type 0 where
  pub rooms : ℕ → Room
  pub clients : ℕ → Client
  pub num_of_clients : ℕ → ℤ
  pub notification_fd : ℕ → ℕ
  pub worker_index : ℕ
  pub trace : List Event

abbrev pub slot : ℕ → ℕ → ClientRef
slot t i = t * max_clients_per_thread + i

abbrev pub emit : List Event → World → World
emit es w = record w { trace = w.trace ++ es }

abbrev pub set_client : ClientRef → Client → World → World
set_client c r w = record w { clients = update w.clients c r }

abbrev pub set_room : ℕ → Room → World → World
set_room i r w = record w { rooms = update w.rooms i r }

abbrev pub set_count : ℕ → ℤ → World → World
set_count t n w = record w { num_of_clients = update w.num_of_clients t n }
