-- ===== src/ChatClient/Program.antt =====
-- The threads of client/main.c: the one that reads the user's lines, the one that receives, and
-- `main`, which waits for both. A step goes up to the next access to a flag or to the socket; what a
-- thread shows goes with the step.
pub mod Texts
pub mod Ends
pub mod Order
pub mod Kept
pub mod Reached
pub mod Progress
pub mod Race
pub mod Start
pub mod Names
pub mod Naming
use chat_application.Prelude.{
  ℕ, suc, ◌+◌, Bool, true, false, not, ◌&&◌, Option, none, some, List, [], ◌∷◌, ◌++◌, ◌==◌,
  if◌then◌else◌, ◌>>=◌, length,
}
use chat_application.CString.{Bytes, codes, char_at, c_string, write_text}
use chat_application.Config.{max_message_len_to_server, max_content_len}
use chat_application.ChatClient.{
  same_text, skip_whitespace, word, is_available, validate_and_format, first_line, room_flag,
}
use chat_application.ChatClient.Receiving.{Chunk, failed, received}
use chat_application.ChatClient.Display.{
  Shown, output_win, msg_win, input_win, ui_msg_display, display_server_msg,
}
use Texts.{
  input_error, empty_line, help_in_full, help_in_short, has_terminated, too_long, no_command,
  not_in_room, improper_usage, not_in_lobby, failed_to_send, exiting, connection_ended, own_line,
}

-- What the client asks of the terminal and of the kernel.
pub data Call : Type 0 where
  shows : Shown → Call
  sends : Bytes → Call
  closes cleans_up : Call

-- Where `handle_user_input` is: `entered` and `echoing` have the line, `sending` the text too;
-- `stopping` and `closing` are in `exit_client`.
pub data InputAt : Type 0 where
  prompting checking reading : InputAt
  entered : Bytes → InputAt
  sending : Bytes → Bytes → InputAt
  echoing : Bytes → InputAt
  stopping closing ended : InputAt

-- Where `receive_message` is: `flagging` has the command of a message that has been shown.
pub data ReceiveAt : Type 0 where
  checking receiving : ReceiveAt
  flagging : ℕ → ReceiveAt
  stopping closing ended : ReceiveAt

-- Where `main` is; `gone` is after an `exit(1)` of any thread.
pub data MainAt : Type 0 where
  joining_input joining_receive closing cleaning_up returned gone : MainAt

pub record Process : Type 0 where
  pub is_running : Bool
  pub is_in_room : Bool
  pub input_at : InputAt
  pub receive_at : ReceiveAt
  pub main_at : MainAt
  pub calls : List Call

abbrev pub call : Call → Process → Process
call x p = record p { calls = p.calls ++ x ∷ [] }

abbrev pub display : Shown → Process → Process
display s p = call (shows s) p

-- `main` after both `pthread_create` calls.
abbrev pub threads_created : Process
threads_created = record {
  is_running = true;
  is_in_room = false;
  input_at = InputAt.prompting;
  receive_at = ReceiveAt.checking;
  main_at = joining_input;
  calls = [];
}

-- What `validate_and_format` and `handle_commands` show of a line that they refuse.
unfoldable pub refusal_of_command : Bool → Bytes → Bytes
refusal_of_command is_in_room cmd =
    if is_in_room
    then not_in_room
    else if is_available false cmd
    then improper_usage
    else not_in_lobby

unfoldable pub refusal : Bool → Bool → Bytes → Bytes
unfolding refusal_of_command
refusal is_running is_in_room input =
    if not is_running
    then has_terminated
    else if char_at input 0 == b'/'
    then refusal_of_command is_in_room (word (skip_whitespace input)).0
    else if is_in_room
    then too_long
    else no_command

-- What follows `send_command`.
abbrev pub after_send : Bytes → InputAt
after_send command = if same_text command (codes "/exit") then InputAt.stopping else echoing command

abbrev pub go : InputAt → Process → Process
go at p = record p { input_at = at }

-- `send_command` up to `send`.
abbrev pub to_send : Bytes → Option Bytes → Process → Process
to_send command (some out) p = go (sending command out) p
to_send command none p = go (after_send command) (
    display (ui_msg_display output_win failed_to_send)
      (display (ui_msg_display output_win (refusal p.is_running p.is_in_room command)) p))

-- `set_global_bool` on either flag.
abbrev pub set_is_running : Bool → Process → Process
set_is_running state p = record p { is_running = state }

abbrev pub set_is_in_room : Bool → Process → Process
set_is_in_room state p = record p { is_in_room = state }

-- `exit_client` up to `close`.
abbrev pub stop : Process → Process
stop p = set_is_running false (display (ui_msg_display output_win exiting) p)

-- A step of `handle_user_input`, for what `wgetnstr` reads (`none` is an error) and whether `send`
-- succeeds. `none` is a write past a buffer, or the thread has ended.
unfoldable pub input_step : InputAt → Option Bytes → Bool → Process → Option Process
input_step prompting line ok p =
    some (go InputAt.checking (display (ui_msg_display input_win (codes "> ")) p))
input_step checking line ok p = some (go (if p.is_running then reading else InputAt.ended) p)
input_step reading none ok p =
    some (go InputAt.ended (display (ui_msg_display output_win input_error) p))
input_step reading (some line) ok p = do
  text ← write_text max_content_len line
  some (go (entered (first_line text)) p)
input_step (entered command) line ok p =
    if length command == 0
    then some (go prompting (display (ui_msg_display output_win empty_line) p))
    else if not (same_text command (codes "/exit")) && same_text command (codes "HELP!")
    then some (go prompting (display (ui_msg_display output_win help_in_full) p))
    else if not (same_text command (codes "/exit")) && same_text command (codes "HELP")
    then some (go prompting (display (ui_msg_display output_win help_in_short) p))
    else do
      result ← validate_and_format p.is_running p.is_in_room command max_message_len_to_server
      some (to_send command result p)
input_step (sending command out) line true p = some (go (after_send command) (call (sends out) p))
input_step (sending command out) line false p = some (record p { main_at = gone })
input_step (echoing command) line ok p = some (
    go prompting
      (if p.is_in_room then display (ui_msg_display msg_win (own_line command)) p else p))
input_step stopping line ok p = some (go InputAt.closing (stop p))
input_step closing line ok p = some (go InputAt.ended (call closes p))
input_step ended line ok p = none

abbrev pub move : ReceiveAt → Process → Process
move at p = record p { receive_at = at }

-- A step of `receive_message`, for what `recv` answers. The text shown begins at `buffer + 1`, also
-- behind a first byte 0.
unfoldable pub receive_step : ReceiveAt → Chunk → Process → Option Process
receive_step checking chunk p = some (move (if p.is_running then receiving else ReceiveAt.ended) p)
receive_step receiving failed p = some (record p { main_at = gone })
receive_step receiving (received []) p =
    some (move ReceiveAt.stopping (display (ui_msg_display output_win connection_ended) p))
receive_step receiving (received (b ∷ bytes)) p =
    let buffer = b ∷ c_string bytes in
    some (move (flagging (char_at buffer 0)) (display (display_server_msg buffer) p))
receive_step (flagging cmd) chunk p =
    some (move ReceiveAt.checking (set_is_in_room (room_flag cmd p.is_in_room) p))
receive_step stopping chunk p = some (move ReceiveAt.closing (stop p))
receive_step closing chunk p = some (move ReceiveAt.ended (call closes p))
receive_step ended chunk p = none

-- A `pthread_join` that can return: the thread has ended.
abbrev pub input_ended : InputAt → Bool
input_ended ended = true
input_ended _ = false

abbrev pub receive_ended : ReceiveAt → Bool
receive_ended ended = true
receive_ended _ = false

-- A step of `main`, which waits while a thread that it joins runs.
unfoldable pub main_step : MainAt → Process → Option Process
main_step joining_input p =
    if input_ended p.input_at then some (record p { main_at = joining_receive }) else none
main_step joining_receive p =
    if receive_ended p.receive_at then some (record p { main_at = MainAt.closing }) else none
main_step closing p = some (record (call closes p) { main_at = cleaning_up })
main_step cleaning_up p = some (record (call cleans_up p) { main_at = returned })
main_step returned p = none
main_step gone p = none

pub data Move : Type 0 where
  input : Option Bytes → Bool → Move
  receive : Chunk → Move
  main_thread : Move

-- The process has ended.
abbrev pub is_over : MainAt → Bool
is_over returned = true
is_over gone = true
is_over _ = false

unfoldable pub thread_step : Move → Process → Option Process
unfolding input_step receive_step main_step
thread_step (input line ok) p = input_step p.input_at line ok p
thread_step (receive chunk) p = receive_step p.receive_at chunk p
thread_step main_thread p = main_step p.main_at p

-- Once the process has ended there is none.
unfoldable pub step : Move → Process → Option Process
unfolding thread_step
step m p = if is_over p.main_at then none else thread_step m p
