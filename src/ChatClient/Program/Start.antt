-- ===== src/ChatClient/Program/Start.antt =====
-- `main` of client/main.c before its threads: the connection, and the question for a name. `inet_pton`
-- is an argument: the address that it makes of a text, if it is one.
use chat_application.Prelude.{
  ℕ, ◌-◌, ◌%◌, Bool, true, false, Option, none, some, List, [], ◌∷◌, ◌++◌, length, drop, ltb, ◌==◌,
  if◌then◌else◌, ◌>>=◌,
}
use chat_application.Prelude.Int.{ℤ, pos, negsuc}
use chat_application.CString.{Bytes, codes, c_string, write_text}
use chat_application.Config.{max_username_len}
use chat_application.ChatClient.{first_line, has_whitespace, name_command}
use chat_application.ChatClient.Receiving.{Chunk, failed, received}
use chat_application.ChatClient.Display.{Shown, output_win, input_win, info_win, ui_msg_display}
use chat_application.ChatClient.Program.{Process, threads_created}
use chat_application.UserInterface.{Layout, ui_init}
use chat_application.ChatClient.Program.Texts.{help_in_full}

-- `htons` of an `int`, by its value: it keeps the lowest sixteen bits.
abbrev pub port_of : ℤ → ℕ
port_of (pos n) = n % 65536
port_of (negsuc n) = 65535 - n % 65536

pub record Connection : Type 0 where
  pub socket_fd : ℕ
  pub sin_addr : ℕ
  pub sin_port : ℕ

-- What the kernel answers: the descriptor, if `socket` succeeds, and whether `connect` does. `none`
-- is the exit of the process. A text that is no address leaves the zeroed one.
unfoldable pub connect_to_server :
    (Bytes → Option ℕ) → Option ℕ → Bool → Bytes → ℤ → Option Connection
connect_to_server inet_pton none connected server_ip port = none
connect_to_server inet_pton (some fd) false server_ip port = none
connect_to_server inet_pton (some fd) true server_ip port = some (record {
  socket_fd = fd;
  sin_addr = elim (inet_pton server_ip) [ none ↦ 0 | some address ↦ address ];
  sin_port = port_of port;
})

unfoldable pub question : Bytes
question =
    codes "Enter username (Must not contain spaces and be no more than 31 characters in length): "

unfoldable pub name_too_long : Bytes
name_too_long = codes "Username too long. Maximum allowed is 31 characters. Try again.\n"

unfoldable pub name_empty : Bytes
name_empty = codes "Username cannot be empty. Try again.\n"

unfoldable pub name_with_space : Bytes
name_with_space = codes "Username cannot contain spaces or whitespace. Try again.\n"

unfoldable pub name_reserved : Bytes
name_reserved = codes "Username cannot be \"/exit\" or \"HELP\". Try again.\n"

unfoldable pub not_read : Bytes
not_read = codes "Error reading username. Try again.\n"

abbrev pub greeting : Bytes → Bytes
greeting username = codes "\t\n\nLive Long And Prosper " ++ username ++ b'\n' ∷ b'\n' ∷ []

-- What `get_username` shows for a name that it does not take.
unfoldable pub name_refusal : Bytes → Bytes
name_refusal line =
    if ltb (max_username_len - 1) (length line)
    then name_too_long
    else if length (first_line line) == 0
    then name_empty
    else if has_whitespace (first_line line)
    then name_with_space
    else name_reserved

-- The answer to what `wgetnstr` reads (`none` is an error) into `username`, and the message to send,
-- if the name is taken. The null byte behind a line of 32 bytes is past the buffer: that is a fault.
unfoldable pub answer_name : Option Bytes → Option (Shown × Option Bytes)
answer_name none = some (ui_msg_display output_win not_read, none)
answer_name (some line) = do
  text ← write_text max_username_len line
  some (elim (name_command text) [
    | none ↦ (ui_msg_display output_win (name_refusal text), none)
    | some message ↦ (ui_msg_display output_win (greeting (first_line text)), some message)
  ])

-- What has been shown, and the rest of the loop if the name has not been taken.
abbrev asked_again :
    Option (List Shown × Option Bytes) → Shown × Option Bytes → Option (List Shown × Option Bytes)
asked_again rest (shown, none) = do
  more ← rest
  some (ui_msg_display input_win question ∷ shown ∷ more.0, more.1)
asked_again rest (shown, some message) =
    some (ui_msg_display input_win question ∷ shown ∷ [], some message)

-- The loop of `get_username`, on what `wgetnstr` reads: what is shown, and the message that is sent
-- once a name has been taken. `none` is a write past the buffer.
unfoldable pub get_username : List (Option Bytes) → Option (List Shown × Option Bytes)
unfolding answer_name
get_username [] = some (ui_msg_display input_win question ∷ [], none)
get_username (answer ∷ answers) =
    let rest = get_username answers in do answered ← answer_name answer; asked_again rest answered

-- What the information window shows first: the connection, the help, and the first message of the
-- server without its command, if there is one.
unfoldable pub introduction : Bytes → Bytes → Chunk → List Shown
introduction server_ip port first_message =
    ui_msg_display info_win (
      codes "\tConnected to server at IP: "
      ++ (server_ip ++ (codes " PORT: " ++ (port ++ b'\n' ∷ []))))
    ∷ ui_msg_display info_win (
        codes
          " Thank you for choosing the Quantum Chatroom as your chatroom of choice\n The descriptive HELP message below can be shown at anytime by typing HELP!\n"
        ++ help_in_full)
    ∷ (elim first_message [
      | failed ↦ []
      | received bytes ↦
          if length bytes == 0
          then []
          else ui_msg_display info_win (c_string (drop 1 bytes) ++ b'\n' ∷ []) ∷ []
    ])

-- How `main` comes to its threads, or not: it exits; it asks for a name; or the threads run on a
-- connection, after the name has been sent.
pub data Opened : Type 0 where
  exits : Opened
  asks : List Shown → Opened
  runs : Connection → List Shown → Bytes → Process → Opened

-- What `main` is told: by `inet_pton`, by `socket` and `connect`, by the terminal, by `recv`, by
-- `wgetnstr` one by one, and by `send` of the name.
pub record Surroundings : Type 0 where
  pub inet_pton : Bytes → Option ℕ
  pub socket_fd : Option ℕ
  pub connects : Bool
  pub screen_height : ℕ
  pub screen_width : ℕ
  pub first_message : Chunk
  pub answers : List (Option Bytes)
  pub name_sent : Bool

unfoldable pub with_name : Bool → Connection → List Shown → List Shown × Option Bytes → Opened
with_name name_sent connection shown (more, none) = asks (shown ++ more)
with_name name_sent connection shown (more, some message) =
    if name_sent then runs connection (shown ++ more) message threads_created else exits

unfoldable pub connected :
    Surroundings → Bytes → Bytes → Option Connection → Option Layout → Option Opened
unfolding with_name
connected around server_ip port none layout = some exits
connected around server_ip port (some connection) none = some exits
connected around server_ip port (some connection) (some layout) = do
  asked ← get_username around.answers
  some (
      with_name around.name_sent connection (introduction server_ip port around.first_message)
        asked)

-- `main` with `argc` arguments, the address and the port among them, the port also as `atoi` reads
-- it and in digits. `none` is a write past a buffer.
unfoldable pub main : Surroundings → ℕ → Bytes → ℤ → Bytes → Option Opened
unfolding connected
main around argc server_ip server_port digits =
    if argc == 3
    then connected around server_ip digits
        (connect_to_server around.inet_pton around.socket_fd around.connects server_ip server_port)
        (ui_init around.screen_height around.screen_width)
    else some exits
