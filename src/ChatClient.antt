-- ===== src/ChatClient.antt =====
-- client/main.c: what the client makes of the lines that the user types and of the messages that
-- the server sends. What is shown to the user is in Display, and the threads one by one are in
-- Program.
pub mod Lines
pub mod Commands
pub mod Limits
pub mod Rounds
pub mod Replies
pub mod Joining
pub mod Receiving
pub mod Dialogue
pub mod Display
pub mod Program
use chat_application.Prelude.{
  ℕ, ◌+◌, ◌-◌, Bool, true, false, not, ◌&&◌, ◌||◌, Option, none, some, List, [], ◌∷◌, ◌++◌, ltb,
  leb, ◌==◌, if◌then◌else◌, ◌>>=◌, length, take,
}
use chat_application.CString.{Bytes, codes, char_at, write_text}
use chat_application.Config.{
  max_username_len, max_content_len, max_message_len_to_server, cmd_room_create_ok,
  cmd_room_join_ok, cmd_room_leave_ok,
}

-- `isspace`, and what `%s` of `sscanf` skips and stops at
abbrev pub isspace : ℕ → Bool
isspace c = c == b' ' || (leb 9 c && leb c 13)

unfoldable pub skip_whitespace : Bytes → Bytes
skip_whitespace [] = []
skip_whitespace (c ∷ s) = let rest = skip_whitespace s in if isspace c then rest else c ∷ s

-- The word at the beginning, and what follows it
unfoldable pub word : Bytes → Bytes × Bytes
word [] = ([], [])
word (c ∷ s) =
    let rest = word s in
    let longer : Bytes × Bytes = (c ∷ rest.0, rest.1) in
    let stop : Bytes × Bytes = ([], c ∷ s) in if isspace c then stop else longer

-- `strcmp(a, b) == 0`
abbrev pub same_text : Bytes → Bytes → Bool
same_text [] [] = true
same_text [] (d ∷ b) = false
same_text (c ∷ a) [] = false
same_text (c ∷ a) (d ∷ b) = c == d && same_text a b

-- `snprintf(output, out_size, ...)` where `text` is what is printed: it is cut off if it is too long.
abbrev pub snprintf : ℕ → Bytes → Bytes
snprintf out_size text = take (out_size - 1) text

-- `format` is the text for an argument.
pub record CommandFormat : Type 0 where
  pub command : Bytes
  pub cmd_code : ℕ
  pub argc : ℕ
  pub format : Bytes → Bytes

-- A format `"\x03 %s\r\n"`, and a format `"\x01 dummy\r\n"`
abbrev pub with_arg : ℕ → Bytes → Bytes
with_arg cmd arg = (cmd ∷ b' ' ∷ arg) ++ b'\r' ∷ b'\n' ∷ []

abbrev pub with_dummy : ℕ → Bytes → Bytes
with_dummy cmd arg = (cmd ∷ b' ' ∷ codes "dummy") ++ b'\r' ∷ b'\n' ∷ []

abbrev pub commands : List CommandFormat
commands =
    record { command = codes "submit"; cmd_code = 0x02; argc = 1; format = with_arg 0x02 }
    ∷ record { command = codes "/create"; cmd_code = 0x03; argc = 1; format = with_arg 0x03 }
    ∷ record { command = codes "/join"; cmd_code = 0x05; argc = 1; format = with_arg 0x05 }
    ∷ record { command = codes "/exit"; cmd_code = 0x01; argc = 0; format = with_dummy 0x01 }
    ∷ record { command = codes "/msg"; cmd_code = 0x07; argc = 1; format = with_arg 0x07 }
    ∷ record { command = codes "/leave"; cmd_code = 0x06; argc = 0; format = with_dummy 0x06 }
    ∷ record { command = codes "/list"; cmd_code = 0x04; argc = 0; format = with_dummy 0x04 }
    ∷ []

-- The loop over the table.
abbrev pub find_command : List CommandFormat → Bytes → Option CommandFormat
find_command [] cmd = none
find_command (f ∷ fs) cmd =
    let rest = find_command fs cmd in if same_text cmd f.command then some f else rest

-- What `sscanf(input, "%s %s", cmd, arg1)` leaves, for an input that is not blank. Without a second
-- word `arg1` is not written; it is not read then either.
pub record Scanned : Type 0 where
  pub num_args : ℕ
  pub cmd : Bytes
  pub arg1 : Bytes

unfoldable pub scan : Bytes → Option Scanned
scan input = do
  let (first, rest) = word (skip_whitespace input)
  let (second, _) = word (skip_whitespace rest)
  cmd ← write_text 512 first
  arg1 ← write_text max_content_len second
  some (record { num_args = if length arg1 == 0 then 1 else 2; cmd = cmd; arg1 = arg1 })

-- The commands of the two branches of `handle_commands`
abbrev pub is_available : Bool → Bytes → Bool
is_available true cmd = same_text cmd (codes "/leave") || same_text cmd (codes "/exit")
is_available false cmd =
    same_text cmd (codes "/create")
    || (same_text cmd (codes "/join")
        || (same_text cmd (codes "/list") || same_text cmd (codes "/exit")))

-- In a room the number of arguments is not checked.
unfoldable pub format_found : Bool → ℕ → Scanned → Option CommandFormat → Option Bytes
format_found is_in_room out_size s none = none
format_found is_in_room out_size s (some f) =
    if is_in_room || s.num_args == f.argc + 1
    then some (snprintf out_size (f.format s.arg1))
    else none

unfoldable pub format_scanned : Bool → ℕ → Scanned → Option Bytes
unfolding format_found
format_scanned is_in_room out_size s =
    if is_available is_in_room s.cmd
    then format_found is_in_room out_size s (find_command commands s.cmd)
    else none

-- The outer `none` is a write past the end of a buffer, the inner one the answer `false`.
unfoldable pub handle_commands : Bool → Bytes → ℕ → Option (Option Bytes)
unfolding scan format_scanned
handle_commands is_in_room input out_size = do
  s ← scan input
  some (format_scanned is_in_room out_size s)

unfoldable pub validate_and_format : Bool → Bool → Bytes → ℕ → Option (Option Bytes)
validate_and_format is_running is_in_room input out_size =
    if not is_running
    then some none
    else if char_at input 0 == b'/'
    then handle_commands is_in_room input out_size
    else if is_in_room
    then if ltb max_content_len (length input)
      then some none
      else some (some (snprintf out_size (with_arg 0x07 input)))
    else some none

-- The two flags, the texts given to `send`, and whether the socket is closed.
pub record Session : Type 0 where
  pub is_running : Bool
  pub is_in_room : Bool
  pub sent : List Bytes
  pub closed : Bool

abbrev pub exit_client : Session → Session
exit_client s = record s { is_running = false; closed = true }

-- The flag after a message with this command.
abbrev pub room_flag : ℕ → Bool → Bool
room_flag cmd_code flag =
    if cmd_code == cmd_room_create_ok
    then true
    else if cmd_code == cmd_room_join_ok
    then true
    else if cmd_code == cmd_room_leave_ok
    then false
    else flag

abbrev pub parse_server_msg : Bytes → Session → Session
parse_server_msg buffer s = record s { is_in_room = room_flag (char_at buffer 0) s.is_in_room }

-- `s[strcspn(s, "\n")] = '\0'`
unfoldable pub first_line : Bytes → Bytes
first_line [] = []
first_line (c ∷ s) = let rest = first_line s in if c == b'\n' then [] else c ∷ rest

abbrev pub has_whitespace : Bytes → Bool
has_whitespace [] = false
has_whitespace (c ∷ s) = isspace c || has_whitespace s

-- The checks of `get_username` on the line in `username`, and the message for a name that passes
-- them.
unfoldable pub name_command : Bytes → Option Bytes
name_command line =
    let username = first_line line in
    if ltb (max_username_len - 1) (length line)
    then none
    else if length username == 0
    then none
    else if has_whitespace username
    then none
    else if same_text username (codes "/exit") || same_text username (codes "HELP")
    then none
    else some (snprintf 256 (with_arg 0x02 username))
