-- ===== src/Logger.antt =====
-- server/logger.c and server/logger.h: what `log_message` prints, and how the process ends on an
-- error. The time, the thread's identifier and what `vprintf` makes of the format are arguments.
use chat_application.Prelude.{ℕ, Option, none, some, List, [], ◌∷◌, ◌++◌, ◌==◌, if◌then◌else◌}
use chat_application.CString.{Bytes, codes}

-- The escape sequence `"\033[...m"`
abbrev pub ansi : Bytes → Bytes
ansi style = (27 ∷ b'[' ∷ style) ++ b'm' ∷ []

abbrev pub ansi_red : Bytes
ansi_red = ansi (codes "31")

abbrev pub ansi_green : Bytes
ansi_green = ansi (codes "32")

abbrev pub ansi_magenta : Bytes
ansi_magenta = ansi (codes "35")

abbrev pub ansi_cyan : Bytes
ansi_cyan = ansi (codes "36")

abbrev pub ansi_reset : Bytes
ansi_reset = ansi (codes "0")

abbrev pub ansi_bold : Bytes
ansi_bold = ansi (codes "1")

abbrev pub ansi_yellow : Bytes
ansi_yellow = ansi (codes "33")

-- The four macros.
pub data Level : Type 0 where
  log_server_error log_info log_user_error log_client_disconnect : Level

-- What each puts in front of the format.
abbrev pub heading : Level → Bytes
heading log_server_error = ansi_bold ++ ansi_red ++ codes "SERVER ERROR: "
heading log_info = ansi_bold ++ ansi_green ++ codes "INFO: "
heading log_user_error = ansi_bold ++ ansi_yellow ++ codes "USER ERROR: "
heading log_client_disconnect = ansi_bold ++ ansi_cyan ++ codes "CLIENT DISCONNECTED: "

-- `text` is what the format and the arguments make.
unfoldable pub message : Level → Bytes → Bytes
message level text = heading level ++ text ++ ansi_reset

-- A call of `log_message`: the time as `strftime` prints it, if `localtime_r` succeeds; the thread's
-- identifier in digits; what is printed of the format.
pub record LogCall : Type 0 where
  pub time_stamp : Option Bytes
  pub tid : Bytes
  pub text : Bytes

-- The bytes of a vertical double line
abbrev pub bar : Bytes
bar = 0xE2 ∷ 0x95 ∷ 0x91 ∷ []

unfoldable pub stamp : Option Bytes → Bytes
stamp none = codes "localtime_r error\n"
stamp (some time_stamp) =
    ansi_magenta
    ++ bar
    ++ ansi_reset
    ++ b' ' ∷ ansi_bold
    ++ ansi_cyan
    ++ time_stamp
    ++ ansi_reset
    ++ b' ' ∷ ansi_magenta
    ++ bar
    ++ ansi_reset
    ++ b' ' ∷ []

-- What is done between `pthread_mutex_lock` and `pthread_mutex_unlock`.
pub data Output : Type 0 where
  prints : Bytes → Output
  flushes : Output

unfoldable pub thread_tag : Bytes → Bytes
thread_tag tid = ansi (codes "95;2") ++ codes "[TID- " ++ tid ++ b']' ∷ ansi_reset ++ b' ' ∷ []

unfoldable pub log_message : LogCall → List Output
log_message c =
    prints (stamp c.time_stamp) ∷ prints (thread_tag c.tid) ∷ prints c.text ∷ flushes ∷ []

-- What `print_erro_n_exit` leaves on the standard error, for `errno` and what `strerror` makes of it.
unfoldable pub print_erro_n_exit : (ℕ → Bytes) → ℕ → Bytes → Bytes
print_erro_n_exit strerror errno msg =
    if errno == 0 then msg ++ b'\n' ∷ [] else msg ++ b':' ∷ b' ' ∷ strerror errno ++ b'\n' ∷ []
