-- ===== src/ChatClient/Receiving.antt =====
-- `receive_message`: what the client takes from its socket, chunk by chunk.
pub mod Chunks
use chat_application.Prelude.{
  ℕ, zero, suc, ◌+◌, ◌-◌, Bool, true, false, not, Option, none, some, List, [], ◌∷◌, ◌==◌,
  if◌then◌else◌, ◌>>=◌,
}
use chat_application.CString.{Bytes, c_string, char_at}
use chat_application.Config.{max_message_len_from_server}
use chat_application.ChatClient.{Session, parse_server_msg, exit_client}

-- What `recv` answers: -1, or bytes, none at the end of the stream.
pub data Chunk : Type 0 where
  failed : Chunk
  received : Bytes → Chunk

-- The branches behind `recv`; `none` is the exit of the process.
unfoldable pub take_chunk : Chunk → Session → Option (Bool × Session)
take_chunk failed s = none
take_chunk (received []) s = some (false, exit_client s)
take_chunk (received (b ∷ bytes)) s = some (true, parse_server_msg (c_string (b ∷ bytes)) s)

-- A round of the loop of `receive_message`; the flag says whether it goes on.
unfoldable pub receive_message : Chunk → Session → Option (Bool × Session)
unfolding take_chunk
receive_message chunk s = if not s.is_running then some (false, s) else take_chunk chunk s

-- The loop, on the chunks that arrive.
unfoldable pub receive_messages : List Chunk → Session → Option Session
receive_messages [] s = some s
receive_messages (chunk ∷ chunks) s = do
  (goes_on, s') ← receive_message chunk s
  let rest = receive_messages chunks s'
  if goes_on then rest else some s'

-- The loop over `buffer` in the branch of CMD_ROOM_MSG, with `rounds` bytes to go: the bytes of
-- `sanitized`, in a buffer as long as that of `recv`.
unfoldable pub sanitize : ℕ → Bytes → Bytes
sanitize zero buffer = []
sanitize (suc rounds) [] = []
sanitize (suc rounds) (c ∷ buffer) =
    let rest = sanitize rounds buffer in if c == b'\r' then rest else c ∷ rest

-- What is shown of a room message: from the second byte on.
unfoldable pub shown_message : Bytes → Bytes
unfolding sanitize
shown_message [] = []
shown_message (c ∷ buffer) = sanitize (max_message_len_from_server - 1) buffer
