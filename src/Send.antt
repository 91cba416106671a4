-- ===== src/Send.antt =====
-- `send_message_to_client` of server/client_state_manager.c: the packet, and the loop of `send`
-- calls that hands it to the kernel.
pub mod Packet
pub mod Transmit
use chat_application.Prelude.{ℕ, Bool, true, false, Option, some, List, [], ◌∷◌, ◌++◌, ◌>>=◌, drop}
use chat_application.CString.{Bytes, write_text}
use chat_application.Config.{World, send, emit, max_message_len_from_server, msg_terminator}

-- `"%c %s%s"` with the command, the message and the terminator
abbrev pub packet : ℕ → Bytes → Bytes
packet cmd message = cmd ∷ b' ' ∷ (message ++ msg_terminator)

-- The event stands for the loop `transmit` on the buffer: no handler reads its outcome.
unfoldable pub send_message_to_client : ℕ → ℕ → Bytes → World → Option World
unfolding write_text
send_message_to_client fd cmd message w = do
  message_buffer ← write_text max_message_len_from_server (packet cmd message)
  some (emit (send fd message_buffer ∷ []) w)

-- What one `send` call answers: -1, with whether `errno` is EAGAIN or EWOULDBLOCK, or the number
-- of bytes that it took.
pub data SendResult : Type 0 where
  failed : Bool → SendResult
  accepted : ℕ → SendResult

-- How the loop stands: all sent, given up on an error, or still asking when the answers end.
pub data Progress : Type 0 where
  complete given_up asking : Progress

-- The loop on the bytes not yet sent, against the kernel's answers; it also returns what is left.
pub transmit : List SendResult → Bytes → Progress × Bytes
transmit answers [] = (complete, [])
transmit [] (b ∷ rest) = (asking, b ∷ rest)
transmit (failed true ∷ answers) (b ∷ rest) = transmit answers (b ∷ rest)
transmit (failed false ∷ answers) (b ∷ rest) = (given_up, b ∷ rest)
transmit (accepted n ∷ answers) (b ∷ rest) = transmit answers (drop n (b ∷ rest))
