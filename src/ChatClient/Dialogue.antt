-- ===== src/ChatClient/Dialogue.antt =====
-- A line of the user, the server's answer, and the client again: what one round of a session needs.
pub mod Round
pub mod Talk
pub mod Chat
use chat_application.Prelude.{
  ℕ, suc, ◌+◌, ◌≤◌, ◌<◌, ◌≡◌, ◌≢◌, refl, sym, ap, ◌∙◌, Bool, true, false, some, List, [], ◌∷◌, ◌++◌,
  arith, ◌==◌, ==_refl, if◌then◌else◌, Bool-cases, inl, inr, length, ◌>>=◌, subst,
}
use chat_application.Prelude.Memory.{update}
use chat_application.CString.{Bytes, char_at, c_string}
use chat_application.CString.Laws.{strcat-fits}
use chat_application.Config.{
  ClientRef, ClientState, awaiting_username, in_chat_lobby, in_chat_room, Client, World, Event,
  send, close, epoll_add, epoll_del, sem_wait, sem_post, notify, is_state, set_client, cmd_exit,
  current_msg_size, max_message_len_to_server,
}
use chat_application.Membership.{IsConsistent}
use chat_application.Trace.{announced}
use chat_application.Trace.Says.{Says}
use chat_application.ClientStateManager.{
  append_msg, clear_msg, received, read_and_process_client_message, route_client_command,
}
use chat_application.ClientStateManager.Format.{IsMessage, is_blank}
use chat_application.ClientStateManager.Table.{IsAvailable}
use chat_application.ClientStateManager.Framing.{
  Frames, is_crlf, push, frames, deliver, process_messages-deliver,
}
use chat_application.ClientStateManager.Handlers.{ListFits}
use chat_application.ClientStateManager.Reading.{IsConsistent-current_msg, total, total-frames}
use chat_application.ClientStateManager.Reading.Exit.{bind_both}
use chat_application.ClientStateManager.Route.{Routes, route_client_command-Routes}
use chat_application.ClientStateManager.Transition.{
  Transition, stays, submits, creates, joins, leaves, OneRoom, Handled,
}
use chat_application.ChatClient.{Session, parse_server_msg, handle_commands, validate_and_format}
use chat_application.ChatClient.Lines.{has_no_cr}
use chat_application.ChatClient.Commands.{
  IsAccepted, state_of, handle_commands-IsAccepted, validate_and_format-IsAccepted,
}
use chat_application.ChatClient.Replies.{heard, heard-announced}

-- Client and server agree between two rounds: the client runs, its flag says whether the server has it
-- in a room, it has a name, and the server keeps no text of it.
pub record Agrees (c : ClientRef) (s : Session) (w : World) : Type 0 where
  pub running : s.is_running ≡ true
  pub flag : s.is_in_room ≡ is_state (w.clients c).state in_chat_room
  pub has_name : is_state (w.clients c).state awaiting_username ≡ false
  pub nothing_kept : (w.clients c).current_msg ≡ []

-- The lines of which the client makes a message that the server accepts: a command, or in a room a text.
pub data IsTyped (is_in_room : Bool) (line : Bytes) : Type 0 where
  command : (char_at line 0 == b'/') ≡ true → IsTyped is_in_room line
  text :
      is_in_room ≡ true
      → (char_at line 0 == b'/') ≡ false
      → length line ≤ 127
      → is_blank line ≡ false
      → has_no_cr line ≡ true
      → IsTyped is_in_room line

running_if :
    (mine : Bool) (bytes : Bytes) (s : Session)
    → (if mine then parse_server_msg bytes s else s).is_running ≡ s.is_running
running_if true bytes s = refl
running_if false bytes s = refl

heard-is_running :
    (fd : ℕ) (es : List Event) (s : Session) → (heard fd es s).is_running ≡ s.is_running
unfolding heard
heard-is_running fd [] s = refl
heard-is_running fd (send to bytes ∷ es) s =
    heard-is_running fd es (if to == fd then parse_server_msg bytes s else s)
    ∙ running_if (to == fd) bytes s
heard-is_running fd (close to ∷ es) s = heard-is_running fd es s
heard-is_running fd (epoll_add t to ∷ es) s = heard-is_running fd es s
heard-is_running fd (epoll_del t to ∷ es) s = heard-is_running fd es s
heard-is_running fd (sem_wait t ∷ es) s = heard-is_running fd es s
heard-is_running fd (sem_post t ∷ es) s = heard-is_running fd es s
heard-is_running fd (notify t to ∷ es) s = heard-is_running fd es s

-- By the flag of the client: the state that the server has it in.
state_of-flag :
    (state : ClientState) (flag : Bool)
    → flag ≡ is_state state in_chat_room
    → is_state state awaiting_username ≡ false
    → state_of flag ≡ state
state_of-flag awaiting_username flag e h = absurd (ground arith)
state_of-flag in_chat_lobby flag e h = rw e refl
state_of-flag in_chat_room flag e h = rw e refl

slash_line :
    (is_in_room : Bool) (line : Bytes)
    → (char_at line 0 == b'/') ≡ true
    → handle_commands is_in_room line max_message_len_to_server
      ≡ validate_and_format true is_in_room line max_message_len_to_server
unfolding validate_and_format
slash_line is_in_room line slash = rw slash refl

typed-IsAccepted :
    (is_in_room : Bool) (line out : Bytes)
    → IsTyped is_in_room line
    → validate_and_format true is_in_room line max_message_len_to_server ≡ some (some out)
    → IsAccepted (state_of is_in_room) out
typed-IsAccepted is_in_room line out (command slash) h =
    handle_commands-IsAccepted is_in_room line out (slash_line is_in_room line slash ∙ h)
typed-IsAccepted is_in_room line out (text inside plain short filled no_cr) h =
    let (out', sent, accepted) = validate_and_format-IsAccepted line plain short filled no_cr in
    let same : out' ≡ out = cc (sent, rw inside at h) in
    rw inside (subst (IsAccepted in_chat_room) same accepted)

Transition-named :
    {cmd : ℕ} {before after : ClientState}
    → Transition cmd before after
    → is_state before awaiting_username ≡ false
    → is_state after awaiting_username ≡ false
Transition-named (stays e) h = rw e h
Transition-named (submits e f g) h = rw g refl
Transition-named (creates e f g) h = rw g refl
Transition-named (joins e f g) h = rw g refl
Transition-named (leaves e f g) h = rw g refl

empty_first : (g h : Frames) (m : Bytes) → g ≡ ([] ∷ h.0, h.1) → g ≡ (m ∷ [], []) → length m ≡ 0
empty_first g h [] e f = refl
empty_first g h (b ∷ m) e f = absurd (ground (arith, sym e ∙ f))

-- A byte that is put in front is the first.
pushed : (a : ℕ) (g : Frames) {m : Bytes} → push a g ≡ (m ∷ [], []) → char_at m 0 ≡ a
pushed a ([], rest) e = absurd (ground arith)
pushed a (m₁ ∷ ms, rest) e = ground arith

-- A text that is one message begins with the first byte of the message.
frames-first : (s m : Bytes) → frames s ≡ (m ∷ [], []) → 0 < length m → char_at m 0 ≡ char_at s 0
unfolding frames
frames-first [] m e h = absurd (ground arith)
frames-first (a ∷ []) m e h = absurd (ground arith)
frames-first (a ∷ b ∷ s) m e h = elim (Bool-cases (is_crlf a b)) [
  | inl cut ↦ let none_left = empty_first _ (frames s) m refl (rw cut at e) in absurd (omega arith)
  | inr on ↦ pushed a (frames (b ∷ s)) (rw on at e)
]

IsMessage-filled : {msg : Bytes} → IsMessage msg → 0 < length msg
IsMessage-filled (IsMessage.message cmd content e _ _ _ _) = rw e (omega arith)

IsMessage-short : {msg : Bytes} → IsMessage msg → length msg < current_msg_size
IsMessage-short (IsMessage.message cmd content e _ _ short _) = rw e (omega arith)
