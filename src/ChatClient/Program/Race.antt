-- ===== src/ChatClient/Program/Race.antt =====
-- The order of the client's threads around a socket that one of them closes.
use chat_application.Prelude.{
  ◌<◌, ◌≡◌, refl, Bool, true, false, not, ◌&&◌, none, some, List, [], ◌∷◌, ◌++◌, ◌==◌, arith,
  Bool-cases, inl, inr, length,
}
use chat_application.CString.{Bytes, codes, char_at}
use chat_application.CString.Laws.{write_text-fits}
use chat_application.Config.{max_message_len_to_server, max_content_len}
use chat_application.ChatClient.{same_text, validate_and_format, first_line}
use chat_application.ChatClient.Receiving.{received}
use chat_application.ChatClient.Display.{output_win, input_win, ui_msg_display}
use chat_application.ChatClient.Program.Texts.{exiting, connection_ended}
use chat_application.ChatClient.Program.{
  Call, shows, sends, closes, Process, input, receive, step, thread_step, input_step, receive_step,
  threads_created, InputAt, stopping, sending, entered,
}
use chat_application.ChatClient.Program.Reached.{Reached, created, stepped}

-- Outside a room only what begins with a slash is sent.
sent-slash :
    (command out : Bytes)
    → validate_and_format true false command max_message_len_to_server ≡ some (some out)
    → (char_at command 0 == b'/') ≡ true
unfolding validate_and_format
sent-slash command out e = elim (Bool-cases (char_at command 0 == b'/')) [
  | inl slash ↦ slash
  | inr other ↦ absurd (ground (arith, rw other at e))
]

slash-not_empty :
    (command : Bytes) → (char_at command 0 == b'/') ≡ true → (length command == 0) ≡ false
slash-not_empty [] h = absurd (ground arith)
slash-not_empty (c ∷ command) h = ground arith

slash-no_help :
    (command help : Bytes)
    → (char_at command 0 == b'/') ≡ true
    → same_text command (b'H' ∷ help) ≡ false
slash-no_help [] help h = refl
slash-no_help (c ∷ command) help h = ground arith

and_false : (b : Bool) {c : Bool} → c ≡ false → (b && c) ≡ false
and_false true h = h
and_false false h = refl

-- The states before and after the text is made of the line.
abbrev typed : Bytes → Process
typed command = record threads_created {
  input_at = entered command;
  receive_at = stopping;
  calls =
      shows (ui_msg_display input_win (codes "> "))
      ∷ shows (ui_msg_display output_win connection_ended)
      ∷ [];
}

abbrev formatted : Bytes → Bytes → Process
formatted command out = record (typed command) { input_at = sending command out }

-- The prompt has been shown, and the thread reads.
abbrev prompted : Process
prompted = record threads_created {
  input_at = InputAt.reading;
  calls = shows (ui_msg_display input_win (codes "> ")) ∷ [];
}

abbrev read : Bytes → Process
read command = record prompted { input_at = entered command }

typed-Reached : (line : Bytes) → length line < max_content_len → Reached (typed (first_line line))
unfolding step thread_step input_step receive_step
typed-Reached line short =
    let given : step (input (some line) true) prompted ≡ some (read (first_line line)) =
      rw (write_text-fits max_content_len line short) refl in
    stepped (receive (received []))
      (stepped (receive (received []))
        (stepped (input (some line) true)
          (stepped (input none true) (stepped (input none true) created tt refl) tt refl) short
          given)
        tt refl)
      tt refl

typed-formatted :
    (command out : Bytes)
    → validate_and_format true false command max_message_len_to_server ≡ some (some out)
    → step (input none true) (typed command) ≡ some (formatted command out)
unfolding step thread_step input_step
typed-formatted command out e =
    let slash = sent-slash command out e in
    rw
      (
        slash-not_empty command slash,
        and_false (not (same_text command (codes "/exit")))
            (slash-no_help command (codes "ELP!") slash),
        and_false (not (same_text command (codes "/exit")))
            (slash-no_help command (codes "ELP") slash),
        e,
      )
      refl

-- A line of at most 127 bytes of which the client makes a text outside a room: if the server ends
-- the connection when the line has been typed, there is an order of the steps in which the client
-- closes its socket and then sends the text on it.
pub text-sent_on_closed :
    (line out : Bytes)
    → length line < max_content_len
    → validate_and_format true false (first_line line) max_message_len_to_server ≡ some (some out)
    → (q : Process) × Reached q
      × (before : List Call) × (q.calls ≡ before ++ closes ∷ sends out ∷ [])
unfolding step thread_step input_step receive_step
text-sent_on_closed line out short e = (
  _,
  stepped (input none true)
      (stepped (receive (received []))
        (stepped (receive (received []))
          (stepped (input none true) (typed-Reached line short) tt
            (typed-formatted (first_line line) out e))
          tt refl)
        tt refl)
      tt refl,
  shows (ui_msg_display input_win (codes "> "))
      ∷ shows (ui_msg_display output_win connection_ended)
      ∷ shows (ui_msg_display output_win exiting)
      ∷ [],
  refl,
)
