-- ===== src/ClientStateManager/Format.antt =====
-- `validate_msg_format` against the message format of protocol.md.
use chat_application.Prelude.{
  ℕ, ◌≤◌, ◌≡◌, ◌↔◌, refl, Bool, false, none, [], ◌∷◌, arith, length, all, ◌==◌,
}
use chat_application.CString.{Bytes}
use chat_application.Config.{Client, cmd_exit, cmd_room_message_send, max_content_len}
use chat_application.ClientStateManager.{skip_spaces, format_error}

abbrev pub is_blank : Bytes → Bool
is_blank = all (λ c. c == b' ')

-- `<1-byte-command><space><content>`: a command from 0x01 to 0x07, and content that is not blank
-- and not longer than 128 bytes.
pub data IsMessage (msg : Bytes) : Type 0 where
  message :
      (cmd : ℕ) (content : Bytes)
      → msg ≡ cmd ∷ b' ' ∷ content
      → cmd_exit ≤ cmd
      → cmd ≤ cmd_room_message_send
      → length content ≤ max_content_len
      → is_blank content ≡ false
      → IsMessage msg

skip_spaces-is_blank : (s : Bytes) → (length (skip_spaces s) == 0) ≡ is_blank s
unfolding skip_spaces
skip_spaces-is_blank [] = refl
skip_spaces-is_blank (c ∷ s) = ground (arith, skip_spaces-is_blank s)

accepted :
    (client : Client) (msg : Bytes)
    → client.current_msg ≡ msg
    → format_error client ≡ none
    → IsMessage msg
unfolding format_error
accepted client [] e h = absurd (ground arith)
accepted client (cmd ∷ []) e h = absurd (ground arith)
accepted client (cmd ∷ sp ∷ content) e h =
    let blank = skip_spaces-is_blank content in
    message cmd content (ground arith) (ground arith) (ground arith) (ground arith) (ground arith)

not_refused : (client : Client) → IsMessage client.current_msg → format_error client ≡ none
unfolding format_error
not_refused client (message cmd [] e lo hi len blank) = absurd (ground arith)
not_refused client (message cmd (c ∷ content) e lo hi len blank) =
    let same = skip_spaces-is_blank (c ∷ content) in ground arith

-- A message passes the check of its format exactly if it is a command from 0x01 to 0x07, a space,
-- and content of at most 128 bytes that is not blank.
pub format_error-none_iff :
    (client : Client) → (format_error client ≡ none) ↔ IsMessage client.current_msg
format_error-none_iff client = (accepted client client.current_msg refl, not_refused client)
