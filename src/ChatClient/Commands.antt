-- ===== src/ChatClient/Commands.antt =====
-- What the client makes of a line is one message that the server's checks let pass.
use chat_application.Prelude.{
  ℕ, ◌+◌, ◌≤◌, ◌<◌, ◌≡◌, refl, sym, ◌⊎◌, Bool, true, false, some, [], ◌∷◌, arith, length,
  length-append, ltb, ◌==◌, if◌then◌else◌, Bool-cases, Option-cases, inl, inr,
}
use chat_application.CString.{Bytes, codes, char_at, write_text}
use chat_application.Config.{
  ClientState, in_chat_lobby, in_chat_room, cmd_exit, cmd_room_message_send, max_content_len,
  max_message_len_to_server,
}
use chat_application.ClientStateManager.Format.{is_blank, IsMessage, message}
use chat_application.ClientStateManager.Table.{IsAvailable}
use chat_application.ClientStateManager.Framing.{frames}
use chat_application.ChatClient.{
  CommandFormat, commands, find_command, skip_whitespace, word, same_text, with_arg, with_dummy,
  Scanned, scan, snprintf, is_available, format_found, format_scanned, handle_commands,
  validate_and_format, has_whitespace,
}
use chat_application.ChatClient.Lines.{
  has_no_cr, frames-line, snprintf-fits, same_text→eq, has_whitespace-word, has_no_cr-of_word,
  is_blank-of_word,
}

-- The state that the server has a client in, by the client's flag.
abbrev pub state_of : Bool → ClientState
state_of is_in_room = if is_in_room then in_chat_room else in_chat_lobby

-- The server finds one message in the text, with nothing left over; the message has the format, and
-- its command is available in the state.
pub record IsAccepted (state : ClientState) (text : Bytes) : Type 0 where
  pub msg : Bytes
  pub framed : frames text ≡ (msg ∷ [], [])
  pub well_formed : IsMessage msg
  pub available : IsAvailable state (char_at msg 0)

pub content-IsAccepted :
    (size : ℕ) (state : ClientState) (cmd : ℕ) (content : Bytes)
    → length content + 4 < size
    → cmd_exit ≤ cmd
    → cmd ≤ cmd_room_message_send
    → length content ≤ 127
    → is_blank content ≡ false
    → has_no_cr content ≡ true
    → IsAvailable state cmd
    → IsAccepted state (snprintf size (with_arg cmd content))
content-IsAccepted size state cmd content fits lo hi short not_blank no_cr available =
    rw
      (snprintf-fits size (with_arg cmd content)
        (omega (arith, length-append content (b'\r' ∷ b'\n' ∷ []))))
      (record {
        msg = cmd ∷ b' ' ∷ content;
        framed = frames-line (cmd ∷ b' ' ∷ content) (ground arith);
        well_formed = message cmd content refl lo hi (omega arith) not_blank;
        available = available;
      })

-- What is known of the second word.
abbrev IsScanned : Scanned → Type 0
IsScanned s =
    (length s.arg1 ≤ 127) × (has_whitespace s.arg1 ≡ false) × (s.num_args ≡ 2 → 0 < length s.arg1)

scan-IsScanned : (input : Bytes) {s : Scanned} → scan input ≡ some s → IsScanned s
unfolding scan write_text
scan-IsScanned input h =
    let plain = has_whitespace-word (skip_whitespace (word (skip_whitespace input)).1) in
    (ground arith, ground arith, ground arith)

some-inj : {a b : Bytes} → some a ≡ some b → a ≡ b
some-inj {a} {b} h = ground arith

module _ (s : Scanned) (v : IsScanned s) where
  word-IsAccepted :
      (state : ClientState) (cmd : ℕ)
      → cmd_exit ≤ cmd
      → cmd ≤ cmd_room_message_send
      → s.num_args ≡ 2
      → IsAvailable state cmd
      → IsAccepted state (snprintf max_message_len_to_server (with_arg cmd s.arg1))
  word-IsAccepted state cmd lo hi two available =
      content-IsAccepted max_message_len_to_server state cmd s.arg1 (omega (arith, v.0)) lo hi v.0
        (is_blank-of_word s.arg1 (v.2 two) v.1) (has_no_cr-of_word s.arg1 v.1) available

  dummy-IsAccepted :
      (state : ClientState) (cmd : ℕ)
      → cmd_exit ≤ cmd
      → cmd ≤ cmd_room_message_send
      → IsAvailable state cmd
      → IsAccepted state (snprintf max_message_len_to_server (with_dummy cmd s.arg1))
  dummy-IsAccepted state cmd lo hi available =
      content-IsAccepted max_message_len_to_server state cmd (codes "dummy") (omega arith) lo hi
        (omega arith) refl refl available

  -- The entry of the table that was found, outside a room and in one.
  found-IsAccepted :
      (is_in_room : Bool) (state : ClientState) (f : CommandFormat) {out : Bytes}
      → (is_in_room ≡ true ⊎ s.num_args ≡ f.argc + 1
          → IsAccepted state (snprintf max_message_len_to_server (f.format s.arg1)))
      → format_found is_in_room max_message_len_to_server s (some f) ≡ some out
      → IsAccepted state out
  unfolding format_found
  found-IsAccepted true state f good h = rw (sym (some-inj h)) (good (inl refl))
  found-IsAccepted false state f good h = elim (Bool-cases (s.num_args == f.argc + 1)) [
    | inl e ↦ rw (sym (some-inj (rw e at h))) (good (inr (ground arith)))
    | inr e ↦ absurd (ground arith)
  ]

  -- A command of the table, by its name.
  named-IsAccepted :
      (is_in_room : Bool) (name : Bytes) {f : CommandFormat} {out : Bytes}
      → same_text s.cmd name ≡ true
      → is_available is_in_room name ≡ true
      → find_command commands name ≡ some f
      → format_scanned is_in_room max_message_len_to_server s ≡ some out
      → (is_in_room ≡ true ⊎ s.num_args ≡ f.argc + 1
          → IsAccepted (state_of is_in_room) (snprintf max_message_len_to_server (f.format s.arg1)))
      → IsAccepted (state_of is_in_room) out
  unfolding format_scanned
  named-IsAccepted is_in_room name {f} e available found h good =
      let cmd = same_text→eq s.cmd name e in
      found-IsAccepted is_in_room (state_of is_in_room) f good (rw (cmd, available, found) at h)

  two_args : (n : ℕ) → false ≡ true ⊎ n ≡ 2 → n ≡ 2
  two_args n (inl e) = absurd (ground arith)
  two_args n (inr e) = e

  format_scanned-IsAccepted :
      (is_in_room : Bool) {out : Bytes}
      → format_scanned is_in_room max_message_len_to_server s ≡ some out
      → IsAccepted (state_of is_in_room) out
  unfolding format_scanned
  format_scanned-IsAccepted true h = elim (Bool-cases (same_text s.cmd (codes "/leave"))) [
    | inl e ↦
        named-IsAccepted true (codes "/leave") e refl refl h
          (λ _. dummy-IsAccepted in_chat_room 6 (omega arith) (omega arith) (inr (inr refl)))
    | inr no_leave ↦ elim (Bool-cases (same_text s.cmd (codes "/exit"))) [
      | inl e ↦
          named-IsAccepted true (codes "/exit") e refl refl h
            (λ _. dummy-IsAccepted in_chat_room 1 (omega arith) (omega arith) (inl refl))
      | inr no_exit ↦ absurd (ground arith)
    ]
  ]
  format_scanned-IsAccepted false h = elim (Bool-cases (same_text s.cmd (codes "/create"))) [
    | inl e ↦ named-IsAccepted false (codes "/create") e refl refl h (λ n.
        word-IsAccepted in_chat_lobby 3 (omega arith) (omega arith) (two_args _ n) (inr (inl refl)))
    | inr no_create ↦ elim (Bool-cases (same_text s.cmd (codes "/join"))) [
      | inl e ↦ named-IsAccepted false (codes "/join") e refl refl h (λ n.
          word-IsAccepted in_chat_lobby 5 (omega arith) (omega arith) (two_args _ n)
            (inr (inr (inr refl))))
      | inr no_join ↦ elim (Bool-cases (same_text s.cmd (codes "/list"))) [
        | inl e ↦ named-IsAccepted false (codes "/list") e refl refl h (λ _.
            dummy-IsAccepted in_chat_lobby 4 (omega arith) (omega arith) (inr (inr (inl refl))))
        | inr no_list ↦ elim (Bool-cases (same_text s.cmd (codes "/exit"))) [
          | inl e ↦
              named-IsAccepted false (codes "/exit") e refl refl h
                (λ _. dummy-IsAccepted in_chat_lobby 1 (omega arith) (omega arith) (inl refl))
          | inr no_exit ↦ absurd (ground arith)
        ]
      ]
    ]
  ]

-- What the client sends for a line that begins with a slash is one message that the checks of the
-- server let pass, in the lobby or in a room as the flag of the client says.
pub handle_commands-IsAccepted :
    (is_in_room : Bool) (input out : Bytes)
    → handle_commands is_in_room input max_message_len_to_server ≡ some (some out)
    → IsAccepted (state_of is_in_room) out
unfolding handle_commands
handle_commands-IsAccepted is_in_room input out h = elim (Option-cases (scan input)) [
  | inl fault ↦ absurd (ground arith)
  | inr (s, e) ↦ format_scanned-IsAccepted s (scan-IsScanned input e) is_in_room (ground arith)
]

-- A line of at most 127 bytes that does not begin with a slash, is not blank and has no carriage
-- return is sent in a room as one message that the checks of the server let pass.
pub validate_and_format-IsAccepted :
    (input : Bytes)
    → (char_at input 0 == b'/') ≡ false
    → length input ≤ 127
    → is_blank input ≡ false
    → has_no_cr input ≡ true
    → (out : Bytes) × (validate_and_format true true input max_message_len_to_server
        ≡ some (some out))
      × IsAccepted in_chat_room out
unfolding validate_and_format
validate_and_format-IsAccepted input typed short not_blank no_cr =
    let fits : ltb max_content_len (length input) ≡ false = ground arith in
    (
      snprintf max_message_len_to_server (with_arg 7 input),
      rw (typed, fits) refl,
      content-IsAccepted max_message_len_to_server in_chat_room 7 input (omega arith) (omega arith)
          (omega arith) short not_blank no_cr (inr (inl refl)),
    )
