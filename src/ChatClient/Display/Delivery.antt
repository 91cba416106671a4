-- ===== src/ChatClient/Display/Delivery.antt =====
-- A line typed in a room, from the client that sends it to the screens of those in the room.
use chat_application.Prelude.{
  ℕ, suc, ◌+◌, ◌≤◌, ◌<◌, ◌≡◌, refl, ap, ◌∙◌, true, false, Option, none, some, List, [], ◌∷◌, ◌++◌,
  arith, length, ◌==◌, ==_refl, if◌then◌else◌, Bool-cases, inl, inr, replicate, length-append,
}
use chat_application.CString.{Bytes, char_at}
use chat_application.Config.{
  ClientRef, Client, in_chat_room, World, emit, cmd_room_msg, cmd_room_message_send,
  max_content_len, max_message_len_from_server,
}
use chat_application.CString.Laws.{write_text-fits}
use chat_application.Membership.{IsConsistent}
use chat_application.Send.{packet}
use chat_application.RoomManager.Slots.{others}
use chat_application.RoomManager.Slots.Occupancy.{occurrences}
use chat_application.RoomManager.Broadcast.{notices, broadcast_message_in_room-notices}
use chat_application.ClientStateManager.{
  route_client_command, validate_msg_format, command_valid_for_state, reply_if, dispatch,
  handle_in_chat_room,
}
use chat_application.ClientStateManager.Format.{message, format_error-none_iff, is_blank}
use chat_application.ClientStateManager.Table.{IsAvailable, state_error-none_iff}
use chat_application.ChatClient.Lines.{has_no_cr}
use chat_application.ChatClient.Receiving.Chunks.{shown_message-packet}
use chat_application.ChatClient.Display.{Shown, msg_win, ui_msg_display, display_server_msg, screen}

-- A room message as it is shown: a line that begins with two spaces.
abbrev pub shown_line : Bytes → Shown
shown_line text = ui_msg_display msg_win (b' ' ∷ (b' ' ∷ text) ++ b'\n' ∷ [])

display_server_msg-room_message :
    (text : Bytes)
    → has_no_cr text ≡ true
    → length text < 1452
    → display_server_msg (packet cmd_room_msg text) ≡ shown_line text
unfolding display_server_msg
display_server_msg-room_message text plain short =
    ap (λ t. ui_msg_display msg_win (b' ' ∷ t))
      (shown_message-packet cmd_room_msg text plain (omega arith))

replicate-one : (n : ℕ) (x : Shown) → x ∷ replicate n x ≡ replicate (1 + n) x
replicate-one n x = let more : 1 + n ≡ suc n = omega arith in rw more refl

module _ (clients : ℕ → Client) (c d : ClientRef) (text : Bytes) (plain : has_no_cr text ≡ true)
    (short : length text < 1452) where
  -- Who stands in the array, and is not the sender, is shown the message as often as it stands there.
  pub screen-notices :
      (ss : List (Option ClientRef))
      → ((e : ClientRef)
          → 0 < occurrences e ss
          → (clients e).client_fd ≡ (clients d).client_fd
          → e ≡ d)
      → screen (clients d).client_fd (notices clients text (others c ss))
        ≡ replicate (if d == c then 0 else occurrences d ss) (shown_line text)
  unfolding screen notices others occurrences
  screen-notices [] alone = elim (Bool-cases (d == c)) [ inl e ↦ rw e refl | inr e ↦ rw e refl ]
  screen-notices (none ∷ ss) alone = screen-notices ss alone
  screen-notices (some e ∷ ss) alone =
      let rest = screen-notices ss (λ x h. alone x (ground arith)) in
      elim (Bool-cases (e == d)) [
        | inl own ↦
            let same : e ≡ d = ground arith in
            elim (Bool-cases (d == c)) [
              | inl self ↦ rw (same, self) (rw self at rest)
              | inr other ↦
                  rw
                    (
                      same,
                      other,
                      ==_refl d,
                      ==_refl (clients d).client_fd,
                      display_server_msg-room_message text plain short,
                    )
                    (ap (λ xs. shown_line text ∷ xs) (rw other at rest)
                      ∙ replicate-one (occurrences d ss) _)
            ]
        | inr foreign ↦
            let apart : ((clients e).client_fd == (clients d).client_fd) ≡ false =
              ground (arith, alone e (ground (arith, ==_refl e))) in
            let nothing : 0 + occurrences d ss ≡ occurrences d ss = omega arith in
            elim (Bool-cases (e == c)) [
              | inl self ↦ rw (self, foreign, nothing) rest
              | inr other ↦ rw (other, foreign, apart, nothing) rest
            ]
      ]

module _ (c : ClientRef) (line : Bytes) (w : World) where
  -- What the others in the room are told.
  abbrev pub told_line : Bytes
  told_line = (w.clients c).name ++ b':' ∷ b' ' ∷ line

  abbrev room_of : List (Option ClientRef)
  room_of = (w.rooms (w.clients c).room_index).clients

  pub length-told_line :
      length (w.clients c).name ≤ 32 → length line ≤ max_content_len → length told_line < 1452
  length-told_line named short =
      omega (arith, length-append (w.clients c).name (b':' ∷ b' ' ∷ line))

  -- The message of the line is broadcast.
  pub route_client_command-chat :
      (t : ℕ)
      → IsConsistent w.rooms w.clients
      → (w.clients c).state ≡ in_chat_room
      → (w.clients c).current_msg ≡ cmd_room_message_send ∷ b' ' ∷ line
      → is_blank line ≡ false
      → length line ≤ max_content_len
      → route_client_command t c w ≡ some (emit (notices w.clients told_line (others c room_of)) w)
  unfolding route_client_command validate_msg_format command_valid_for_state reply_if dispatch
      handle_in_chat_room
  route_client_command-chat t v inside kept filled short =
      let well_formed =
        (format_error-none_iff (w.clients c)).1
          (message cmd_room_message_send line kept (omega arith) (omega arith) short filled) in
      let available : IsAvailable (w.clients c).state (char_at (w.clients c).current_msg 0) =
        rw (inside, kept) (inr (inl refl)) in
      let allowed = (state_error-none_iff (w.clients c)).1 available in
      let fits = length-told_line (v.named c) short in
      rw
        (
          well_formed,
          allowed,
          inside,
          kept,
          write_text-fits max_message_len_from_server told_line (omega (arith, fits)),
        )
        (broadcast_message_in_room-notices told_line (w.clients c).room_index c w fits)
