-- ===== src/ChatClient/Display/Everyone.antt =====
-- Who is shown a line that is typed in a room.
use chat_application.Prelude.{
  ℕ, suc, ◌≤◌, ◌<◌, ◌≡◌, refl, sym, ap, ◌∙◌, true, false, not, some, List, [], ◌∷◌, ◌++◌, arith,
  length, length-append, ◌==◌, ==_refl, if◌then◌else◌, replicate, all, ltb,
}
use chat_application.Prelude.Memory.{update_elim}
use chat_application.CString.{Bytes, char_at, c_string}
use chat_application.CString.Laws.{strcat-fits}
use chat_application.Config.{
  ClientRef, in_chat_room, World, Event, is_state, emit, set_client, current_msg_size,
  max_content_len, max_message_len_to_server, cmd_room_message_send,
}
use chat_application.Membership.{IsConsistent, place_of}
use chat_application.RoomManager.Slots.{others}
use chat_application.RoomManager.Slots.Occupancy.{occurrences}
use chat_application.RoomManager.Broadcast.{notices}
use chat_application.ClientStateManager.{
  append_msg, clear_msg, received, read_and_process_client_message,
}
use chat_application.ClientStateManager.Format.{is_blank}
use chat_application.ClientStateManager.Framing.{deliver, process_messages-deliver}
use chat_application.ClientStateManager.Reading.{IsConsistent-current_msg}
use chat_application.ChatClient.{validate_and_format, with_arg}
use chat_application.ChatClient.Lines.{has_no_cr, frames-line, snprintf-fits}
use chat_application.ChatClient.Display.{Shown, screen}
use chat_application.ChatClient.Display.Delivery.{
  shown_line, told_line, length-told_line, route_client_command-chat, screen-notices,
}

-- A text without a byte 0 and with a terminator is the string of its bytes.
c_string-line :
    (s : Bytes)
    → all (λ b. not (b == 0)) s ≡ true
    → c_string (s ++ b'\r' ∷ b'\n' ∷ []) ≡ s ++ b'\r' ∷ b'\n' ∷ []
unfolding c_string
c_string-line [] h = refl
c_string-line (b ∷ s) h =
    let some_byte : (b == 0) ≡ false = ground arith in
    rw some_byte (ap (λ t. b ∷ t) (c_string-line s (ground arith)))

has_no_cr-append :
    (s t : Bytes) → has_no_cr s ≡ true → has_no_cr t ≡ true → has_no_cr (s ++ t) ≡ true
has_no_cr-append [] t h k = k
has_no_cr-append (b ∷ s) t h k = let rest = has_no_cr-append s t (ground arith) k in ground arith

-- The lines that go out whole as the text of a message.
pub record IsLine (line : Bytes) : Type 0 where
  pub plain : (char_at line 0 == b'/') ≡ false
  pub short : length line ≤ 127
  pub filled : is_blank line ≡ false
  pub no_cr : has_no_cr line ≡ true
  pub no_nul : all (λ b. not (b == 0)) line ≡ true

module _ (t : ℕ) (c : ClientRef) (line : Bytes) (w : World) where
  -- The state in which the message is dealt with.
  abbrev at_hand : World
  at_hand =
      set_client c (record (w.clients c) { current_msg = cmd_room_message_send ∷ b' ' ∷ line }) w

  abbrev told : List Event
  told =
      notices at_hand.clients (told_line c line at_hand)
        (others c (at_hand.rooms (at_hand.clients c).room_index).clients)

  at_hand-client_fd : (d : ClientRef) → (at_hand.clients d).client_fd ≡ (w.clients d).client_fd
  at_hand-client_fd d =
      update_elim (λ e x. x.client_fd ≡ (w.clients e).client_fd) w.clients c _ refl (λ e n. refl) d

  -- What the client makes of the line.
  line-sent :
      IsLine line
      → validate_and_format true true line max_message_len_to_server
        ≡ some (some (with_arg cmd_room_message_send line))
  unfolding validate_and_format
  line-sent typed =
      let fits : ltb max_content_len (length line) ≡ false = ground (arith, typed.short) in
      rw
        (
          typed.plain,
          fits,
          snprintf-fits max_message_len_to_server (with_arg cmd_room_message_send line)
              (omega (arith, typed.short, length-append line (b'\r' ∷ b'\n' ∷ []))),
        )
        refl

  -- What the server does with it.
  line-read :
      IsLine line
      → IsConsistent w.rooms w.clients
      → (w.clients c).state ≡ in_chat_room
      → (w.clients c).current_msg ≡ []
      → read_and_process_client_message t c (received (with_arg cmd_room_message_send line)) w
        ≡ some (clear_msg c (emit told at_hand))
  unfolding read_and_process_client_message deliver append_msg
  line-read typed v inside empty =
      let routed =
        route_client_command-chat c line at_hand t
          (IsConsistent-current_msg c w (cmd_room_message_send ∷ b' ' ∷ line) v)
          (rw (==_refl c) inside) (rw (==_refl c) refl) typed.filled (omega (arith, typed.short)) in
      rw
        (
          c_string-line (cmd_room_message_send ∷ b' ' ∷ line) (ground (arith, typed.no_nul)),
          process_messages-deliver t c (suc (length (with_arg cmd_room_message_send line)))
              (with_arg cmd_room_message_send line) w (omega arith),
          frames-line (cmd_room_message_send ∷ b' ' ∷ line) (ground (arith, typed.no_cr)),
          empty,
          strcat-fits current_msg_size [] (cmd_room_message_send ∷ b' ' ∷ line)
              (omega (arith, typed.short)),
          routed,
        )
        (rw (==_refl c) refl)

  -- Whoever stands in an array is in a room.
  stands_in_room :
      (e : ClientRef) (r : ℕ)
      → occurrences e (w.rooms r).clients ≡ place_of (w.clients e) r
      → 0 < occurrences e (w.rooms r).clients
      → is_state (w.clients e).state in_chat_room ≡ true
  stands_in_room e r placed h = ground arith

  abbrev line_shown : ClientRef → ℕ → List Shown
  line_shown d times = replicate (if d == c then 0 else times) (shown_line (told_line c line w))

  screen-told :
      (d : ClientRef)
      → IsLine line
      → IsConsistent w.rooms w.clients
      → (w.clients c).state ≡ in_chat_room
      → has_no_cr (w.clients c).name ≡ true
      → ((e : ClientRef)
          → is_state (w.clients e).state in_chat_room ≡ true
          → (w.clients e).client_fd ≡ (w.clients d).client_fd
          → e ≡ d)
      → screen (w.clients d).client_fd told
        ≡ line_shown d (place_of (w.clients d) (w.clients c).room_index)
  screen-told d typed v inside plain alone =
      let r = (w.clients c).room_index in
      let located = λ (e : ClientRef). v.located r e (v.in_range c (rw inside refl)) in
      rw (==_refl c, sym (at_hand-client_fd d))
        (screen-notices at_hand.clients c d (told_line c line w)
          (has_no_cr-append (w.clients c).name (b':' ∷ b' ' ∷ line) plain
            (ground (arith, typed.no_cr)))
          (length-told_line c line w (v.named c) (omega (arith, typed.short))) (w.rooms r).clients
          (λ e h same.
            alone e (stands_in_room e r (located e) h)
              (sym (at_hand-client_fd e) ∙ same ∙ at_hand-client_fd d)))
      ∙ ap (line_shown d) (located d)

  -- Rooms and clients agree, the client is in a room, no text of it is kept, its name has no
  -- carriage return, and no other client in a room has the descriptor of the client d. A line of
  -- at most 127 bytes that is not blank, does not begin with a slash and has no carriage return
  -- and no byte 0, typed by a client that runs and has its flag set, is sent and dealt with, and
  -- what is sent meanwhile to the descriptor of d shows the line, behind the name, once in the
  -- message window if d is another client in that room, and nothing otherwise.
  pub typed_line-shown :
      (d : ClientRef)
      → IsLine line
      → IsConsistent w.rooms w.clients
      → (w.clients c).state ≡ in_chat_room
      → (w.clients c).current_msg ≡ []
      → has_no_cr (w.clients c).name ≡ true
      → ((e : ClientRef)
          → is_state (w.clients e).state in_chat_room ≡ true
          → (w.clients e).client_fd ≡ (w.clients d).client_fd
          → e ≡ d)
      → (out : Bytes) × (w' : World) × (events : List Event) × (validate_and_format true true line
            max_message_len_to_server
          ≡ some (some out))
        × (read_and_process_client_message t c (received out) w ≡ some w')
        × (w'.trace ≡ w.trace ++ events)
        × (screen (w.clients d).client_fd events
            ≡ replicate
                (if d == c then 0 else place_of (w.clients d) (w.clients c).room_index)
                (shown_line ((w.clients c).name ++ b':' ∷ b' ' ∷ line)))
  typed_line-shown d typed v inside empty plain alone = (
    _,
    _,
    told,
    line-sent typed,
    line-read typed v inside empty,
    refl,
    screen-told d typed v inside plain alone,
  )
