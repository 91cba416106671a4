-- ===== src/ClientStateManager/Route.antt =====
-- `route_client_command`: what becomes of a complete message.
use chat_application.Prelude.{
  Bool, sym, ap, ℕ, ◌≤◌, ◌<◌, ◌≡◌, ◌≢◌, refl, false, none, some, arith, length, ◌==◌, Bool-cases,
  Option-cases, inl, inr,
}
use chat_application.CString.{Bytes}
use chat_application.Config.{
  is_state, ClientRef, Client, ClientState, awaiting_username, in_chat_lobby, in_chat_room, World,
  cmd_exit, max_content_len,
}
use chat_application.Membership.{IsConsistent}
use chat_application.Send.Packet.{send_message_to_client-fits}
use chat_application.RoomManager.{content}
use chat_application.RoomManager.Join.{replied}
use chat_application.Trace.{told_in_room}
use chat_application.Trace.Says.{Says, Says-neutral, reply-IsNeutral}
use chat_application.ClientStateManager.Texts.{
  length-too_short, length-too_long, length-space_missing, length-unknown_command,
  length-content_empty, length-not_for_awaiting, length-not_for_lobby, length-not_for_room,
}
use chat_application.ClientStateManager.Format.{IsMessage, message, format_error-none_iff}
use chat_application.ClientStateManager.Table.{IsAvailable, state_error-none_iff}
use chat_application.ClientStateManager.Transition.{Handled}
use chat_application.ClientStateManager.Disconnect.{
  Disconnects, handle_client_disconnection-cases, Disconnects-IsConsistent,
}
use chat_application.ClientStateManager.Handlers.{
  ListFits, command, handle_awaiting_username-Handled, handle_in_chat_lobby-Handled,
  handle_in_chat_room-Handled,
}
use chat_application.ClientStateManager.{
  format_error, state_error, validate_msg_format, command_valid_for_state, dispatch, reply_if,
  route_client_command,
}

-- What a message may come to.
pub data Routes (t : ℕ) (c : ClientRef) (w w' : World) : Type 0 where
  malformed :
      ¬ IsMessage (w.clients c).current_msg
      → (code : ℕ) (text : Bytes) → format_error (w.clients c) ≡ some (code, text)
      → w' ≡ replied c code text w
      → Routes t c w w'
  not_available :
      IsMessage (w.clients c).current_msg
      → ¬ IsAvailable (w.clients c).state (command c w)
      → (code : ℕ) (text : Bytes) → state_error (w.clients c) ≡ some (code, text)
      → w' ≡ replied c code text w
      → Routes t c w w'
  exits :
      IsMessage (w.clients c).current_msg
      → command c w ≡ cmd_exit
      → Disconnects t c w w'
      → Routes t c w w'
  handled :
      IsMessage (w.clients c).current_msg
      → IsAvailable (w.clients c).state (command c w)
      → command c w ≢ cmd_exit
      → Handled (command c w) c w w'
      → Routes t c w w'

-- The refusals are short.
format_error-short :
    (client : Client) {code : ℕ} {text : Bytes}
    → format_error client ≡ some (code, text)
    → length text < 1452
unfolding format_error
format_error-short client h = ground (
  arith, length-too_short, length-too_long, length-space_missing, length-unknown_command,
  length-content_empty,
)

state_error-short :
    (client : Client) {code : ℕ} {text : Bytes}
    → state_error client ≡ some (code, text)
    → length text < 1452
unfolding state_error
state_error-short client h =
    ground (arith, length-not_for_awaiting, length-not_for_lobby, length-not_for_room)

-- Their codes tell no client that it has entered or left a room.
pub format_error-keeps :
    (client : Client) {code : ℕ} {text : Bytes}
    → format_error client ≡ some (code, text)
    → (b : Bool) → told_in_room code b ≡ b
unfolding format_error
format_error-keeps client h b = ground arith

pub state_error-keeps :
    (client : Client) {code : ℕ} {text : Bytes}
    → state_error client ≡ some (code, text)
    → (b : Bool) → told_in_room code b ≡ b
unfolding state_error
state_error-keeps client h b = ground arith

reply_if-some :
    (c : ClientRef) (code : ℕ) (text : Bytes) (w : World)
    → length text < 1452
    → reply_if c (some (code, text)) w ≡ some (false, replied c code text w)
unfolding reply_if
reply_if-some c code text w h =
    rw (send_message_to_client-fits (w.clients c).client_fd code text w h)

IsMessage-content :
    (client : Client) → IsMessage client.current_msg → length (content client) ≤ max_content_len
IsMessage-content client (message cmd text e _ _ h _) = rw e h

module _ (t : ℕ) (c : ClientRef) (w : World) (v : IsConsistent w.rooms w.clients)
    (fits : ListFits w.rooms) (good : IsMessage (w.clients c).current_msg) where
  by_state :
      (state : ClientState)
      → (w.clients c).state ≡ state
      → IsAvailable state (command c w)
      → command c w ≢ cmd_exit
      → (w' : World) × (dispatch state c w ≡ some w') × Handled (command c w) c w w'
  unfolding dispatch
  by_state awaiting_username e (inl cmd) stay = handle_awaiting_username-Handled c w v fits e cmd
  by_state awaiting_username e (inr cmd) stay = absurd (stay cmd)
  by_state in_chat_lobby e (inl cmd) stay = absurd (stay cmd)
  by_state in_chat_lobby e (inr cmd) stay =
      handle_in_chat_lobby-Handled c w v fits (IsMessage-content (w.clients c) good) e cmd
  by_state in_chat_room e (inl cmd) stay = absurd (stay cmd)
  by_state in_chat_room e (inr cmd) stay =
      handle_in_chat_room-Handled c w v (IsMessage-content (w.clients c) good) e cmd

  well_formed :
      format_error (w.clients c) ≡ none
      → (w' : World) × (route_client_command t c w ≡ some w') × Routes t c w w'
  unfolding route_client_command validate_msg_format command_valid_for_state
  well_formed e = elim (Option-cases (state_error (w.clients c))) [
    | inr ((code, text), bad) ↦
        rw (e, bad, reply_if-some c code text w (state_error-short (w.clients c) bad))
          (
            _,
            refl,
            Routes.not_available good (λ a. cc (bad, (state_error-none_iff (w.clients c)).1 a)) code
                text bad refl,
          )
    | inl ok ↦
        let available = (state_error-none_iff (w.clients c)).0 ok in
        rw (e, ok)
          (elim (Bool-cases (command c w == cmd_exit)) [
            | inl leave ↦
                let (w', done, gone) = handle_client_disconnection-cases t c w v in
                (w', rw leave done, Routes.exits good (ground arith) gone)
            | inr stay ↦
                let (w', done, outcome) =
                  by_state (w.clients c).state refl available (ground arith) in
                (w', rw stay done, Routes.handled good available (ground arith) outcome)
          ])
  ]

-- If rooms and clients agree and the room list fits, route_client_command completes without a
-- write past a buffer, in one of four ways: a malformed message and a command that the state does
-- not allow are refused with the reply of the check, CMD_EXIT disconnects the client, and any
-- other command is handled with the effects on state and connection that its handler may have.
pub route_client_command-Routes :
    (t : ℕ) (c : ClientRef) (w : World)
    → IsConsistent w.rooms w.clients
    → ListFits w.rooms
    → (w' : World) × (route_client_command t c w ≡ some w') × Routes t c w w'
unfolding route_client_command validate_msg_format
route_client_command-Routes t c w v fits = elim (Option-cases (format_error (w.clients c))) [
  | inl ok ↦ well_formed t c w v fits ((format_error-none_iff (w.clients c)).0 ok) ok
  | inr ((code, text), bad) ↦
      rw (bad, reply_if-some c code text w (format_error-short (w.clients c) bad))
        (
          _,
          refl,
          Routes.malformed (λ a. cc (bad, (format_error-none_iff (w.clients c)).1 a)) code text bad
              refl,
        )
]

-- Whatever a message comes to, rooms and clients still agree.
pub Routes-IsConsistent :
    {t : ℕ} {c : ClientRef} {w w' : World}
    → IsConsistent w.rooms w.clients
    → Routes t c w w'
    → IsConsistent w'.rooms w'.clients
Routes-IsConsistent v (Routes.malformed _ code text _ e) = rw e v
Routes-IsConsistent v (Routes.not_available _ _ code text _ e) = rw e v
Routes-IsConsistent {t} {c} {w} v (Routes.exits _ _ gone) = Disconnects-IsConsistent t c w v gone
Routes-IsConsistent v (Routes.handled _ _ _ done) = done.consistent

-- If rooms and clients agree (each room holds exactly the clients that are in it, once each, and
-- counts them) and the room list fits, route_client_command completes and they agree afterwards.
pub route_client_command-IsConsistent :
    (t : ℕ) (c : ClientRef) (w : World)
    → IsConsistent w.rooms w.clients
    → ListFits w.rooms
    → (w' : World) × (route_client_command t c w ≡ some w') × IsConsistent w'.rooms w'.clients
route_client_command-IsConsistent t c w v fits =
    let (w', done, outcome) = route_client_command-Routes t c w v fits in
    (w', done, Routes-IsConsistent v outcome)

-- A message other than CMD_EXIT tells its client whether it is in a room, if that changes.
pub Routes-Says :
    {t : ℕ} {c : ClientRef} {w w' : World}
    → command c w ≢ cmd_exit
    → Routes t c w w'
    → Says
        (w.clients c).client_fd
        (is_state (w.clients c).state in_chat_room)
        (is_state (w'.clients c).state in_chat_room)
        w
        w'
Routes-Says {c} {w} stay (Routes.malformed _ code text e e') =
    Says-neutral _ _ _ _ (reply-IsNeutral _ code text (format_error-keeps (w.clients c) e))
      (ap (λ u. is_state (u.clients c).state in_chat_room) (sym e')) (ap (λ u. u.trace) e')
Routes-Says {c} {w} stay (Routes.not_available _ _ code text e e') =
    Says-neutral _ _ _ _ (reply-IsNeutral _ code text (state_error-keeps (w.clients c) e))
      (ap (λ u. is_state (u.clients c).state in_chat_room) (sym e')) (ap (λ u. u.trace) e')
Routes-Says stay (Routes.exits _ leave _) = absurd (stay leave)
Routes-Says stay (Routes.handled _ _ _ done) = done.says
