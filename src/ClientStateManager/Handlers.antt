-- ===== src/ClientStateManager/Handlers.antt =====
-- The handlers of server/client_state_manager.c, one for each state: each completes, and leaves the
-- state as `Handled` says.
use chat_application.Prelude.{
  ℕ, ◌+◌, ◌≤◌, ◌<◌, ◌≡◌, refl, sym, ap, ◌⊎◌, some, [], ◌∷◌, ◌++◌, arith, length, length-append, ltb,
  Bool-cases, inl, inr,
}
use chat_application.CString.{Bytes, char_at}
use chat_application.CString.Laws.{write_text-fits}
use chat_application.Config.{
  ClientRef, Room, awaiting_username, in_chat_lobby, in_chat_room, is_state, World, send, emit,
  set_client, set_room, cmd_username_submit, cmd_room_create_request, cmd_room_list_request,
  cmd_room_join_request, cmd_leave_room, cmd_room_message_send, cmd_room_leave_ok, max_rooms,
  max_username_len, max_content_len, max_message_len_from_server,
}
use chat_application.Membership.{IsConsistent, IsConsistent-client, place_of-outside}
use chat_application.Send.{packet}
use chat_application.Send.Packet.{send_message_to_client-fits, emit-emit}
use chat_application.RoomManager.{content, send_avail_rooms}
use chat_application.RoomManager.Slots.{others}
use chat_application.RoomManager.Broadcast.{notices, broadcast_message_in_room-notices}
use chat_application.RoomManager.Listing.{AreNamed, listing, send_avail_rooms-list_text}
use chat_application.RoomManager.Join.{arrival, Joins, join_chat_room-Joins, Joins-IsConsistent}
use chat_application.RoomManager.Create.{Creates, create_chat_room-Creates, Creates-IsConsistent}
use chat_application.RoomManager.Leave.{
  left_text, room_without, leave_room-room_without, IsConsistent-leave,
}
use chat_application.ClientStateManager.Texts.{
  username_too_long, has_left, left_room, length-username_too_long, length-has_left,
  length-left_room,
}
use chat_application.Trace.Says.{
  reply-IsNeutral, notices-IsNeutral, nothing-IsNeutral, Says-reply, Says-neutral,
}
use chat_application.ClientStateManager.Transition.{
  submits, creates, joins, leaves, same, changed, Handled, Handled-emit, Handled-client,
}
use chat_application.ClientStateManager.{
  handle_awaiting_username, handle_in_chat_lobby, handle_in_chat_room, leave_and_confirm,
}

-- The list of the rooms in use fits the buffers of `send_avail_rooms`.
abbrev pub ListFits : (ℕ → Room) → Type 0
ListFits rooms = length (listing rooms max_rooms 0) < 1422

-- The command of the message at hand.
abbrev pub command : ClientRef → World → ℕ
command c w = char_at (w.clients c).current_msg 0

module _ (c : ClientRef) (w : World) (v : IsConsistent w.rooms w.clients) where
  names_fit : AreNamed w.rooms max_rooms 0
  names_fit r p q = (v.room r (omega arith)).named

  pub send_avail_rooms-Handled :
      ListFits w.rooms
      → (w' : World) × (send_avail_rooms c w ≡ some w') × Handled (command c w) c w w'
  send_avail_rooms-Handled fits = (
    _,
    send_avail_rooms-list_text c w names_fit fits,
    Handled-emit (command c w) _ v refl (reply-IsNeutral _ _ _ (λ b. refl)),
  )

  renamed : Bytes → World
  renamed name = set_client c (record (w.clients c) { name = name; state = in_chat_lobby }) w

  pub handle_awaiting_username-Handled :
      ListFits w.rooms
      → (w.clients c).state ≡ awaiting_username
      → command c w ≡ cmd_username_submit
      → (w' : World) × (handle_awaiting_username c w ≡ some w') × Handled (command c w) c w w'
  unfolding handle_awaiting_username renamed
  handle_awaiting_username-Handled fits state cmd =
      elim (Bool-cases (ltb max_username_len (length (content (w.clients c))))) [
        | inl long ↦ rw long (
          _,
          send_message_to_client-fits _ _ username_too_long w
              (omega (arith, length-username_too_long)),
          Handled-emit (command c w) _ v refl (reply-IsNeutral _ _ _ (λ b. refl)),
        )
        | inr short ↦
            rw
              (short, write_text-fits (max_username_len + 1) (content (w.clients c)) (ground arith))
              (
                _,
                send_avail_rooms-list_text c (renamed (content (w.clients c))) names_fit fits,
                Handled-client (command c w) _
                    (IsConsistent-client v c _
                      (λ r _. sym (
                        place_of-outside (w.clients c) r (ap (λ s. is_state s in_chat_room) state)))
                      (λ e. absurd (ground arith)) (ground arith))
                    refl refl refl (same refl) refl refl
                    (Says-neutral _ _ _ _ (reply-IsNeutral _ _ _ (λ b. refl))
                      (ap (λ s. is_state s in_chat_room) state) refl)
                    (submits cmd state refl),
              )
      ]

  Creates-Handled :
      {w' : World}
      → command c w ≡ cmd_room_create_request
      → (w.clients c).state ≡ in_chat_lobby
      → Creates c w w'
      → Handled (command c w) c w w'
  Creates-Handled cmd state (Creates.bad_name h e) =
      Handled-emit (command c w) _ v e (reply-IsNeutral _ _ _ (λ b. refl))
  Creates-Handled cmd state (Creates.exhausted h k e) =
      Handled-emit (command c w) _ v e (reply-IsNeutral _ _ _ (λ b. refl))
  Creates-Handled cmd state (Creates.opens i h k m n e) =
      Handled-client (command c w) _
        (Creates-IsConsistent v (ap (λ s. is_state s in_chat_room) state)
          (Creates.opens i h k m n e))
        (ap (λ u. u.clients) e) (ap (λ u. u.num_of_clients) e) (ap (λ u. u.worker_index) e)
        (changed _ _ (ap (λ u. u.rooms) e)) refl refl
        (Says-reply _ _ _ _ _ [] nothing-IsNeutral refl (ap (λ u. u.trace) e))
        (creates cmd state refl)

  Joins-Handled :
      {w' : World}
      → command c w ≡ cmd_room_join_request
      → (w.clients c).state ≡ in_chat_lobby
      → Joins c w w'
      → Handled (command c w) c w w'
  Joins-Handled cmd state (Joins.no_number h e) =
      Handled-emit (command c w) _ v e (reply-IsNeutral _ _ _ (λ b. refl))
  Joins-Handled cmd state (Joins.no_room i h k m e) =
      Handled-emit (command c w) _ v e (reply-IsNeutral _ _ _ (λ b. refl))
  Joins-Handled cmd state (Joins.full i h k m e) =
      Handled-emit (command c w) _ v e (reply-IsNeutral _ _ _ (λ b. refl))
  Joins-Handled cmd state (Joins.enters i clients h k m n p e) =
      Handled-client (command c w) _
        (Joins-IsConsistent v (ap (λ s. is_state s in_chat_room) state)
          (Joins.enters i clients h k m n p e))
        (ap (λ u. u.clients) e) (ap (λ u. u.num_of_clients) e) (ap (λ u. u.worker_index) e)
        (changed _ _ (ap (λ u. u.rooms) e)) refl refl
        (Says-reply _ _ _ _ _ (arrival c i w) (notices-IsNeutral _ _ _) refl (ap (λ u. u.trace) e))
        (joins cmd state refl)

  pub handle_in_chat_lobby-Handled :
      ListFits w.rooms
      → length (content (w.clients c)) ≤ max_content_len
      → (w.clients c).state ≡ in_chat_lobby
      → (command c w ≡ cmd_room_create_request)
        ⊎ (command c w ≡ cmd_room_list_request)
        ⊎ (command c w ≡ cmd_room_join_request)
      → (w' : World) × (handle_in_chat_lobby c w ≡ some w') × Handled (command c w) c w w'
  unfolding handle_in_chat_lobby
  handle_in_chat_lobby-Handled fits short state (inl cmd) =
      let (w', e, outcome) = create_chat_room-Creates c w v short in
      (w', rw cmd e, Creates-Handled cmd state outcome)
  handle_in_chat_lobby-Handled fits short state (inr (inl cmd)) =
      let (w', e, handled) = send_avail_rooms-Handled fits in (w', rw cmd e, handled)
  handle_in_chat_lobby-Handled fits short state (inr (inr cmd)) =
      let (w', e, outcome) = join_chat_room-Joins c w v in
      (w', rw cmd e, Joins-Handled cmd state outcome)

  -- The state after the client has left its room, for the lobby.
  pub departed : World
  departed =
      emit
        (notices w.clients (left_text (w.clients c))
            (others c (w.rooms (w.clients c).room_index).clients)
          ++ send (w.clients c).client_fd (packet cmd_room_leave_ok left_room) ∷ [])
        (set_client c (record (w.clients c) { state = in_chat_lobby })
          (set_room (w.clients c).room_index (room_without c (w.rooms (w.clients c).room_index)) w))

  pub leave_and_confirm-departed : leave_and_confirm c (w.clients c).room_index w ≡ some departed
  unfolding leave_and_confirm departed
  leave_and_confirm-departed =
      rw
        (
          write_text-fits max_message_len_from_server ((w.clients c).name ++ has_left) (
              omega (arith, v.named c, length-append (w.clients c).name has_left, length-has_left)),
          leave_room-room_without c (w.clients c).room_index w (v.named c),
          send_message_to_client-fits (w.clients c).client_fd cmd_room_leave_ok left_room _
              (omega (arith, length-left_room)),
        )
        (ap some (
          emit-emit _ _ (
            set_client c (record (w.clients c) { state = in_chat_lobby })
              (set_room (w.clients c).room_index (room_without c (w.rooms (w.clients c).room_index))
                w))))

  departed-Handled :
      (w.clients c).state ≡ in_chat_room
      → command c w ≡ cmd_leave_room
      → Handled (command c w) c w departed
  unfolding departed
  departed-Handled state cmd =
      Handled-client (command c w) _
        (IsConsistent-leave v c _ (ap (λ s. is_state s in_chat_room) state) refl (v.named c)) refl
        refl refl (changed _ _ refl) refl refl
        (Says-reply _ _ _ _ _ _ (notices-IsNeutral _ _ _) refl refl) (leaves cmd state refl)

  -- What the others in the room are shown.
  pub chat_text : Bytes
  chat_text = (w.clients c).name ++ b':' ∷ b' ' ∷ content (w.clients c)

  length-chat_text : length (content (w.clients c)) ≤ max_content_len → length chat_text < 1452
  unfolding chat_text
  length-chat_text short =
      omega
        (arith, v.named c, length-append (w.clients c).name (b':' ∷ b' ' ∷ content (w.clients c)))

  pub handle_in_chat_room-Handled :
      length (content (w.clients c)) ≤ max_content_len
      → (w.clients c).state ≡ in_chat_room
      → (command c w ≡ cmd_room_message_send) ⊎ (command c w ≡ cmd_leave_room)
      → (w' : World) × (handle_in_chat_room c w ≡ some w') × Handled (command c w) c w w'
  unfolding handle_in_chat_room chat_text
  handle_in_chat_room-Handled short state (inl cmd) =
      let told =
        notices w.clients chat_text (others c (w.rooms (w.clients c).room_index).clients) in
      rw
        (
          cmd,
          write_text-fits max_message_len_from_server chat_text
              (omega (arith, length-chat_text short)),
        )
        (
          emit told w,
          broadcast_message_in_room-notices chat_text (w.clients c).room_index c w
              (length-chat_text short),
          Handled-emit cmd_room_message_send told v refl (notices-IsNeutral _ _ _),
        )
  handle_in_chat_room-Handled short state (inr cmd) =
      (departed, rw cmd leave_and_confirm-departed, departed-Handled state cmd)
