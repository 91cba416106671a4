-- ===== src/Tests/Company.antt =====
-- Applications of the theorems on several clients in rooms.
use chat_application.Prelude.{
  ltb, ◌==◌, ◌+◌, Bool, Bool-cases, subst, ◌<◌, ◌≤◌, ◌≡◌, refl, inl, inr, true, false, Option, none,
  some, List, [], ◌∷◌, ◌++◌, arith, replicate,
}
use chat_application.CString.{Bytes, codes, isdigit, atoi, write_text, c_string}
use chat_application.Config.{
  World, Event, Client, in_chat_lobby, in_chat_room, zeroed_client, set_client, ClientRef,
  no_clients, max_message_len_to_server, is_state,
}
use chat_application.Membership.{IsConsistent, IsConsistent-client}
use chat_application.RoomManager.Slots.Occupancy.{Placed, place_client-Placed, members}
use chat_application.RoomManager.{parse_room_number}
use chat_application.RoomManager.Slots.{place_client, set_first}
use chat_application.RoomManager.Join.{Joins, entered, Joins-IsConsistent}
use chat_application.ClientStateManager
use chat_application.ClientStateManager.{clear_msg, read_and_process_client_message}
use chat_application.ClientStateManager.Reading.{IsConsistent-current_msg, used_rooms-ListFits}
use chat_application.ChatClient.{
  validate_and_format, handle_commands, scan, format_scanned, word, skip_whitespace, with_arg,
}
use chat_application.ChatClient.Display.{screen}
use chat_application.ChatClient.Display.Delivery.{shown_line}
use chat_application.ChatClient.Display.Everyone.{typed_line-shown}
use chat_application.RoomManager.Listing.Bound.{used_from, used_rooms}
use chat_application.ChatClient.Dialogue.{Agrees, IsTyped}
use chat_application.ChatClient.Dialogue.Round.{typed_line-Agrees}
use chat_application.ChatClient.Dialogue.Chat.{
  Sessions, all_heard, silent, and_then, AllAgree, AreApart, Chatted, Chats-Chatted,
}
use chat_application.Tests.{in_den, in_den-IsConsistent, request}

-- A second client, in the second slot of the first worker
abbrev bob : Client
bob = record zeroed_client {
  client_fd = 10;
  name = codes "bob";
  state = in_chat_lobby;
  in_use = true;
  current_msg = request 5 (codes "0");
}

abbrev asking_to_join : World
asking_to_join = set_client 1 bob in_den

asking_to_join-IsConsistent : IsConsistent asking_to_join.rooms asking_to_join.clients
asking_to_join-IsConsistent =
    IsConsistent-client in_den-IsConsistent 1 bob (λ r h. refl) (λ e. absurd (ground arith))
      (omega arith)

abbrev both_slots : List (Option ClientRef)
both_slots = some 0 ∷ some 1 ∷ replicate 118 none

both_slots-Placed : Placed 1 (asking_to_join.rooms 0).clients (some both_slots)
unfolding place_client set_first no_clients
both_slots-Placed = place_client-Placed 1 (asking_to_join.rooms 0).clients

both_slots-few :
    (0 < members (asking_to_join.rooms 0).clients)
    × (members (asking_to_join.rooms 0).clients < 120)
unfolding members set_first no_clients
both_slots-few = (omega arith, omega arith)

-- Both in room 0, with no text kept of the first
abbrev arrived : World
arrived = entered 1 0 both_slots asking_to_join

arrived-Joins : Joins 1 asking_to_join arrived
unfolding parse_room_number isdigit atoi
arrived-Joins =
    Joins.enters 0 both_slots refl (omega arith) both_slots-few.0 both_slots-few.1 both_slots-Placed
      refl

arrived-IsConsistent : IsConsistent arrived.rooms arrived.clients
arrived-IsConsistent = Joins-IsConsistent asking_to_join-IsConsistent refl arrived-Joins

abbrev together : World
together = clear_msg 0 arrived

together-alone :
    (e : ClientRef)
    → is_state (together.clients e).state in_chat_room ≡ true
    → (together.clients e).client_fd ≡ 10
    → e ≡ 1
together-alone e h k = ground arith

typed_line-shown_example :
    (out : Bytes) × (w' : World) × (events : List Event) × (validate_and_format true true
        (codes "hello")
        max_message_len_to_server
      ≡ some (some out))
    × (read_and_process_client_message 0 0 (ClientStateManager.received out) together ≡ some w')
    × (w'.trace ≡ together.trace ++ events)
    × (screen 10 events ≡ replicate 1 (shown_line (codes "ann: hello")))
typed_line-shown_example =
    typed_line-shown 0 0 (codes "hello") together 1
      (record { plain = refl; short = omega arith; filled = refl; no_cr = refl; no_nul = refl })
      (IsConsistent-current_msg 0 arrived [] arrived-IsConsistent) refl refl refl together-alone

-- The first client in its room and the second in the lobby, with no text kept of either
abbrev apart_yet : World
apart_yet = clear_msg 0 (set_client 1 (record bob { current_msg = [] }) in_den)

apart_yet-IsConsistent : IsConsistent apart_yet.rooms apart_yet.clients
apart_yet-IsConsistent =
    IsConsistent-current_msg 0 (set_client 1 (record bob { current_msg = [] }) in_den) [] (
      IsConsistent-client in_den-IsConsistent 1 (record bob { current_msg = [] }) (λ r h. refl)
        (λ e. absurd (ground arith)) (omega arith))

abbrev ann_and_bob : ClientRef → Bool
ann_and_bob c = ltb c 2

abbrev their_sessions : Sessions
their_sessions c = record { is_running = true; is_in_room = c == 0; sent = []; closed = false }

apart_yet-AllAgree : AllAgree ann_and_bob their_sessions apart_yet
apart_yet-AllAgree d h = elim (Bool-cases (d == 0)) [
  | inl first ↦
      let own : 0 ≡ d = ground arith in
      subst (λ e. Agrees e (their_sessions e) apart_yet) own
        (record { running = refl; flag = refl; has_name = refl; nothing_kept = refl })
  | inr later ↦
      let own : 1 ≡ d = ground arith in
      subst (λ e. Agrees e (their_sessions e) apart_yet) own
        (record { running = refl; flag = refl; has_name = refl; nothing_kept = refl })
]

apart_yet-AreApart : AreApart ann_and_bob apart_yet
apart_yet-AreApart c d h k e = ground arith

apart_yet-few : used_rooms apart_yet.rooms + 1 ≤ 42
unfolding used_from set_first no_clients
apart_yet-few = omega arith

Chats-Chatted_example : (ss : Sessions) × (w : World) × Chatted ann_and_bob 1 ss apart_yet w
unfolding validate_and_format handle_commands scan format_scanned word skip_whitespace write_text
    c_string
Chats-Chatted_example =
    let line = codes "/join 0" in
    let out = with_arg 5 (codes "0") in
    let (w, done, handled, next, others) =
      typed_line-Agrees 0 1 line out (their_sessions 1) apart_yet apart_yet-IsConsistent
        (used_rooms-ListFits apart_yet apart_yet-IsConsistent (omega (arith, apart_yet-few)))
        (apart_yet-AllAgree 1 refl) (IsTyped.command refl) refl refl (λ e. ground arith) in
    (
      all_heard apart_yet handled.says.events their_sessions,
      w,
      Chats-Chatted ann_and_bob apart_yet-IsConsistent apart_yet-AllAgree apart_yet-AreApart
          apart_yet-few
          (and_then 0 1 line out handled.says.events silent refl (IsTyped.command refl) refl refl
            (λ e. ground arith) done handled.says.trace),
    )
