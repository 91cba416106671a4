-- ===== src/ChatClient/Replies.antt =====
-- The client's flag `is_in_room` follows the state in which the server has the client.
use chat_application.Prelude.{
  true, false, ◌≢◌, ap, ℕ, ◌≡◌, refl, ◌∙◌, Bool, some, List, [], ◌∷◌, ◌++◌, ◌==◌, ==_refl,
  if◌then◌else◌, ◌≤◌, length,
}
use chat_application.CString.{Bytes, char_at}
use chat_application.Config.{
  cmd_exit, ClientRef, World, Event, send, close, epoll_add, epoll_del, sem_wait, sem_post, notify,
  is_state, in_chat_room, max_content_len,
}
use chat_application.Membership.{IsConsistent}
use chat_application.Send.{packet}
use chat_application.RoomManager.{content, create_chat_room, join_chat_room}
use chat_application.RoomManager.Create.{
  Creates, bad_name, exhausted, opens, create_chat_room-Creates,
}
use chat_application.RoomManager.Join.{
  replied, Joins, no_number, no_room, full, enters, arrival, welcome, join_chat_room-Joins,
}
use chat_application.Trace.{announced}
use chat_application.ClientStateManager.{route_client_command}
use chat_application.ClientStateManager.Handlers.{ListFits, command}
use chat_application.ClientStateManager.Route.{route_client_command-Routes, Routes-Says}
use chat_application.ChatClient.{Session, room_flag, parse_server_msg}

-- The client on descriptor `fd` parses what is sent to it, each message from a `recv` of its own.
unfoldable pub heard : ℕ → List Event → Session → Session
heard fd [] s = s
heard fd (send to text ∷ es) s = heard fd es (if to == fd then parse_server_msg text s else s)
heard fd (close to ∷ es) s = heard fd es s
heard fd (epoll_add t to ∷ es) s = heard fd es s
heard fd (epoll_del t to ∷ es) s = heard fd es s
heard fd (sem_wait t ∷ es) s = heard fd es s
heard fd (sem_post t ∷ es) s = heard fd es s
heard fd (notify t to ∷ es) s = heard fd es s

-- A client whose flag agrees with the state at the server, and which hears what is sent meanwhile,
-- has a flag that agrees afterwards.
pub record Follows (c : ClientRef) (w w' : World) : Type 0 where
  pub events : List Event
  pub trace : w'.trace ≡ w.trace ++ events
  pub agrees :
      (s : Session)
      → s.is_in_room ≡ is_state (w.clients c).state in_chat_room
      → (heard (w.clients c).client_fd events s).is_in_room
        ≡ is_state (w'.clients c).state in_chat_room

heard-append :
    (fd : ℕ) (xs ys : List Event) (s : Session)
    → heard fd (xs ++ ys) s ≡ heard fd ys (heard fd xs s)
unfolding heard
heard-append fd [] ys s = refl
heard-append fd (send to text ∷ es) ys s = heard-append fd es ys _
heard-append fd (close to ∷ es) ys s = heard-append fd es ys s
heard-append fd (epoll_add t to ∷ es) ys s = heard-append fd es ys s
heard-append fd (epoll_del t to ∷ es) ys s = heard-append fd es ys s
heard-append fd (sem_wait t ∷ es) ys s = heard-append fd es ys s
heard-append fd (sem_post t ∷ es) ys s = heard-append fd es ys s
heard-append fd (notify t to ∷ es) ys s = heard-append fd es ys s

-- A reply with a command that does not concern the flag.
replied-Follows :
    (c : ClientRef) (code : ℕ) (text : Bytes) {w w' : World}
    → ((flag : Bool) → room_flag code flag ≡ flag)
    → w' ≡ replied c code text w
    → Follows c w w'
unfolding heard
replied-Follows c code text {w} keeps e = rw e (record {
  events = send (w.clients c).client_fd (packet code text) ∷ [];
  trace = refl;
  agrees = λ s h. rw (==_refl (w.clients c).client_fd) (keeps s.is_in_room ∙ h);
})

Creates-Follows : {c : ClientRef} {w w' : World} → Creates c w w' → Follows c w w'
unfolding heard
Creates-Follows {c} (bad_name h e) = replied-Follows c _ _ (λ flag. refl) e
Creates-Follows {c} (exhausted h k e) = replied-Follows c _ _ (λ flag. refl) e
Creates-Follows {c} {w} (opens i h k m n e) = rw e (record {
  events = _;
  trace = refl;
  agrees = λ s h. rw (==_refl (w.clients c).client_fd, ==_refl c) refl;
})

Joins-Follows : {c : ClientRef} {w w' : World} → Joins c w w' → Follows c w w'
unfolding heard
Joins-Follows {c} (no_number h e) = replied-Follows c _ _ (λ flag. refl) e
Joins-Follows {c} (no_room i h k m e) = replied-Follows c _ _ (λ flag. refl) e
Joins-Follows {c} (full i h k m e) = replied-Follows c _ _ (λ flag. refl) e
Joins-Follows {c} {w} (enters i clients h k m n p e) = rw e (record {
  events = arrival c i w ++ welcome c w;
  trace = refl;
  agrees = λ s h.
      rw
        (
          heard-append (w.clients c).client_fd (arrival c i w) (welcome c w) s,
          ==_refl (w.clients c).client_fd,
          ==_refl c,
        )
        refl;
})

-- If rooms and clients agree and the content is at most 128 bytes, create_chat_room completes, and
-- a client whose flag is_in_room agrees with its state at the server, and which parses one by one
-- the messages sent to its descriptor meanwhile, has a flag that agrees afterwards.
pub create_chat_room-Follows :
    (c : ClientRef) (w : World)
    → IsConsistent w.rooms w.clients
    → length (content (w.clients c)) ≤ max_content_len
    → (w' : World) × (create_chat_room c w ≡ some w') × Follows c w w'
create_chat_room-Follows c w v short =
    let (w', done, outcome) = create_chat_room-Creates c w v short in
    (w', done, Creates-Follows outcome)

-- If rooms and clients agree, join_chat_room completes, and a client whose flag is_in_room agrees
-- with its state at the server, and which parses one by one the messages sent to its descriptor
-- meanwhile, has a flag that agrees afterwards.
pub join_chat_room-Follows :
    (c : ClientRef) (w : World)
    → IsConsistent w.rooms w.clients
    → (w' : World) × (join_chat_room c w ≡ some w') × Follows c w w'
join_chat_room-Follows c w v =
    let (w', done, outcome) = join_chat_room-Joins c w v in (w', done, Joins-Follows outcome)

flag_if :
    (mine : Bool) (text : Bytes) (s : Session)
    → (if mine then parse_server_msg text s else s).is_in_room
      ≡ (if mine then room_flag (char_at text 0) s.is_in_room else s.is_in_room)
flag_if true text s = refl
flag_if false text s = refl

-- What the client's flag becomes is what the server has announced.
pub heard-announced :
    (fd : ℕ) (es : List Event) (s : Session)
    → (heard fd es s).is_in_room ≡ announced fd es s.is_in_room
unfolding heard announced
heard-announced fd [] s = refl
heard-announced fd (send to text ∷ es) s =
    heard-announced fd es (if to == fd then parse_server_msg text s else s)
    ∙ ap (announced fd es) (flag_if (to == fd) text s)
heard-announced fd (close to ∷ es) s = heard-announced fd es s
heard-announced fd (epoll_add t to ∷ es) s = heard-announced fd es s
heard-announced fd (epoll_del t to ∷ es) s = heard-announced fd es s
heard-announced fd (sem_wait t ∷ es) s = heard-announced fd es s
heard-announced fd (sem_post t ∷ es) s = heard-announced fd es s
heard-announced fd (notify t to ∷ es) s = heard-announced fd es s

-- If rooms and clients agree and the room list fits, a message other than CMD_EXIT is dealt with,
-- and a client whose flag is_in_room agrees with its state at the server, and which parses one by
-- one the messages sent to its descriptor meanwhile, has a flag that agrees afterwards.
pub route_client_command-Follows :
    (t : ℕ) (c : ClientRef) (w : World)
    → IsConsistent w.rooms w.clients
    → ListFits w.rooms
    → command c w ≢ cmd_exit
    → (w' : World) × (route_client_command t c w ≡ some w') × Follows c w w'
route_client_command-Follows t c w v fits stay =
    let (w', done, outcome) = route_client_command-Routes t c w v fits in
    let says = Routes-Says stay outcome in
    (
      w',
      done,
      record {
        events = says.events;
        trace = says.trace;
        agrees = λ s h.
            heard-announced (w.clients c).client_fd says.events s
            ∙ ap (announced (w.clients c).client_fd says.events) h
            ∙ says.announces;
      },
    )
