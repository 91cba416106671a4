-- ===== src/ClientStateManager/Transition.antt =====
-- How one command may change a client: the state machine of server/client_state_manager.c.
use chat_application.Prelude.{ℕ, ◌≡◌, ◌≢◌, refl, ap, ◌∙◌, List, arith, ==_refl}
use chat_application.Prelude.Memory.{update}
use chat_application.Config.{
  ClientRef, Client, Room, ClientState, awaiting_username, in_chat_lobby, in_chat_room, World,
  Event, emit, is_state, cmd_username_submit, cmd_room_create_request, cmd_room_join_request,
  cmd_leave_room,
}
use chat_application.Membership.{IsConsistent}
use chat_application.Trace.Says.{IsNeutral, Says}

-- The commands that change the state of a client that stays, and the changes that they make.
pub data Transition (cmd : ℕ) (before after : ClientState) : Type 0 where
  stays : after ≡ before → Transition cmd before after
  submits :
      cmd ≡ cmd_username_submit
      → before ≡ awaiting_username
      → after ≡ in_chat_lobby
      → Transition cmd before after
  creates :
      cmd ≡ cmd_room_create_request
      → before ≡ in_chat_lobby
      → after ≡ in_chat_room
      → Transition cmd before after
  joins :
      cmd ≡ cmd_room_join_request
      → before ≡ in_chat_lobby
      → after ≡ in_chat_room
      → Transition cmd before after
  leaves :
      cmd ≡ cmd_leave_room
      → before ≡ in_chat_room
      → after ≡ in_chat_lobby
      → Transition cmd before after

-- At most one room is changed.
pub data OneRoom (rooms rooms' : ℕ → Room) : Type 0 where
  same : rooms' ≡ rooms → OneRoom rooms rooms'
  changed : (k : ℕ) (room : Room) → rooms' ≡ update rooms k room → OneRoom rooms rooms'

-- What handling a command of client `c` leaves: rooms and clients agree, the other clients, the
-- counts of the workers and the rooms but one are as before, the client is on its connection, is
-- told whether it is in a room if that changes, and has made a transition.
pub record Handled (cmd : ℕ) (c : ClientRef) (w w' : World) : Type 0 where
  pub consistent : IsConsistent w'.rooms w'.clients
  pub others : (d : ClientRef) → c ≢ d → w'.clients d ≡ w.clients d
  pub counts : w'.num_of_clients ≡ w.num_of_clients
  pub index : w'.worker_index ≡ w.worker_index
  pub rooms : OneRoom w.rooms w'.rooms
  pub connection : (w'.clients c).client_fd ≡ (w.clients c).client_fd
  pub in_use : (w'.clients c).in_use ≡ (w.clients c).in_use
  pub says :
      Says
        (w.clients c).client_fd
        (is_state (w.clients c).state in_chat_room)
        (is_state (w'.clients c).state in_chat_room)
        w
        w'
  pub transition : Transition cmd (w.clients c).state (w'.clients c).state

module _ {c : ClientRef} {w w' : World} (cmd : ℕ) where
  -- Events alone.
  pub Handled-emit :
      (events : List Event)
      → IsConsistent w.rooms w.clients
      → w' ≡ emit events w
      → IsNeutral events
      → Handled cmd c w w'
  Handled-emit events v e neutral = rw e (record {
    consistent = v;
    others = λ d _. refl;
    counts = refl;
    index = refl;
    rooms = same refl;
    connection = refl;
    in_use = refl;
    says = record {
      events = events;
      trace = refl;
      quiet = neutral.quiet;
      announces = neutral.keeps _ _;
      elsewhere = λ other b n. neutral.keeps other b;
    };
    transition = stays refl;
  })

  -- The client changed, and the rooms with it.
  pub Handled-client :
      (client : Client)
      → IsConsistent w'.rooms w'.clients
      → w'.clients ≡ update w.clients c client
      → w'.num_of_clients ≡ w.num_of_clients
      → w'.worker_index ≡ w.worker_index
      → OneRoom w.rooms w'.rooms
      → client.client_fd ≡ (w.clients c).client_fd
      → client.in_use ≡ (w.clients c).in_use
      → Says
          (w.clients c).client_fd
          (is_state (w.clients c).state in_chat_room)
          (is_state client.state in_chat_room)
          w
          w'
      → Transition cmd (w.clients c).state client.state
      → Handled cmd c w w'
  Handled-client client v e counts index rooms fd used says move =
      let own : w'.clients c ≡ client = ap (λ f. f c) e ∙ (rw (==_refl c)) in
      record {
        consistent = v;
        others = λ d other. ap (λ f. f d) e ∙ ground arith;
        counts = counts;
        index = index;
        rooms = rooms;
        connection = rw own fd;
        in_use = rw own used;
        says = rw own says;
        transition = rw own move;
      }
