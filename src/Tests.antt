-- ===== src/Tests.antt =====
-- The states and texts on which the theorems are applied, and the applications.
pub mod Rooms
pub mod Clients
pub mod Threads
pub mod Terminal
pub mod Running
pub mod Sessions
pub mod Company
pub mod Beginning
use chat_application.Prelude.{ℕ, ◌+◌, ◌<◌, ◌≡◌, refl, arith, false, true, ◌∷◌, ◌++◌}
use chat_application.CString.{Bytes, codes}
use chat_application.Config.{
  Client, ClientState, awaiting_username, in_chat_lobby, in_chat_room, is_state, World, set_client,
  zeroed_client,
}
use chat_application.Membership.{IsConsistent, IsConsistent-client}
use chat_application.RoomManager.Slots.Occupancy.{members-no_clients}
use chat_application.RoomManager.Create.{Creates, opened, Creates-IsConsistent}
use chat_application.RoomManager.Listing.{listing}
use chat_application.ClientStateManager.Handlers.{ListFits}
use chat_application.Server.{setup_threads}
use chat_application.Server.Start.{setup_threads-IsConsistent}

abbrev pub start : World
start = setup_threads (λ t. 100 + t)

-- A command and its content
abbrev pub request : ℕ → Bytes → Bytes
request cmd text = cmd ∷ b' ' ∷ text

-- The client in the first slot of the first worker, with the message at hand
abbrev pub ann : ClientState → Bytes → Client
ann state msg = record zeroed_client {
  client_fd = 9;
  name = codes "ann";
  state = state;
  in_use = true;
  current_msg = msg;
}

abbrev pub with_ann : ClientState → Bytes → World
with_ann state msg = set_client 0 (ann state msg) start

pub with_ann-IsConsistent :
    (state : ClientState) (msg : Bytes)
    → is_state state in_chat_room ≡ false
    → IsConsistent (with_ann state msg).rooms (with_ann state msg).clients
with_ann-IsConsistent state msg h =
    IsConsistent-client (setup_threads-IsConsistent (λ t. 100 + t)) 0 (ann state msg)
      (λ r _. rw h refl) (λ e. absurd (ground arith)) (omega arith)

pub start-ListFits : ListFits start.rooms
unfolding listing
start-ListFits = omega arith

abbrev pub asking_to_create : World
asking_to_create = with_ann in_chat_lobby (request 3 (codes "den"))

-- The client in room 0, which it has opened
abbrev pub in_den : World
in_den = opened 0 0 asking_to_create

pub in_den-Creates : Creates 0 asking_to_create in_den
in_den-Creates =
    Creates.opens 0 (omega arith) (omega arith) members-no_clients (λ r h. absurd (omega arith))
      refl

pub in_den-IsConsistent : IsConsistent in_den.rooms in_den.clients
in_den-IsConsistent =
    Creates-IsConsistent (with_ann-IsConsistent in_chat_lobby (request 3 (codes "den")) refl) refl
      in_den-Creates

abbrev pub submitting : World
submitting = with_ann awaiting_username (request 2 (codes "ann"))

pub submitting-IsConsistent : IsConsistent submitting.rooms submitting.clients
submitting-IsConsistent = with_ann-IsConsistent awaiting_username (request 2 (codes "ann")) refl

-- Two messages and the beginning of a third
abbrev pub two_and_more : Bytes
two_and_more = 2 ∷ codes " ann\r\n" ++ 4 ∷ codes " \r\nx"
