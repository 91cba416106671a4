-- ===== src/RoomManager/Broadcast.antt =====
-- `broadcast_message_in_room`: who receives a message, and what.
use chat_application.Prelude.{
  ℕ, ◌<◌, ◌≡◌, sym, ap, ◌∙◌, Bool-cases, inl, inr, Option, none, some, List, [], ◌∷◌, length, ◌==◌,
}
use chat_application.CString.{Bytes}
use chat_application.Config.{ClientRef, Client, World, Event, send, emit, cmd_room_msg}
use chat_application.Send.{packet}
use chat_application.Send.Packet.{send_message_to_client-fits, emit-nil, emit-emit}
use chat_application.RoomManager.Slots.{others}
use chat_application.RoomManager.{broadcast, broadcast_message_in_room}

-- One packet to each of the clients.
unfoldable pub notices : (ℕ → Client) → Bytes → List ClientRef → List Event
notices clients msg [] = []
notices clients msg (d ∷ ds) =
    send (clients d).client_fd (packet cmd_room_msg msg) ∷ notices clients msg ds

broadcast-notices :
    (msg : Bytes) (c : ClientRef) (ss : List (Option ClientRef)) (w : World)
    → length msg < 1452
    → broadcast msg c ss w ≡ some (emit (notices w.clients msg (others c ss)) w)
unfolding broadcast notices others
broadcast-notices msg c [] w h = ap some (sym (emit-nil w))
broadcast-notices msg c (none ∷ ss) w h = broadcast-notices msg c ss w h
broadcast-notices msg c (some d ∷ ss) w h = elim (Bool-cases (d == c)) [
  | inl self ↦ rw self (broadcast-notices msg c ss w h)
  | inr other ↦
      rw (other, send_message_to_client-fits (w.clients d).client_fd cmd_room_msg msg w h)
        (broadcast-notices msg c ss _ h ∙ ap some (emit-emit _ _ w))
]

-- A message of fewer than 1452 bytes goes once to each client of the room but the sender, in the
-- order of the slots, and nothing else changes.
pub broadcast_message_in_room-notices :
    (msg : Bytes) (i : ℕ) (c : ClientRef) (w : World)
    → length msg < 1452
    → broadcast_message_in_room msg i c w
      ≡ some (emit (notices w.clients msg (others c (w.rooms i).clients)) w)
unfolding broadcast_message_in_room
broadcast_message_in_room-notices msg i c w h = broadcast-notices msg c (w.rooms i).clients w h
