-- ===== src/Server/Start.antt =====
-- server/main.c: the state with which the server begins, and the connections that it drops.
use chat_application.Prelude.{ℕ, refl, arith}
use chat_application.Membership.{IsRoom, IsConsistent}
use chat_application.RoomManager.Slots.Occupancy.{
  length-no_clients, members-no_clients, occurrences-no_clients,
}
use chat_application.Server.{empty_room, setup_threads}

empty_room-IsRoom : IsRoom empty_room
empty_room-IsRoom = record {
  sized = length-no_clients;
  counted = rw members-no_clients refl;
  used = rw members-no_clients refl;
  named = omega arith;
}

-- Before the first connection rooms and clients agree.
pub setup_threads-IsConsistent :
    (eventfds : ℕ → ℕ)
    → IsConsistent (setup_threads eventfds).rooms (setup_threads eventfds).clients
setup_threads-IsConsistent eventfds = record {
  room = λ r h. empty_room-IsRoom;
  located = λ r c h. occurrences-no_clients c;
  in_range = λ c e. absurd (ground arith);
  named = λ c. omega arith;
}
