-- ===== src/RoomManager/Leave.antt =====
-- `leave_room`: what it does to the room, whom it tells, and that rooms and clients still agree.
use chat_application.Prelude.{
  ℕ, ◌+◌, ◌≤◌, ◌<◌, ◌≡◌, sym, ap, ◌∙◌, true, false, Option, some, List, ◌++◌, arith, length,
  length-append, ◌==◌, ==_refl, if◌then◌else◌, Bool-cases, inl, inr,
}
use chat_application.Prelude.Int.{ℤ, pos, decr, is_num, decr-incr}
use chat_application.Prelude.Memory.{update, update-update}
use chat_application.CString.{Bytes}
use chat_application.CString.Laws.{write_text-fits}
use chat_application.Config.{
  ClientRef, Client, Room, World, is_state, in_chat_room, emit, set_room, no_clients, max_rooms,
  max_username_len, max_message_len_from_server,
}
use chat_application.Membership.{
  IsRoom, IsConsistent, IsConsistent-move, place_of-inside, place_of-outside, place_of-elsewhere,
}
use chat_application.RoomManager.Slots.{remove_client, others}
use chat_application.RoomManager.Slots.Occupancy.{
  members, occurrences, occurrences-le-members, members-no_clients, length-no_clients,
  occurrences-no_clients, Removed, remove_client-Removed, others-remove_client,
}
use chat_application.RoomManager.Texts.{left_suffix, length-left_suffix}
use chat_application.RoomManager.Broadcast.{notices, broadcast_message_in_room-notices}
use chat_application.RoomManager.{cleared, leave_room}

-- The room after `leave_room`.
pub room_without : ClientRef → Room → Room
room_without c room =
    let (clients, num) = remove_client c room.clients room.num_clients in
    let less : Room = record room { clients = clients; num_clients = num } in
    if is_num num 0 then cleared less else less

-- The notice that the others get.
abbrev pub left_text : Client → Bytes
left_text client = client.name ++ left_suffix

-- For a name of at most 32 bytes, leave_room completes: the other clients in the room are told,
-- and the room is the one without the client, cleared if that was its last.
pub leave_room-room_without :
    (c : ClientRef) (i : ℕ) (w : World)
    → length (w.clients c).name ≤ max_username_len
    → leave_room c i w
      ≡ some (
          emit
            (notices w.clients (left_text (w.clients c)) (others c (w.rooms i).clients))
            (set_room i (room_without c (w.rooms i)) w))
unfolding leave_room room_without
leave_room-room_without c i w h =
    let short : length (left_text (w.clients c)) < 1452 =
      omega (arith, length-append (w.clients c).name left_suffix, length-left_suffix) in
    let events = notices w.clients (left_text (w.clients c)) (others c (w.rooms i).clients) in
    rw
      (
        write_text-fits max_message_len_from_server (left_text (w.clients c)) (omega arith),
        broadcast_message_in_room-notices (left_text (w.clients c)) i c _ short,
        ==_refl i,
        others-remove_client c (w.rooms i).clients (w.rooms i).num_clients,
      )
      (elim (Bool-cases
        (is_num (remove_client c (w.rooms i).clients (w.rooms i).num_clients).1 0)) [
          | inl last ↦ rw last (
              ap (λ rooms. some (record w { rooms = rooms; trace = w.trace ++ events }))
                (update-update w.rooms i _ _))
          | inr more ↦ rw more
        ])

-- The counts of a room after its client `c` has left, with the room's array and count read off.
module _ (c : ClientRef) (room : Room) (out : List (Option ClientRef)) (num : ℤ) (v : IsRoom room)
    (removed : Removed c room.clients room.num_clients (out, num)) where
  num-members : num ≡ pos (members out)
  num-members =
      removed.2 ∙ ap decr (v.counted ∙ ap pos (sym removed.1)) ∙ decr-incr (pos (members out))

  less-IsRoom : is_num num 0 ≡ false → IsRoom (record room { clients = out; num_clients = num })
  less-IsRoom more = record {
    sized = removed.0 ∙ v.sized;
    counted = num-members;
    used = ground (arith, v.used, num-members, removed.1);
    named = v.named;
  }

  no-members : is_num num 0 ≡ true → members out ≡ 0
  no-members last = ground (arith, num-members)

  cleared-IsRoom :
      is_num num 0 ≡ true → IsRoom (cleared (record room { clients = out; num_clients = num }))
  cleared-IsRoom last = record {
    sized = length-no_clients;
    counted = num-members ∙ ap pos (no-members last ∙ sym members-no_clients);
    used = rw members-no_clients;
    named = omega arith;
  }

  occurrences-cleared :
      is_num num 0 ≡ true
      → (d : ClientRef)
      → occurrences d no_clients + (if c == d then 1 else 0) ≡ occurrences d room.clients
  occurrences-cleared last d =
      omega (
        arith,
        removed.3 d,
        no-members last,
        occurrences-le-members d out,
        occurrences-no_clients d,
      )

-- Without one of its clients a room is well formed and holds the others as before; without its last
-- client it is free.
pub room_without-counts :
    (c : ClientRef) (room : Room)
    → IsRoom room
    → 0 < occurrences c room.clients
    → IsRoom (room_without c room)
      × ((d : ClientRef)
          → occurrences d (room_without c room).clients + (if c == d then 1 else 0)
            ≡ occurrences d room.clients)
unfolding room_without
room_without-counts c room v h =
    let (out, num) = remove_client c room.clients room.num_clients in
    let removed = remove_client-Removed c room.clients room.num_clients h in
    elim (Bool-cases (is_num (remove_client c room.clients room.num_clients).1 0)) [
      | inl last ↦
          rw last (
            cleared-IsRoom c room _ _ v removed last,
            occurrences-cleared c room _ _ v removed last,
          )
      | inr more ↦ rw more (less-IsRoom c room _ _ v removed more, removed.3)
    ]

-- When a client that is in room `i` leaves it for another state, rooms and clients still agree.
pub IsConsistent-leave :
    {rooms : ℕ → Room} {clients : ℕ → Client}
    → IsConsistent rooms clients
    → (c : ClientRef) (client : Client) → is_state (clients c).state in_chat_room ≡ true
    → is_state client.state in_chat_room ≡ false
    → length client.name ≤ max_username_len
    → IsConsistent
        (update rooms (clients c).room_index (room_without c (rooms (clients c).room_index)))
        (update clients c client)
IsConsistent-leave {rooms} {clients} v c client inside outside name =
    let i = (clients c).room_index in
    let here : i < max_rooms = v.in_range c inside in
    let once : occurrences c (rooms i).clients ≡ 1 =
      v.located i c here ∙ place_of-inside (clients c) inside in
    let counts = room_without-counts c (rooms i) (v.room i here) (omega arith) in
    IsConsistent-move v c client i (room_without c (rooms i)) here counts.0
      (λ d other. ground (arith, counts.1 d))
      (ground (arith, counts.1 c, ==_refl c, place_of-outside client i outside))
      (λ r other. place_of-outside client r outside ∙ sym (place_of-elsewhere (clients c) r other))
      (λ e. absurd (ground arith)) name
