-- ===== src/Membership.antt =====
-- Rooms and clients agree: the invariant that ties `SERVER_ROOMS` to the states of the clients.
pub mod Bag
use chat_application.Prelude.{
  ℕ, ◌+◌, ◌≤◌, ◌<◌, ◌≡◌, sym, ◌∙◌, ◌≢◌, true, false, arith, ltb, ◌==◌, ==_refl, if◌then◌else◌,
  length,
}
use chat_application.Prelude.Int.{pos}
use chat_application.Prelude.Memory.{update, update_elim}
use chat_application.Config.{
  ClientRef, Client, Room, is_state, in_chat_room, max_rooms, max_clients_room, max_room_name_len,
  max_username_len,
}
use chat_application.RoomManager.Slots.Occupancy.{members, occurrences}

-- A room by itself: its array has its size, `num_clients` counts the pointers, `in_use` says whether
-- there are any, and the name fits its buffer.
pub record IsRoom (room : Room) : Type 0 where
  pub sized : length room.clients ≡ max_clients_room
  pub counted : room.num_clients ≡ pos (members room.clients)
  pub used : room.in_use ≡ ltb 0 (members room.clients)
  pub named : length room.room_name ≤ max_room_name_len

-- How often the client should stand in room `r`.
abbrev pub place_of : Client → ℕ → ℕ
place_of client r =
    if is_state client.state in_chat_room then (if client.room_index == r then 1 else 0) else 0

-- Each room is well formed; a room's array holds exactly the clients whose state and `room_index`
-- say that they are in it, once each; an index in use is in range; names fit their buffers.
pub record IsConsistent (rooms : ℕ → Room) (clients : ℕ → Client) : Type 0 where
  pub room : (r : ℕ) → r < max_rooms → IsRoom (rooms r)
  pub located :
      (r : ℕ) (c : ClientRef)
      → r < max_rooms
      → occurrences c (rooms r).clients ≡ place_of (clients c) r
  pub in_range :
      (c : ClientRef)
      → is_state (clients c).state in_chat_room ≡ true
      → (clients c).room_index < max_rooms
  pub named : (c : ClientRef) → length (clients c).name ≤ max_username_len

pub place_of-inside :
    (client : Client)
    → is_state client.state in_chat_room ≡ true
    → place_of client client.room_index ≡ 1
place_of-inside client h = rw (h, ==_refl client.room_index)

pub place_of-outside :
    (client : Client) (r : ℕ) → is_state client.state in_chat_room ≡ false → place_of client r ≡ 0
place_of-outside client r h = rw h

pub place_of-elsewhere : (client : Client) (r : ℕ) → client.room_index ≢ r → place_of client r ≡ 0
place_of-elsewhere client r h = ground arith

module _ {rooms : ℕ → Room} {clients : ℕ → Client} (v : IsConsistent rooms clients) where
  -- A client changed in place: it stands where it stood.
  pub IsConsistent-client :
      (c : ClientRef) (client : Client)
      → ((r : ℕ) → r < max_rooms → place_of client r ≡ place_of (clients c) r)
      → (is_state client.state in_chat_room ≡ true → client.room_index < max_rooms)
      → length client.name ≤ max_username_len
      → IsConsistent rooms (update clients c client)
  IsConsistent-client c client place range name = record {
    room = v.room;
    located = λ r d h.
        update_elim (λ d x. occurrences d (rooms r).clients ≡ place_of x r) clients c client
          (v.located r c h ∙ sym (place r h)) (λ e n. v.located r e h) d;
    in_range = λ d.
        update_elim (λ d x. is_state x.state in_chat_room ≡ true → x.room_index < max_rooms) clients
          c client range (λ e n. v.in_range e) d;
    named = λ d.
        update_elim (λ d x. length x.name ≤ max_username_len) clients c client name
          (λ e n. v.named e) d;
  }

  -- A room changed together with one client: the room holds what it held of the others.
  pub IsConsistent-move :
      (c : ClientRef) (client : Client) (i : ℕ) (room : Room)
      → i < max_rooms
      → IsRoom room
      → ((d : ClientRef) → c ≢ d → occurrences d room.clients ≡ occurrences d (rooms i).clients)
      → occurrences c room.clients ≡ place_of client i
      → ((r : ℕ) → i ≢ r → place_of client r ≡ place_of (clients c) r)
      → (is_state client.state in_chat_room ≡ true → client.room_index < max_rooms)
      → length client.name ≤ max_username_len
      → IsConsistent (update rooms i room) (update clients c client)
  IsConsistent-move c client i new inside well kept here elsewhere range name = record {
    room = λ r.
        update_elim (λ r x. r < max_rooms → IsRoom x) rooms i new (λ h. well) (λ s n h. v.room s h)
          r;
    located = λ r.
        update_elim
          (λ r x.
            (d : ClientRef)
            → r < max_rooms
            → occurrences d x.clients ≡ place_of (update clients c client d) r)
          rooms i new
          (λ d h.
            update_elim (λ d x. occurrences d new.clients ≡ place_of x i) clients c client here
              (λ e n. kept e n ∙ v.located i e h) d)
          (λ s n d h.
            update_elim (λ d x. occurrences d (rooms s).clients ≡ place_of x s) clients c client
              (v.located s c h ∙ sym (elsewhere s n)) (λ e m. v.located s e h) d)
          r;
    in_range = λ d.
        update_elim (λ d x. is_state x.state in_chat_room ≡ true → x.room_index < max_rooms) clients
          c client range (λ e n. v.in_range e) d;
    named = λ d.
        update_elim (λ d x. length x.name ≤ max_username_len) clients c client name
          (λ e n. v.named e) d;
  }

-- When a client that is in no room goes to room `i`, rooms and clients still agree.
pub IsConsistent-enter :
    {rooms : ℕ → Room} {clients : ℕ → Client}
    → IsConsistent rooms clients
    → (c : ClientRef) (client : Client) (i : ℕ) (room : Room) → i < max_rooms
    → is_state (clients c).state in_chat_room ≡ false
    → is_state client.state in_chat_room ≡ true
    → client.room_index ≡ i
    → length client.name ≤ max_username_len
    → IsRoom room
    → ((d : ClientRef)
        → occurrences d room.clients ≡ occurrences d (rooms i).clients + (if c == d then 1 else 0))
    → IsConsistent (update rooms i room) (update clients c client)
IsConsistent-enter {rooms} {clients} v c client i room h outside inside index name well counts =
    IsConsistent-move v c client i room h well (λ d other. ground (arith, counts d))
      (ground (
        arith,
        counts c,
        ==_refl c,
        ==_refl i,
        v.located i c h,
        place_of-outside (clients c) i outside,
        index,
      ))
      (λ r other.
        place_of-elsewhere client r (λ e. other (sym index ∙ e))
        ∙ sym (place_of-outside (clients c) r outside))
      (λ _. rw index h) name
