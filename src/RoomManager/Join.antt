-- ===== src/RoomManager/Join.antt =====
-- `join_chat_room`: when a request is refused, where the client goes when it is not, and that rooms
-- and clients still agree.
use chat_application.Prelude.{
  ℕ, ◌≤◌, ◌<◌, ◌≡◌, ◌≢◌, refl, sym, ap, ◌∙◌, true, false, Option, none, some, List, [], ◌∷◌, ◌++◌,
  arith, length, length-append, leb, ==_refl, Bool-cases, inl, inr,
}
use chat_application.Prelude.Int.{pos, incr, is_num}
use chat_application.CString.{Bytes}
use chat_application.CString.Laws.{write_text-fits}
use chat_application.Config.{
  ClientRef, Client, Room, World, Event, send, is_state, in_chat_room, emit, set_room, set_client,
  max_rooms, max_username_len, max_clients_room, max_message_len_from_server, cmd_room_join_ok,
  err_room_not_found, err_room_capacity_full,
}
use chat_application.Membership.{IsRoom, IsConsistent, IsConsistent-enter}
use chat_application.Send.{packet, send_message_to_client}
use chat_application.Send.Packet.{send_message_to_client-fits, emit-emit}
use chat_application.RoomManager.Slots.{others}
use chat_application.RoomManager.Slots.Occupancy.{
  members, members-le-length, Placed, place_client-Placed,
}
use chat_application.RoomManager.Texts.{
  entered_suffix, bad_number, no_such_room, room_full, joined, length-entered_suffix,
  length-bad_number, length-no_such_room, length-room_full, length-joined,
}
use chat_application.RoomManager.Broadcast.{notices, broadcast_message_in_room-notices}
use chat_application.RoomManager.{parse_room_number, enter_room, join_numbered, join_chat_room}

-- The notice that the others get.
abbrev pub entered_text : Client → Bytes
entered_text client = client.name ++ entered_suffix

-- The state after a reply to the client and nothing else.
abbrev pub replied : ClientRef → ℕ → Bytes → World → World
replied c code text w = emit (send (w.clients c).client_fd (packet code text) ∷ []) w

-- Those who are told that the client has come, and what the client is told.
abbrev pub arrival : ClientRef → ℕ → World → List Event
arrival c i w = notices w.clients (entered_text (w.clients c)) (others c (w.rooms i).clients)

abbrev pub welcome : ClientRef → World → List Event
welcome c w = send (w.clients c).client_fd (packet cmd_room_join_ok joined) ∷ []

-- The client in the array `clients` of room `i`.
abbrev pub moved : ClientRef → ℕ → List (Option ClientRef) → World → World
moved c i clients w =
    set_client c (record (w.clients c) { state = in_chat_room; room_index = i })
      (set_room i
        (record (w.rooms i) { clients = clients; num_clients = incr (w.rooms i).num_clients }) w)

abbrev pub entered : ClientRef → ℕ → List (Option ClientRef) → World → World
entered c i clients w = emit (arrival c i w ++ welcome c w) (moved c i clients w)

-- What a request to join may come to, by the number in the request and by the clients in that room.
pub data Joins (c : ClientRef) (w w' : World) : Type 0 where
  no_number :
      ((i : ℕ) → i < max_rooms → parse_room_number (w.clients c) ≢ some i)
      → w' ≡ replied c err_room_not_found bad_number w
      → Joins c w w'
  no_room :
      (i : ℕ)
      → parse_room_number (w.clients c) ≡ some i
      → i < max_rooms
      → members (w.rooms i).clients ≡ 0
      → w' ≡ replied c err_room_not_found no_such_room w
      → Joins c w w'
  full :
      (i : ℕ)
      → parse_room_number (w.clients c) ≡ some i
      → i < max_rooms
      → members (w.rooms i).clients ≡ max_clients_room
      → w' ≡ replied c err_room_capacity_full room_full w
      → Joins c w w'
  enters :
      (i : ℕ) (clients : List (Option ClientRef))
      → parse_room_number (w.clients c) ≡ some i
      → i < max_rooms
      → 0 < members (w.rooms i).clients
      → members (w.rooms i).clients < max_clients_room
      → Placed c (w.rooms i).clients (some clients)
      → w' ≡ entered c i clients w
      → Joins c w w'

enter_room-entered :
    (c : ClientRef) (i : ℕ) (clients : List (Option ClientRef)) (w : World)
    → length (w.clients c).name ≤ max_username_len
    → Placed c (w.rooms i).clients (some clients)
    → enter_room c i (entered_text (w.clients c)) clients w ≡ some (entered c i clients w)
unfolding enter_room
enter_room-entered c i clients w h placed =
    let short : length (entered_text (w.clients c)) < 1452 =
      omega (arith, length-append (w.clients c).name entered_suffix, length-entered_suffix) in
    rw
      (
        broadcast_message_in_room-notices (entered_text (w.clients c)) i c _ short,
        send_message_to_client-fits (w.clients c).client_fd cmd_room_join_ok joined _
            (omega (arith, length-joined)),
        ==_refl i,
        placed.3,
      )
      (ap some (emit-emit (arrival c i w) (welcome c w) (moved c i clients w)))

module _ (c : ClientRef) (w : World) (v : IsConsistent w.rooms w.clients) where
  entered_text-fits : length (entered_text (w.clients c)) < max_message_len_from_server
  entered_text-fits =
      omega
        (arith, v.named c, length-append (w.clients c).name entered_suffix, length-entered_suffix)

  -- A reply of a known text.
  reply :
      (code : ℕ) (text : Bytes)
      → length text < 1452
      → Joins c w (replied c code text w)
      → (w' : World) × (send_message_to_client (w.clients c).client_fd code text w ≡ some w')
        × Joins c w w'
  reply code text h outcome = (
    replied c code text w,
    send_message_to_client-fits (w.clients c).client_fd code text w h,
    outcome,
  )

  -- With a number in range, the outcome is that of `join_numbered`.
  module _ (i : ℕ) (number : parse_room_number (w.clients c) ≡ some i) (h : i < max_rooms) where
    IsRoom-i : IsRoom (w.rooms i)
    IsRoom-i = v.room i h

    not_full :
        (w.rooms i).in_use ≡ true
        → is_num (w.rooms i).num_clients max_clients_room ≡ false
        → (0 < members (w.rooms i).clients) × (members (w.rooms i).clients < max_clients_room)
    not_full used space = ground (
      arith,
      IsRoom-i.used,
      IsRoom-i.counted,
      IsRoom-i.sized,
      members-le-length (w.rooms i).clients,
    )

    place :
        (w.rooms i).in_use ≡ true
        → is_num (w.rooms i).num_clients max_clients_room ≡ false
        → (o : Option (List (Option ClientRef))) → Placed c (w.rooms i).clients o
        → (clients : List (Option ClientRef)) × (o ≡ some clients)
          × Placed c (w.rooms i).clients (some clients)
    place used space none p = absurd (omega (arith, not_full used space, IsRoom-i.sized))
    place used space (some clients) p = (clients, refl, p)

    join_numbered-Joins :
        (w' : World) × (join_numbered c i (entered_text (w.clients c)) w ≡ some w') × Joins c w w'
    unfolding join_numbered
    join_numbered-Joins = elim (Bool-cases (w.rooms i).in_use) [
      | inr free ↦ rw free (
          reply err_room_not_found no_such_room (omega (arith, length-no_such_room))
            (Joins.no_room i number h (ground (arith, IsRoom-i.used)) refl))
      | inl used ↦ rw used (elim (Bool-cases (is_num (w.rooms i).num_clients max_clients_room)) [
        | inl all ↦ rw all (
            reply err_room_capacity_full room_full (omega (arith, length-room_full))
              (Joins.full i number h (ground (arith, IsRoom-i.counted)) refl))
        | inr space ↦
            let (clients, e, p) = place used space _ (place_client-Placed c (w.rooms i).clients) in
            let (some_there, some_space) = not_full used space in
            rw (space, e)
              (
                entered c i clients w,
                enter_room-entered c i clients w (v.named c) p,
                Joins.enters i clients number h some_there some_space p refl,
              )
      ])
    ]

  join_by_number :
      (o : Option ℕ)
      → parse_room_number (w.clients c) ≡ o
      → (w' : World) × (join_chat_room c w ≡ some w') × Joins c w w'
  unfolding join_chat_room
  join_by_number none e =
      rw
        (
          write_text-fits max_message_len_from_server (entered_text (w.clients c))
              entered_text-fits,
          e,
        )
        (reply err_room_not_found bad_number (omega (arith, length-bad_number))
          (Joins.no_number (λ i h e'. cc) refl))
  join_by_number (some i) e =
      rw
        (
          write_text-fits max_message_len_from_server (entered_text (w.clients c))
              entered_text-fits,
          e,
        )
        (elim (Bool-cases (leb max_rooms i)) [
          | inl beyond ↦ rw beyond (
              reply err_room_not_found bad_number (omega (arith, length-bad_number))
                (Joins.no_number (λ j h e'. ground arith) refl))
          | inr within ↦ rw within (join_numbered-Joins i e (ground arith))
        ])

  -- If rooms and clients agree, join_chat_room completes in one of four ways, by the number in the
  -- request and the clients in that room: no number from 0 to 49, a room without clients, a room
  -- with 120, or the client enters the room, the others are told and it is told.
  pub join_chat_room-Joins : (w' : World) × (join_chat_room c w ≡ some w') × Joins c w w'
  join_chat_room-Joins = join_by_number (parse_room_number (w.clients c)) refl

entered-IsRoom :
    (c : ClientRef) (room : Room) (clients : List (Option ClientRef))
    → IsRoom room
    → 0 < members room.clients
    → Placed c room.clients (some clients)
    → IsRoom (record room { clients = clients; num_clients = incr room.num_clients })
entered-IsRoom c room clients v there p = record {
  sized = p.0 ∙ v.sized;
  counted = ap incr v.counted ∙ ap pos (sym p.1);
  used = ground (arith, v.used, p.1);
  named = v.named;
}

-- From a state in which rooms and clients agree, a client that is in no room leads to another.
pub Joins-IsConsistent :
    {c : ClientRef} {w w' : World}
    → IsConsistent w.rooms w.clients
    → is_state (w.clients c).state in_chat_room ≡ false
    → Joins c w w'
    → IsConsistent w'.rooms w'.clients
Joins-IsConsistent v out (no_number _ e) = rw e v
Joins-IsConsistent v out (no_room i _ _ _ e) = rw e v
Joins-IsConsistent v out (full i _ _ _ e) = rw e v
Joins-IsConsistent {c} {w} v out (enters i clients _ h there _ p e) = rw e (
    IsConsistent-enter v c _ i _ h out refl refl (v.named c)
      (entered-IsRoom c (w.rooms i) clients (v.room i h) there p) p.2)

-- If rooms and clients agree and the client is in no room, join_chat_room completes and they agree
-- afterwards.
pub join_chat_room-IsConsistent :
    (c : ClientRef) (w : World)
    → IsConsistent w.rooms w.clients
    → is_state (w.clients c).state in_chat_room ≡ false
    → (w' : World) × (join_chat_room c w ≡ some w') × IsConsistent w'.rooms w'.clients
join_chat_room-IsConsistent c w v out =
    let (w', done, outcome) = join_chat_room-Joins c w v in
    (w', done, Joins-IsConsistent v out outcome)
