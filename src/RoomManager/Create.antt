-- ===== src/RoomManager/Create.antt =====
-- `create_chat_room`: when a request is refused, which room it opens when it is not, and that rooms
-- and clients still agree.
use chat_application.Prelude.{
  ℕ, ◌+◌, ◌≤◌, ◌<◌, ◌≡◌, refl, sym, ap, ◌∙◌, true, false, Option, none, some, [], ◌∷◌, ◌++◌, arith,
  length, length-append, ltb, Bool-cases, inl, inr,
}
use chat_application.Prelude.Int.{pos}
use chat_application.Prelude.Memory.{first_from, IsFirst, first_from_lem}
use chat_application.CString.{Bytes}
use chat_application.CString.Laws.{write_text-fits}
use chat_application.Config.{
  ClientRef, Client, Room, World, send, is_state, in_chat_room, emit, set_room, set_client,
  max_rooms, max_room_name_len, max_content_len, max_message_len_from_server, cmd_room_create_ok,
  err_room_name_invalid, err_room_capacity_full,
}
use chat_application.Membership.{IsConsistent, IsConsistent-enter}
use chat_application.Send.{packet, send_message_to_client}
use chat_application.Send.Packet.{send_message_to_client-fits}
use chat_application.RoomManager.Slots.{set_first}
use chat_application.RoomManager.Slots.Occupancy.{
  members, occurrences-le-members, set_first-occurrences,
}
use chat_application.RoomManager.Texts.{
  created, name_invalid, rooms_exhausted, length-created, length-name_invalid,
  length-rooms_exhausted,
}
use chat_application.RoomManager.Join.{replied}
use chat_application.RoomManager.{content, is_free, open_room, create_chat_room}

-- `"Room created successfully: %s\n"`
abbrev pub created_text : Client → Bytes
created_text client = created ++ content client ++ b'\n' ∷ []

-- The room that the client opens, with it in the first slot.
abbrev pub opened_room : ClientRef → Bytes → Room → Room
opened_room c room_name room = record room {
  in_use = true;
  num_clients = pos 1;
  room_name = room_name;
  clients = set_first c room.clients;
}

abbrev pub opened : ClientRef → ℕ → World → World
opened c i w =
    emit
      (send (w.clients c).client_fd (packet cmd_room_create_ok (created_text (w.clients c))) ∷ [])
      (set_client c (record (w.clients c) { room_index = i; state = in_chat_room })
        (set_room i (opened_room c (content (w.clients c)) (w.rooms i)) w))

-- What a request to create a room may come to.
pub data Creates (c : ClientRef) (w w' : World) : Type 0 where
  bad_name :
      max_room_name_len < length (content (w.clients c))
      → w' ≡ replied c err_room_name_invalid name_invalid w
      → Creates c w w'
  exhausted :
      length (content (w.clients c)) ≤ max_room_name_len
      → ((r : ℕ) → r < max_rooms → 0 < members (w.rooms r).clients)
      → w' ≡ replied c err_room_capacity_full rooms_exhausted w
      → Creates c w w'
  opens :
      (i : ℕ)
      → length (content (w.clients c)) ≤ max_room_name_len
      → i < max_rooms
      → members (w.rooms i).clients ≡ 0
      → ((r : ℕ) → r < i → 0 < members (w.rooms r).clients)
      → w' ≡ opened c i w
      → Creates c w w'

length-created_text :
    (client : Client) → length (created_text client) ≡ length (content client) + 28
length-created_text client = omega (
  arith,
  length-append (created ++ content client) (b'\n' ∷ []),
  length-append created (content client),
  length-created,
)

open_room-opened :
    (c : ClientRef) (i : ℕ) (w : World)
    → length (content (w.clients c)) ≤ max_room_name_len
    → open_room c i (content (w.clients c)) (created_text (w.clients c)) w ≡ some (opened c i w)
unfolding open_room
open_room-opened c i w h =
    rw (write_text-fits (max_room_name_len + 1) (content (w.clients c)) (omega arith)) (
      send_message_to_client-fits _ cmd_room_create_ok (created_text (w.clients c)) _
        (omega (arith, length-created_text (w.clients c))))

module _ (c : ClientRef) (w : World) (v : IsConsistent w.rooms w.clients) where
  used_of_not_free : (r : ℕ) → r < max_rooms → is_free w r ≡ false → 0 < members (w.rooms r).clients
  used_of_not_free r h e = ground (arith, (v.room r h).used)

  by_search :
      (o : Option ℕ)
      → length (content (w.clients c)) ≤ max_room_name_len
      → IsFirst (is_free w) max_rooms 0 o
      → (w' : World) × ((elim o [
        | none ↦
            send_message_to_client (w.clients c).client_fd err_room_capacity_full rooms_exhausted w
        | some i ↦ open_room c i (content (w.clients c)) (created_text (w.clients c)) w
      ])
          ≡ some w')
        × Creates c w w'
  by_search none short all = (
    replied c err_room_capacity_full rooms_exhausted w,
    send_message_to_client-fits _ _ rooms_exhausted w (omega (arith, length-rooms_exhausted)),
    Creates.exhausted short (λ r h. used_of_not_free r h (all r (omega arith) (omega arith))) refl,
  )
  by_search (some i) short found = (
    opened c i w,
    open_room-opened c i w short,
    Creates.opens i short (omega arith) (ground (arith, found.2, (v.room i (omega arith)).used))
        (λ r h. used_of_not_free r (omega arith) (found.3 r (omega arith) h)) refl,
  )

  -- If rooms and clients agree and the content is at most 128 bytes, create_chat_room completes in
  -- one of three ways: a name of more than 24 bytes is refused, any name is refused where all
  -- rooms have clients, or the lowest room without clients is opened with the client in its first
  -- slot.
  pub create_chat_room-Creates :
      length (content (w.clients c)) ≤ max_content_len
      → (w' : World) × (create_chat_room c w ≡ some w') × Creates c w w'
  unfolding create_chat_room
  create_chat_room-Creates h =
      rw
        (write_text-fits max_message_len_from_server (created_text (w.clients c))
          (omega (arith, length-created_text (w.clients c))))
        (elim (Bool-cases (ltb max_room_name_len (length (content (w.clients c))))) [
          | inl long ↦ rw long (
            replied c err_room_name_invalid name_invalid w,
            send_message_to_client-fits _ _ name_invalid w (omega (arith, length-name_invalid)),
            Creates.bad_name (ground arith) refl,
          )
          | inr short ↦ rw short (
              by_search (first_from (is_free w) max_rooms 0) (ground arith)
                (first_from_lem (is_free w) max_rooms 0))
        ])

-- From a state in which rooms and clients agree, a client that is in no room leads to another.
pub Creates-IsConsistent :
    {c : ClientRef} {w w' : World}
    → IsConsistent w.rooms w.clients
    → is_state (w.clients c).state in_chat_room ≡ false
    → Creates c w w'
    → IsConsistent w'.rooms w'.clients
Creates-IsConsistent v out (bad_name _ e) = rw e v
Creates-IsConsistent v out (exhausted _ _ e) = rw e v
Creates-IsConsistent {c} {w} v out (opens i short h empty _ e) =
    let (size, one, counts) =
      set_first-occurrences c (w.rooms i).clients (omega (arith, (v.room i h).sized)) empty in
    rw e (
      IsConsistent-enter v c _ i _ h out refl refl (v.named c)
        (record {
          sized = size ∙ (v.room i h).sized;
          counted = ap pos (sym one);
          used = rw one;
          named = short;
        })
        (λ d. omega (arith, counts d, occurrences-le-members d (w.rooms i).clients)))

-- If rooms and clients agree, the client is in no room and the content is at most 128 bytes,
-- create_chat_room completes and they agree afterwards.
pub create_chat_room-IsConsistent :
    (c : ClientRef) (w : World)
    → IsConsistent w.rooms w.clients
    → is_state (w.clients c).state in_chat_room ≡ false
    → length (content (w.clients c)) ≤ max_content_len
    → (w' : World) × (create_chat_room c w ≡ some w') × IsConsistent w'.rooms w'.clients
create_chat_room-IsConsistent c w v out short =
    let (w', done, outcome) = create_chat_room-Creates c w v short in
    (w', done, Creates-IsConsistent v out outcome)
