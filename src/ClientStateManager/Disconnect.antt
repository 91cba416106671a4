-- ===== src/ClientStateManager/Disconnect.antt =====
-- `handle_client_disconnection`: the client leaves its room, its descriptor is closed and its slot
-- is free again.
use chat_application.Prelude.{
  ℕ, ◌≡◌, refl, sym, ap, true, false, some, List, [], ◌∷◌, ◌++◌, arith, Bool-cases, inl, inr, ◌∙◌,
  ◌<◌, ◌≢◌, ◌==◌, ==_refl,
}
use chat_application.Prelude.Int.{decr}
use chat_application.Prelude.Memory.{update}
use chat_application.Config.{
  ClientRef, World, Event, close, epoll_del, emit, is_state, in_chat_room, set_client, set_room,
  set_count, zeroed_client, max_rooms,
}
use chat_application.Membership.{IsConsistent, IsConsistent-client, place_of, place_of-outside}
use chat_application.Send.Packet.{emit-emit}
use chat_application.RoomManager.Slots.{others}
use chat_application.RoomManager.Slots.Occupancy.{occurrences}
use chat_application.RoomManager.Broadcast.{notices}
use chat_application.RoomManager.Leave.{
  left_text, room_without, leave_room-room_without, IsConsistent-leave,
}
use chat_application.ClientStateManager.{cleanup_client, handle_client_disconnection}

module _ (t : ℕ) (c : ClientRef) (w : World) where
  -- The slot is zeroed, and the worker counts one client less.
  abbrev pub released : World → World
  released u = set_count t (decr (w.num_of_clients t)) (set_client c zeroed_client u)

  abbrev pub closing : List Event
  closing = epoll_del t (w.clients c).client_fd ∷ close (w.clients c).client_fd ∷ []

  -- The others in the room are told, and the room loses the client.
  abbrev pub told : List Event
  told =
      notices w.clients (left_text (w.clients c))
        (others c (w.rooms (w.clients c).room_index).clients)

  abbrev pub left : World
  left = set_room (w.clients c).room_index (room_without c (w.rooms (w.clients c).room_index)) w

  -- What a disconnection may come to: with the client in a room, and otherwise.
  pub data Disconnects (w' : World) : Type 0 where
    from_room :
        is_state (w.clients c).state in_chat_room ≡ true
        → w' ≡ emit (told ++ closing) (released left)
        → Disconnects w'
    from_elsewhere :
        is_state (w.clients c).state in_chat_room ≡ false
        → w' ≡ emit closing (released w)
        → Disconnects w'

  module _ (v : IsConsistent w.rooms w.clients) where
    pub handle_client_disconnection-cases :
        (w' : World) × (handle_client_disconnection t c w ≡ some w') × Disconnects w'
    unfolding handle_client_disconnection cleanup_client
    handle_client_disconnection-cases =
        elim (Bool-cases (is_state (w.clients c).state in_chat_room)) [
          | inl inside ↦
              rw (inside, leave_room-room_without c (w.clients c).room_index w (v.named c))
                (_, refl, from_room inside (emit-emit told closing (released left)))
          | inr outside ↦ rw outside (_, refl, from_elsewhere outside refl)
        ]

    -- Rooms and clients still agree.
    pub Disconnects-IsConsistent : {w' : World} → Disconnects w' → IsConsistent w'.rooms w'.clients
    Disconnects-IsConsistent (from_room inside e) =
        rw e (IsConsistent-leave v c zeroed_client inside refl (omega arith))
    Disconnects-IsConsistent (from_elsewhere outside e) = rw e (
        IsConsistent-client v c zeroed_client
          (λ r _. sym (place_of-outside (w.clients c) r outside)) (λ f. absurd (ground arith))
          (omega arith))

-- Of the clients only the one changes, and of the counts only the worker's.
pub Disconnects-clients :
    {t : ℕ} {c : ClientRef} {w w' : World}
    → Disconnects t c w w'
    → (w'.clients ≡ update w.clients c zeroed_client)
      × (w'.num_of_clients ≡ update w.num_of_clients t (decr (w.num_of_clients t)))
Disconnects-clients (from_room _ e) = (ap (λ u. u.clients) e, ap (λ u. u.num_of_clients) e)
Disconnects-clients (from_elsewhere _ e) = (ap (λ u. u.clients) e, ap (λ u. u.num_of_clients) e)

-- No room has the client any more, every other client is where it was, and rooms and clients agree.
pub record IsGone (c : ClientRef) (w w' : World) : Type 0 where
  consistent : IsConsistent w'.rooms w'.clients
  in_no_room : (r : ℕ) → r < max_rooms → occurrences c (w'.rooms r).clients ≡ 0
  others_stay :
      (r : ℕ) (d : ClientRef)
      → r < max_rooms
      → c ≢ d
      → occurrences d (w'.rooms r).clients ≡ occurrences d (w.rooms r).clients

Disconnects-IsGone :
    {t : ℕ} {c : ClientRef} {w w' : World}
    → IsConsistent w.rooms w.clients
    → Disconnects t c w w'
    → IsGone c w w'
Disconnects-IsGone {t} {c} {w} {w'} v gone =
    let after = Disconnects-IsConsistent t c w v gone in
    let slots = (Disconnects-clients gone).0 in
    record {
      consistent = after;
      in_no_room =
          λ r p. after.located r c p ∙ ap (λ f. place_of (f c) r) slots ∙ rw (==_refl c) refl;
      others_stay = λ r d p other.
          let away : (c == d) ≡ false = ground (arith, other) in
          after.located r d p ∙ ap (λ f. place_of (f d) r) slots ∙ rw away (sym (v.located r d p));
    }

-- If rooms and clients agree, a disconnection completes: the others in the room of the client are
-- told, the room loses the client, the descriptor leaves the epoll instance and is closed, the
-- slot is zeroed and the worker counts one client less; afterwards no room has the client, every
-- other client is in the rooms where it was, and rooms and clients agree.
pub handle_client_disconnection-Disconnects :
    (t : ℕ) (c : ClientRef) (w : World)
    → IsConsistent w.rooms w.clients
    → (w' : World) × (handle_client_disconnection t c w ≡ some w')
      × Disconnects t c w w'
      × IsGone c w w'
handle_client_disconnection-Disconnects t c w v =
    let (w', done, gone) = handle_client_disconnection-cases t c w v in
    (w', done, gone, Disconnects-IsGone v gone)

-- If rooms and clients agree, handle_client_disconnection completes and they agree afterwards.
pub handle_client_disconnection-IsConsistent :
    (t : ℕ) (c : ClientRef) (w : World)
    → IsConsistent w.rooms w.clients
    → (w' : World) × (handle_client_disconnection t c w ≡ some w')
      × IsConsistent w'.rooms w'.clients
handle_client_disconnection-IsConsistent t c w v =
    let (w', done, gone) = handle_client_disconnection-cases t c w v in
    (w', done, Disconnects-IsConsistent t c w v gone)
