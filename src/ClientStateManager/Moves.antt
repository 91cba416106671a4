-- ===== src/ClientStateManager/Moves.antt =====
-- What a command does to the rooms, each taken as its clients alone.
use chat_application.Prelude.{
  ℕ, ◌<◌, ◌≡◌, ◌≢◌, refl, sym, ap, ◌∙◌, true, false, some, arith, ◌==◌, ==_refl, Bool-cases, inl,
  inr, ◌⊎◌,
}
use chat_application.Config.{
  ClientRef, Client, ClientState, in_chat_room, Room, World, is_state, max_rooms,
}
use chat_application.Membership.{IsConsistent, place_of, place_of-inside, place_of-elsewhere}
use chat_application.Membership.Bag.{members_of, Moves, Comes, Goes, in_and_out}
use chat_application.RoomManager.Slots.Occupancy.{occurrences}
use chat_application.ClientStateManager.Transition.{
  Transition, stays, submits, creates, joins, leaves, OneRoom, same, changed,
}
use chat_application.ClientStateManager.Disconnect.{Disconnects-clients}
use chat_application.ClientStateManager.Handlers.{ListFits, command}
use chat_application.ClientStateManager.Route.{
  Routes, route_client_command-Routes, Routes-IsConsistent,
}
use chat_application.ClientStateManager.Reading.{Routes-OneRoom}
use chat_application.ClientStateManager.{route_client_command}

-- Of two rooms one is as before.
one_of_two :
    {rooms rooms' : ℕ → Room} (i j : ℕ)
    → OneRoom rooms rooms'
    → i ≢ j
    → rooms' i ≡ rooms i ⊎ rooms' j ≡ rooms j
one_of_two i j (same e) n = inl (ap (λ f. f i) e)
one_of_two i j (changed k room e) n = elim (Bool-cases (k == i)) [
  | inl here ↦ inr (ap (λ f. f j) e ∙ ground arith)
  | inr other ↦ inl (ap (λ f. f i) e ∙ rw other refl)
]

-- A room that is as before holds the client as before.
differs :
    {rooms rooms' : ℕ → Room} {clients clients' : ℕ → Client} (c : ClientRef) (r : ℕ)
    → r < max_rooms
    → IsConsistent rooms clients
    → IsConsistent rooms' clients'
    → rooms' r ≡ rooms r
    → place_of (clients c) r ≡ 1
    → place_of (clients' c) r ≡ 0
    → ⊥
differs {rooms} {rooms'} c r h v v' kept here gone = omega (
  arith,
  v.located r c h,
  v'.located r c h,
  ap (λ room. occurrences c room.clients) kept,
  here,
  gone,
)

-- A client that is in a room before and after has not changed rooms.
stays_put :
    {rooms rooms' : ℕ → Room} {clients clients' : ℕ → Client} (c : ClientRef)
    → IsConsistent rooms clients
    → IsConsistent rooms' clients'
    → OneRoom rooms rooms'
    → is_state (clients c).state in_chat_room ≡ true
    → is_state (clients' c).state in_chat_room ≡ true
    → (clients' c).room_index ≡ (clients c).room_index
stays_put {rooms} {rooms'} {clients} {clients'} c v v' one e e' =
    let i = (clients c).room_index in
    let j = (clients' c).room_index in
    elim (Bool-cases (i == j)) [
      | inl here ↦ ground arith
      | inr other ↦ absurd (elim (one_of_two i j one (ground arith)) [
        | inl kept ↦
            differs c i (v.in_range c e) v v' kept (place_of-inside (clients c) e)
              (place_of-elsewhere (clients' c) i (λ q. ground arith))
        | inr kept ↦
            differs c j (v'.in_range c e') v' v (sym kept) (place_of-inside (clients' c) e')
              (place_of-elsewhere (clients c) j (λ q. ground arith))
      ])
    ]

-- The commands that bring a client to a room and out of one.
module _ {cmd : ℕ} {before after : ClientState} where
  Transition-Comes :
      Transition cmd before after
      → is_state before in_chat_room ≡ false
      → is_state after in_chat_room ≡ true
      → Comes cmd
  Transition-Comes (stays e) p q = absurd (cc (rw e at q, p))
  Transition-Comes (submits e f g) p q = absurd (ground (arith, rw g at q))
  Transition-Comes (creates e f g) p q = inl e
  Transition-Comes (joins e f g) p q = inr e
  Transition-Comes (leaves e f g) p q = absurd (ground (arith, rw g at q))

  Transition-Goes :
      Transition cmd before after
      → is_state before in_chat_room ≡ true
      → is_state after in_chat_room ≡ false
      → Goes cmd
  Transition-Goes (stays e) p q = absurd (cc (rw e at q, p))
  Transition-Goes (submits e f g) p q = absurd (ground (arith, rw f at p))
  Transition-Goes (creates e f g) p q = absurd (ground (arith, rw g at q))
  Transition-Goes (joins e f g) p q = absurd (ground (arith, rw g at q))
  Transition-Goes (leaves e f g) p q = inl e

-- The client in the state after a message, and the other clients.
record Step (t : ℕ) (c : ClientRef) (w w' : World) : Type 0 where
  others : (d : ClientRef) → c ≢ d → w'.clients d ≡ w.clients d
  comes :
      is_state (w.clients c).state in_chat_room ≡ false
      → is_state (w'.clients c).state in_chat_room ≡ true
      → Comes (command c w)
  goes :
      is_state (w.clients c).state in_chat_room ≡ true
      → is_state (w'.clients c).state in_chat_room ≡ false
      → Goes (command c w)

Routes-Step : {t : ℕ} {c : ClientRef} {w w' : World} → Routes t c w w' → Step t c w w'
Routes-Step (Routes.malformed _ code text _ e) = rw e (record {
  others = λ d n. refl;
  comes = λ p q. absurd (cc (p, q));
  goes = λ p q. absurd (cc (p, q));
})
Routes-Step (Routes.not_available _ _ code text _ e) = rw e (record {
  others = λ d n. refl;
  comes = λ p q. absurd (cc (p, q));
  goes = λ p q. absurd (cc (p, q));
})
Routes-Step {c} {w} {w'} (Routes.exits _ leave gone) =
    let clients = (Disconnects-clients gone).0 in
    record {
      others = λ d n. ap (λ f. f d) clients ∙ ground arith;
      comes = λ p q.
          absurd (ground (arith, ap (λ f. is_state (f c).state in_chat_room) clients, ==_refl c));
      goes = λ p q. inr leave;
    }
Routes-Step (Routes.handled _ _ _ done) = record {
  others = done.others;
  comes = Transition-Comes done.transition;
  goes = Transition-Goes done.transition;
}

-- If rooms and clients agree and the room list fits, route_client_command completes, and to the
-- rooms, each taken as its clients in no order, one of three things has happened: nothing, the
-- client has come to one room by a request to create or to join, or it has left one by
-- CMD_LEAVE_ROOM or CMD_EXIT.
pub route_client_command-Moves :
    (t : ℕ) (c : ClientRef) (w : World)
    → IsConsistent w.rooms w.clients
    → ListFits w.rooms
    → (w' : World) × (route_client_command t c w ≡ some w')
      × Moves (command c w) c (λ r. members_of (w.rooms r)) (λ r. members_of (w'.rooms r))
route_client_command-Moves t c w v fits =
    let (w', done, outcome) = route_client_command-Routes t c w v fits in
    let v' = Routes-IsConsistent v outcome in
    let step = Routes-Step outcome in
    (
      w',
      done,
      in_and_out v v' c step.others (command c w) _ _ refl refl
          (stays_put c v v' (Routes-OneRoom outcome)) step.comes step.goes,
    )
