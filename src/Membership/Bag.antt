-- ===== src/Membership/Bag.antt =====
-- A room as its clients alone, whatever the order and the gaps of its array; and how the rooms change
-- when one client moves.
use mathlib.Core.Quot
use mathlib.Core.Quot.{Quot, Quot-set}
use chat_application.Prelude.{
  ℕ, ◌+◌, ◌<◌, ◌≡◌, ◌≢◌, refl, sym, ap, ◌∙◌, Bool, true, false, Option, some, List, ◌∷◌, arith,
  ◌==◌, ==_refl, if◌then◌else◌, Bool-cases, inl, inr, ◌⊎◌,
}
use chat_application.Config.{
  ClientRef, Client, Room, is_state, in_chat_room, max_rooms, cmd_room_create_request,
  cmd_room_join_request, cmd_leave_room, cmd_exit,
}
use chat_application.RoomManager.Slots.Occupancy.{occurrences}
use chat_application.Membership.{
  IsConsistent, place_of, place_of-inside, place_of-outside, place_of-elsewhere,
}

-- Two arrays hold the same clients, as often.
abbrev SameClients : List (Option ClientRef) → List (Option ClientRef) → Type 0
SameClients ss us = (c : ClientRef) → occurrences c ss ≡ occurrences c us

abbrev pub Members : Type 0
Members = Quot SameClients

SameClients-cons :
    (c : ClientRef) (ss us : List (Option ClientRef))
    → SameClients ss us
    → SameClients (some c ∷ ss) (some c ∷ us)
unfolding occurrences
SameClients-cons c ss us h d = omega (arith, h d)

-- One client more.
pub with_client : ClientRef → Members → Members
with_client c =
    Quot.lift Quot-set (λ ss. Quot.mk (some c ∷ ss))
      (λ ss us h. Quot.sound (SameClients-cons c ss us h))

-- The clients of a room.
pub members_of : Room → Members
members_of room = Quot.mk room.clients

-- The commands with which a client may come to a room, and leave one.
abbrev pub Comes : ℕ → Type 0
Comes cmd = cmd ≡ cmd_room_create_request ⊎ cmd ≡ cmd_room_join_request

abbrev pub Goes : ℕ → Type 0
Goes cmd = cmd ≡ cmd_leave_room ⊎ cmd ≡ cmd_exit

-- The rooms before and after a command of client `c`: nothing has changed, or the client has come to
-- a room, or it has left one.
pub data Moves (cmd : ℕ) (c : ClientRef) (before after : ℕ → Members) : Type 0 where
  stays : ((r : ℕ) → r < max_rooms → after r ≡ before r) → Moves cmd c before after
  comes :
      (i : ℕ)
      → Comes cmd
      → i < max_rooms
      → after i ≡ with_client c (before i)
      → ((r : ℕ) → r < max_rooms → i ≢ r → after r ≡ before r)
      → Moves cmd c before after
  goes :
      (i : ℕ)
      → Goes cmd
      → i < max_rooms
      → before i ≡ with_client c (after i)
      → ((r : ℕ) → r < max_rooms → i ≢ r → after r ≡ before r)
      → Moves cmd c before after

members_of-same :
    (a b : Room)
    → ((d : ClientRef) → occurrences d a.clients ≡ occurrences d b.clients)
    → members_of a ≡ members_of b
unfolding members_of
members_of-same a b h = Quot.sound h

members_of-with_client :
    (c : ClientRef) (a b : Room)
    → ((d : ClientRef)
        → occurrences d a.clients ≡ (if c == d then 1 else 0) + occurrences d b.clients)
    → members_of a ≡ with_client c (members_of b)
unfolding members_of with_client occurrences
members_of-with_client c a b h = Quot.sound h

-- A room to which a client comes, when the others stay.
joined_room :
    {rooms rooms' : ℕ → Room} {clients clients' : ℕ → Client}
    → IsConsistent rooms clients
    → IsConsistent rooms' clients'
    → (c : ClientRef) (r : ℕ) → r < max_rooms
    → ((d : ClientRef) → c ≢ d → clients' d ≡ clients d)
    → place_of (clients' c) r ≡ 1
    → place_of (clients c) r ≡ 0
    → members_of (rooms' r) ≡ with_client c (members_of (rooms r))
joined_room {rooms} {rooms'} {clients} {clients'} v v' c r h others after before =
    members_of-with_client c (rooms' r) (rooms r) (λ d. elim (Bool-cases (c == d)) [
      | inl own ↦
          let same : c ≡ d = ground arith in
          rw (sym same) (ground (arith, v'.located r c h, v.located r c h, ==_refl c))
      | inr other ↦
          let kept : occurrences d (rooms' r).clients ≡ occurrences d (rooms r).clients =
            v'.located r d h
            ∙ ap (λ x. place_of x r) (others d (ground arith))
            ∙ sym (v.located r d h) in
          rw other (omega arith)
    ])

module _ {rooms rooms' : ℕ → Room} {clients clients' : ℕ → Client} (v : IsConsistent rooms clients)
    (v' : IsConsistent rooms' clients') (c : ClientRef)
    (others : (d : ClientRef) → c ≢ d → clients' d ≡ clients d) where
  -- A room where the client stands as before.
  same_room :
      (r : ℕ)
      → r < max_rooms
      → place_of (clients' c) r ≡ place_of (clients c) r
      → members_of (rooms' r) ≡ members_of (rooms r)
  same_room r h e = members_of-same (rooms' r) (rooms r) (λ d. elim (Bool-cases (c == d)) [
    | inl own ↦
        let same : c ≡ d = ground arith in
        rw (sym same) (v'.located r c h ∙ e ∙ sym (v.located r c h))
    | inr other ↦
        v'.located r d h ∙ ap (λ x. place_of x r) (others d (ground arith)) ∙ sym (v.located r d h)
  ])

  -- The states of the client alone decide what becomes of the rooms, unless it changes rooms.
  pub in_and_out :
      (cmd : ℕ) (before after : Bool)
      → is_state (clients c).state in_chat_room ≡ before
      → is_state (clients' c).state in_chat_room ≡ after
      → (before ≡ true → after ≡ true → (clients' c).room_index ≡ (clients c).room_index)
      → (before ≡ false → after ≡ true → Comes cmd)
      → (before ≡ true → after ≡ false → Goes cmd)
      → Moves cmd c (λ r. members_of (rooms r)) (λ r. members_of (rooms' r))
  in_and_out cmd false false e e' same may_come may_go = stays (λ r h.
      same_room r h (place_of-outside (clients' c) r e' ∙ sym (place_of-outside (clients c) r e)))
  in_and_out cmd true true e e' same may_come may_go =
      stays (λ r h. same_room r h (rw (e, e', same refl refl) refl))
  in_and_out cmd false true e e' same may_come may_go =
      let i = (clients' c).room_index in
      comes i (may_come refl refl) (v'.in_range c e')
        (joined_room v v' c i (v'.in_range c e') others (place_of-inside (clients' c) e')
          (place_of-outside (clients c) i e))
        (λ r h n.
          same_room r h
            (place_of-elsewhere (clients' c) r n ∙ sym (place_of-outside (clients c) r e)))
  in_and_out cmd true false e e' same may_come may_go =
      let i = (clients c).room_index in
      goes i (may_go refl refl) (v.in_range c e)
        (joined_room v' v c i (v.in_range c e) (λ d n. sym (others d n))
          (place_of-inside (clients c) e) (place_of-outside (clients' c) i e'))
        (λ r h n.
          same_room r h
            (place_of-outside (clients' c) r e' ∙ sym (place_of-elsewhere (clients c) r n)))
