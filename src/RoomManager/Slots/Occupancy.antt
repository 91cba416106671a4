-- ===== src/RoomManager/Slots/Occupancy.antt =====
-- A room's array of client pointers counted: the slots in use, and the slots of one client; what
-- the loops of server/room_manager.c do to the counts.
use chat_application.Prelude.{
  ℕ, zero, suc, ◌+◌, ◌≤◌, ◌<◌, ◌≡◌, refl, Option, none, some, List, [], ◌∷◌, arith, ◌==◌,
  if◌then◌else◌, length, replicate, length-replicate, Bool-cases, inl, inr,
}
use chat_application.Prelude.Int.{ℤ, decr}
use chat_application.Config.{ClientRef, no_clients, max_clients_room}
use chat_application.RoomManager.Slots.{
  keep_slot, remove_client, behind, place_client, set_first, others,
}

-- The slots in use.
unfoldable pub members : List (Option ClientRef) → ℕ
members [] = 0
members (none ∷ ss) = members ss
members (some d ∷ ss) = suc (members ss)

-- The slots that hold `c`.
unfoldable pub occurrences : ClientRef → List (Option ClientRef) → ℕ
occurrences c [] = 0
occurrences c (none ∷ ss) = occurrences c ss
occurrences c (some d ∷ ss) = (if d == c then 1 else 0) + occurrences c ss

pub occurrences-le-members :
    (c : ClientRef) (ss : List (Option ClientRef)) → occurrences c ss ≤ members ss
unfolding members occurrences
occurrences-le-members c [] = omega arith
occurrences-le-members c (none ∷ ss) = occurrences-le-members c ss
occurrences-le-members c (some d ∷ ss) = ground (arith, occurrences-le-members c ss)

pub members-le-length : (ss : List (Option ClientRef)) → members ss ≤ length ss
unfolding members
members-le-length [] = omega arith
members-le-length (none ∷ ss) = omega (arith, members-le-length ss)
members-le-length (some d ∷ ss) = omega (arith, members-le-length ss)

members-replicate : (n : ℕ) → members (replicate n none) ≡ 0
unfolding members
members-replicate zero = refl
members-replicate (suc n) = members-replicate n

pub members-no_clients : members no_clients ≡ 0
unfolding no_clients
members-no_clients = members-replicate max_clients_room

pub length-no_clients : length no_clients ≡ max_clients_room
unfolding no_clients
length-no_clients = length-replicate {A = Option ClientRef} max_clients_room none

pub occurrences-no_clients : (c : ClientRef) → occurrences c no_clients ≡ 0
occurrences-no_clients c = omega (arith, occurrences-le-members c no_clients, members-no_clients)

-- What `place_client` returns: the array with the client in one free slot, or no array where every
-- slot is in use.
abbrev pub Placed : ClientRef → List (Option ClientRef) → Option (List (Option ClientRef)) → Type 0
Placed c ss none = members ss ≡ length ss
Placed c ss (some out) =
    (length out ≡ length ss)
    × (members out ≡ members ss + 1)
    × ((d : ClientRef) → occurrences d out ≡ occurrences d ss + (if c == d then 1 else 0))
    × (others c out ≡ others c ss)

Placed-behind :
    (c d : ClientRef) (ss : List (Option ClientRef)) (o : Option (List (Option ClientRef)))
    → Placed c ss o
    → Placed c (some d ∷ ss) (behind (some d) o)
unfolding members occurrences others
Placed-behind c d ss none h = omega arith
Placed-behind c d ss (some out) h =
    (omega arith, omega arith, λ e. omega (arith, h.2 e), ground (arith, h.3))

-- The loop of join_chat_room puts the client in one free slot, leaving the other clients and their
-- order, and finds no slot only where all are in use.
pub place_client-Placed :
    (c : ClientRef) (ss : List (Option ClientRef)) → Placed c ss (place_client c ss)
unfolding place_client members occurrences others
place_client-Placed c [] = refl
place_client-Placed c (none ∷ ss) = (refl, omega arith, λ d. omega arith, ground arith)
place_client-Placed c (some d ∷ ss) =
    Placed-behind c d ss (place_client c ss) (place_client-Placed c ss)

-- What `remove_client` returns for a client that is in the array: one slot fewer, and the count
-- down by one from whatever it was.
abbrev pub Removed : ClientRef → List (Option ClientRef) → ℤ → List (Option ClientRef) × ℤ → Type 0
Removed c ss n (out, num) =
    (length out ≡ length ss)
    × (members out + 1 ≡ members ss)
    × (num ≡ decr n)
    × ((d : ClientRef) → occurrences d out + (if c == d then 1 else 0) ≡ occurrences d ss)

Removed-keep_slot :
    (c : ClientRef) (s : Option ClientRef) (ss : List (Option ClientRef)) (n : ℤ)
    (r : List (Option ClientRef) × ℤ)
    → Removed c ss n r
    → Removed c (s ∷ ss) n (keep_slot s r)
unfolding members occurrences
Removed-keep_slot c none ss n (out, num) h = (omega arith, h.1, h.2, h.3)
Removed-keep_slot c (some e) ss n (out, num) h =
    (omega arith, omega arith, h.2, λ d. omega (arith, h.3 d))

-- For a client in the array, the loop of leave_room frees one of its slots and takes one off the
-- count, and the other clients stay.
pub remove_client-Removed :
    (c : ClientRef) (ss : List (Option ClientRef)) (n : ℤ)
    → 0 < occurrences c ss
    → Removed c ss n (remove_client c ss n)
unfolding remove_client members occurrences
remove_client-Removed c [] n h = absurd (omega arith)
remove_client-Removed c (none ∷ ss) n h =
    Removed-keep_slot c none ss n (remove_client c ss n) (remove_client-Removed c ss n h)
remove_client-Removed c (some e ∷ ss) n h = elim (Bool-cases (e == c)) [
  | inl hit ↦ rw hit (refl, omega arith, refl, λ d. ground arith)
  | inr miss ↦ rw miss (
      Removed-keep_slot c (some e) ss n (remove_client c ss n)
        (remove_client-Removed c ss n (ground arith)))
]

-- The client in the first slot of an array of which no slot is in use.
pub set_first-occurrences :
    (c : ClientRef) (ss : List (Option ClientRef))
    → 0 < length ss
    → members ss ≡ 0
    → (length (set_first c ss) ≡ length ss)
      × (members (set_first c ss) ≡ 1)
      × ((d : ClientRef) → occurrences d (set_first c ss) ≡ (if c == d then 1 else 0))
unfolding set_first members occurrences
set_first-occurrences c [] p h = absurd (omega arith)
set_first-occurrences c (none ∷ ss) p h =
    (refl, omega arith, λ d. omega (arith, occurrences-le-members d ss))
set_first-occurrences c (some e ∷ ss) p h = absurd (omega arith)

-- Leaving changes nothing for the other clients.
others-keep_slot :
    (c : ClientRef) (s : Option ClientRef) (ss : List (Option ClientRef))
    (r : List (Option ClientRef) × ℤ)
    → others c r.0 ≡ others c ss
    → others c (keep_slot s r).0 ≡ others c (s ∷ ss)
unfolding others
others-keep_slot c none ss (out, num) h = h
others-keep_slot c (some e) ss (out, num) h = rw h

pub others-remove_client :
    (c : ClientRef) (ss : List (Option ClientRef)) (n : ℤ)
    → others c (remove_client c ss n).0 ≡ others c ss
unfolding remove_client others
others-remove_client c [] n = refl
others-remove_client c (none ∷ ss) n =
    others-keep_slot c none ss (remove_client c ss n) (others-remove_client c ss n)
others-remove_client c (some e ∷ ss) n = ground (arith, others-remove_client c ss n)
