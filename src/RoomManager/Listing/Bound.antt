-- ===== src/RoomManager/Listing/Bound.antt =====
-- The room list and the number of rooms in use: how many rooms the buffers of `send_avail_rooms`
-- hold for certain, and when they do not.
use chat_application.Prelude.{
  ℕ, zero, suc, ◌+◌, ◌*◌, ◌≤◌, ◌<◌, ◌≡◌, refl, true, none, arith, length, length-append,
  if◌then◌else◌, Bool-cases, inl, inr,
}
use chat_application.Prelude.Memory.{update}
use chat_application.Config.{ClientRef, Room, World, max_rooms, max_room_name_len}
use chat_application.RoomManager.{room_entry_text, send_avail_rooms}
use chat_application.RoomManager.Listing.{
  AreNamed, listing, length-room_entry_text, send_avail_rooms-overflows,
}

-- The rooms in use, from index `i` on for `n` rooms.
unfoldable pub used_from : (ℕ → Room) → ℕ → ℕ → ℕ
used_from rooms zero i = 0
used_from rooms (suc n) i = (if (rooms i).in_use then 1 else 0) + used_from rooms n (i + 1)

abbrev pub used_rooms : (ℕ → Room) → ℕ
used_rooms rooms = used_from rooms max_rooms 0

used_from-update_below :
    (rooms : ℕ → Room) (k : ℕ) (room : Room) (n i : ℕ)
    → k < i
    → used_from (update rooms k room) n i ≡ used_from rooms n i
unfolding used_from
used_from-update_below rooms k room zero i h = refl
used_from-update_below rooms k room (suc n) i h =
    ground (arith, used_from-update_below rooms k room n (i + 1) (omega arith))

-- A change of one room adds one room in use at most.
pub used_from-update_le :
    (rooms : ℕ → Room) (k : ℕ) (room : Room) (n i : ℕ)
    → used_from (update rooms k room) n i ≤ used_from rooms n i + 1
unfolding used_from
used_from-update_le rooms k room zero i = omega arith
used_from-update_le rooms k room (suc n) i = ground (
  arith,
  used_from-update_le rooms k room n (i + 1),
  used_from-update_below rooms k room n (i + 1),
)

-- An entry takes 34 bytes at most.
pub length-listing-le :
    (rooms : ℕ → Room) (n i : ℕ)
    → AreNamed rooms n i
    → length (listing rooms n i) ≤ 34 * used_from rooms n i
unfolding listing used_from
length-listing-le rooms zero i named = omega arith
length-listing-le rooms (suc n) i named =
    let rest = length-listing-le rooms n (i + 1) (λ r p q. named r (omega arith) (omega arith)) in
    let here = named i (omega arith) (omega arith) in
    elim (Bool-cases (rooms i).in_use) [
      | inl used ↦ rw used (
          omega (
            arith,
            length-append (room_entry_text i (rooms i)) (listing rooms n (i + 1)),
            length-room_entry_text i (rooms i) here,
            rest,
          ))
      | inr free ↦ rw free (omega (arith, rest))
    ]

-- With names of at least `k` bytes an entry takes `k + 9` bytes at least.
pub listing-length-ge :
    (rooms : ℕ → Room) (n i k : ℕ)
    → AreNamed rooms n i
    → ((r : ℕ) → i ≤ r → r < i + n → ((rooms r).in_use ≡ true) × (k ≤ length (rooms r).room_name))
    → n * (k + 9) ≤ length (listing rooms n i)
unfolding listing
listing-length-ge rooms zero i k named full = omega arith
listing-length-ge rooms (suc n) i k named full =
    let rest =
      listing-length-ge rooms n (i + 1) k (λ r p q. named r (omega arith) (omega arith))
        (λ r p q. full r (omega arith) (omega arith)) in
    let (used, long) = full i (omega arith) (omega arith) in
    rw used (
      omega (
        arith,
        length-append (room_entry_text i (rooms i)) (listing rooms n (i + 1)),
        length-room_entry_text i (rooms i) (named i (omega arith) (omega arith)),
        rest,
      ))

-- With all fifty rooms in use under names of 20 to 24 bytes, send_avail_rooms writes past the end
-- of a buffer.
pub send_avail_rooms-full_house :
    (c : ClientRef) (w : World)
    → ((r : ℕ)
        → r < max_rooms
        → ((w.rooms r).in_use ≡ true)
          × (20 ≤ length (w.rooms r).room_name)
          × (length (w.rooms r).room_name ≤ max_room_name_len))
    → send_avail_rooms c w ≡ none
send_avail_rooms-full_house c w full =
    let named : AreNamed w.rooms max_rooms 0 = λ r p q. (full r (omega arith)).2 in
    send_avail_rooms-overflows c w named (
      omega (
        arith,
        listing-length-ge w.rooms max_rooms 0 20 named
            (λ r p q. ((full r (omega arith)).0, (full r (omega arith)).1)),
      ))
