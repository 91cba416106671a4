-- ===== src/RoomManager/Listing.antt =====
-- `send_avail_rooms`: the text of the list, when it fits the buffers, and when it runs past them.
pub mod Bound
use chat_application.Prelude.{
  ℕ, zero, suc, ◌+◌, ◌*◌, ◌≤◌, ◌<◌, ◌≡◌, refl, sym, ap, ◌∙◌, Bool, true, false, ◌||◌, Option, none,
  some, List, [], ◌∷◌, ◌++◌, arith, length, length-append, append-nil, append_assoc, ◌>>=◌, ◌==◌,
  if◌then◌else◌, Bool-cases, inl, inr, dec_lt,
}
use chat_application.CString.{Bytes, write_text, strcat, decimal}
use chat_application.CString.Laws.{decimal-length, write_text-fits, strcat-fits, strcat-overflows}
use chat_application.Config.{
  ClientRef, Room, World, send, emit, max_rooms, max_room_name_len, max_message_len_from_server,
  cmd_room_list_response,
}
use chat_application.Send.{packet, send_message_to_client}
use chat_application.Send.Packet.{send_message_to_client-fits, send_message_to_client-overflows}
use chat_application.RoomManager.Texts.{
  list_header, no_rooms, room_word, length-list_header, length-no_rooms, length-room_word,
}
use chat_application.RoomManager.{room_entry_text, list_rooms, send_avail_rooms}

-- The entries of the rooms in use, in the order of the array.
unfoldable pub listing : (ℕ → Room) → ℕ → ℕ → Bytes
listing rooms zero i = []
listing rooms (suc n) i =
    let rest = listing rooms n (i + 1) in
    if (rooms i).in_use then room_entry_text i (rooms i) ++ rest else rest

pub any_used : (ℕ → Room) → ℕ → ℕ → Bool
any_used rooms zero i = false
any_used rooms (suc n) i = (rooms i).in_use || any_used rooms n (i + 1)

pub length-room_entry_text :
    (i : ℕ) (room : Room)
    → length room.room_name ≤ max_room_name_len
    → (length room.room_name + 9 ≤ length (room_entry_text i room))
      × (length (room_entry_text i room) ≤ length room.room_name + 10)
length-room_entry_text i room h = omega (
  arith,
  length-append (room_word ++ decimal i) (b':' ∷ b' ' ∷ (room.room_name ++ b'\n' ∷ [])),
  length-append room_word (decimal i),
  length-append room.room_name (b'\n' ∷ []),
  length-room_word,
  decimal-length i,
)

or_true : (b : Bool) → (b || true) ≡ true
or_true true = refl
or_true false = refl

-- Names in bounds, from index `i` on for `n` rooms.
abbrev pub AreNamed : (ℕ → Room) → ℕ → ℕ → Type 0
AreNamed rooms n i = (r : ℕ) → i ≤ r → r < i + n → length (rooms r).room_name ≤ max_room_name_len

module _ (rooms : ℕ → Room) (n i : ℕ) (named : AreNamed rooms (suc n) i) where
  AreNamed-suc : AreNamed rooms n (i + 1)
  AreNamed-suc r p q = named r (omega arith) (omega arith)

  entry : Bytes
  entry = room_entry_text i (rooms i)

  entry-fits : write_text 100 entry ≡ some entry
  unfolding entry
  entry-fits = write_text-fits 100 _ (
      omega
        (arith, named i, length-room_entry_text i (rooms i) (named i (omega arith) (omega arith))))

  -- One round of the loop, at a room in use and at a room not in use.
  list_rooms-used :
      (msg : Bytes) (avail : Bool)
      → (rooms i).in_use ≡ true
      → list_rooms rooms (suc n) i msg avail ≡ (
          strcat max_message_len_from_server msg entry >>= λ longer.
          list_rooms rooms n (i + 1) longer true)
  unfolding list_rooms entry
  list_rooms-used msg avail used = rw (used, entry-fits)

  list_rooms-free :
      (msg : Bytes) (avail : Bool)
      → (rooms i).in_use ≡ false
      → list_rooms rooms (suc n) i msg avail ≡ list_rooms rooms n (i + 1) msg avail
  unfolding list_rooms
  list_rooms-free msg avail free = rw free

  listing-used :
      (rooms i).in_use ≡ true → listing rooms (suc n) i ≡ entry ++ listing rooms n (i + 1)
  unfolding listing entry
  listing-used used = rw used

  listing-free : (rooms i).in_use ≡ false → listing rooms (suc n) i ≡ listing rooms n (i + 1)
  unfolding listing
  listing-free free = rw free

  any_used-used : (rooms i).in_use ≡ true → any_used rooms (suc n) i ≡ true
  unfolding any_used
  any_used-used used = rw used

  any_used-free : (rooms i).in_use ≡ false → any_used rooms (suc n) i ≡ any_used rooms n (i + 1)
  unfolding any_used
  any_used-free free = rw free

-- Where the list fits the buffer, it is built whole.
list_rooms-fits :
    (rooms : ℕ → Room) (n i : ℕ) (msg : Bytes) (avail : Bool)
    → AreNamed rooms n i
    → length msg + length (listing rooms n i) < max_message_len_from_server
    → list_rooms rooms n i msg avail ≡ some (msg ++ listing rooms n i, avail || any_used rooms n i)
list_rooms-fits rooms zero i msg true named h =
    unfold list_rooms listing any_used in ap (λ t. some (t, true)) (sym (append-nil msg))
list_rooms-fits rooms zero i msg false named h =
    unfold list_rooms listing any_used in ap (λ t. some (t, false)) (sym (append-nil msg))
list_rooms-fits rooms (suc n) i msg avail named h = elim (Bool-cases (rooms i).in_use) [
  | inl used ↦
      let e = entry rooms n i named in
      let h' =
        rw (listing-used rooms n i named used, length-append e (listing rooms n (i + 1))) at h in
      rw
        (
          list_rooms-used rooms n i named msg avail used,
          listing-used rooms n i named used,
          any_used-used rooms n i named used,
          or_true avail,
          strcat-fits max_message_len_from_server msg e (omega arith),
        )
        (list_rooms-fits rooms n (i + 1) (msg ++ e) true (AreNamed-suc rooms n i named)
            (omega (arith, length-append msg e))
          ∙ ap (λ t. some (t, true)) (append_assoc msg e (listing rooms n (i + 1))))
  | inr free ↦
      rw
        (
          list_rooms-free rooms n i named msg avail free,
          listing-free rooms n i named free,
          any_used-free rooms n i named free,
        )
        (list_rooms-fits rooms n (i + 1) msg avail (AreNamed-suc rooms n i named)
          (rw (listing-free rooms n i named free) at h))
]

-- Where it does not fit, the loop runs past the end of the buffer.
list_rooms-overflows :
    (rooms : ℕ → Room) (n i : ℕ) (msg : Bytes) (avail : Bool)
    → AreNamed rooms n i
    → length msg < max_message_len_from_server
    → max_message_len_from_server ≤ length msg + length (listing rooms n i)
    → list_rooms rooms n i msg avail ≡ none
list_rooms-overflows rooms zero i msg avail named g h = unfold listing in absurd (omega arith)
list_rooms-overflows rooms (suc n) i msg avail named g h = elim (Bool-cases (rooms i).in_use) [
  | inl used ↦
      let e = entry rooms n i named in
      let h' =
        rw (listing-used rooms n i named used, length-append e (listing rooms n (i + 1))) at h in
      rw (list_rooms-used rooms n i named msg avail used)
        (elim (dec_lt (length msg + length e) max_message_len_from_server) [
          | yes p ↦ rw (strcat-fits max_message_len_from_server msg e p) (
              list_rooms-overflows rooms n (i + 1) (msg ++ e) true (AreNamed-suc rooms n i named)
                (omega (arith, length-append msg e)) (omega (arith, length-append msg e)))
          | no p ↦ rw (strcat-overflows max_message_len_from_server msg e (omega arith))
        ])
  | inr free ↦ rw (list_rooms-free rooms n i named msg avail free) (
      list_rooms-overflows rooms n (i + 1) msg avail (AreNamed-suc rooms n i named) g
        (rw (listing-free rooms n i named free) at h))
]

-- The text of the reply: the header and the entries, or the advice to a server without rooms.
pub list_text : (ℕ → Room) → Bytes
list_text rooms =
    if any_used rooms max_rooms 0
    then list_header ++ listing rooms max_rooms 0
    else list_header ++ no_rooms

listing-nil : (rooms : ℕ → Room) (n i : ℕ) → any_used rooms n i ≡ false → listing rooms n i ≡ []
unfolding listing any_used
listing-nil rooms zero i h = refl
listing-nil rooms (suc n) i h = elim (Bool-cases (rooms i).in_use) [
  | inl used ↦ absurd (ground arith)
  | inr free ↦ rw free (listing-nil rooms n (i + 1) (rw free at h))
]

module _ (c : ClientRef) (w : World) (named : AreNamed w.rooms max_rooms 0) where
  -- If room names have at most 24 bytes and the entries take fewer than 1422, send_avail_rooms
  -- sends the header with the entries of the rooms in use, or the advice where there are none, and
  -- nothing else changes.
  pub send_avail_rooms-list_text :
      length (listing w.rooms max_rooms 0) < 1422
      → send_avail_rooms c w
        ≡ some (
            emit
              (send (w.clients c).client_fd (packet cmd_room_list_response (list_text w.rooms))
                ∷ [])
              w)
  unfolding send_avail_rooms list_text
  send_avail_rooms-list_text h =
      rw
        (list_rooms-fits w.rooms max_rooms 0 list_header false named
          (omega (arith, length-list_header)))
        (elim (Bool-cases (any_used w.rooms max_rooms 0)) [
          | inl some_used ↦ rw some_used (
              send_message_to_client-fits _ _ _ w (
                omega (
                  arith,
                  length-append list_header (listing w.rooms max_rooms 0),
                  length-list_header,
                )))
          | inr none_used ↦
              rw
                (
                  none_used,
                  listing-nil w.rooms max_rooms 0 none_used,
                  append-nil list_header,
                  strcat-fits max_message_len_from_server list_header no_rooms
                      (omega (arith, length-list_header, length-no_rooms)),
                )
                (send_message_to_client-fits _ _ _ w (
                  omega (
                    arith,
                    length-append list_header no_rooms,
                    length-list_header,
                    length-no_rooms,
                  )))
        ])

  -- If room names have at most 24 bytes and the entries take 1422 bytes or more, send_avail_rooms
  -- writes past the end of a buffer.
  pub send_avail_rooms-overflows :
      1422 ≤ length (listing w.rooms max_rooms 0) → send_avail_rooms c w ≡ none
  unfolding send_avail_rooms
  send_avail_rooms-overflows h = elim (dec_lt (length (listing w.rooms max_rooms 0)) 1426) [
    | no p ↦ rw (
        list_rooms-overflows w.rooms max_rooms 0 list_header false named
          (omega (arith, length-list_header)) (omega (arith, length-list_header)))
    | yes p ↦
        rw
          (list_rooms-fits w.rooms max_rooms 0 list_header false named
            (omega (arith, length-list_header)))
          (elim (Bool-cases (any_used w.rooms max_rooms 0)) [
            | inl some_used ↦ rw some_used (
                send_message_to_client-overflows _ _ _ w (
                  omega (
                    arith,
                    length-append list_header (listing w.rooms max_rooms 0),
                    length-list_header,
                  )))
            | inr none_used ↦
                absurd (omega (arith, ap length (listing-nil w.rooms max_rooms 0 none_used)))
          ])
  ]
