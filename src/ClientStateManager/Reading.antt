-- ===== src/ClientStateManager/Reading.antt =====
-- `read_and_process_client_message`: when all that a client sends is answered, and what holds then.
pub mod Exit
use chat_application.Prelude.{
  ℕ, zero, suc, ◌+◌, ◌≤◌, ◌<◌, ◌≡◌, refl, ap, ◌∙◌, Bool, true, false, Option, none, List, [], ◌∷◌,
  arith, length, length-append, ◌>>=◌, ◌==◌, if◌then◌else◌, Bool-cases, inl, inr,
}
use chat_application.Prelude.Memory.{update}
use chat_application.CString.{Bytes, c_string}
use chat_application.CString.Laws.{strcat-overflows}
use chat_application.Config.{
  ClientRef, Client, Room, World, current_msg_size, max_rooms, max_message_len_to_server,
}
use chat_application.Membership.{IsConsistent, IsConsistent-client}
use chat_application.RoomManager.Listing.Bound.{used_rooms, used_from-update_le, length-listing-le}
use chat_application.ClientStateManager.Transition.{OneRoom, same, changed}
use chat_application.ClientStateManager.Disconnect.{
  Disconnects, from_room, from_elsewhere, handle_client_disconnection-cases,
  Disconnects-IsConsistent,
}
use chat_application.ClientStateManager.Handlers.{ListFits}
use chat_application.ClientStateManager.Route.{Routes}
use chat_application.ClientStateManager.Framing.{
  Frames, is_crlf, push, frames, deliver, process_messages-deliver,
}
use chat_application.ClientStateManager.{
  append_msg, RecvResult, received, nothing, read_and_process_client_message, route_client_command,
}

-- The number of bytes of some messages.
unfoldable pub total : List Bytes → ℕ
total [] = 0
total (m ∷ ms) = length m + total ms

total-push :
    (b : ℕ) (g : Frames) → total (push b g).0 + length (push b g).1 ≡ suc (total g.0 + length g.1)
unfolding total
total-push b ([], rest) = omega arith
total-push b (m ∷ ms, rest) = omega arith

-- The messages and the rest are not longer than the text.
pub total-frames : (s : Bytes) → total (frames s).0 + length (frames s).1 ≤ length s
unfolding total frames
total-frames [] = omega arith
total-frames (b ∷ []) = omega arith
total-frames (b ∷ d ∷ s) = elim (Bool-cases (is_crlf b d)) [
  | inl e ↦ rw e (omega (arith, total-frames s))
  | inr e ↦ rw e (omega (arith, total-frames (d ∷ s), total-push b (frames (d ∷ s))))
]

pub used_rooms-OneRoom :
    {rooms rooms' : ℕ → Room} → OneRoom rooms rooms' → used_rooms rooms' ≤ used_rooms rooms + 1
used_rooms-OneRoom (same e) = rw e (omega arith)
used_rooms-OneRoom {rooms} (changed k room e) = rw e (used_from-update_le rooms k room max_rooms 0)

pub Disconnects-OneRoom :
    {t : ℕ} {c : ClientRef} {w w' : World} → Disconnects t c w w' → OneRoom w.rooms w'.rooms
Disconnects-OneRoom (from_room inside e) = changed _ _ (ap (λ u. u.rooms) e)
Disconnects-OneRoom (from_elsewhere outside e) = same (ap (λ u. u.rooms) e)

pub Routes-OneRoom :
    {t : ℕ} {c : ClientRef} {w w' : World} → Routes t c w w' → OneRoom w.rooms w'.rooms
Routes-OneRoom (Routes.malformed _ code text _ e) = same (ap (λ u. u.rooms) e)
Routes-OneRoom (Routes.not_available _ _ code text _ e) = same (ap (λ u. u.rooms) e)
Routes-OneRoom {t} {c} {w} {w'} (Routes.exits _ _ gone) = Disconnects-OneRoom gone
Routes-OneRoom (Routes.handled _ _ _ done) = done.rooms

-- With at most 41 rooms in use the room list fits.
pub used_rooms-ListFits :
    (w : World) → IsConsistent w.rooms w.clients → used_rooms w.rooms ≤ 41 → ListFits w.rooms
used_rooms-ListFits w v few =
    omega (arith, length-listing-le w.rooms max_rooms 0 (λ r p q. (v.room r (omega arith)).named))

-- Only the text kept of a client changes.
pub IsConsistent-current_msg :
    (c : ClientRef) (w : World) (text : Bytes)
    → IsConsistent w.rooms w.clients
    → IsConsistent w.rooms (update w.clients c (record (w.clients c) { current_msg = text }))
IsConsistent-current_msg c w text v =
    IsConsistent-client v c _ (λ r _. refl) (v.in_range c) (v.named c)

-- What reading leaves: rooms and clients agree, and at most `n` rooms more are in use.
pub record Reads (n : ℕ) (w w' : World) : Type 0 where
  pub consistent : IsConsistent w'.rooms w'.clients
  pub used : used_rooms w'.rooms ≤ used_rooms w.rooms + n

module _ (t : ℕ) (c : ClientRef) where
  -- A chunk without a terminator that does not fit behind the text kept of the client is written
  -- past the end of current_msg.
  pub read_and_process_client_message-overflows :
      (bytes : Bytes) (w : World)
      → (frames (c_string bytes)).0 ≡ []
      → 0 < length (frames (c_string bytes)).1
      → current_msg_size ≤ length (w.clients c).current_msg + length (frames (c_string bytes)).1
      → read_and_process_client_message t c (received bytes) w ≡ none
  unfolding read_and_process_client_message deliver append_msg
  read_and_process_client_message-overflows bytes w partial some_text long =
      let filled : (length (frames (c_string bytes)).1 == 0) ≡ false = ground arith in
      rw
        (
          process_messages-deliver t c (suc (length (c_string bytes))) (c_string bytes) w
              (omega arith),
          partial,
          filled,
          strcat-overflows current_msg_size (w.clients c).current_msg (frames (c_string bytes)).1
              long,
        )
        refl
