-- ===== src/ClientStateManager/Framing/Chunks.antt =====
-- `read_and_process_client_message` where a terminator comes in two chunks: the loop over the
-- messages, on the first chunk and then on the second.
use chat_application.Prelude.{
  ℕ, suc, ◌+◌, ◌<◌, ◌≡◌, refl, ◌∙◌, true, false, some, [], ◌∷◌, ◌++◌, ◌==◌, ◌>>=◌, arith, length,
  length-append, append_assoc, ==_refl,
}
use chat_application.Prelude.Memory.{update-update}
use chat_application.CString.{Bytes}
use chat_application.CString.Laws.{strcat-fits}
use chat_application.Config.{ClientRef, World, set_client, current_msg_size}
use chat_application.ChatClient.Lines.{has_no_cr, frames-line}
use chat_application.ChatClient.Limits.{frames-cr_last}
use chat_application.ClientStateManager.{
  append_msg, clear_msg, process_messages, route_client_command,
}
use chat_application.ClientStateManager.Framing.{deliver, process_messages-deliver}

-- The state with more text kept of the client.
abbrev pub keep_more : ClientRef → Bytes → World → World
keep_more c text w =
    set_client c (record (w.clients c) { current_msg = (w.clients c).current_msg ++ text }) w

append_msg-keep_more :
    (c : ClientRef) (text : Bytes) (w : World)
    → length (w.clients c).current_msg + length text < current_msg_size
    → append_msg c text w ≡ some (keep_more c text w)
unfolding append_msg
append_msg-keep_more c text w h =
    rw (strcat-fits current_msg_size (w.clients c).current_msg text h) refl

-- A chunk that ends within a terminator, and one that goes on with it and ends with another.
abbrev pub first_chunk : Bytes → Bytes
first_chunk x = x ++ b'\r' ∷ []

abbrev pub second_chunk : Bytes → Bytes
second_chunk y = (b'\n' ∷ y) ++ b'\r' ∷ b'\n' ∷ []

module _ (t : ℕ) (c : ClientRef) (x y : Bytes) where
  first_kept :
      (w : World)
      → has_no_cr x ≡ true
      → length (w.clients c).current_msg + length (first_chunk x) < current_msg_size
      → process_messages (suc (length (first_chunk x))) t c (first_chunk x) w
        ≡ some (keep_more c (first_chunk x) w)
  unfolding deliver
  first_kept w plain h =
      let some_text : (length (first_chunk x) == 0) ≡ false =
        ground (arith, length-append x (b'\r' ∷ [])) in
      process_messages-deliver t c (suc (length (first_chunk x))) (first_chunk x) w (omega arith)
      ∙ rw (frames-cr_last x plain, some_text) (append_msg-keep_more c (first_chunk x) w h)

  second_routed :
      (w : World)
      → has_no_cr y ≡ true
      → length (w.clients c).current_msg + length (b'\n' ∷ y) < current_msg_size
      → process_messages (suc (length (second_chunk y))) t c (second_chunk y) w
        ≡ (do w' ← route_client_command t c (keep_more c (b'\n' ∷ y) w); some (clear_msg c w'))
  unfolding deliver
  second_routed w plain h =
      process_messages-deliver t c (suc (length (second_chunk y))) (second_chunk y) w (omega arith)
      ∙ rw (frames-line (b'\n' ∷ y) plain, append_msg-keep_more c (b'\n' ∷ y) w h) refl

-- The texts kept one after the other.
keep_more-keep_more :
    (c : ClientRef) (a b : Bytes) (w : World)
    → keep_more c b (keep_more c a w) ≡ keep_more c (a ++ b) w
keep_more-keep_more c a b w =
    rw (==_refl c, append_assoc (w.clients c).current_msg a b, update-update w.clients c) refl

-- Where a chunk that ends in the first byte of a terminator is followed by one that begins with
-- the second byte and ends in a terminator, with no other carriage return in either and room for
-- both texts: the first chunk is only kept, and the two texts, with the terminator between them,
-- are routed as one message, after what was kept of the client before.
pub process_messages-split_terminator :
    (t : ℕ) (c : ClientRef) (x y : Bytes) (w : World)
    → has_no_cr x ≡ true
    → has_no_cr y ≡ true
    → length (w.clients c).current_msg + length x + length y + 2 < current_msg_size
    → (do
      w₁ ← process_messages (suc (length (first_chunk x))) t c (first_chunk x) w
      process_messages (suc (length (second_chunk y))) t c (second_chunk y) w₁)
      ≡ (do
        w' ← route_client_command t c (keep_more c (first_chunk x ++ b'\n' ∷ y) w)
        some (clear_msg c w'))
process_messages-split_terminator t c x y w plain_x plain_y h =
    let long = length-append x (b'\r' ∷ []) in
    let all = length-append (w.clients c).current_msg (first_chunk x) in
    let room : length ((keep_more c (first_chunk x) w).clients c).current_msg + length (b'\n' ∷ y)
        < current_msg_size =
      rw (==_refl c) (omega (arith, long, all, h)) in
    rw
      (
        first_kept t c x y w plain_x (omega (arith, long, h)),
        second_routed t c x y (keep_more c (first_chunk x) w) plain_y room,
        keep_more-keep_more c (first_chunk x) (b'\n' ∷ y) w,
      )
      refl
