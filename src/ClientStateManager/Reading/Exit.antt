-- ===== src/ClientStateManager/Reading/Exit.antt =====
-- Two messages CMD_EXIT in one chunk: the loop goes on after the client has been disconnected.
use chat_application.Prelude.{
  ℕ, ◌+◌, ◌≤◌, ◌≡◌, refl, ap, ◌∙◌, Option, none, some, [], ◌∷◌, arith, ◌>>=◌, ==_refl, inl, inr,
}
use chat_application.Prelude.Int.{decr}
use chat_application.Prelude.Memory.{update}
use chat_application.CString.{Bytes, char_at, c_string}
use chat_application.CString.Laws.{strcat-fits}
use chat_application.Config.{
  ClientRef, ClientState, awaiting_username, in_chat_lobby, in_chat_room, World, set_client,
  cmd_exit, current_msg_size,
}
use chat_application.Membership.{IsConsistent}
use chat_application.RoomManager.Listing.Bound.{used_rooms}
use chat_application.ClientStateManager.Format.{IsMessage, message}
use chat_application.ClientStateManager.Table.{IsAvailable}
use chat_application.ClientStateManager.Disconnect.{Disconnects, Disconnects-clients}
use chat_application.ClientStateManager.Route.{
  Routes, route_client_command-Routes, Routes-IsConsistent,
}
use chat_application.ClientStateManager.Reading.{
  used_rooms-ListFits, used_rooms-OneRoom, Disconnects-OneRoom, IsConsistent-current_msg,
}
use chat_application.ClientStateManager.Framing.{frames, deliver, process_messages-deliver}
use chat_application.ClientStateManager.{
  append_msg, clear_msg, received, read_and_process_client_message, route_client_command,
}

abbrev pub exit_msg : Bytes
exit_msg = cmd_exit ∷ b' ' ∷ b'x' ∷ []

abbrev pub two_exits : Bytes
two_exits = cmd_exit ∷ b' ' ∷ b'x' ∷ b'\r' ∷ b'\n' ∷ cmd_exit ∷ b' ' ∷ b'x' ∷ b'\r' ∷ b'\n' ∷ []

exit_msg-IsMessage : (msg : Bytes) → msg ≡ exit_msg → IsMessage msg
exit_msg-IsMessage msg e =
    message cmd_exit (b'x' ∷ []) e (omega arith) (omega arith) (omega arith) refl

exit-IsAvailable : (state : ClientState) (cmd : ℕ) → cmd ≡ cmd_exit → IsAvailable state cmd
exit-IsAvailable awaiting_username cmd e = inr e
exit-IsAvailable in_chat_lobby cmd e = inl e
exit-IsAvailable in_chat_room cmd e = inl e

-- What two steps that succeed pass on.
pub bind_both :
    (o : Option World) (f k : World → Option World) {w : World}
    → (o >>= f) ≡ some w
    → (o >>= λ u. f u >>= k) ≡ k w
bind_both none f k e = absurd (ground arith)
bind_both (some u) f k e = rw e refl

module _ (t : ℕ) (c : ClientRef) where
  only_exits :
      (w w' : World) → (w.clients c).current_msg ≡ exit_msg → Routes t c w w' → Disconnects t c w w'
  only_exits w w' e (Routes.malformed bad code text _ _) = absurd (bad (exit_msg-IsMessage _ e))
  only_exits w w' e (Routes.not_available _ bad code text _ _) =
      absurd (bad (exit-IsAvailable (w.clients c).state _ (ap (λ m. char_at m 0) e)))
  only_exits w w' e (Routes.exits _ _ gone) = gone
  only_exits w w' e (Routes.handled _ _ stay _) = absurd (stay (ap (λ m. char_at m 0) e))

  -- One round of the loop, on CMD_EXIT, with no text kept.
  exit_round :
      (w : World)
      → IsConsistent w.rooms w.clients
      → used_rooms w.rooms ≤ 41
      → (w.clients c).current_msg ≡ []
      → (w' : World) × ((append_msg c exit_msg w >>= route_client_command t c) ≡ some w')
        × IsConsistent w'.rooms w'.clients
        × (used_rooms w'.rooms ≤ used_rooms w.rooms + 1)
        × (w'.num_of_clients ≡ update w.num_of_clients t (decr (w.num_of_clients t)))
  unfolding append_msg
  exit_round w v few empty =
      let text = (w.clients c).current_msg in
      let w₁ = set_client c (record (w.clients c) { current_msg = exit_msg }) w in
      let v₁ = IsConsistent-current_msg c w exit_msg v in
      let (w', done, outcome) =
        route_client_command-Routes t c w₁ v₁ (used_rooms-ListFits w₁ v₁ few) in
      let gone = only_exits w₁ w' (rw (==_refl c) refl) outcome in
      (
        w',
        rw (empty, strcat-fits current_msg_size [] exit_msg (omega arith)) done,
        Routes-IsConsistent v₁ outcome,
        used_rooms-OneRoom (Disconnects-OneRoom gone),
        (Disconnects-clients gone).1,
      )

  -- If rooms and clients agree and at most 40 rooms are in use, a chunk with two messages CMD_EXIT
  -- from a client without kept text takes two off the count of its worker.
  pub read_and_process_client_message-two_exits :
      (w : World)
      → IsConsistent w.rooms w.clients
      → used_rooms w.rooms ≤ 40
      → (w.clients c).current_msg ≡ []
      → (w' : World) × (read_and_process_client_message t c (received two_exits) w ≡ some w')
        × (w'.num_of_clients t ≡ decr (decr (w.num_of_clients t)))
  unfolding read_and_process_client_message deliver frames c_string
  read_and_process_client_message-two_exits w v few empty =
      let (w₁, done₁, v₁, grown₁, count₁) = exit_round w v (omega arith) empty in
      let (w₂, done₂, v₂, grown₂, count₂) =
        exit_round (clear_msg c w₁) (IsConsistent-current_msg c w₁ [] v₁) (omega arith)
          (rw (==_refl c) refl) in
      (
        clear_msg c w₂,
        process_messages-deliver t c 11 two_exits w (omega arith)
            ∙ bind_both (append_msg c exit_msg w) _ _ done₁
            ∙ bind_both (append_msg c exit_msg (clear_msg c w₁)) _ _ done₂,
        ap (λ f. f t) count₂ ∙ rw (==_refl t) (ap (λ f. decr (f t)) count₁ ∙ rw (==_refl t) refl),
      )
