-- ===== src/Server/Sound/Messages.antt =====
-- A worker keeps the invariant when it answers the messages in what a client has sent.
use chat_application.Prelude.{
  ℕ, suc, ◌+◌, ◌≤◌, ◌<◌, ◌≡◌, refl, ap, sym, ◌∙◌, ◌≢◌, true, some, List, [], ◌∷◌, ◌++◌, arith, ◌==◌,
  ==_refl, Bool-cases, inl, inr, list_laws, length, ◌>>=◌, subst,
}
use chat_application.Prelude.Memory.{update_self}
use chat_application.CString.{Bytes, char_at, c_string}
use chat_application.CString.Laws.{strcat-fits, length-c_string-le}
use chat_application.Config.{
  ClientRef, World, slot, set_client, zeroed_client, current_msg_size, max_clients_per_thread,
  cmd_exit,
}
use chat_application.RoomManager.Listing.Bound.{used_rooms}
use chat_application.ClientStateManager.{
  append_msg, clear_msg, received, read_and_process_client_message, route_client_command,
}
use chat_application.ClientStateManager.Disconnect.{Disconnects-clients}
use chat_application.ClientStateManager.Framing.{frames, deliver, process_messages-deliver}
use chat_application.ClientStateManager.Reading.{
  total, total-frames, used_rooms-OneRoom, Routes-OneRoom, used_rooms-ListFits,
  IsConsistent-current_msg,
}
use chat_application.ClientStateManager.Route.{route_client_command-Routes}
use chat_application.ClientStateManager.Reading.Exit.{bind_both}
use chat_application.Trace.Says.{nothing-IsNeutral}
use chat_application.Server.Sound.{IsSound}
use chat_application.Server.Sound.Serving.{Keeps, Keeps-IsSound, Routes-Keeps, Disconnects-IsSound}

-- Of the messages behind the kept text, only the last may be CMD_EXIT, and nothing follows it.
pub data ExitsLast : Bytes → List Bytes → Bytes → Type 0 where
  partial : {kept rest : Bytes} → ExitsLast kept [] rest
  final : {kept m : Bytes} → ExitsLast kept (m ∷ []) []
  staying :
      {kept m rest : Bytes} {ms : List Bytes}
      → char_at (kept ++ m) 0 ≢ cmd_exit
      → ExitsLast [] ms rest
      → ExitsLast kept (m ∷ ms) rest

Keeps-current_msg :
    (c : ClientRef) (w : World) (text : Bytes)
    → IsSound w
    → Keeps c w (set_client c (record (w.clients c) { current_msg = text }) w)
Keeps-current_msg c w text v = record {
  consistent = IsConsistent-current_msg c w text v.consistent;
  index = refl;
  others = λ d n. ground arith;
  in_use = rw (==_refl c) refl;
  counts = refl;
  events = [];
  quiet = nothing-IsNeutral.quiet;
  trace = simp list_laws;
}

clear_gone : (c : ClientRef) (w : World) → w.clients c ≡ zeroed_client → clear_msg c w ≡ w
clear_gone c w e = ap (λ f. record w { clients = f }) (update_self w.clients c _ (rw e refl))

module _ (t i : ℕ) (p : i < max_clients_per_thread) where
  abbrev IsSeat : World → Type 0
  IsSeat w = (w.clients (slot t i)).in_use ≡ true

  -- What answering one message leaves: the client is in its slot, or has gone after CMD_EXIT.
  data Answers (m : Bytes) (w w' : World) : Type 0 where
    stays : IsSound w' → IsSeat w' → Answers m w w'
    gone :
        char_at ((w.clients (slot t i)).current_msg ++ m) 0 ≡ cmd_exit
        → IsSound w'
        → w'.clients (slot t i) ≡ zeroed_client
        → Answers m w w'

  answered :
      (m : Bytes) (w : World)
      → IsSound w
      → IsSeat w
      → used_rooms w.rooms ≤ 41
      → length (w.clients (slot t i)).current_msg + length m < current_msg_size
      → (w' : World) × ((append_msg (slot t i) m w >>= route_client_command t (slot t i)) ≡ some w')
        × (used_rooms w'.rooms ≤ used_rooms w.rooms + 1)
        × Answers m w w'
  unfolding append_msg
  answered m w v busy few short =
      let c = slot t i in
      let text = (w.clients c).current_msg ++ m in
      let w₁ = set_client c (record (w.clients c) { current_msg = text }) w in
      let v₁ = Keeps-IsSound t i v p busy (Keeps-current_msg c w text v) in
      let busy₁ : IsSeat w₁ = rw (==_refl c) busy in
      let (w₂, done, outcome) =
        route_client_command-Routes t c w₁ v₁.consistent
          (used_rooms-ListFits w₁ v₁.consistent few) in
      (
        w₂,
        rw (strcat-fits current_msg_size (w.clients c).current_msg m short) done,
        used_rooms-OneRoom (Routes-OneRoom outcome),
        elim (Routes-Keeps v₁.consistent outcome) [
          | inl keeps ↦ stays (Keeps-IsSound t i v₁ p busy₁ keeps) (keeps.in_use ∙ busy₁)
          | inr (leave, bye) ↦
              gone (rw (==_refl c) at leave) (Disconnects-IsSound t i w₁ v₁ p busy₁ bye)
                (ap (λ f. f c) (Disconnects-clients bye).0 ∙ rw (==_refl c) refl)
        ],
      )

  cleared : {m : Bytes} (w w' : World) → Answers m w w' → IsSound (clear_msg (slot t i) w')
  cleared w w' (stays v busy) = Keeps-IsSound t i v p busy (Keeps-current_msg (slot t i) w' [] v)
  cleared w w' (gone leave v e) = subst IsSound (sym (clear_gone (slot t i) w' e)) v

  kept_empty : (w : World) → ((clear_msg (slot t i) w).clients (slot t i)).current_msg ≡ []
  kept_empty w = rw (==_refl (slot t i)) refl

  deliver-IsSound :
      (ms : List Bytes) (rest : Bytes) (w : World)
      → IsSound w
      → IsSeat w
      → ExitsLast (w.clients (slot t i)).current_msg ms rest
      → used_rooms w.rooms + length ms ≤ 42
      → length (w.clients (slot t i)).current_msg + total ms + length rest < current_msg_size
      → (w' : World) × (deliver t (slot t i) ms rest w ≡ some w') × IsSound w'
  unfolding deliver total append_msg
  deliver-IsSound [] rest w v busy last few short = elim (Bool-cases (length rest == 0)) [
    | inl empty ↦ rw empty (w, refl, v)
    | inr more ↦
        rw
          (more, strcat-fits current_msg_size (w.clients (slot t i)).current_msg rest (omega arith))
          (_, refl, Keeps-IsSound t i v p busy (Keeps-current_msg (slot t i) w _ v))
  ]
  deliver-IsSound (m ∷ []) [] w v busy final few short =
      let (w', done, grown, outcome) = answered m w v busy (omega arith) (omega arith) in
      (
        clear_msg (slot t i) w',
        bind_both (append_msg (slot t i) m w) _ _ done,
        cleared w w' outcome,
      )
  deliver-IsSound (m ∷ ms) rest w v busy (staying stay last) few short =
      let (w₂, done, grown, outcome) = answered m w v busy (omega arith) (omega arith) in
      elim outcome [
        | stays v₂ busy₂ ↦
            let u = clear_msg (slot t i) w₂ in
            let (w₃, finished, v₃) =
              deliver-IsSound ms rest u
                (Keeps-IsSound t i v₂ p busy₂ (Keeps-current_msg (slot t i) w₂ [] v₂))
                (rw (==_refl (slot t i)) busy₂) (rw (kept_empty w₂) last) (omega arith)
                (rw (kept_empty w₂) (omega arith)) in
            (w₃, bind_both (append_msg (slot t i) m w) _ _ done ∙ finished, v₃)
        | gone leave v₂ e ↦ absurd (stay leave)
      ]

  -- In a sound state, for a client in a slot in use: if CMD_EXIT comes last, the bytes fit behind the
  -- text kept, and the rooms in use and the messages are at most 42 together, then all is answered and
  -- the state is sound.
  pub read_and_process_client_message-IsSound :
      (bytes : Bytes) (w : World)
      → IsSound w
      → IsSeat w
      → ExitsLast
          (w.clients (slot t i)).current_msg
          (frames (c_string bytes)).0
          (frames (c_string bytes)).1
      → length (w.clients (slot t i)).current_msg + length bytes < current_msg_size
      → used_rooms w.rooms + length (frames (c_string bytes)).0 ≤ 42
      → (w' : World) × (read_and_process_client_message t (slot t i) (received bytes) w ≡ some w')
        × IsSound w'
  unfolding read_and_process_client_message
  read_and_process_client_message-IsSound bytes w v busy last short few =
      rw
        (process_messages-deliver t (slot t i) (suc (length (c_string bytes))) (c_string bytes) w
          (omega arith))
        (deliver-IsSound (frames (c_string bytes)).0 (frames (c_string bytes)).1 w v busy last few
          (omega (arith, total-frames (c_string bytes), length-c_string-le bytes)))
