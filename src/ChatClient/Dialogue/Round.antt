-- ===== src/ChatClient/Dialogue/Round.antt =====
-- The server answers a line that the client has sent, and client and server agree again.
use chat_application.Config.{
  Event, is_state, awaiting_username, in_chat_room, ClientRef, ClientState, World, set_client,
  cmd_exit, current_msg_size, max_message_len_to_server,
}
use chat_application.Prelude.{
  List, ℕ, suc, ◌<◌, ◌≡◌, ◌≢◌, refl, sym, ap, ◌∙◌, false, some, [], ◌∷◌, arith, ◌==◌, ==_refl,
  length, subst,
}
use chat_application.CString.{Bytes, char_at, c_string}
use chat_application.CString.Laws.{strcat-fits}
use chat_application.Membership.{IsConsistent}
use chat_application.Trace.{announced}
use chat_application.ClientStateManager.{
  append_msg, clear_msg, received, read_and_process_client_message,
}
use chat_application.ClientStateManager.Format.{IsMessage}
use chat_application.ClientStateManager.Table.{IsAvailable}
use chat_application.ClientStateManager.Framing.{deliver, process_messages-deliver}
use chat_application.ClientStateManager.Handlers.{ListFits}
use chat_application.ClientStateManager.Reading.{IsConsistent-current_msg}
use chat_application.ClientStateManager.Route.{Routes, route_client_command-Routes}
use chat_application.ClientStateManager.Transition.{Handled}
use chat_application.ChatClient.{Session, validate_and_format}
use chat_application.ChatClient.Commands.{IsAccepted}
use chat_application.ChatClient.Replies.{heard, heard-announced}
use chat_application.ChatClient.Dialogue.{
  Agrees, IsTyped, heard-is_running, state_of-flag, typed-IsAccepted, Transition-named,
  frames-first, IsMessage-filled, IsMessage-short,
}

module _ (t : ℕ) (c : ClientRef) where
  -- The server accepts a message that its checks let pass, and which is not CMD_EXIT.
  accepts :
      (msg : Bytes) (state : ClientState) (w w' : World)
      → (w.clients c).current_msg ≡ msg
      → (w.clients c).state ≡ state
      → IsMessage msg
      → IsAvailable state (char_at msg 0)
      → char_at msg 0 ≢ cmd_exit
      → Routes t c w w'
      → Handled (char_at msg 0) c w w'
  accepts msg state w w' e f good available stay (Routes.malformed bad code reply _ _) =
      absurd (bad (subst IsMessage (sym e) good))
  accepts msg state w w' e f good available stay (Routes.not_available _ bad code reply _ _) =
      absurd (bad (rw (e, f) available))
  accepts msg state w w' e f good available stay (Routes.exits _ leave _) =
      absurd (stay (rw e at leave))
  accepts msg state w w' e f good available stay (Routes.handled _ _ _ done) = rw e at done

  -- The text kept of the client does not matter to what handling a message leaves.
  Handled-current_msg :
      {cmd : ℕ} {w w' : World} (msg : Bytes)
      → Handled cmd c (set_client c (record (w.clients c) { current_msg = msg }) w) w'
      → Handled cmd c w (clear_msg c w')
  Handled-current_msg {cmd} {w} {w'} msg h = record {
    consistent = IsConsistent-current_msg c w' [] h.consistent;
    others =
        λ d n. let other : (c == d) ≡ false = ground arith in rw other (rw other at (h.others d n));
    counts = h.counts;
    index = h.index;
    rooms = h.rooms;
    connection = rw (==_refl c) (rw (==_refl c) at h.connection);
    in_use = rw (==_refl c) (rw (==_refl c) at h.in_use);
    says = record {
      events = h.says.events;
      trace = h.says.trace;
      quiet = h.says.quiet;
      announces = rw (==_refl c) (rw (==_refl c) at h.says.announces);
      elsewhere = rw (==_refl c) at h.says.elsewhere;
    };
    transition = rw (==_refl c) (rw (==_refl c) at h.transition);
  }

  -- One message and nothing behind it, with no text kept.
  one_message :
      (msg : Bytes) (w : World)
      → IsConsistent w.rooms w.clients
      → ListFits w.rooms
      → (w.clients c).current_msg ≡ []
      → length msg < current_msg_size
      → IsMessage msg
      → IsAvailable (w.clients c).state (char_at msg 0)
      → char_at msg 0 ≢ cmd_exit
      → (w' : World) × (deliver t c (msg ∷ []) [] w ≡ some w')
        × Handled (char_at msg 0) c w w'
        × ((w'.clients c).current_msg ≡ [])
  unfolding deliver append_msg
  one_message msg w v fits empty short good available stay =
      let w₁ = set_client c (record (w.clients c) { current_msg = msg }) w in
      let v₁ = IsConsistent-current_msg c w msg v in
      let (w₂, done, outcome) = route_client_command-Routes t c w₁ v₁ fits in
      let handled =
        accepts msg (w.clients c).state w₁ w₂ (rw (==_refl c) refl) (rw (==_refl c) refl) good
          available stay outcome in
      (
        clear_msg c w₂,
        rw (empty, strcat-fits current_msg_size [] msg (omega arith), done) refl,
        Handled-current_msg msg handled,
        rw (==_refl c) refl,
      )

  Handled-Agrees :
      {cmd : ℕ} {s : Session} {w w' : World} (handled : Handled cmd c w w')
      → Agrees c s w
      → (w'.clients c).current_msg ≡ []
      → Agrees c (heard (w.clients c).client_fd handled.says.events s) w'
  Handled-Agrees {s = s} {w = w} handled agrees kept = record {
    running = heard-is_running (w.clients c).client_fd handled.says.events s ∙ agrees.running;
    flag =
        heard-announced (w.clients c).client_fd handled.says.events s
        ∙ ap (announced (w.clients c).client_fd handled.says.events) agrees.flag
        ∙ handled.says.announces;
    has_name = Transition-named handled.transition agrees.has_name;
    nothing_kept = kept;
  }

  -- Another client, on another descriptor, which parses what is sent to it meanwhile, agrees with
  -- the server as before.
  abbrev pub Undisturbed : List Event → World → World → Type 0
  Undisturbed events w w' =
      (d : ClientRef) (s : Session)
      → c ≢ d
      → (w.clients c).client_fd ≢ (w.clients d).client_fd
      → Agrees d s w
      → Agrees d (heard (w.clients d).client_fd events s) w'

  Handled-Undisturbed :
      {cmd : ℕ} {w w' : World} (handled : Handled cmd c w w') → Undisturbed handled.says.events w w'
  Handled-Undisturbed {w = w} {w'} handled d s other fd agrees =
      let same = handled.others d other in
      record {
        running = heard-is_running (w.clients d).client_fd handled.says.events s ∙ agrees.running;
        flag =
            heard-announced (w.clients d).client_fd handled.says.events s
            ∙ handled.says.elsewhere (w.clients d).client_fd s.is_in_room fd
            ∙ agrees.flag
            ∙ ap (λ x. is_state x.state in_chat_room) (sym same);
        has_name = ap (λ x. is_state x.state awaiting_username) same ∙ agrees.has_name;
        nothing_kept = ap (λ x. x.current_msg) same ∙ agrees.nothing_kept;
      }

  -- What the server does with a text that its checks let pass.
  accepted_text :
      (out : Bytes) (s : Session) (w : World)
      → IsConsistent w.rooms w.clients
      → ListFits w.rooms
      → Agrees c s w
      → IsAccepted (w.clients c).state out
      → c_string out ≡ out
      → char_at out 0 ≢ cmd_exit
      → (w' : World) × (read_and_process_client_message t c (received out) w ≡ some w')
        × (handled : Handled (char_at out 0) c w w') × Agrees c
            (heard (w.clients c).client_fd handled.says.events s)
            w'
        × Undisturbed handled.says.events w w'
  unfolding read_and_process_client_message
  accepted_text out s w v fits agrees accepted plain stay =
      let first =
        frames-first out accepted.msg accepted.framed (IsMessage-filled accepted.well_formed) in
      let (w', done, handled, kept) =
        one_message accepted.msg w v fits agrees.nothing_kept (IsMessage-short accepted.well_formed)
          accepted.well_formed accepted.available (λ e. stay (sym first ∙ e)) in
      let same = subst (λ cmd. Handled cmd c w w') first handled in
      (
        w',
        rw
            (
              plain,
              process_messages-deliver t c (suc (length out)) out w (omega arith),
              accepted.framed,
            )
            done,
        same,
        Handled-Agrees same agrees kept,
        Handled-Undisturbed same,
      )

  pub typed_line-Agrees :
      (line out : Bytes) (s : Session) (w : World)
      → IsConsistent w.rooms w.clients
      → ListFits w.rooms
      → Agrees c s w
      → IsTyped s.is_in_room line
      → validate_and_format s.is_running s.is_in_room line max_message_len_to_server
        ≡ some (some out)
      → c_string out ≡ out
      → char_at out 0 ≢ cmd_exit
      → (w' : World) × (read_and_process_client_message t c (received out) w ≡ some w')
        × (handled : Handled (char_at out 0) c w w') × Agrees c
            (heard (w.clients c).client_fd handled.says.events s)
            w'
        × Undisturbed handled.says.events w w'
  typed_line-Agrees line out s w v fits agrees typed sent plain stay =
      accepted_text out s w v fits agrees
        (subst (λ state. IsAccepted state out)
          (state_of-flag (w.clients c).state s.is_in_room agrees.flag agrees.has_name)
          (typed-IsAccepted s.is_in_room line out typed (rw agrees.running at sent)))
        plain stay
