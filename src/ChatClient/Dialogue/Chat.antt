-- ===== src/ChatClient/Dialogue/Chat.antt =====
-- Any number of clients that type lines in any order, each line answered before the next.
use chat_application.Prelude.{
  ℕ, suc, ◌+◌, ◌≤◌, ◌≡◌, ◌≢◌, sym, ap, ◌∙◌, Bool, true, some, List, ◌++◌, ◌==◌, arith, subst,
  append-cancel, Bool-cases, inl, inr,
}
use chat_application.CString.{Bytes, char_at, c_string}
use chat_application.Config.{ClientRef, World, Event, cmd_exit, max_message_len_to_server}
use chat_application.Membership.{IsConsistent}
use chat_application.RoomManager.Listing.Bound.{used_rooms}
use chat_application.ClientStateManager.{received, read_and_process_client_message}
use chat_application.ClientStateManager.Reading.{used_rooms-ListFits, used_rooms-OneRoom}
use chat_application.ClientStateManager.Transition.{Handled}
use chat_application.ChatClient.{Session, validate_and_format}
use chat_application.ChatClient.Replies.{heard}
use chat_application.ChatClient.Dialogue.{Agrees, IsTyped}
use chat_application.ChatClient.Dialogue.Round.{Undisturbed, typed_line-Agrees}

-- The client at each address.
abbrev pub Sessions : Type 0
Sessions = ClientRef → Session

-- Each client parses what is sent to its descriptor.
abbrev pub all_heard : World → List Event → Sessions → Sessions
all_heard w events ss d = heard (w.clients d).client_fd events (ss d)

-- `takes_part` says which clients there are.
module _ (takes_part : ClientRef → Bool) where
  -- A number of lines, each of any of the clients, from one state of clients and server to another.
  pub data Chats (ss : Sessions) (w : World) : ℕ → Sessions → World → Type 0 where
    silent : Chats ss w 0 ss w
    and_then :
        {n : ℕ} {ss' : Sessions} {w' w'' : World} (t : ℕ) (c : ClientRef) (line out : Bytes)
        (events : List Event)
        → Chats ss w n ss' w'
        → takes_part c ≡ true
        → IsTyped (ss' c).is_in_room line
        → validate_and_format (ss' c).is_running (ss' c).is_in_room line max_message_len_to_server
          ≡ some (some out)
        → c_string out ≡ out
        → char_at out 0 ≢ cmd_exit
        → read_and_process_client_message t c (received out) w' ≡ some w''
        → w''.trace ≡ w'.trace ++ events
        → Chats ss w (suc n) (all_heard w' events ss') w''

  -- No two of the clients are on one descriptor.
  abbrev pub AreApart : World → Type 0
  AreApart w =
      (c d : ClientRef)
      → takes_part c ≡ true
      → takes_part d ≡ true
      → (w.clients c).client_fd ≡ (w.clients d).client_fd
      → c ≡ d

  abbrev pub AllAgree : Sessions → World → Type 0
  AllAgree ss w = (d : ClientRef) → takes_part d ≡ true → Agrees d (ss d) w

  -- What holds between two lines.
  pub record Chatted (n : ℕ) (ss' : Sessions) (w w' : World) : Type 0 where
    pub consistent : IsConsistent w'.rooms w'.clients
    pub agree : AllAgree ss' w'
    pub apart : AreApart w'
    pub used : used_rooms w'.rooms ≤ used_rooms w.rooms + n

  Handled-client_fd :
      {cmd : ℕ} {c : ClientRef} {w w' : World}
      → Handled cmd c w w'
      → (d : ClientRef) → (w'.clients d).client_fd ≡ (w.clients d).client_fd
  Handled-client_fd {c = c} {w} {w'} handled d = elim (Bool-cases (c == d)) [
    | inl own ↦
        let same : c ≡ d = ground arith in
        subst (λ e. (w'.clients e).client_fd ≡ (w.clients e).client_fd) same handled.connection
    | inr other ↦ ap (λ x. x.client_fd) (handled.others d (ground arith))
  ]

  -- One line, typed by `c`, with what it leaves of all the clients.
  after_line :
      (t : ℕ) {cmd : ℕ} {c : ClientRef} {ss : Sessions} {w w' : World}
      (handled : Handled cmd c w w')
      → takes_part c ≡ true
      → AreApart w
      → AllAgree ss w
      → Agrees c (all_heard w handled.says.events ss c) w'
      → Undisturbed t c handled.says.events w w'
      → AllAgree (all_heard w handled.says.events ss) w'
  after_line t {c = c} {ss} {w} {w'} handled mine apart agree own undisturbed d theirs =
      elim (Bool-cases (c == d)) [
        | inl same ↦
            subst (λ e. Agrees e (all_heard w handled.says.events ss e) w') (ground arith) own
        | inr other ↦
            undisturbed d (ss d) (ground arith)
              (λ e. let same = apart c d mine theirs e in absurd (ground arith)) (agree d theirs)
      ]

  abbrev Answered : ℕ → ℕ → ClientRef → Sessions → World → World → Type 0
  Answered t cmd c ss w w' =
      (handled : Handled cmd c w w') × Agrees c (all_heard w handled.says.events ss c) w'
      × Undisturbed t c handled.says.events w w'

  -- Rooms and clients agree; the clients that take part are on descriptors of their own, each of
  -- them runs, has a name, has a flag is_in_room that says whether the server has it in a room,
  -- and no text of it is kept. After any number of lines of which any of them, in any order, make
  -- texts (each line beginning with a slash or, in a room, of at most 127 bytes, not blank and
  -- without a carriage return; each text without a byte 0 and not CMD_EXIT), each answered by the
  -- server and heard by all of them before the next, such that the rooms in use and the lines are
  -- at most 42 together, all this holds again.
  pub Chats-Chatted :
      {ss : Sessions} {w : World} {n : ℕ} {ss' : Sessions} {w' : World}
      → IsConsistent w.rooms w.clients
      → AllAgree ss w
      → AreApart w
      → used_rooms w.rooms + n ≤ 42
      → Chats ss w n ss' w'
      → Chatted n ss' w w'
  Chats-Chatted v agree apart few silent = record {
    consistent = v;
    agree = agree;
    apart = apart;
    used = omega arith;
  }
  Chats-Chatted {w = w} v agree apart few
        (and_then {n} {ss'} {w'} {w''} t c line out events before mine typed sent plain stay done
          trace) =
      let so_far = Chats-Chatted v agree apart (omega arith) before in
      let (u, done', handled', next', others') =
        typed_line-Agrees t c line out (ss' c) w' so_far.consistent
          (used_rooms-ListFits w' so_far.consistent (omega (arith, so_far.used)))
          (so_far.agree c mine) typed sent plain stay in
      let same : u ≡ w'' = cc (done', done) in
      let (handled, next, others) =
        subst (Answered t (char_at out 0) c ss' w') same (handled', next', others') in
      let told = append-cancel w'.trace (sym handled.says.trace ∙ trace) in
      record {
        consistent = handled.consistent;
        agree =
            subst (λ es. AllAgree (all_heard w' es ss') w'') told
              (after_line t handled mine so_far.apart so_far.agree next others);
        apart = λ d e p q same_fd.
            so_far.apart d e p q
              (sym (Handled-client_fd handled d) ∙ same_fd ∙ Handled-client_fd handled e);
        used = omega (arith, so_far.used, used_rooms-OneRoom handled.rooms);
      }
