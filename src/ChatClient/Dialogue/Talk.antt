-- ===== src/ChatClient/Dialogue/Talk.antt =====
-- Any number of lines of one client, each answered before the next.
use chat_application.Prelude.{
  ℕ, suc, ◌+◌, ◌≤◌, ◌≡◌, ◌≢◌, sym, ◌∙◌, some, List, ◌++◌, arith, subst, append-cancel,
}
use chat_application.CString.{Bytes, char_at, c_string}
use chat_application.Config.{ClientRef, World, Event, cmd_exit, max_message_len_to_server}
use chat_application.Membership.{IsConsistent}
use chat_application.RoomManager.Listing.Bound.{used_rooms}
use chat_application.ClientStateManager.{received, read_and_process_client_message}
use chat_application.ClientStateManager.Reading.{used_rooms-ListFits, used_rooms-OneRoom}
use chat_application.ClientStateManager.Transition.{Handled}
use chat_application.ChatClient.{Session, validate_and_format}
use chat_application.ChatClient.Replies.{heard}
use chat_application.ChatClient.Dialogue.{Agrees, IsTyped}
use chat_application.ChatClient.Dialogue.Round.{typed_line-Agrees}

module _ (t : ℕ) (c : ClientRef) where
  -- A number of lines, from one state of client and server to another: the server takes what the
  -- client makes of a line, and the client parses what is sent to its descriptor meanwhile.
  pub data Talks (s : Session) (w : World) : ℕ → Session → World → Type 0 where
    silent : Talks s w 0 s w
    and_then :
        {n : ℕ} {s' : Session} {w' w'' : World} (line out : Bytes) (events : List Event)
        → Talks s w n s' w'
        → IsTyped s'.is_in_room line
        → validate_and_format s'.is_running s'.is_in_room line max_message_len_to_server
          ≡ some (some out)
        → c_string out ≡ out
        → char_at out 0 ≢ cmd_exit
        → read_and_process_client_message t c (received out) w' ≡ some w''
        → w''.trace ≡ w'.trace ++ events
        → Talks s w (suc n) (heard (w'.clients c).client_fd events s') w''

  -- What holds between two lines.
  pub record Talked (n : ℕ) (s' : Session) (w w' : World) : Type 0 where
    pub consistent : IsConsistent w'.rooms w'.clients
    pub agrees : Agrees c s' w'
    pub used : used_rooms w'.rooms ≤ used_rooms w.rooms + n

  abbrev Answered : ℕ → Session → World → World → Type 0
  Answered cmd s w w' =
      (handled : Handled cmd c w w') × Agrees c
        (heard (w.clients c).client_fd handled.says.events s) w'

  -- Rooms and clients agree, the client runs, has a name, has a flag is_in_room that says whether
  -- the server has it in a room, and no text of it is kept. After any number of lines of which it
  -- makes texts (each line beginning with a slash or, in a room, of at most 127 bytes, not blank
  -- and without a carriage return; each text without a byte 0 and not CMD_EXIT), each answered by
  -- the server before the next, such that the rooms in use and the lines are at most 42 together,
  -- all this holds again, and at most one room more is in use for each line.
  pub Talks-Talked :
      {s : Session} {w : World} {n : ℕ} {s' : Session} {w' : World}
      → IsConsistent w.rooms w.clients
      → Agrees c s w
      → used_rooms w.rooms + n ≤ 42
      → Talks s w n s' w'
      → Talked n s' w w'
  Talks-Talked v agrees few silent = record { consistent = v; agrees = agrees; used = omega arith }
  Talks-Talked {w = w} v agrees few
        (and_then {n} {s'} {w'} {w''} line out events before typed sent plain stay done trace) =
      let so_far = Talks-Talked v agrees (omega arith) before in
      let (u, done', handled', next', undisturbed) =
        typed_line-Agrees t c line out s' w' so_far.consistent
          (used_rooms-ListFits w' so_far.consistent (omega (arith, so_far.used))) so_far.agrees
          typed sent plain stay in
      let same : u ≡ w'' = cc (done', done) in
      let (handled, next) = subst (Answered (char_at out 0) s' w') same (handled', next') in
      let told = append-cancel w'.trace (sym handled.says.trace ∙ trace) in
      record {
        consistent = handled.consistent;
        agrees = subst (λ es. Agrees c (heard (w'.clients c).client_fd es s') w'') told next;
        used = omega (arith, so_far.used, used_rooms-OneRoom handled.rooms);
      }
