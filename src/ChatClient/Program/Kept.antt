-- ===== src/ChatClient/Program/Kept.antt =====
-- The steps of the client's input thread, and what the threads keep true.
use chat_application.Prelude.{
  ◌<◌, ◌+◌, ◌≡◌, refl, ◌∙◌, Bool, true, false, not, ◌&&◌, Option, none, some, List, [], ◌∷◌, ◌++◌,
  ◌==◌, ◌>>=◌, if◌then◌else◌, arith, Bool-cases, inl, inr, length,
}
use chat_application.CString.{Bytes, codes}
use chat_application.CString.Laws.{write_text-fits}
use chat_application.Config.{max_content_len}
use chat_application.ChatClient.{same_text, first_line}
use chat_application.ChatClient.Lines.{length-first_line-le}
use chat_application.ChatClient.Display.{Shown, ui_msg_display, output_win}
use chat_application.ChatClient.Program.Texts.{failed_to_send}
use chat_application.ChatClient.Program.{
  Call, shows, sends, closes, cleans_up, InputAt, prompting, reading, entered, sending, echoing,
  MainAt, joining_input, joining_receive, cleaning_up, returned, gone, checking, stopping, closing,
  ended, Process, Move, input, input_step, after_send, to_send, go, display, refusal, input_ended,
  receive_ended,
}
use chat_application.ChatClient.Program.Ends.{OnSome}
use chat_application.ChatClient.Program.Order.{
  closings, cleanups, closings-append, cleanups-append, ShortAt, joined_input, joined_receive,
  has_closed, has_returned, IsOrderly, input_moved, input_closes, input_closing,
}

-- A line that fits in `command` with its null byte: at most 127 bytes.
abbrev pub IsGiven : Move → Type 0
IsGiven (input (some line) ok) = length line < max_content_len
IsGiven _ = Unit

-- A call other than `close` and `ui_cleanup`.
abbrev pub IsPlain : Call → Type 0
IsPlain (shows s) = Unit
IsPlain (sends out) = Unit
IsPlain closes = ⊥
IsPlain cleans_up = ⊥

pub same_closings :
    (calls : List Call) (x : Call) → IsPlain x → closings (calls ++ x ∷ []) ≡ closings calls
unfolding closings
same_closings calls (shows s) h = closings-append calls (shows s ∷ []) ∙ omega arith
same_closings calls (sends out) h = closings-append calls (sends out ∷ []) ∙ omega arith
same_closings calls closes h = absurd h
same_closings calls cleans_up h = absurd h

pub same_cleanups :
    (calls : List Call) (x : Call) → IsPlain x → cleanups (calls ++ x ∷ []) ≡ cleanups calls
unfolding cleanups
same_cleanups calls (shows s) h = cleanups-append calls (shows s ∷ []) ∙ omega arith
same_cleanups calls (sends out) h = cleanups-append calls (sends out ∷ []) ∙ omega arith
same_cleanups calls closes h = absurd h
same_cleanups calls cleans_up h = absurd h

pub one_closing : (calls : List Call) → closings (calls ++ closes ∷ []) ≡ closings calls + 1
unfolding closings
one_closing calls = closings-append calls (closes ∷ [])

pub no_cleanup : (calls : List Call) → cleanups (calls ++ closes ∷ []) ≡ cleanups calls
unfolding cleanups
no_cleanup calls = cleanups-append calls (closes ∷ []) ∙ omega arith

pub cleaned_up :
    (calls : List Call)
    → (closings (calls ++ cleans_up ∷ []) ≡ closings calls)
      × (cleanups (calls ++ cleans_up ∷ []) ≡ cleanups calls + 1)
unfolding closings cleanups
cleaned_up calls =
    (closings-append calls (cleans_up ∷ []) ∙ omega arith, cleanups-append calls (cleans_up ∷ []))

after_send-ShortAt : (command : Bytes) → ShortAt (after_send command)
after_send-ShortAt command = elim (Bool-cases (same_text command (codes "/exit"))) [
  | inl e ↦ rw e tt
  | inr e ↦ rw e tt
]

after_send-input_closing : (command : Bytes) → input_closing (after_send command) ≡ false
after_send-input_closing command = elim (Bool-cases (same_text command (codes "/exit"))) [
  | inl e ↦ rw e refl
  | inr e ↦ rw e refl
]

-- While `main` waits for a thread it has neither closed the socket nor returned.
waiting-main :
    (at : MainAt) → joined_receive at ≡ false → (has_closed at ≡ false) × (has_returned at ≡ false)
waiting-main joining_input h = (refl, refl)
waiting-main joining_receive h = (refl, refl)
waiting-main closing h = absurd (ground arith)
waiting-main cleaning_up h = absurd (ground arith)
waiting-main returned h = absurd (ground arith)
waiting-main gone h = (refl, refl)

not_joined : (at : MainAt) → joined_input at ≡ false → joined_receive at ≡ false
not_joined joining_input h = refl
not_joined joining_receive h = absurd (ground arith)
not_joined closing h = absurd (ground arith)
not_joined cleaning_up h = absurd (ground arith)
not_joined returned h = absurd (ground arith)
not_joined gone h = refl

module _ (p : Process) (v : IsOrderly p) where
  -- The input thread goes on without a call, or with a plain one.
  input_goes :
      (at : InputAt)
      → input_ended p.input_at ≡ false
      → ShortAt at
      → input_closing at ≡ false
      → IsOrderly (record p { input_at = at })
  input_goes at live short open_yet =
      input_moved p v at p.is_running p.calls live short (λ r. (r, open_yet)) refl refl

  input_calls :
      (at : InputAt) (x : Call)
      → IsPlain x
      → input_ended p.input_at ≡ false
      → ShortAt at
      → input_closing at ≡ false
      → IsOrderly (record p { input_at = at; calls = p.calls ++ x ∷ [] })
  input_calls at x plain live short open_yet =
      input_moved p v at p.is_running (p.calls ++ x ∷ []) live short (λ r. (r, open_yet))
        (same_closings p.calls x plain) (same_cleanups p.calls x plain)

  -- A line that is refused is answered by two texts.
  input_refused :
      (command : Bytes) → input_ended p.input_at ≡ false → IsOrderly (to_send command none p)
  input_refused command live =
      let first = shows (ui_msg_display output_win (refusal p.is_running p.is_in_room command)) in
      let second = shows (ui_msg_display output_win failed_to_send) in
      input_moved p v (after_send command) p.is_running ((p.calls ++ first ∷ []) ++ second ∷ [])
        live (after_send-ShortAt command) (λ r. (r, after_send-input_closing command))
        (same_closings (p.calls ++ first ∷ []) second tt ∙ same_closings p.calls first tt)
        (same_cleanups (p.calls ++ first ∷ []) second tt ∙ same_cleanups p.calls first tt)

  input_validated :
      (command : Bytes) (result : Option Bytes)
      → input_ended p.input_at ≡ false
      → IsOrderly (to_send command result p)
  input_validated command none live = input_refused command live
  input_validated command (some out) live = input_goes (sending command out) live tt refl

  input_formatted :
      (command : Bytes) (o : Option (Option Bytes))
      → input_ended p.input_at ≡ false
      → OnSome IsOrderly (o >>= λ result. some (to_send command result p))
  input_formatted command none live = tt
  input_formatted command (some result) live = input_validated command result live

  input_enters :
      (command : Bytes) (line : Option Bytes) (ok : Bool)
      → input_ended p.input_at ≡ false
      → OnSome IsOrderly (input_step (entered command) line ok p)
  unfolding input_step
  input_enters command line ok live = elim (Bool-cases (length command == 0)) [
    | inl empty ↦ rw empty (input_calls prompting _ tt live tt refl)
    | inr filled ↦
        elim (Bool-cases
          (not (same_text command (codes "/exit")) && same_text command (codes "HELP!"))) [
            | inl help ↦ rw (filled, help) (input_calls prompting _ tt live tt refl)
            | inr no_help ↦
                elim (Bool-cases
                  (not (same_text command (codes "/exit")) && same_text command (codes "HELP"))) [
                    | inl short ↦
                        rw (filled, no_help, short) (input_calls prompting _ tt live tt refl)
                    | inr other ↦ rw (filled, no_help, other) (input_formatted command _ live)
                  ]
          ]
  ]

  -- An `exit(1)`, in a thread that `main` waits for.
  pub process_gone : joined_receive p.main_at ≡ false → IsOrderly (record p { main_at = gone })
  process_gone waits =
      let main_waits = waiting-main p.main_at waits in
      record {
        short = v.short;
        at_most = ground (arith, v.at_most);
        at_least = omega arith;
        waited_input = λ j. absurd (ground arith);
        waited_receive = λ j. absurd (ground arith);
        cleaned = ground (arith, v.cleaned);
        running = λ r. ground (arith, v.running r);
      }

  input_alive-joined : input_ended p.input_at ≡ false → joined_receive p.main_at ≡ false
  input_alive-joined live = elim (Bool-cases (joined_input p.main_at)) [
    | inl joined ↦ absurd (ground (arith, v.waited_input joined))
    | inr waits ↦ not_joined p.main_at waits
  ]

  pub receive_alive-joined : receive_ended p.receive_at ≡ false → joined_receive p.main_at ≡ false
  receive_alive-joined live = elim (Bool-cases (joined_receive p.main_at)) [
    | inl joined ↦ absurd (ground (arith, v.waited_receive joined))
    | inr waits ↦ waits
  ]

  input_checks :
      (on : Bool)
      → input_ended p.input_at ≡ false
      → IsOrderly (go (if on then reading else ended) p)
  input_checks true live = input_goes reading live tt refl
  input_checks false live = input_goes ended live tt refl

  input_echoes :
      (inside : Bool) (s : Shown)
      → input_ended p.input_at ≡ false
      → IsOrderly (go prompting (if inside then display s p else p))
  input_echoes true s live = input_calls prompting (shows s) tt live tt refl
  input_echoes false s live = input_goes prompting live tt refl

  pub input_step-IsOrderly :
      (at : InputAt) (line : Option Bytes) (ok : Bool)
      → p.input_at ≡ at
      → IsGiven (input line ok)
      → OnSome IsOrderly (input_step at line ok p)
  unfolding input_step
  input_step-IsOrderly prompting line ok e given = input_calls checking _ tt (rw e refl) tt refl
  input_step-IsOrderly checking line ok e given = input_checks p.is_running (rw e refl)
  input_step-IsOrderly reading none ok e given = input_calls ended _ tt (rw e refl) tt refl
  input_step-IsOrderly reading (some line) ok e given =
      rw (write_text-fits max_content_len line given) (
        input_goes (entered (first_line line)) (rw e refl)
          (omega (arith, length-first_line-le line, given)) refl)
  input_step-IsOrderly (entered command) line ok e given = input_enters command line ok (rw e refl)
  input_step-IsOrderly (sending command out) line true e given =
      input_calls (after_send command) (sends out) tt (rw e refl) (after_send-ShortAt command)
        (after_send-input_closing command)
  input_step-IsOrderly (sending command out) line false e given =
      process_gone (input_alive-joined (rw e refl))
  input_step-IsOrderly (echoing command) line ok e given = input_echoes p.is_in_room _ (rw e refl)
  input_step-IsOrderly stopping line ok e given =
      input_moved p v closing false (p.calls ++ shows _ ∷ []) (rw e refl) tt
        (λ r. absurd (ground arith)) (same_closings p.calls _ tt) (same_cleanups p.calls _ tt)
  input_step-IsOrderly closing line ok e given =
      input_closes p v (p.calls ++ closes ∷ []) e (one_closing p.calls) (no_cleanup p.calls)
  input_step-IsOrderly ended line ok e given = tt
