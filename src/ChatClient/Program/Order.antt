-- ===== src/ChatClient/Program/Order.antt =====
-- What the threads of the client keep true: who has closed the socket, and what `main` waits for.
use chat_application.Prelude.{
  ℕ, suc, ◌+◌, ◌≤◌, ◌≡◌, refl, Bool, true, false, List, [], ◌∷◌, ◌++◌, arith, length,
}
use chat_application.Config.{max_content_len}
use chat_application.ChatClient.Program.{
  Call, shows, sends, closes, cleans_up, InputAt, entered, ReceiveAt, MainAt, joining_input,
  joining_receive, cleaning_up, returned, gone, closing, ended, Process, input_ended, receive_ended,
}

unfoldable pub closings : List Call → ℕ
closings [] = 0
closings (closes ∷ calls) = suc (closings calls)
closings (shows s ∷ calls) = closings calls
closings (sends out ∷ calls) = closings calls
closings (cleans_up ∷ calls) = closings calls

unfoldable pub cleanups : List Call → ℕ
cleanups [] = 0
cleanups (cleans_up ∷ calls) = suc (cleanups calls)
cleanups (shows s ∷ calls) = cleanups calls
cleanups (sends out ∷ calls) = cleanups calls
cleanups (closes ∷ calls) = cleanups calls

pub closings-append : (xs ys : List Call) → closings (xs ++ ys) ≡ closings xs + closings ys
unfolding closings
closings-append [] ys = omega arith
closings-append (closes ∷ xs) ys = omega (arith, closings-append xs ys)
closings-append (shows s ∷ xs) ys = closings-append xs ys
closings-append (sends out ∷ xs) ys = closings-append xs ys
closings-append (cleans_up ∷ xs) ys = closings-append xs ys

pub cleanups-append : (xs ys : List Call) → cleanups (xs ++ ys) ≡ cleanups xs + cleanups ys
unfolding cleanups
cleanups-append [] ys = omega arith
cleanups-append (cleans_up ∷ xs) ys = omega (arith, cleanups-append xs ys)
cleanups-append (shows s ∷ xs) ys = cleanups-append xs ys
cleanups-append (sends out ∷ xs) ys = cleanups-append xs ys
cleanups-append (closes ∷ xs) ys = cleanups-append xs ys

-- A line that the thread has at hand is no longer than `wgetnstr` allows.
abbrev pub ShortAt : InputAt → Type 0
ShortAt (entered command) = length command ≤ max_content_len
ShortAt _ = Unit

abbrev pub input_closing : InputAt → Bool
input_closing closing = true
input_closing _ = false

abbrev pub receive_closing : ReceiveAt → Bool
receive_closing closing = true
receive_closing _ = false

abbrev pub times : Bool → ℕ
times true = 1
times false = 0

-- Which `pthread_join` has returned.
abbrev pub joined_input : MainAt → Bool
joined_input joining_input = false
joined_input gone = false
joined_input _ = true

abbrev pub joined_receive : MainAt → Bool
joined_receive joining_input = false
joined_receive joining_receive = false
joined_receive gone = false
joined_receive _ = true

-- Whether `main` has closed the socket itself.
abbrev pub has_closed : MainAt → Bool
has_closed cleaning_up = true
has_closed returned = true
has_closed _ = false

abbrev pub has_returned : MainAt → Bool
has_returned returned = true
has_returned _ = false

pub record IsOrderly (p : Process) : Type 0 where
  pub short : ShortAt p.input_at
  pub at_most :
      closings p.calls
      ≤ times (input_ended p.input_at)
        + times (receive_ended p.receive_at)
        + times (has_closed p.main_at)
  pub at_least : times (has_closed p.main_at) ≤ closings p.calls
  pub waited_input : joined_input p.main_at ≡ true → input_ended p.input_at ≡ true
  pub waited_receive : joined_receive p.main_at ≡ true → receive_ended p.receive_at ≡ true
  pub cleaned : cleanups p.calls ≡ times (has_returned p.main_at)
  pub running :
      p.is_running ≡ true
      → (closings p.calls ≤ times (has_closed p.main_at))
        × (input_closing p.input_at ≡ false)
        × (receive_closing p.receive_at ≡ false)

module _ (p : Process) (v : IsOrderly p) where
  -- The input thread goes on, and closes nothing.
  pub input_moved :
      (at : InputAt) (run : Bool) (calls : List Call)
      → input_ended p.input_at ≡ false
      → ShortAt at
      → (run ≡ true → (p.is_running ≡ true) × (input_closing at ≡ false))
      → closings calls ≡ closings p.calls
      → cleanups calls ≡ cleanups p.calls
      → IsOrderly (record p { is_running = run; input_at = at; calls = calls })
  input_moved at run calls live short kept same_closings same_cleanups = record {
    short = short;
    at_most = ground (arith, v.at_most);
    at_least = ground (arith, v.at_least);
    waited_input = λ j. absurd (ground (arith, v.waited_input j));
    waited_receive = v.waited_receive;
    cleaned = ground (arith, v.cleaned);
    running =
        λ r. let before = v.running (kept r).0 in (omega (arith, before.0), (kept r).1, before.2);
  }

  -- The input thread, in `exit_client`, closes the socket.
  pub input_closes :
      (calls : List Call)
      → p.input_at ≡ closing
      → closings calls ≡ closings p.calls + 1
      → cleanups calls ≡ cleanups p.calls
      → IsOrderly (record p { input_at = ended; calls = calls })
  input_closes calls e one_more same_cleanups =
      let alive : input_ended p.input_at ≡ false = rw e refl in
      record {
        short = tt;
        at_most = ground (arith, v.at_most);
        at_least = ground (arith, v.at_least);
        waited_input = λ j. refl;
        waited_receive = v.waited_receive;
        cleaned = ground (arith, v.cleaned);
        running = λ r. absurd (ground (arith, rw e at (v.running r).1));
      }

  -- The receiving thread goes on, and closes nothing.
  pub receive_moved :
      (at : ReceiveAt) (run room : Bool) (calls : List Call)
      → receive_ended p.receive_at ≡ false
      → (run ≡ true → (p.is_running ≡ true) × (receive_closing at ≡ false))
      → closings calls ≡ closings p.calls
      → cleanups calls ≡ cleanups p.calls
      → IsOrderly (record p { is_running = run; is_in_room = room; receive_at = at; calls = calls })
  receive_moved at run room calls live kept same_closings same_cleanups = record {
    short = v.short;
    at_most = ground (arith, v.at_most);
    at_least = ground (arith, v.at_least);
    waited_input = v.waited_input;
    waited_receive = λ j. absurd (ground (arith, v.waited_receive j));
    cleaned = ground (arith, v.cleaned);
    running =
        λ r. let before = v.running (kept r).0 in (omega (arith, before.0), before.1, (kept r).1);
  }

  pub receive_closes :
      (calls : List Call)
      → p.receive_at ≡ closing
      → closings calls ≡ closings p.calls + 1
      → cleanups calls ≡ cleanups p.calls
      → IsOrderly (record p { receive_at = ended; calls = calls })
  receive_closes calls e one_more same_cleanups =
      let alive : receive_ended p.receive_at ≡ false = rw e refl in
      record {
        short = v.short;
        at_most = ground (arith, v.at_most);
        at_least = ground (arith, v.at_least);
        waited_input = v.waited_input;
        waited_receive = λ j. refl;
        cleaned = ground (arith, v.cleaned);
        running = λ r. absurd (ground (arith, rw e at (v.running r).2));
      }
