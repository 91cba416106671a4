-- ===== src/ChatClient/Program/Progress.antt =====
-- How far the client's threads can go, alone and once the client is to stop.
use chat_application.Prelude.{
  ℕ, suc, ◌+◌, ◌≤◌, ◌≡◌, refl, ◌⊎◌, Bool, true, false, not, ◌&&◌, Option, none, some, [], ◌∷◌, ◌==◌,
  arith, Bool-cases, inl, inr, length,
}
use chat_application.CString.{Bytes, codes}
use chat_application.CString.Laws.{write_text-fits}
use chat_application.Config.{max_message_len_to_server, max_content_len}
use chat_application.ChatClient.{same_text}
use chat_application.ChatClient.Rounds.{validate_and_format-some}
use chat_application.ChatClient.Receiving.{Chunk, failed, received}
use chat_application.ChatClient.Program.{
  InputAt, prompting, reading, entered, sending, echoing, ReceiveAt, receiving, flagging, MainAt,
  joining_input, joining_receive, cleaning_up, returned, gone, checking, stopping, closing, ended,
  Process, Move, input, receive, main_thread, step, input_step, receive_step, main_step, is_over,
  input_ended, receive_ended, thread_step,
}
use chat_application.ChatClient.Program.Ends.{OnSome-result, Nears, step-Nears, left, left-at_most}
use chat_application.ChatClient.Program.Order.{ShortAt, IsOrderly}
use chat_application.ChatClient.Program.Kept.{IsGiven}
use chat_application.ChatClient.Program.Reached.{Reached, stepped, Reached-IsOrderly}

-- A number of steps, from one state of the client to another.
pub data Steps : ℕ → Process → Process → Type 0 where
  no_more : {p : Process} → Steps 0 p p
  one_more :
      {n : ℕ} {p p' q : Process} (m : Move)
      → IsGiven m
      → step m p ≡ some p'
      → Steps n p' q
      → Steps (suc n) p q

Steps-left :
    {n : ℕ} {p q : Process}
    → Steps n p q
    → p.is_running ≡ false
    → (q.is_running ≡ false) × (n + left q ≤ left p)
Steps-left no_more stopped = (stopped, omega arith)
Steps-left {p = p} (one_more m given e later) stopped =
    let near = OnSome-result (Nears p) (step-Nears m p stopped) e in
    let rest = Steps-left later near.0 in (rest.0, omega (arith, near.1, rest.1))

Steps-Reached : {n : ℕ} {p q : Process} → Steps n p q → Reached p → Reached q
Steps-Reached no_more before = before
Steps-Reached (one_more m given e later) before = Steps-Reached later (stepped m before given e)

-- A step of a thread, for what it is answered.
abbrev Advances : Option Process → Type 0
Advances o = (q : Process) × (o ≡ some q)

entered-Advances :
    (p : Process) (command : Bytes) (line : Option Bytes) (ok : Bool)
    → length command ≤ max_content_len
    → Advances (input_step (entered command) line ok p)
unfolding input_step
entered-Advances p command line ok short =
    let (r, e) =
      validate_and_format-some p.is_running p.is_in_room command max_message_len_to_server short in
    elim (Bool-cases (length command == 0)) [
      | inl empty ↦ rw empty (_, refl)
      | inr filled ↦
          elim (Bool-cases
            (not (same_text command (codes "/exit")) && same_text command (codes "HELP!"))) [
              | inl help ↦ rw (filled, help) (_, refl)
              | inr no_help ↦
                  elim (Bool-cases
                    (not (same_text command (codes "/exit")) && same_text command (codes "HELP"))) [
                      | inl help ↦ rw (filled, no_help, help) (_, refl)
                      | inr other ↦ rw (filled, no_help, other, e) (_, refl)
                    ]
            ]
    ]

input_step-Advances :
    (p : Process) (at : InputAt) (line : Option Bytes) (ok : Bool)
    → ShortAt at
    → input_ended at ≡ false
    → IsGiven (input line ok)
    → Advances (input_step at line ok p)
unfolding input_step
input_step-Advances p prompting line ok short live given = (_, refl)
input_step-Advances p checking line ok short live given = (_, refl)
input_step-Advances p reading none ok short live given = (_, refl)
input_step-Advances p reading (some line) ok short live given =
    rw (write_text-fits max_content_len line given) (_, refl)
input_step-Advances p (entered command) line ok short live given =
    entered-Advances p command line ok short
input_step-Advances p (sending command out) line true short live given = (_, refl)
input_step-Advances p (sending command out) line false short live given = (_, refl)
input_step-Advances p (echoing command) line ok short live given = (_, refl)
input_step-Advances p stopping line ok short live given = (_, refl)
input_step-Advances p closing line ok short live given = (_, refl)
input_step-Advances p ended line ok short live given = absurd (ground arith)

receive_step-Advances :
    (p : Process) (at : ReceiveAt) (chunk : Chunk)
    → receive_ended at ≡ false
    → Advances (receive_step at chunk p)
unfolding receive_step
receive_step-Advances p checking chunk live = (_, refl)
receive_step-Advances p receiving failed live = (_, refl)
receive_step-Advances p receiving (received []) live = (_, refl)
receive_step-Advances p receiving (received (b ∷ bytes)) live = (_, refl)
receive_step-Advances p (flagging cmd) chunk live = (_, refl)
receive_step-Advances p stopping chunk live = (_, refl)
receive_step-Advances p closing chunk live = (_, refl)
receive_step-Advances p ended chunk live = absurd (ground arith)

main_step-Advances :
    (p : Process) (at : MainAt)
    → input_ended p.input_at ≡ true
    → receive_ended p.receive_at ≡ true
    → is_over at ≡ false
    → Advances (main_step at p)
unfolding main_step
main_step-Advances p joining_input done finished live = rw done (_, refl)
main_step-Advances p joining_receive done finished live = rw finished (_, refl)
main_step-Advances p closing done finished live = (_, refl)
main_step-Advances p cleaning_up done finished live = (_, refl)
main_step-Advances p returned done finished live = absurd (ground arith)
main_step-Advances p gone done finished live = absurd (ground arith)

-- One of the three threads can go on.
abbrev pub CanGo : Option Bytes → Bool → Chunk → Process → Type 0
CanGo line ok chunk p =
    Advances (step (input line ok) p)
    ⊎ Advances (step (receive chunk) p)
    ⊎ Advances (step main_thread p)

live-CanGo :
    (line : Option Bytes) (ok : Bool) (chunk : Chunk) (p : Process)
    → IsOrderly p
    → is_over p.main_at ≡ false
    → IsGiven (input line ok)
    → CanGo line ok chunk p
unfolding step thread_step
live-CanGo line ok chunk p v live given = elim (Bool-cases (input_ended p.input_at)) [
  | inr goes ↦ inl (rw live (input_step-Advances p p.input_at line ok v.short goes given))
  | inl done ↦ elim (Bool-cases (receive_ended p.receive_at)) [
    | inr goes ↦ inr (inl (rw live (receive_step-Advances p p.receive_at chunk goes)))
    | inl finished ↦ inr (inr (rw live (main_step-Advances p p.main_at done finished live)))
  ]
]

-- From a state that the threads of the client reach with is_running false, there are at most
-- twelve steps, in any order, for lines of at most 127 bytes; and after any of them the process
-- has ended, or one of its threads can go on, whatever wgetnstr, send and recv answer: the client
-- ends.
pub stopped_client-ends :
    {n : ℕ} {p q : Process} (line : Option Bytes) (ok : Bool) (chunk : Chunk)
    → Reached p
    → p.is_running ≡ false
    → Steps n p q
    → IsGiven (input line ok)
    → (n ≤ 12) × ((is_over q.main_at ≡ true) ⊎ CanGo line ok chunk q)
stopped_client-ends {p = p} {q} line ok chunk before stopped steps given = (
  omega (arith, (Steps-left steps stopped).1, left-at_most p),
  elim (Bool-cases (is_over q.main_at)) [
    | inl over ↦ inl over
    | inr live ↦
        inr (live-CanGo line ok chunk q (Reached-IsOrderly (Steps-Reached steps before)) live given)
  ],
)
