-- ===== src/ChatClient/Program/Ends.antt =====
-- What the client's threads have left to do once `is_running` is false.
use chat_application.Prelude.{
  ltb, length, ℕ, ◌+◌, ◌<◌, ◌≤◌, ◌≡◌, refl, subst, Bool, true, false, not, ◌&&◌, Option, none, some,
  [], ◌∷◌, ◌==◌, arith, Bool-cases, inl, inr, length,
}
use chat_application.CString.{write_text, Bytes, codes}
use chat_application.ChatClient.{same_text, validate_and_format}
use chat_application.ChatClient.Receiving.{Chunk, failed, received}
use chat_application.ChatClient.Program.{
  InputAt, prompting, reading, entered, sending, echoing, ReceiveAt, receiving, flagging, MainAt,
  joining_input, joining_receive, cleaning_up, returned, gone, checking, stopping, closing, ended,
  Process, Move, input, receive, main_thread, step, input_step, receive_step, main_step, is_over,
  after_send, thread_step, input_ended, receive_ended,
}

-- What holds of the result, if there is one.
abbrev pub OnSome : (Process → Type 0) → Option Process → Type 0
OnSome P none = Unit
OnSome P (some q) = P q

pub OnSome-result :
    (P : Process → Type 0) {o : Option Process} {q : Process} → OnSome P o → o ≡ some q → P q
OnSome-result P {o} {q} h e = subst (OnSome P) e h

-- The most steps that a thread can still make, once the client is to stop.
abbrev pub input_left : InputAt → ℕ
input_left prompting = 2
input_left checking = 1
input_left reading = 5
input_left (entered command) = 4
input_left (sending command out) = 4
input_left (echoing command) = 3
input_left stopping = 2
input_left closing = 1
input_left ended = 0

abbrev pub receive_left : ReceiveAt → ℕ
receive_left checking = 1
receive_left receiving = 3
receive_left (flagging cmd) = 2
receive_left stopping = 2
receive_left closing = 1
receive_left ended = 0

abbrev pub main_left : MainAt → ℕ
main_left joining_input = 4
main_left joining_receive = 3
main_left closing = 2
main_left cleaning_up = 1
main_left returned = 0
main_left gone = 0

abbrev pub left : Process → ℕ
left p = input_left p.input_at + receive_left p.receive_at + main_left p.main_at

-- A step of a client that is to stop: it is still to stop, and has less left to do.
abbrev pub Nears : Process → Process → Type 0
Nears p q = (q.is_running ≡ false) × (left q < left p)

main_left-of_live : (at : MainAt) → is_over at ≡ false → 0 < main_left at
main_left-of_live joining_input h = omega arith
main_left-of_live joining_receive h = omega arith
main_left-of_live closing h = omega arith
main_left-of_live cleaning_up h = omega arith
main_left-of_live returned h = absurd (ground arith)
main_left-of_live gone h = absurd (ground arith)

input_left-after_send : (command : Bytes) → input_left (after_send command) < 4
input_left-after_send command = elim (Bool-cases (same_text command (codes "/exit"))) [
  | inl e ↦ rw e (omega arith)
  | inr e ↦ rw e (omega arith)
]

module _ (p : Process) (stopped : p.is_running ≡ false) (live : is_over p.main_at ≡ false) where
  input_step-Nears :
      (at : InputAt) (line : Option Bytes) (ok : Bool)
      → p.input_at ≡ at
      → OnSome (Nears p) (input_step at line ok p)
  unfolding input_step validate_and_format write_text
  input_step-Nears prompting line ok e = rw e (stopped, omega arith)
  input_step-Nears checking line ok e = rw (e, stopped) (refl, omega arith)
  input_step-Nears reading none ok e = rw e (stopped, omega arith)
  input_step-Nears reading (some line) ok e = elim (Bool-cases (ltb (length line) 128)) [
    | inl fits ↦ rw (e, fits) (stopped, omega arith)
    | inr over ↦ rw (e, over) tt
  ]
  input_step-Nears (entered command) line ok e = elim (Bool-cases (length command == 0)) [
    | inl empty ↦ rw (empty, e) (stopped, omega arith)
    | inr filled ↦
        elim (Bool-cases
          (not (same_text command (codes "/exit")) && same_text command (codes "HELP!"))) [
            | inl help ↦ rw (filled, help, e) (stopped, omega arith)
            | inr no_help ↦
                elim (Bool-cases
                  (not (same_text command (codes "/exit")) && same_text command (codes "HELP"))) [
                    | inl short ↦ rw (filled, no_help, short, e) (stopped, omega arith)
                    | inr other ↦
                        rw (filled, no_help, other, stopped, e)
                          (refl, omega (arith, input_left-after_send command))
                  ]
          ]
  ]
  input_step-Nears (sending command out) line true e =
      rw e (stopped, omega (arith, input_left-after_send command))
  input_step-Nears (sending command out) line false e =
      (stopped, omega (arith, main_left-of_live p.main_at live))
  input_step-Nears (echoing command) line ok e = elim (Bool-cases p.is_in_room) [
    | inl inside ↦ rw (inside, e) (stopped, omega arith)
    | inr outside ↦ rw (outside, e) (stopped, omega arith)
  ]
  input_step-Nears stopping line ok e = rw e (refl, omega arith)
  input_step-Nears closing line ok e = rw e (stopped, omega arith)
  input_step-Nears ended line ok e = tt

  receive_step-Nears :
      (at : ReceiveAt) (chunk : Chunk)
      → p.receive_at ≡ at
      → OnSome (Nears p) (receive_step at chunk p)
  unfolding receive_step
  receive_step-Nears checking chunk e = rw (e, stopped) (refl, omega arith)
  receive_step-Nears receiving failed e = (stopped, omega (arith, main_left-of_live p.main_at live))
  receive_step-Nears receiving (received []) e = rw e (stopped, omega arith)
  receive_step-Nears receiving (received (b ∷ bytes)) e = rw e (stopped, omega arith)
  receive_step-Nears (flagging cmd) chunk e = rw e (stopped, omega arith)
  receive_step-Nears stopping chunk e = rw e (refl, omega arith)
  receive_step-Nears closing chunk e = rw e (stopped, omega arith)
  receive_step-Nears ended chunk e = tt

  main_step-Nears : (at : MainAt) → p.main_at ≡ at → OnSome (Nears p) (main_step at p)
  unfolding main_step
  main_step-Nears joining_input e = elim (Bool-cases (input_ended p.input_at)) [
    | inl done ↦ rw (done, e) (stopped, omega arith)
    | inr waits ↦ rw waits tt
  ]
  main_step-Nears joining_receive e = elim (Bool-cases (receive_ended p.receive_at)) [
    | inl done ↦ rw (done, e) (stopped, omega arith)
    | inr waits ↦ rw waits tt
  ]
  main_step-Nears closing e = rw e (stopped, omega arith)
  main_step-Nears cleaning_up e = rw e (stopped, omega arith)
  main_step-Nears returned e = tt
  main_step-Nears gone e = tt

thread_step-Nears :
    (m : Move) (p : Process)
    → p.is_running ≡ false
    → is_over p.main_at ≡ false
    → OnSome (Nears p) (thread_step m p)
unfolding thread_step
thread_step-Nears (input line ok) p stopped live =
    input_step-Nears p stopped live p.input_at line ok refl
thread_step-Nears (receive chunk) p stopped live =
    receive_step-Nears p stopped live p.receive_at chunk refl
thread_step-Nears main_thread p stopped live = main_step-Nears p stopped live p.main_at refl

-- Every step of a client that is to stop brings it nearer to its end.
pub step-Nears : (m : Move) (p : Process) → p.is_running ≡ false → OnSome (Nears p) (step m p)
unfolding step
step-Nears m p stopped = elim (Bool-cases (is_over p.main_at)) [
  | inl over ↦ rw over tt
  | inr live ↦ rw live (thread_step-Nears m p stopped live)
]

input_left-at_most : (at : InputAt) → input_left at ≤ 5
input_left-at_most prompting = omega arith
input_left-at_most checking = omega arith
input_left-at_most reading = omega arith
input_left-at_most (entered command) = omega arith
input_left-at_most (sending command out) = omega arith
input_left-at_most (echoing command) = omega arith
input_left-at_most stopping = omega arith
input_left-at_most closing = omega arith
input_left-at_most ended = omega arith

receive_left-at_most : (at : ReceiveAt) → receive_left at ≤ 3
receive_left-at_most checking = omega arith
receive_left-at_most receiving = omega arith
receive_left-at_most (flagging cmd) = omega arith
receive_left-at_most stopping = omega arith
receive_left-at_most closing = omega arith
receive_left-at_most ended = omega arith

main_left-at_most : (at : MainAt) → main_left at ≤ 4
main_left-at_most joining_input = omega arith
main_left-at_most joining_receive = omega arith
main_left-at_most closing = omega arith
main_left-at_most cleaning_up = omega arith
main_left-at_most returned = omega arith
main_left-at_most gone = omega arith

pub left-at_most : (p : Process) → left p ≤ 12
left-at_most p = omega (
  arith,
  input_left-at_most p.input_at,
  receive_left-at_most p.receive_at,
  main_left-at_most p.main_at,
)
