-- ===== src/ChatClient/Program/Reached.antt =====
-- The states that the threads of the client reach from their creation, in any order of their steps.
use chat_application.Prelude.{
  ◌+◌, ◌≡◌, refl, ap, ◌∙◌, Bool, true, false, some, [], ◌∷◌, ◌++◌, if◌then◌else◌, arith, Bool-cases,
  inl, inr,
}
use chat_application.ChatClient.Receiving.{Chunk, failed, received}
use chat_application.ChatClient.Program.{
  Call, shows, closes, ReceiveAt, receiving, flagging, MainAt, joining_input, joining_receive,
  cleaning_up, returned, gone, checking, stopping, closing, ended, Process, Move, input, receive,
  main_thread, step, receive_step, main_step, is_over, move, input_ended, receive_ended,
  thread_step, threads_created,
}
use chat_application.ChatClient.Program.Ends.{OnSome, OnSome-result}
use chat_application.ChatClient.Program.Order.{
  closings, cleanups, IsOrderly, receive_moved, receive_closes, receive_closing,
}
use chat_application.ChatClient.Program.Kept.{
  IsGiven, IsPlain, same_closings, same_cleanups, one_closing, no_cleanup, cleaned_up, process_gone,
  receive_alive-joined, input_step-IsOrderly,
}

module _ (p : Process) (v : IsOrderly p) where
  receive_goes :
      (at : ReceiveAt) (room : Bool)
      → receive_ended p.receive_at ≡ false
      → receive_closing at ≡ false
      → IsOrderly (record p { receive_at = at; is_in_room = room })
  receive_goes at room live open_yet =
      receive_moved p v at p.is_running room p.calls live (λ r. (r, open_yet)) refl refl

  receive_calls :
      (at : ReceiveAt) (x : Call)
      → IsPlain x
      → receive_ended p.receive_at ≡ false
      → receive_closing at ≡ false
      → IsOrderly (record p { receive_at = at; calls = p.calls ++ x ∷ [] })
  receive_calls at x plain live open_yet =
      receive_moved p v at p.is_running p.is_in_room (p.calls ++ x ∷ []) live (λ r. (r, open_yet))
        (same_closings p.calls x plain) (same_cleanups p.calls x plain)

  receive_checks :
      (on : Bool)
      → receive_ended p.receive_at ≡ false
      → IsOrderly (move (if on then receiving else ended) p)
  receive_checks true live = receive_goes receiving p.is_in_room live refl
  receive_checks false live = receive_goes ended p.is_in_room live refl

  receive_step-IsOrderly :
      (at : ReceiveAt) (chunk : Chunk)
      → p.receive_at ≡ at
      → OnSome IsOrderly (receive_step at chunk p)
  unfolding receive_step
  receive_step-IsOrderly checking chunk e = receive_checks p.is_running (rw e refl)
  receive_step-IsOrderly receiving failed e =
      process_gone p v (receive_alive-joined p v (rw e refl))
  receive_step-IsOrderly receiving (received []) e = receive_calls stopping _ tt (rw e refl) refl
  receive_step-IsOrderly receiving (received (b ∷ bytes)) e =
      receive_calls (flagging _) _ tt (rw e refl) refl
  receive_step-IsOrderly (flagging cmd) chunk e = receive_goes checking _ (rw e refl) refl
  receive_step-IsOrderly stopping chunk e =
      receive_moved p v closing false p.is_in_room (p.calls ++ shows _ ∷ []) (rw e refl)
        (λ r. absurd (ground arith)) (same_closings p.calls _ tt) (same_cleanups p.calls _ tt)
  receive_step-IsOrderly closing chunk e =
      receive_closes p v (p.calls ++ closes ∷ []) e (one_closing p.calls) (no_cleanup p.calls)
  receive_step-IsOrderly ended chunk e = tt

  main_step-IsOrderly : (at : MainAt) → p.main_at ≡ at → OnSome IsOrderly (main_step at p)
  unfolding main_step
  main_step-IsOrderly joining_input e = elim (Bool-cases (input_ended p.input_at)) [
    | inr waits ↦ rw waits tt
    | inl done ↦ rw done (record {
      short = v.short;
      at_most = ground (arith, rw e at v.at_most);
      at_least = omega arith;
      waited_input = λ j. done;
      waited_receive = λ j. absurd (ground arith);
      cleaned = rw e at v.cleaned;
      running = λ r. rw e at v.running r;
    })
  ]
  main_step-IsOrderly joining_receive e = elim (Bool-cases (receive_ended p.receive_at)) [
    | inr waits ↦ rw waits tt
    | inl done ↦ rw done (record {
      short = v.short;
      at_most = ground (arith, rw e at v.at_most);
      at_least = omega arith;
      waited_input = λ j. v.waited_input (rw e refl);
      waited_receive = λ j. done;
      cleaned = rw e at v.cleaned;
      running = λ r. rw e at v.running r;
    })
  ]
  main_step-IsOrderly closing e =
      let counted = one_closing p.calls in
      record {
        short = v.short;
        at_most = omega (arith, counted, rw e at v.at_most);
        at_least = omega (arith, counted);
        waited_input = λ j. v.waited_input (rw e refl);
        waited_receive = λ j. v.waited_receive (rw e refl);
        cleaned = no_cleanup p.calls ∙ rw e at v.cleaned;
        running = λ r.
            let before = rw e at v.running r in
            (omega (arith, counted, before.0), before.1, before.2);
      }
  main_step-IsOrderly cleaning_up e =
      let counted = rw e at v.at_least in
      record {
        short = v.short;
        at_most = ground (arith, rw e at v.at_most, cleaned_up p.calls);
        at_least = omega (arith, counted, (cleaned_up p.calls).0);
        waited_input = λ j. v.waited_input (rw e refl);
        waited_receive = λ j. v.waited_receive (rw e refl);
        cleaned = (cleaned_up p.calls).1 ∙ ap (λ n. n + 1) (rw e at v.cleaned);
        running = λ r.
            let before = rw e at v.running r in
            (omega (arith, (cleaned_up p.calls).0, before.0), before.1, before.2);
      }
  main_step-IsOrderly returned e = tt
  main_step-IsOrderly gone e = tt

thread_step-IsOrderly :
    (m : Move) (p : Process) → IsOrderly p → IsGiven m → OnSome IsOrderly (thread_step m p)
unfolding thread_step
thread_step-IsOrderly (input line ok) p v given =
    input_step-IsOrderly p v p.input_at line ok refl given
thread_step-IsOrderly (receive chunk) p v given = receive_step-IsOrderly p v p.receive_at chunk refl
thread_step-IsOrderly main_thread p v given = main_step-IsOrderly p v p.main_at refl

step-IsOrderly : (m : Move) (p : Process) → IsOrderly p → IsGiven m → OnSome IsOrderly (step m p)
unfolding step
step-IsOrderly m p v given = elim (Bool-cases (is_over p.main_at)) [
  | inl over ↦ rw over tt
  | inr live ↦ rw live (thread_step-IsOrderly m p v given)
]

-- The states that steps lead to from the creation of the threads.
pub data Reached : Process → Type 0 where
  created : Reached threads_created
  stepped : {p q : Process} (m : Move) → Reached p → IsGiven m → step m p ≡ some q → Reached q

threads_created-IsOrderly : IsOrderly threads_created
unfolding closings cleanups
threads_created-IsOrderly = record {
  short = tt;
  at_most = omega arith;
  at_least = omega arith;
  waited_input = λ j. absurd (ground arith);
  waited_receive = λ j. absurd (ground arith);
  cleaned = refl;
  running = λ r. (omega arith, refl, refl);
}

-- In every state that the threads of the client reach from their creation, in any order of their
-- steps, for lines of at most 127 bytes: the socket has been closed at most once by each thread
-- that has ended and once by main, and by main after both have ended; while is_running is true no
-- other thread has closed it; and the windows have been cleaned up exactly if main has returned.
pub Reached-IsOrderly : {p : Process} → Reached p → IsOrderly p
Reached-IsOrderly created = threads_created-IsOrderly
Reached-IsOrderly (stepped {p} {q} m before given e) =
    OnSome-result IsOrderly (step-IsOrderly m p (Reached-IsOrderly before) given) e
