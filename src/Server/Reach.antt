-- ===== src/Server/Reach.antt =====
-- The states that the server can be in: workers begin, the accept loop makes rounds, and the workers
-- meet entries of their event queues, in any order, from the state before the first connection.
pub mod Rounds
use chat_application.Prelude.{
  Bool, true, false, none, [], ◌∷◌, ℕ, ◌<◌, ◌≡◌, refl, subst, List, ◌++◌, Option, some, arith,
}
use chat_application.Config.{World, Event, emit, epoll_add, max_threads}
use chat_application.Trace.{waits, posts}
use chat_application.ConnectionHandler.{EpollEvent, process_epoll_event, start_worker}
use chat_application.Server.{setup_threads, Accepted, accept_connection}
use chat_application.Server.Counts.{used_slots-none}
use chat_application.Server.Start.{setup_threads-IsConsistent}
use chat_application.Server.Sound.{IsSound, quiet-calls}
use chat_application.Trace.Says.{IsQuiet}
use chat_application.Server.Sound.Accepting.{accept_connection-IsSound}
use chat_application.Server.Sound.Events.{Admissible, process_epoll_event-IsSound}

pub data Reach (eventfds : ℕ → ℕ) : World → Type 0 where
  started : Reach eventfds (setup_threads eventfds)
  began :
      {w w' : World} (t : ℕ) (created can_add : Bool)
      → Reach eventfds w
      → t < max_threads
      → start_worker t created can_add w ≡ some w'
      → Reach eventfds w'
  accepted :
      {w w' : World} (a : Accepted)
      → Reach eventfds w
      → accept_connection a a.client_fd w ≡ some w'
      → Reach eventfds w'
  served :
      {w w' : World} (t : ℕ) (event : EpollEvent)
      → Reach eventfds w
      → t < max_threads
      → Admissible t event w
      → process_epoll_event t event w ≡ some w'
      → Reach eventfds w'

setup_threads-IsSound : (eventfds : ℕ → ℕ) → IsSound (setup_threads eventfds)
unfolding waits posts
setup_threads-IsSound eventfds = record {
  consistent = setup_threads-IsConsistent eventfds;
  index = omega arith;
  idle = λ c free. refl;
  balanced = λ t. omega (arith, used_slots-none t (setup_threads eventfds).clients (λ c. refl));
}

-- Events that touch no semaphore.
IsSound-emit : (es : List Event) (w : World) → IsSound w → IsQuiet es → IsSound (emit es w)
IsSound-emit es w v quiet = record {
  consistent = v.consistent;
  index = v.index;
  idle = v.idle;
  balanced = λ t.
      let calls = quiet-calls t w.trace (w.trace ++ es) es quiet refl in
      rw (calls.0, calls.1) (v.balanced t);
}

start_worker-IsSound :
    (t : ℕ) (created can_add : Bool) (w : World) {w' : World}
    → start_worker t created can_add w ≡ some w'
    → IsSound w
    → IsSound w'
unfolding start_worker waits posts
start_worker-IsSound t false can_add w e v = absurd (ground arith)
start_worker-IsSound t true false w e v = absurd (ground arith)
start_worker-IsSound t true true w {w'} e v =
    let same : emit (epoll_add t (w.notification_fd t) ∷ []) w ≡ w' = cc e in
    subst IsSound same
      (IsSound-emit (epoll_add t (w.notification_fd t) ∷ []) w v (λ u. (refl, refl)))

-- The state after a step that is known to complete.
completed :
    {o : Option World} {w : World}
    → o ≡ some w
    → (w' : World) × (o ≡ some w') × IsSound w'
    → IsSound w
completed {w} e (w', done, v) = let same : w' ≡ w = cc (done, e) in subst IsSound same v

-- In every state that the server can reach from its start, by workers that begin, rounds of the
-- accept loop and admissible entries of the workers' event queues, in any order: rooms and clients
-- agree, the static index is below four, free slots are zeroed, and the count of each worker is
-- that of its slots in use and of the clients on the way to it, and at most 1500.
pub Reach-IsSound : {eventfds : ℕ → ℕ} {w : World} → Reach eventfds w → IsSound w
Reach-IsSound {eventfds} started = setup_threads-IsSound eventfds
Reach-IsSound (began {w = w} t created can_add before p e) =
    start_worker-IsSound t created can_add w e (Reach-IsSound before)
Reach-IsSound (accepted {w = w} a before e) =
    completed e (accept_connection-IsSound a w (Reach-IsSound before))
Reach-IsSound (served {w = w} t event before p fits e) =
    completed e (process_epoll_event-IsSound t event w (Reach-IsSound before) fits)

-- What a step does with its state: it completes, in a state that can be reached.
abbrev pub Continues : (ℕ → ℕ) → Option World → Type 0
Continues eventfds o = (w' : World) × (o ≡ some w') × Reach eventfds w'

-- In every state that the server can reach, every round of the accept loop, and every admissible
-- entry of the event queue of a worker, completes without a write past a buffer, in a state that
-- can be reached.
pub Reach-Continues :
    {eventfds : ℕ → ℕ} {w : World}
    → Reach eventfds w
    → ((a : Accepted) → Continues eventfds (accept_connection a a.client_fd w))
      × ((t : ℕ) (event : EpollEvent)
          → t < max_threads
          → Admissible t event w
          → Continues eventfds (process_epoll_event t event w))
Reach-Continues {w = w} before =
    let v = Reach-IsSound before in
    (
      λ a.
          let (w', done, v') = accept_connection-IsSound a w v in
          (w', done, accepted a before done),
      λ t event p fits.
          let (w', done, v') = process_epoll_event-IsSound t event w v fits in
          (w', done, served t event before p fits done),
    )
