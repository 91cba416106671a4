-- ===== src/Server/Reach/Rounds.antt =====
-- The loop of a worker, over whole event queues.
use chat_application.Prelude.{ℕ, ◌<◌, ◌≡◌, refl, Option, none, some, List, [], ◌∷◌, ◌++◌}
use chat_application.Config.{World, max_threads}
use chat_application.ConnectionHandler.{
  EpollEvent, process_epoll_event, process_epoll_events, process_client_connections,
}
use chat_application.Server.Sound.Events.{Admissible}
use chat_application.Server.Reach.{Reach, Reach-Continues}

-- Each entry of the queue is admissible in the state in which it is met.
pub data AdmissibleQueue (t : ℕ) : List EpollEvent → World → Type 0 where
  served_all : {w : World} → AdmissibleQueue t [] w
  entry :
      {event : EpollEvent} {event_queue : List EpollEvent} {w : World}
      → Admissible t event w
      → ((w' : World) → process_epoll_event t event w ≡ some w' → AdmissibleQueue t event_queue w')
      → AdmissibleQueue t (event ∷ event_queue) w

-- So is each entry of each queue that `epoll_wait` returns.
pub data AdmissibleRounds (t : ℕ) : List (Option (List EpollEvent)) → World → Type 0 where
  no_round : {w : World} → AdmissibleRounds t [] w
  failing :
      {rounds : List (Option (List EpollEvent))} {w : World}
      → AdmissibleRounds t rounds w
      → AdmissibleRounds t (none ∷ rounds) w
  ready :
      {event_queue : List EpollEvent} {rounds : List (Option (List EpollEvent))} {w : World}
      → AdmissibleQueue t event_queue w
      → ((w' : World)
          → process_epoll_events t event_queue w ≡ some w'
          → AdmissibleRounds t rounds w')
      → AdmissibleRounds t (some event_queue ∷ rounds) w

-- The entries are dealt with one after the other, each in the state that the one before it leaves.
pub data Served (t : ℕ) : List EpollEvent → World → World → Type 0 where
  none_left : {w : World} → Served t [] w w
  one_served :
      {event : EpollEvent} {events : List EpollEvent} {w w₁ w₂ : World}
      → process_epoll_event t event w ≡ some w₁
      → Served t events w₁ w₂
      → Served t (event ∷ events) w w₂

Served-append :
    {t : ℕ} {events more : List EpollEvent} {w w₁ w₂ : World}
    → Served t events w w₁
    → Served t more w₁ w₂
    → Served t (events ++ more) w w₂
Served-append none_left later = later
Served-append (one_served e first) later = one_served e (Served-append first later)

-- The entries of all the rounds; an `epoll_wait` that fails has none.
abbrev pub entries : List (Option (List EpollEvent)) → List EpollEvent
entries [] = []
entries (none ∷ rounds) = entries rounds
entries (some event_queue ∷ rounds) = event_queue ++ entries rounds

-- The loop completes, every entry has been dealt with in order, and the state can be reached.
abbrev pub ServesAll : (ℕ → ℕ) → ℕ → List EpollEvent → World → Option World → Type 0
ServesAll eventfds t events w o =
    (w' : World) × (o ≡ some w') × Served t events w w' × Reach eventfds w'

process_epoll_events-ServesAll :
    {eventfds : ℕ → ℕ} (t : ℕ) (event_queue : List EpollEvent) {w : World}
    → Reach eventfds w
    → t < max_threads
    → AdmissibleQueue t event_queue w
    → ServesAll eventfds t event_queue w (process_epoll_events t event_queue w)
unfolding process_epoll_events
process_epoll_events-ServesAll t [] {w} before p served_all = (w, refl, none_left, before)
process_epoll_events-ServesAll t (event ∷ event_queue) before p (entry fits later) =
    let (w₁, done₁, before₁) = (Reach-Continues before).1 t event p fits in
    let (w₂, done₂, served₂, before₂) =
      process_epoll_events-ServesAll t event_queue before₁ p (later w₁ done₁) in
    (w₂, rw done₁ done₂, one_served done₁ served₂, before₂)

-- From every state that the server can reach, any number of rounds of the loop of a worker
-- completes without a write past a buffer, if each entry of each queue that epoll_wait returns is
-- admissible in the state in which it is met; and then every entry of every queue has been dealt
-- with by process_epoll_event, one after the other in order, a failing epoll_wait giving none, and
-- the state can be reached.
pub process_client_connections-ServesAll :
    {eventfds : ℕ → ℕ} (t : ℕ) (rounds : List (Option (List EpollEvent))) {w : World}
    → Reach eventfds w
    → t < max_threads
    → AdmissibleRounds t rounds w
    → ServesAll eventfds t (entries rounds) w (process_client_connections t rounds w)
unfolding process_client_connections
process_client_connections-ServesAll t [] {w} before p no_round = (w, refl, none_left, before)
process_client_connections-ServesAll t (none ∷ rounds) before p (failing later) =
    process_client_connections-ServesAll t rounds before p later
process_client_connections-ServesAll t (some event_queue ∷ rounds) before p (ready fits later) =
    let (w₁, done₁, served₁, before₁) =
      process_epoll_events-ServesAll t event_queue before p fits in
    let (w₂, done₂, served₂, before₂) =
      process_client_connections-ServesAll t rounds before₁ p (later w₁ done₁) in
    (w₂, rw done₁ done₂, Served-append served₁ served₂, before₂)
