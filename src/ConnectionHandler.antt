-- ===== src/ConnectionHandler.antt =====
-- server/connection_handler.c: the event loop of a worker. What the kernel answers to the calls of
-- a round comes with the event.
pub mod Texts
pub mod Registration
pub mod Lookup
use chat_application.Prelude.{
  ℕ, Bool, true, false, not, Option, none, some, List, [], ◌∷◌, ◌==◌, if◌then◌else◌, ◌>>=◌,
}
use chat_application.Prelude.Int.{decr}
use chat_application.Prelude.Memory.{first_from}
use chat_application.Config.{
  ClientRef, World, close, epoll_add, sem_post, slot, emit, set_client, set_count, zeroed_client,
  max_clients_per_thread, cmd_welcome_request,
}
use chat_application.Send.{send_message_to_client}
use chat_application.ClientStateManager.{
  RecvResult, handle_client_disconnection, read_and_process_client_message,
}
use Texts.{welcome}

-- One entry of the event queue, with the answers to the calls that it may lead to: `hang_up` for
-- EPOLLRDHUP, EPOLLERR or EPOLLHUP; `read` of the eventfd (`none` is -1); whether `epoll_ctl`
-- adds the new descriptor; and `recv`.
pub record EpollEvent : Type 0 where
  pub fd : ℕ
  pub hang_up : Bool
  pub read_value : Option ℕ
  pub can_add : Bool
  pub recv : RecvResult

-- Descriptors are natural numbers here, so the test for negative ones always passes.
unfoldable pub register_with_epoll : ℕ → ℕ → Bool → World → Bool × World
register_with_epoll t fd can_add w = (can_add, emit (epoll_add t fd ∷ []) w)

-- `thread_data->num_of_clients--` under its lock
abbrev pub one_client_less : ℕ → World → World
one_client_less t w = set_count t (decr (w.num_of_clients t)) w

abbrev pub slot_is_free : ℕ → World → ℕ → Bool
slot_is_free t w i = not (w.clients (slot t i)).in_use

-- The flag says whether the client got a slot (0, or -1).
unfoldable pub allocate_client_slot : ℕ → ℕ → World → Bool × World
allocate_client_slot t fd w = elim (first_from (slot_is_free t w) max_clients_per_thread 0) [
  | none ↦ (false, emit (close fd ∷ []) (one_client_less t w))
  | some i ↦
      (true, set_client (slot t i) (record zeroed_client { in_use = true; client_fd = fd }) w)
]

unfoldable pub register_new_client : ℕ → Option ℕ → Bool → World → Option World
unfolding register_with_epoll
register_new_client t none can_add w = some (emit (sem_post t ∷ []) (one_client_less t w))
register_new_client t (some fd) can_add w =
    let (registered, w₁) = register_with_epoll t fd can_add (emit (sem_post t ∷ []) w) in
    if not registered
    then some (emit (close fd ∷ []) (one_client_less t w₁))
    else let (allocated, w₂) = allocate_client_slot t fd w₁ in
      if allocated then send_message_to_client fd cmd_welcome_request welcome w₂ else some w₂

abbrev pub has_fd : ℕ → World → ℕ → ℕ → Bool
has_fd t w fd i = (w.clients (slot t i)).client_fd == fd

abbrev pub address : ℕ → Option ℕ → Option ClientRef
address t none = none
address t (some i) = some (slot t i)

unfoldable pub find_client_by_fd : ℕ → ℕ → World → Option ClientRef
find_client_by_fd t fd w = address t (first_from (has_fd t w fd) max_clients_per_thread 0)

-- The body of the loop of `process_epoll_events`.
unfoldable pub process_epoll_event : ℕ → EpollEvent → World → Option World
process_epoll_event t event w =
    if event.fd == w.notification_fd t
    then register_new_client t event.read_value event.can_add w
    else elim (find_client_by_fd t event.fd w) [
      | none ↦ some w
      | some user ↦
          if event.hang_up
          then handle_client_disconnection t user w
          else read_and_process_client_message t user event.recv w
    ]

unfoldable pub process_epoll_events : ℕ → List EpollEvent → World → Option World
process_epoll_events t [] w = some w
process_epoll_events t (event ∷ event_queue) w = do
  w' ← process_epoll_event t event w
  process_epoll_events t event_queue w'

-- `process_client_connections` up to its loop; `none` is the end of the process, where no epoll
-- instance is created or the eventfd cannot be watched.
unfoldable pub start_worker : ℕ → Bool → Bool → World → Option World
unfolding register_with_epoll
start_worker t created can_add w =
    if not created
    then none
    else let (registered, w₁) = register_with_epoll t (w.notification_fd t) can_add w in
      if registered then some w₁ else none

-- The loop, on what `epoll_wait` answers: a queue of events, or -1 or 0, which are only logged.
unfoldable pub process_client_connections :
    ℕ → List (Option (List EpollEvent)) → World → Option World
process_client_connections t [] w = some w
process_client_connections t (none ∷ rounds) w = process_client_connections t rounds w
process_client_connections t (some event_queue ∷ rounds) w = do
  w' ← process_epoll_events t event_queue w
  process_client_connections t rounds w'
