-- ===== src/Server.antt =====
-- server/main.c: the state at the start, the accept loop, and the threads' steps in any order.
pub mod Start
pub mod Counts
pub mod Sound
pub mod Reach
pub mod Mailbox
pub mod Accept
pub mod Setup
use chat_application.Prelude.{
  ℕ, Bool, false, ◌&&◌, Option, none, some, List, [], ◌∷◌, if◌then◌else◌, ◌>>=◌,
}
use chat_application.Prelude.Int.{pos}
use chat_application.Config.{Room, World, no_clients, zeroed_client}
use chat_application.ConnectionHandler.{EpollEvent, process_epoll_events}
use chat_application.ClientDistributor.{distribute_client}

abbrev pub empty_room : Room
empty_room = record { clients = no_clients; room_name = []; num_clients = pos 0; in_use = false }

-- The zeroed rooms. (`print_erro_n_exit` ends the process if a mutex cannot be made.)
abbrev pub init_server_rooms : ℕ → Room
init_server_rooms i = empty_room

-- The state before the first connection, for the descriptors that `eventfd` returned.
abbrev pub setup_threads : (ℕ → ℕ) → World
setup_threads eventfds = record {
  rooms = init_server_rooms;
  clients = λ c. zeroed_client;
  num_of_clients = λ t. pos 0;
  notification_fd = eventfds;
  worker_index = 0;
  trace = [];
}

-- Whether the four `setsockopt` calls succeed: the function returns 0 if all do.
unfoldable pub set_socket_keep_alive : Bool → Bool → Bool → Bool → Bool
set_socket_keep_alive keepalive idle interval probes = keepalive && (idle && (interval && probes))

-- What the kernel answers in one round of the accept loop.
pub record Accepted : Type 0 where
  pub client_fd : Option ℕ
  pub keepalive : Bool
  pub idle : Bool
  pub interval : Bool
  pub probes : Bool
  pub can_write : Bool

unfoldable pub accept_connection : Accepted → Option ℕ → World → Option World
accept_connection a none w = some w
accept_connection a (some fd) w =
    if set_socket_keep_alive a.keepalive a.idle a.interval a.probes
    then distribute_client fd a.can_write w
    else some w

-- A round of the main thread, or a round of a worker's loop.
pub data Action : Type 0 where
  accepts : Accepted → Action
  serves : ℕ → List EpollEvent → Action

unfoldable pub step : Action → World → Option World
unfolding accept_connection
step (accepts a) w = accept_connection a a.client_fd w
step (serves t event_queue) w = process_epoll_events t event_queue w

unfoldable pub run : List Action → World → Option World
run [] w = some w
run (a ∷ later) w = do w' ← step a w; run later w'
