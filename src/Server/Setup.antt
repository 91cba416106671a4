-- ===== src/Server/Setup.antt =====
-- server/main.c: the calls of the operating system from the beginning of `main` to the accept loop.
-- The process ends at the first that fails.
pub mod Performing
pub mod Starting
use chat_application.Prelude.{
  ℕ, zero, suc, ◌+◌, Bool, Option, none, some, List, [], ◌∷◌, ◌++◌, if◌then◌else◌,
}
use chat_application.Prelude.Memory.{update}
use chat_application.CString.{Bytes, codes}
use chat_application.Config.{World, max_rooms, max_threads}
use chat_application.Logger.{print_erro_n_exit}
use chat_application.Server.{setup_threads}

-- The mutex of a room; the four calls for a worker; the four of `setup_server`.
pub data SysCall : Type 0 where
  room_mutex_init : ℕ → SysCall
  eventfd sem_init num_of_clients_mutex_init pthread_create : ℕ → SysCall
  socket setsockopt bind listen : SysCall

-- A call, and what `print_erro_n_exit` is given where it fails.
abbrev pub Check : Type 0
Check = SysCall × Bytes

-- The loop of `init_server_rooms`, with `rounds` to go.
unfoldable pub init_rooms_from : ℕ → ℕ → List Check
init_rooms_from zero i = []
init_rooms_from (suc rounds) i =
    (room_mutex_init i, codes "Failed to initialize mutex for a server room in init_server_room")
    ∷ init_rooms_from rounds (i + 1)

-- The loop of `setup_threads`, with `rounds` to go.
unfoldable pub setup_threads_from : ℕ → ℕ → List Check
setup_threads_from zero t = []
setup_threads_from (suc rounds) t =
    (eventfd t, codes "Could not create event_fd in setup_threads")
    ∷ (sem_init t, codes "Could not initialize semaphore in setup_threads\n")
    ∷ (num_of_clients_mutex_init t, codes "Could not worker thread num of clients mutex")
    ∷ (pthread_create t, codes "Failed to create worker thread")
    ∷ setup_threads_from rounds (t + 1)

unfoldable pub setup_server : List Check
setup_server =
    (socket, codes "Socket creation failed")
    ∷ (setsockopt, codes "setsockopt failed")
    ∷ (bind, codes "Bind failed")
    ∷ (listen, codes "Listen call failed")
    ∷ []

unfoldable pub start_calls : List Check
unfolding init_rooms_from setup_threads_from setup_server
start_calls = (init_rooms_from max_rooms 0 ++ setup_threads_from max_threads 0) ++ setup_server

-- How `main` comes to its accept loop, or not: the calls that were made, and then the state and the
-- listening descriptor, or what is printed before the process exits.
pub data Started : Type 0 where
  listens : List Check → World → ℕ → Started
  exits : List Check → Bytes → Started

-- What a call that succeeds leaves in the state: the descriptor that `eventfd` returned for a worker.
-- The other calls make mutexes, semaphores, threads and the listening socket, which the state has not.
unfoldable pub effect : (ℕ → ℕ) → SysCall → World → World
effect eventfds (eventfd t) w = record w {
  notification_fd = update w.notification_fd t (eventfds t);
}
effect eventfds _ w = w

-- The calls one by one, for the descriptors that `eventfd` returns; `answer` is `errno` after a call
-- that fails, and nothing after one that succeeds.
unfoldable pub perform :
    (ℕ → Bytes) → (SysCall → Option ℕ) → (ℕ → ℕ) → List Check → List Check → World → ℕ → Started
perform strerror answer eventfds made [] w fd = listens made w fd
perform strerror answer eventfds made (c ∷ calls) w fd =
    let rest = perform strerror answer eventfds (made ++ c ∷ []) calls (effect eventfds c.0 w) fd in
    let stop = λ (errno : ℕ). exits (made ++ c ∷ []) (print_erro_n_exit strerror errno c.1) in
    elim (answer c.0) [ none ↦ rest | some errno ↦ stop errno ]

-- The rooms and the workers after both calls of `memset`.
abbrev pub zeroed : World
zeroed = setup_threads (λ t. 0)

-- `main` up to its loop, for the descriptors that `eventfd` and `socket` return. What a worker does
-- from its `pthread_create` on is a step of its own (`start_worker`).
unfoldable pub start : (ℕ → Bytes) → (SysCall → Option ℕ) → (ℕ → ℕ) → ℕ → Started
unfolding start_calls perform
start strerror answer eventfds server_fd =
    perform strerror answer eventfds [] start_calls zeroed server_fd
