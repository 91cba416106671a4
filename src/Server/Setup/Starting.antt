-- ===== src/Server/Setup/Starting.antt =====
-- Whether the server comes to its accept loop, and in which state.
use chat_application.Prelude.{ℕ, ◌<◌, ◌≡◌, Option, none, some, List, [], ◌∷◌, ◌++◌}
use chat_application.Prelude.Memory.{update}
use chat_application.CString.{Bytes}
use chat_application.Config.{World}
use chat_application.Logger.{print_erro_n_exit}
use chat_application.Server.Reach.{Reach}
use chat_application.Server.Setup.Performing.{Succeed}
use chat_application.Server.Setup.{
  SysCall, room_mutex_init, eventfd, sem_init, num_of_clients_mutex_init, pthread_create, Check,
  start_calls, Started, listens, exits,
}

-- The mutex of each room is made; each worker has its eventfd, its semaphore, its mutex and its
-- thread; and the listening socket is made, set up, bound and listening.
pub record AllMade (answer : SysCall → Option ℕ) : Type 0 where
  room : (i : ℕ) → i < 50 → answer (room_mutex_init i) ≡ none
  has_eventfd : (t : ℕ) → t < 4 → answer (eventfd t) ≡ none
  has_semaphore : (t : ℕ) → t < 4 → answer (sem_init t) ≡ none
  has_mutex : (t : ℕ) → t < 4 → answer (num_of_clients_mutex_init t) ≡ none
  has_thread : (t : ℕ) → t < 4 → answer (pthread_create t) ≡ none
  socket : answer SysCall.socket ≡ none
  setsockopt : answer SysCall.setsockopt ≡ none
  bind : answer SysCall.bind ≡ none
  listen : answer SysCall.listen ≡ none

-- The descriptors that the workers get.
abbrev four : (ℕ → ℕ) → ℕ → ℕ
four f = update (update (update (update (λ t. 0) 0 (f 0)) 1 (f 1)) 2 (f 2)) 3 (f 3)

-- How `main` comes to its loop, or not.
pub data Starts (strerror : ℕ → Bytes) (answer : SysCall → Option ℕ) (eventfds : ℕ → ℕ) (fd : ℕ)
    : Started → Type 0 where
  ready :
      (made : List Check) (w : World)
      → AllMade answer
      → ((t : ℕ) → t < 4 → w.notification_fd t ≡ eventfds t)
      → Reach w.notification_fd w
      → Starts strerror answer eventfds fd (listens made w fd)
  stopped :
      (before after : List Check) (call : SysCall) (message : Bytes) (errno : ℕ)
      → ¬ AllMade answer
      → start_calls ≡ before ++ (call, message) ∷ after
      → Succeed answer before
      → answer call ≡ some errno
      → Starts strerror answer eventfds fd
          (exits (before ++ (call, message) ∷ []) (print_erro_n_exit strerror errno message))
