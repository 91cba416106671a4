-- ===== src/Tests/Running.antt =====
-- Applications of the theorems on the running server: its states, and the hand-over of clients.
use chat_application.Tests.{
  start, with_ann, submitting, submitting-IsConsistent, start-ListFits, two_and_more,
}
use chat_application.Prelude.{
  ℕ, zero, suc, ◌+◌, ◌<◌, ◌≡◌, refl, sym, subst, true, false, Option, none, some, [], ◌∷◌, arith,
}
use chat_application.Prelude.Int.{pos}
use chat_application.Prelude.Memory.{update}
use chat_application.Config.{World, awaiting_username, max_threads, sem_wait, notify}
use chat_application.Trace.{waits, posts}
use chat_application.ConnectionHandler.{
  EpollEvent, process_epoll_event, register_new_client, process_client_connections,
}
use chat_application.ClientDistributor.{
  distribute_client, find_worker_not_at_capacity, search_worker, hand_over,
}
use chat_application.ClientStateManager.{nothing, received, route_client_command}
use chat_application.Server.{Accepted, accept_connection, set_socket_keep_alive}
use chat_application.Server.Sound.{IsSound}
use chat_application.Server.Sound.Events.{Admissible, notified, active, FitsIn}
use chat_application.Server.Sound.Messages.{staying, partial}
use chat_application.Server.Sound.Registering.{IsSeated, OnTheWay, register_new_client-IsSound}
use chat_application.Server.Reach.{
  Reach, started, accepted, Continues, Reach-IsSound, Reach-Continues,
}
use chat_application.Server.Mailbox.{
  Kernel, Mailbox, accepting, posting, created, main_waits, main_writes, worker_reads, Calls,
  no_calls, then_call,
}
use chat_application.Server.Mailbox.HandOver.{
  IsPositive, IsInOrder, IsFree, Calls-IsInOrder, Calls-IsFree,
}
use chat_application.Server.Mailbox.Stuck.{IsNatural, IsStuck, hand_over_of_zero-IsStuck}
use chat_application.Membership.Bag.{Moves, members_of}
use chat_application.ClientStateManager.Moves.{route_client_command-Moves}
use chat_application.ClientStateManager.Handlers.{command}
use chat_application.ClientStateManager.Framing.{frames}
use chat_application.CString.{c_string}
use chat_application.RoomManager.Listing.Bound.{used_from}
use chat_application.Server.Reach.Rounds.{
  ServesAll, served_all, entry, no_round, failing, ready, process_client_connections-ServesAll,
}

abbrev round : Accepted
round = record {
  client_fd = some 9;
  keepalive = true;
  idle = true;
  interval = true;
  probes = true;
  can_write = true;
}

-- The client on descriptor 9 is on its way to worker 0.
abbrev on_the_way : World
on_the_way = record start {
  num_of_clients = update start.num_of_clients 0 (pos 1);
  worker_index = 1;
  trace = sem_wait 0 ∷ notify 0 9 ∷ [];
}

on_the_way-accepted : accept_connection round round.client_fd start ≡ some on_the_way
unfolding accept_connection set_socket_keep_alive distribute_client hand_over
    find_worker_not_at_capacity search_worker
on_the_way-accepted = refl

on_the_way-Reach : Reach (λ t. 100 + t) on_the_way
on_the_way-Reach = accepted round started on_the_way-accepted

Reach-IsSound_example : IsSound on_the_way
Reach-IsSound_example = Reach-IsSound on_the_way-Reach

-- Worker 0 is told of it.
abbrev told : EpollEvent
told = record {
  fd = 100;
  hang_up = false;
  read_value = some 9;
  can_add = true;
  recv = nothing true;
}

told-OnTheWay : OnTheWay 0 on_the_way
unfolding waits posts
told-OnTheWay = omega arith

told-Admissible : Admissible 0 told on_the_way
told-Admissible = notified refl told-OnTheWay

Reach-Continues_example :
    ((a : Accepted) → Continues (λ t. 100 + t) (accept_connection a a.client_fd on_the_way))
    × ((t : ℕ) (event : EpollEvent)
        → t < max_threads
        → Admissible t event on_the_way
        → Continues (λ t. 100 + t) (process_epoll_event t event on_the_way))
Reach-Continues_example = Reach-Continues on_the_way-Reach

register_new_client-IsSound_example :
    (w' : World) × (register_new_client 0 (some 9) true on_the_way ≡ some w')
    × IsSound w'
    × ((fd : ℕ) → some 9 ≡ some fd → true ≡ true → IsSeated 0 fd on_the_way w')
register_new_client-IsSound_example =
    register_new_client-IsSound 0 (some 9) true on_the_way Reach-IsSound_example told-OnTheWay

-- A client that sends its name and asks for the list, with room for both
abbrev speaking : EpollEvent
speaking = record {
  fd = 9;
  hang_up = false;
  read_value = none;
  can_add = true;
  recv = received two_and_more;
}

abbrev quiet_ann : World
quiet_ann = with_ann awaiting_username []

only_ann : (c : ℕ) → (quiet_ann.clients c).client_fd ≡ 9 → c ≡ 0
only_ann c h = ground arith

speaking-FitsIn : FitsIn two_and_more 0 quiet_ann
unfolding frames c_string used_from
speaking-FitsIn = record {
  last = staying (λ e. ground arith) (staying (λ e. ground arith) partial);
  short = omega arith;
  few = omega arith;
}

speaking-Admissible : Admissible 0 speaking quiet_ann
speaking-Admissible =
    active (λ e. ground arith) (λ e. ground arith)
      (λ bytes c e own.
        let same : two_and_more ≡ bytes = ground arith in
        subst (λ b. FitsIn b c quiet_ann) same
          (subst (λ d. FitsIn two_and_more d quiet_ann) (sym (only_ann c own)) speaking-FitsIn))

route_client_command-Moves_example :
    (w' : World) × (route_client_command 0 0 submitting ≡ some w')
    × Moves
        (command 0 submitting)
        0
        (λ r. members_of (submitting.rooms r))
        (λ r. members_of (w'.rooms r))
route_client_command-Moves_example =
    route_client_command-Moves 0 0 submitting submitting-IsConsistent start-ListFits

-- `read` and `sem_wait` on a number
abbrev take_counter : ℕ → Option (ℕ × ℕ)
take_counter zero = none
take_counter (suc n) = some (suc n, 0)

abbrev take_one : ℕ → Option ℕ
take_one zero = none
take_one (suc n) = some n

taken_counter : (e : ℕ) {n e' : ℕ} → take_counter e ≡ some (n, e') → (0 < n) × (n ≡ e) × (e' ≡ 0)
taken_counter zero h = absurd (ground arith)
taken_counter (suc k) h = ground arith

written : (n e : ℕ) {e' : ℕ} → some (e + n) ≡ some e' → e' ≡ e + n
written n e h = ground arith

ready_counter : (e : ℕ) → 0 < e → (n : ℕ) × (e' : ℕ) × (take_counter e ≡ some (n, e'))
ready_counter zero h = absurd (omega arith)
ready_counter (suc k) h = (suc k, 0, refl)

taken_one : (s : ℕ) {s' : ℕ} → take_one s ≡ some s' → s ≡ s' + 1
taken_one zero h = absurd (ground arith)
taken_one (suc k) h = ground arith

ready_one : (s : ℕ) → 0 < s → (s' : ℕ) × (take_one s ≡ some s')
ready_one zero h = absurd (omega arith)
ready_one (suc k) h = (k, refl)

-- A kernel: the counter and the value as numbers.
abbrev kernel : Kernel
kernel = record {
  EventFd = ℕ;
  Semaphore = ℕ;
  counter = λ e. e;
  value = λ s. s;
  eventfd = 0;
  sem_init = 1;
  write = λ n e. some (e + n);
  read = take_counter;
  sem_wait = take_one;
  sem_post = λ s. s + 1;
  counter-eventfd = refl;
  value-sem_init = refl;
  counter-write = λ h. written _ _ h;
  counter-read = λ h. taken_counter _ h;
  read-ready = λ e h. ready_counter e h;
  value-sem_wait = λ h. taken_one _ h;
  sem_wait-ready = λ s h. ready_one s h;
  value-sem_post = λ s. refl;
}

-- The main thread has written 9 and the worker has read it.
abbrev picked_up : Mailbox kernel
picked_up = record {
  notification_fd = 0;
  new_client = 0;
  main_thread = accepting;
  worker = posting 9;
  handed = 9 ∷ [];
  picked_up = 9 ∷ [];
}

picked_up-Calls : Calls kernel IsPositive (created kernel) picked_up
picked_up-Calls =
    then_call
      (then_call (then_call no_calls (main_waits 9 (omega arith) refl refl))
        (main_writes 9 refl refl))
      (worker_reads 9 refl refl)

Calls-IsInOrder_example : IsInOrder kernel picked_up
Calls-IsInOrder_example = Calls-IsInOrder kernel picked_up-Calls

Calls-IsFree_example :
    (m' : Mailbox kernel) × Calls kernel IsPositive picked_up m' × IsFree kernel m'
Calls-IsFree_example = Calls-IsFree kernel picked_up-Calls

hand_over_of_zero-IsStuck_example :
    (m : Mailbox kernel) × Calls kernel IsNatural (created kernel) m × IsStuck kernel m
hand_over_of_zero-IsStuck_example = hand_over_of_zero-IsStuck kernel refl

-- A worker whose first epoll_wait fails, and which then takes in the client.
process_client_connections-ServesAll_example :
    ServesAll
      (λ t. 100 + t)
      0
      (told ∷ [])
      on_the_way
      (process_client_connections 0 (none ∷ some (told ∷ []) ∷ []) on_the_way)
process_client_connections-ServesAll_example =
    process_client_connections-ServesAll 0 (none ∷ some (told ∷ []) ∷ []) on_the_way-Reach
      (omega arith) (failing (ready (entry told-Admissible (λ w e. served_all)) (λ w e. no_round)))
