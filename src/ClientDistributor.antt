-- ===== src/ClientDistributor.antt =====
-- server/client_distributor.c: the main thread hands an accepted client to a worker.
pub mod Texts
pub mod Selection
pub mod Handover
use chat_application.Prelude.{
  ℕ, zero, suc, ◌+◌, ◌%◌, Bool, not, Option, none, some, List, [], ◌∷◌, if◌then◌else◌, ◌>>=◌,
}
use chat_application.Prelude.Int.{ℤ, incr, decr, at_least}
use chat_application.Config.{
  World, close, sem_wait, sem_post, notify, emit, set_count, max_threads, max_clients_per_thread,
  err_server_full, err_connecting,
}
use chat_application.Send.{send_message_to_client}
use Texts.{at_capacity, connection_error}

abbrev pub next_worker : ℕ → ℕ
next_worker worker_index = (worker_index + 1) % max_threads

-- The loop of `find_worker_not_at_capacity`; the first argument is MAX_THREADS - num_attempts.
-- It returns the worker, if it found one, and the value of `worker_index` where it stopped.
unfoldable pub search_worker : ℕ → (ℕ → ℤ) → ℕ → Option ℕ × ℕ
search_worker zero counts i =
    if at_least (counts i) max_clients_per_thread then (none, next_worker i) else (some i, i)
search_worker (suc attempts) counts i =
    let rest = search_worker attempts counts (next_worker i) in
    if at_least (counts i) max_clients_per_thread then rest else (some i, i)

-- The selected worker counts one client more, and the next search begins behind it.
abbrev pub select_worker : Option ℕ × ℕ → World → Option ℕ × World
select_worker (none, i) w = (none, record w { worker_index = i })
select_worker (some t, i) w =
    (some t, record (set_count t (incr (w.num_of_clients t)) w) { worker_index = next_worker i })

unfoldable pub find_worker_not_at_capacity : World → Option ℕ × World
find_worker_not_at_capacity w =
    select_worker (search_worker max_threads w.num_of_clients w.worker_index) w

unfoldable pub handle_write_error : ℕ → ℕ → World → Option World
handle_write_error t fd w = do
  w' ← send_message_to_client fd err_connecting connection_error (emit (sem_post t ∷ []) w)
  some (set_count t (decr (w'.num_of_clients t)) (emit (close fd ∷ []) w'))

-- The outcome of the search, then the handing over. `can_write` is whether `write` to the eventfd
-- succeeds; a failing `sem_wait` is only logged.
unfoldable pub hand_over : ℕ → Bool → Option ℕ × World → Option World
hand_over fd can_write (none, w) = do
  w' ← send_message_to_client fd err_server_full at_capacity w
  some (emit (close fd ∷ []) w')
hand_over fd can_write (some t, w) =
    let waited = emit (sem_wait t ∷ []) w in
    if not can_write then handle_write_error t fd waited else some (emit (notify t fd ∷ []) waited)

unfoldable pub distribute_client : ℕ → Bool → World → Option World
unfolding hand_over
distribute_client fd can_write w = hand_over fd can_write (find_worker_not_at_capacity w)
