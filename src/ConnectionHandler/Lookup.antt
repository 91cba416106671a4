-- ===== src/ConnectionHandler/Lookup.antt =====
-- `find_client_by_fd`: the client of a descriptor.
use chat_application.Prelude.{ℕ, ◌<◌, ◌≡◌, ap, Option, none, some, arith}
use chat_application.Prelude.Memory.{IsFirst, first_from, first_from_lem}
use chat_application.Config.{World, slot, max_clients_per_thread}
use chat_application.ConnectionHandler.{has_fd, address, find_client_by_fd}

-- If one slot of the worker, and no other, has the descriptor, find_client_by_fd finds that slot.
pub find_client_by_fd_unique :
    (t fd i : ℕ) (w : World)
    → i < max_clients_per_thread
    → (w.clients (slot t i)).client_fd ≡ fd
    → ((j : ℕ) → j < max_clients_per_thread → (w.clients (slot t j)).client_fd ≡ fd → j ≡ i)
    → find_client_by_fd t fd w ≡ some (slot t i)
unfolding find_client_by_fd
find_client_by_fd_unique t fd i w h own only =
    found (first_from (has_fd t w fd) max_clients_per_thread 0)
      (first_from_lem (has_fd t w fd) max_clients_per_thread 0)
  where
    found :
        (o : Option ℕ)
        → IsFirst (has_fd t w fd) max_clients_per_thread 0 o
        → address t o ≡ some (slot t i)
    found none none_has = absurd (ground (arith, none_has i (omega arith) h))
    found (some k) (p, q, hit, before) = ap (λ j. some (slot t j)) (only k q (ground arith))
