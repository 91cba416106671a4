-- ===== src/ClientDistributor/Selection.antt =====
-- `find_worker_not_at_capacity`: which worker the search of server/client_distributor.c selects.
use chat_application.Prelude.{
  ℕ, zero, suc, ◌+◌, ◌-◌, ◌%◌, ◌≤◌, ◌<◌, ◌≡◌, refl, sym, ap, true, false, Option, none, some, inl,
  inr, arith, Bool-cases,
}
use chat_application.Prelude.Int.{ℤ, incr, at_least}
use chat_application.Config.{World, set_count, max_threads, max_clients_per_thread}
use chat_application.ClientDistributor.{
  next_worker, search_worker, select_worker, find_worker_not_at_capacity,
}

-- The worker that is `k` places places_on worker `i`, round the four.
abbrev pub places_on : ℕ → ℕ → ℕ
places_on i k = (i + k) % max_threads

abbrev pub IsFull : (ℕ → ℤ) → ℕ → Type 0
IsFull counts t = at_least (counts t) max_clients_per_thread ≡ true

abbrev pub HasCapacity : (ℕ → ℤ) → ℕ → Type 0
HasCapacity counts t = at_least (counts t) max_clients_per_thread ≡ false

-- The search from worker `i` on for `n + 1` tests.
abbrev Found : ℕ → (ℕ → ℤ) → ℕ → Option ℕ × ℕ → Type 0
Found n counts i (none, stop) =
    ((k : ℕ) → k ≤ n → IsFull counts (places_on i k)) × (stop ≡ places_on i (n + 1))
Found n counts i (some t, stop) =
    (k : ℕ) × (k ≤ n)
    × (t ≡ places_on i k)
    × (stop ≡ t)
    × HasCapacity counts t
    × ((j : ℕ) → j < k → IsFull counts (places_on i j))

places_on-next : (i k : ℕ) → places_on (next_worker i) k ≡ places_on i (suc k)
places_on-next i k = omega arith

places_on-zero : (i : ℕ) → i < max_threads → places_on i 0 ≡ i
places_on-zero i h = omega arith

IsFull-step :
    (counts : ℕ → ℤ) (i n : ℕ)
    → i < max_threads
    → IsFull counts i
    → ((k : ℕ) → k < n → IsFull counts (places_on (next_worker i) k))
    → (k : ℕ) → k < n + 1
    → IsFull counts (places_on i k)
IsFull-step counts i n p full rest zero h = rw (places_on-zero i p) full
IsFull-step counts i n p full rest (suc k) h = rw (sym (places_on-next i k)) (rest k (omega arith))

Found-step :
    (n : ℕ) (counts : ℕ → ℤ) (i : ℕ) (r : Option ℕ × ℕ)
    → i < max_threads
    → IsFull counts i
    → Found n counts (next_worker i) r
    → Found (suc n) counts i r
Found-step n counts i (none, stop) p full (all_full, at) = (
  λ k h. IsFull-step counts i (n + 1) p full (λ j q. all_full j (omega arith)) k (omega arith),
  omega arith,
)
Found-step n counts i (some t, stop) p full (k, h, at, stops, free, before) =
    (k + 1, omega arith, omega arith, stops, free, IsFull-step counts i k p full before)

search_worker-Found :
    (n : ℕ) (counts : ℕ → ℤ) (i : ℕ) → i < max_threads → Found n counts i (search_worker n counts i)
unfolding search_worker
search_worker-Found zero counts i p =
    elim (Bool-cases (at_least (counts i) max_clients_per_thread)) [
      | inl full ↦
          rw full (
            λ k h. IsFull-step counts i 0 p full (λ j q. absurd (omega arith)) k (omega arith),
            refl,
          )
      | inr free ↦ rw free (0, omega arith, omega arith, refl, free, λ j q. absurd (omega arith))
    ]
search_worker-Found (suc n) counts i p =
    elim (Bool-cases (at_least (counts i) max_clients_per_thread)) [
      | inl full ↦ rw full (
          Found-step n counts i _ p full
            (search_worker-Found n counts (next_worker i) (omega arith)))
      | inr free ↦ rw free (0, omega arith, omega arith, refl, free, λ j q. absurd (omega arith))
    ]

-- What the caller gets. Without a worker, all four are full and no count changes; else the worker is
-- the first one with capacity, from the static index on, it alone counts one client more, and the
-- next search begins places_on it.
abbrev pub Selects : World → Option ℕ × World → Type 0
Selects w (none, w') =
    ((t : ℕ) → t < max_threads → IsFull w.num_of_clients t)
    × (w' ≡ record w { worker_index = next_worker w.worker_index })
Selects w (some t, w') =
    (t < max_threads)
    × HasCapacity w.num_of_clients t
    × ((k : ℕ) × (t ≡ places_on w.worker_index k)
        × ((j : ℕ) → j < k → IsFull w.num_of_clients (places_on w.worker_index j)))
    × (w' ≡ record (set_count t (incr (w.num_of_clients t)) w) { worker_index = next_worker t })

-- Every worker is within four places.
place-places_on : (i t : ℕ) → t < max_threads → (k : ℕ) × (k < 4) × (t ≡ places_on i k)
place-places_on i t p = ((t + 4 - i % 4) % 4, omega arith, omega arith)

Selects-Found :
    (w : World) (r : Option ℕ × ℕ)
    → Found max_threads w.num_of_clients w.worker_index r
    → Selects w (select_worker r w)
Selects-Found w (none, stop) (full, at) = (
  λ t p. let (k, q, e) = place-places_on w.worker_index t p in rw e (full k (omega arith)),
  rw at (ap (λ i. record w { worker_index = i }) (omega arith)),
)
Selects-Found w (some t, stop) (k, h, at, stops, free, before) =
    (omega arith, free, (k, at, before), rw stops refl)

-- For a static index below four, the search selects the first worker with capacity from that index
-- on, round the four, and counts the client there; it selects none only if all four are full.
pub find_worker_not_at_capacity-Selects :
    (w : World) → w.worker_index < max_threads → Selects w (find_worker_not_at_capacity w)
unfolding find_worker_not_at_capacity
find_worker_not_at_capacity-Selects w p =
    Selects-Found w _ (search_worker-Found max_threads w.num_of_clients w.worker_index p)
