-- ===== src/Server/Accept.antt =====
-- The accept loop of server/main.c: what becomes of the connections.
use chat_application.Prelude.{
  ℕ, ◌<◌, ◌≡◌, refl, ◌∙◌, Bool, true, false, ◌&&◌, Option, none, some, List, [], ◌∷◌, map, arith,
  Bool-cases, inl, inr,
}
use chat_application.Config.{World, max_threads}
use chat_application.ClientDistributor.Handover.{
  Distributes, all_full, not_told, handed, distribute_client-Distributes,
}
use chat_application.Server.{Accepted, accept_connection, accepts, run, set_socket_keep_alive, step}

-- The four calls of `setsockopt` have succeeded.
abbrev pub IsKeptAlive : Accepted → Type 0
IsKeptAlive a = (a.keepalive ≡ true) × (a.idle ≡ true) × (a.interval ≡ true) × (a.probes ≡ true)

all_true :
    (a b c d : Bool)
    → (a && (b && (c && d))) ≡ true
    → (a ≡ true) × (b ≡ true) × (c ≡ true) × (d ≡ true)
all_true true true true true e = (refl, refl, refl, refl)
all_true true true true false e = absurd (ground arith)
all_true true true false d e = absurd (ground arith)
all_true true false c d e = absurd (ground arith)
all_true false b c d e = absurd (ground arith)

set_socket_keep_alive-IsKeptAlive :
    (a : Accepted)
    → set_socket_keep_alive a.keepalive a.idle a.interval a.probes ≡ true
    → IsKeptAlive a
unfolding set_socket_keep_alive
set_socket_keep_alive-IsKeptAlive a e = all_true a.keepalive a.idle a.interval a.probes e

set_socket_keep_alive-failing :
    (a : Accepted)
    → set_socket_keep_alive a.keepalive a.idle a.interval a.probes ≡ false
    → ¬ IsKeptAlive a
unfolding set_socket_keep_alive
set_socket_keep_alive-failing a e (f, g, h, i) =
    let on : set_socket_keep_alive a.keepalive a.idle a.interval a.probes ≡ true =
      rw (f, g, h, i) refl in
    ground (arith, e, on)

-- A round of the loop: no connection; one that is dropped, neither closed nor handed over; or one
-- that is distributed.
pub data Accepts (a : Accepted) (w : World) : World → Type 0 where
  no_connection : a.client_fd ≡ none → Accepts a w w
  dropped : (fd : ℕ) → a.client_fd ≡ some fd → ¬ IsKeptAlive a → Accepts a w w
  distributed :
      (fd : ℕ) {w' : World}
      → a.client_fd ≡ some fd
      → IsKeptAlive a
      → Distributes fd a.can_write w w'
      → Accepts a w w'

module _ (a : Accepted) (w : World) (p : w.worker_index < max_threads) where
  by_client :
      (o : Option ℕ)
      → a.client_fd ≡ o
      → (w' : World) × (accept_connection a o w ≡ some w') × Accepts a w w'
  unfolding accept_connection
  by_client none e = (w, refl, no_connection e)
  by_client (some fd) e =
      elim (Bool-cases (set_socket_keep_alive a.keepalive a.idle a.interval a.probes)) [
        | inl kept ↦
            let (w', done, outcome) = distribute_client-Distributes fd a.can_write w p in
            (w', rw kept done, distributed fd e (set_socket_keep_alive-IsKeptAlive a kept) outcome)
        | inr failing ↦ (w, rw failing refl, dropped fd e (set_socket_keep_alive-failing a failing))
      ]

  -- For a static index below four every round of the accept loop completes: there is no
  -- connection; there is one, not all of the four calls of setsockopt succeed, and it is dropped
  -- (neither closed nor handed over); or all four succeed, and it is distributed.
  pub accept_connection-Accepts :
      (w' : World) × (accept_connection a a.client_fd w ≡ some w') × Accepts a w w'
  accept_connection-Accepts = by_client a.client_fd refl

-- What the accept loop leaves alone.
pub record IsKept (w w' : World) : Type 0 where
  pub index : w'.worker_index < max_threads
  pub rooms : w'.rooms ≡ w.rooms
  pub clients : w'.clients ≡ w.clients

Distributes-IsKept :
    {fd : ℕ} {can_write : Bool} {w w' : World} → Distributes fd can_write w w' → IsKept w w'
Distributes-IsKept (all_full full) = record { index = omega arith; rooms = refl; clients = refl }
Distributes-IsKept (not_told p free) = record { index = omega arith; rooms = refl; clients = refl }
Distributes-IsKept (handed p free) = record { index = omega arith; rooms = refl; clients = refl }

Accepts-IsKept :
    {a : Accepted} {w w' : World} → w.worker_index < max_threads → Accepts a w w' → IsKept w w'
Accepts-IsKept p (no_connection e) = record { index = p; rooms = refl; clients = refl }
Accepts-IsKept p (dropped fd e f) = record { index = p; rooms = refl; clients = refl }
Accepts-IsKept p (distributed fd e f outcome) = Distributes-IsKept outcome

-- From a static index below four, any number of rounds of the accept loop completes; the index
-- stays below four, and no room and no client is changed.
pub run-IsKept :
    (rounds : List Accepted) (w : World)
    → w.worker_index < max_threads
    → (w' : World) × (run (map accepts rounds) w ≡ some w') × IsKept w w'
unfolding run step
run-IsKept [] w p = (w, refl, record { index = p; rooms = refl; clients = refl })
run-IsKept (a ∷ rounds) w p =
    let (w₁, done₁, outcome) = accept_connection-Accepts a w p in
    let kept = Accepts-IsKept p outcome in
    let (w₂, done₂, kept₂) = run-IsKept rounds w₁ kept.index in
    (
      w₂,
      rw done₁ done₂,
      record {
        index = kept₂.index;
        rooms = kept₂.rooms ∙ kept.rooms;
        clients = kept₂.clients ∙ kept.clients;
      },
    )
