-- ===== src/ClientDistributor/Handover.antt =====
-- `distribute_client`: what becomes of an accepted connection.
use chat_application.Prelude.{
  ℕ, ◌<◌, ◌≡◌, refl, ap, fun_ext, Bool, true, false, Option, none, some, List, [], ◌∷◌, inl, inr,
  arith, list_laws, ◌∙◌, ◌++◌, ◌==◌, ==_refl, Bool-cases,
}
use chat_application.Prelude.Int.{ℤ, incr, decr, decr-incr}
use chat_application.Prelude.Memory.{update}
use chat_application.Config.{
  World, Event, send, close, sem_wait, sem_post, notify, emit, set_count, max_threads,
  err_server_full, err_connecting,
}
use chat_application.Send.{packet}
use chat_application.Send.Packet.{send_message_to_client-fits}
use chat_application.ClientDistributor.{
  next_worker, handle_write_error, hand_over, distribute_client,
}
use chat_application.ClientDistributor.Selection.{
  IsFull, HasCapacity, Selects, find_worker_not_at_capacity-Selects,
}
use chat_application.ClientDistributor.Texts.{
  at_capacity, connection_error, length-at_capacity, length-connection_error,
}
use chat_application.CString.{Bytes}

-- The events that refuse a client, with an answer.
abbrev pub refusal : ℕ → ℕ → Bytes → List Event
refusal fd code text = send fd (packet code text) ∷ close fd ∷ []

-- How `distribute_client` ends: refused because all workers are full; refused because the worker
-- cannot be told; or handed to worker `t`, which counts it. Only the third changes a count.
pub data Distributes : ℕ → Bool → World → World → Type 0 where
  all_full :
      {fd : ℕ} {can_write : Bool} {w : World}
      → ((t : ℕ) → t < max_threads → IsFull w.num_of_clients t)
      → Distributes fd can_write w (
          emit
            (refusal fd err_server_full at_capacity)
            (record w { worker_index = next_worker w.worker_index }))
  not_told :
      {fd : ℕ} {w : World} {t : ℕ}
      → t < max_threads
      → HasCapacity w.num_of_clients t
      → Distributes fd false w (
          emit
            (sem_wait t ∷ sem_post t ∷ refusal fd err_connecting connection_error)
            (record w { worker_index = next_worker t }))
  handed :
      {fd : ℕ} {w : World} {t : ℕ}
      → t < max_threads
      → HasCapacity w.num_of_clients t
      → Distributes fd true w (
          emit
            (sem_wait t ∷ notify t fd ∷ [])
            (record (set_count t (incr (w.num_of_clients t)) w) { worker_index = next_worker t }))

-- Counting up and down again leaves the counts.
update-restores :
    (counts : ℕ → ℤ) (t : ℕ)
    → update (update counts t (incr (counts t))) t (decr (update counts t (incr (counts t)) t))
      ≡ counts
update-restores counts t = fun_ext λ u. elim (Bool-cases (t == u)) [
  | inl here ↦ let e : u ≡ t = ground arith in rw (e, ==_refl t) (decr-incr (counts t))
  | inr other ↦ rw other refl
]

handle_write_error-eq :
    (t fd : ℕ) (w : World)
    → handle_write_error t fd w
      ≡ some (
          set_count t
            (decr (w.num_of_clients t))
            (emit (sem_post t ∷ refusal fd err_connecting connection_error) w))
unfolding handle_write_error
handle_write_error-eq t fd w =
    rw
      (send_message_to_client-fits fd err_connecting connection_error (emit (sem_post t ∷ []) w)
        (omega (arith, length-connection_error)))
      (ap (λ tr. some (set_count t (decr (w.num_of_clients t)) (record w { trace = tr })))
        (simp list_laws))

hand_over-Distributes :
    (fd : ℕ) (can_write : Bool) (w : World) (r : Option ℕ × World)
    → Selects w r
    → (w' : World) × (hand_over fd can_write r ≡ some w') × Distributes fd can_write w w'
unfolding hand_over
hand_over-Distributes fd can_write w (none, w') (full, e) = (
  _,
  rw e (
      rw
        (send_message_to_client-fits fd err_server_full at_capacity _
          (omega (arith, length-at_capacity)))
        (ap (λ tr. some (record w { trace = tr; worker_index = next_worker w.worker_index }))
          (simp list_laws))),
  all_full full,
)
hand_over-Distributes fd true w (some t, w') (p, free, where_, e) = (
  _,
  rw e (
      ap
        (λ tr. some (record (set_count t (incr (w.num_of_clients t)) w) {
          trace = tr;
          worker_index = next_worker t;
        }))
        (simp list_laws)),
  handed p free,
)
hand_over-Distributes fd false w (some t, w') (p, free, where_, e) = (
  _,
  rw e (
      handle_write_error-eq t fd _
      ∙ ap
          (λ f. some (record (emit (sem_wait t ∷ []) w) {
            num_of_clients = f;
            worker_index = next_worker t;
            trace =
                (w.trace ++ (sem_wait t ∷ []))
                ++ (sem_post t ∷ refusal fd err_connecting connection_error);
          }))
          (update-restores w.num_of_clients t)
      ∙ ap (λ tr. some (record w { trace = tr; worker_index = next_worker t })) (simp list_laws)),
  not_told p free,
)

-- For a static index below four, distribute_client completes: with all workers full the client is
-- refused; where the eventfd cannot be written it is refused and the counts are restored; else it
-- is handed to a worker with capacity, which alone counts one client more.
pub distribute_client-Distributes :
    (fd : ℕ) (can_write : Bool) (w : World)
    → w.worker_index < max_threads
    → (w' : World) × (distribute_client fd can_write w ≡ some w') × Distributes fd can_write w w'
unfolding distribute_client
distribute_client-Distributes fd can_write w p =
    hand_over-Distributes fd can_write w _ (find_worker_not_at_capacity-Selects w p)
