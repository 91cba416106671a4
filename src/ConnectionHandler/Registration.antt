-- ===== src/ConnectionHandler/Registration.antt =====
-- `register_new_client` and `allocate_client_slot`: what becomes of a client that the main thread
-- has handed over.
use chat_application.Prelude.{
  ℕ, ◌<◌, ◌≡◌, refl, ap, sym, Bool, true, false, Option, none, some, [], ◌∷◌, arith, list_laws,
}
use chat_application.Prelude.Memory.{IsFirst, first_from, first_from_lem}
use chat_application.Config.{
  Client, World, send, close, epoll_add, sem_post, slot, emit, is_state, in_chat_room, set_client,
  zeroed_client, max_clients_per_thread, cmd_welcome_request,
}
use chat_application.Membership.{IsConsistent, IsConsistent-client, place_of-outside}
use chat_application.Send.{packet}
use chat_application.Send.Packet.{send_message_to_client-fits}
use chat_application.ConnectionHandler.{
  one_client_less, slot_is_free, allocate_client_slot, register_new_client,
}
use chat_application.ConnectionHandler.Texts.{welcome, length-welcome}

abbrev pub fresh_client : ℕ → Client
fresh_client fd = record zeroed_client { in_use = true; client_fd = fd }

abbrev IsTaken : ℕ → World → ℕ → Type 0
IsTaken t w i = slot_is_free t w i ≡ false

-- How a notification may end: the eventfd could not be read; the descriptor could not be watched;
-- all slots are taken; or the client is in the first free slot and is asked for its name. In the
-- first three the worker counts one client less, and a descriptor that was read is closed.
pub data Registers (t : ℕ) (w : World) : Option ℕ → Bool → World → Type 0 where
  unread :
      {can_add : Bool} → Registers t w none can_add (emit (sem_post t ∷ []) (one_client_less t w))
  not_watched :
      {fd : ℕ}
      → Registers t w
          (some fd)
          false
          (emit (sem_post t ∷ epoll_add t fd ∷ close fd ∷ []) (one_client_less t w))
  no_slot :
      {fd : ℕ}
      → ((i : ℕ) → i < max_clients_per_thread → IsTaken t w i)
      → Registers t w
          (some fd)
          true
          (emit (sem_post t ∷ epoll_add t fd ∷ close fd ∷ []) (one_client_less t w))
  registered :
      {fd : ℕ} (i : ℕ)
      → i < max_clients_per_thread
      → slot_is_free t w i ≡ true
      → ((j : ℕ) → j < i → IsTaken t w j)
      → Registers t w (some fd) true (
          emit
            (sem_post t ∷ epoll_add t fd ∷ send fd (packet cmd_welcome_request welcome) ∷ [])
            (set_client (slot t i) (fresh_client fd) w))

-- Where `allocate_client_slot` ends, by the outcome of its search.
allocation : ℕ → ℕ → World → Option ℕ → Bool × World
allocation t fd w none = (false, emit (close fd ∷ []) (one_client_less t w))
allocation t fd w (some i) = (true, set_client (slot t i) (fresh_client fd) w)

allocate_client_slot-allocation :
    (t fd : ℕ) (w : World) (o : Option ℕ)
    → first_from (slot_is_free t w) max_clients_per_thread 0 ≡ o
    → allocate_client_slot t fd w ≡ allocation t fd w o
unfolding allocate_client_slot allocation
allocate_client_slot-allocation t fd w none e = rw (allocate_client_slot, e)
allocate_client_slot-allocation t fd w (some i) e = rw (allocate_client_slot, e)

module _ (t : ℕ) (w : World) where
  allocated :
      (fd : ℕ) (o : Option ℕ)
      → IsFirst (slot_is_free t w) max_clients_per_thread 0 o
      → first_from (slot_is_free t w) max_clients_per_thread 0 ≡ o
      → (w' : World) × (register_new_client t (some fd) true w ≡ some w')
        × Registers t w (some fd) true w'
  unfolding register_new_client allocation
  allocated fd none first e =
      rw
        (
          register_new_client,
          allocate_client_slot-allocation t fd
              (emit (epoll_add t fd ∷ []) (emit (sem_post t ∷ []) w)) none e,
        )
        (
          _,
          ap (λ tr. some (record (one_client_less t w) { trace = tr })) (simp list_laws),
          no_slot (λ i h. first i (omega arith) h),
        )
  allocated fd (some i) (p, q, free, before) e =
      rw
        (
          register_new_client,
          allocate_client_slot-allocation t fd
              (emit (epoll_add t fd ∷ []) (emit (sem_post t ∷ []) w)) (some i) e,
          send_message_to_client-fits fd cmd_welcome_request welcome _
              (omega (arith, length-welcome)),
        )
        (
          _,
          ap (λ tr. some (record (set_client (slot t i) (fresh_client fd) w) { trace = tr }))
              (simp list_laws),
          registered i q free (λ j h. before j (omega arith) h),
        )

  -- Every notification ends in one of four ways, by the answers of read and epoll_ctl and the
  -- slots in use: in the first free slot and asked for a name, or with the count of the worker
  -- restored and a descriptor that was read closed.
  pub register_new_client-Registers :
      (read_value : Option ℕ) (can_add : Bool)
      → (w' : World) × (register_new_client t read_value can_add w ≡ some w')
        × Registers t w read_value can_add w'
  unfolding register_new_client
  register_new_client-Registers none can_add = (_, refl, unread)
  register_new_client-Registers (some fd) false = (
    _,
    ap (λ tr. some (record (one_client_less t w) { trace = tr })) (simp list_laws),
    not_watched,
  )
  register_new_client-Registers (some fd) true =
      allocated fd _ (first_from_lem (slot_is_free t w) max_clients_per_thread 0) refl

-- If the worker's free slots hold no client that is in a room, rooms and clients still agree after a
-- notification.
pub Registers-IsConsistent :
    {t : ℕ} {w w' : World} {read_value : Option ℕ} {can_add : Bool}
    → IsConsistent w.rooms w.clients
    → ((i : ℕ)
        → slot_is_free t w i ≡ true
        → is_state (w.clients (slot t i)).state in_chat_room ≡ false)
    → Registers t w read_value can_add w'
    → IsConsistent w'.rooms w'.clients
Registers-IsConsistent v idle unread = v
Registers-IsConsistent v idle not_watched = v
Registers-IsConsistent v idle (no_slot taken) = v
Registers-IsConsistent {t} {w} v idle (registered {fd} i h free before) =
    IsConsistent-client v (slot t i) (fresh_client fd)
      (λ r _. sym (place_of-outside (w.clients (slot t i)) r (idle i free)))
      (λ e. absurd (ground arith)) (omega arith)

-- If rooms and clients agree and the free slots of the worker hold no client that is in a room,
-- register_new_client completes and rooms and clients agree afterwards.
pub register_new_client-IsConsistent :
    (t : ℕ) (w : World) (read_value : Option ℕ) (can_add : Bool)
    → IsConsistent w.rooms w.clients
    → ((i : ℕ)
        → slot_is_free t w i ≡ true
        → is_state (w.clients (slot t i)).state in_chat_room ≡ false)
    → (w' : World) × (register_new_client t read_value can_add w ≡ some w')
      × IsConsistent w'.rooms w'.clients
register_new_client-IsConsistent t w read_value can_add v idle =
    let (w', done, outcome) = register_new_client-Registers t w read_value can_add in
    (w', done, Registers-IsConsistent v idle outcome)
