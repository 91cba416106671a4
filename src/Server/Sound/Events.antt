-- ===== src/Server/Sound/Events.antt =====
-- One entry of the event queue, in a sound state.
use chat_application.Prelude.{
  ℕ, ◌+◌, ◌≤◌, ◌<◌, ◌≡◌, refl, ap, sym, ◌∙◌, ◌≢◌, true, false, Option, none, some, arith, ◌==◌,
  ==_refl, if◌then◌else◌, Bool-cases, inl, inr, length,
}
use chat_application.Prelude.Memory.{first_from_lem, IsFirst}
use chat_application.CString.{Bytes, c_string}
use chat_application.Config.{ClientRef, World, slot, current_msg_size, max_clients_per_thread}
use chat_application.RoomManager.Listing.Bound.{used_rooms}
use chat_application.ClientStateManager.{
  RecvResult, handle_client_disconnection, received, nothing, read_and_process_client_message,
}
use chat_application.ClientStateManager.Framing.{frames}
use chat_application.ConnectionHandler.{
  EpollEvent, address, has_fd, find_client_by_fd, process_epoll_event,
}
use chat_application.Server.Sound.{IsSound}
use chat_application.Server.Sound.Registering.{OnTheWay, register_new_client-IsSound}
use chat_application.Server.Sound.Serving.{handle_client_disconnection-IsSound}
use chat_application.Server.Sound.Messages.{ExitsLast, read_and_process_client_message-IsSound}

-- What a client sends fits behind the text kept of it, and the rooms in use stay few.
pub record FitsIn (bytes : Bytes) (c : ClientRef) (w : World) : Type 0 where
  pub last :
      ExitsLast (w.clients c).current_msg (frames (c_string bytes)).0 (frames (c_string bytes)).1
  pub short : length (w.clients c).current_msg + length bytes < current_msg_size
  pub few : used_rooms w.rooms + length (frames (c_string bytes)).0 ≤ 42

-- The entries that a worker may meet: the eventfd, when a client has been handed over; and another
-- descriptor, not that of the standard input, where what is received fits.
pub data Admissible (t : ℕ) (event : EpollEvent) (w : World) : Type 0 where
  notified : event.fd ≡ w.notification_fd t → OnTheWay t w → Admissible t event w
  active :
      event.fd ≢ w.notification_fd t
      → event.fd ≢ 0
      → ((bytes : Bytes) (c : ClientRef)
          → event.recv ≡ received bytes
          → (w.clients c).client_fd ≡ event.fd
          → FitsIn bytes c w)
      → Admissible t event w

-- A client that is found sits in a slot of the worker.
data Finds (t fd : ℕ) (w : World) : Option ClientRef → Type 0 where
  nobody : Finds t fd w none
  somebody :
      (i : ℕ)
      → i < max_clients_per_thread
      → (w.clients (slot t i)).client_fd ≡ fd
      → Finds t fd w (some (slot t i))

find_client_by_fd-Finds : (t fd : ℕ) (w : World) → Finds t fd w (find_client_by_fd t fd w)
unfolding find_client_by_fd
find_client_by_fd-Finds t fd w = found _ (first_from_lem (has_fd t w fd) max_clients_per_thread 0)
  where
    found :
        (o : Option ℕ)
        → IsFirst (has_fd t w fd) max_clients_per_thread 0 o
        → Finds t fd w (address t o)
    found none h = nobody
    found (some i) h = somebody i (omega (arith, h.0)) (ground (arith, h.2))

-- A slot that is free has descriptor 0.
busy_slot :
    (c : ClientRef) (w : World)
    → IsSound w
    → (w.clients c).client_fd ≢ 0
    → (w.clients c).in_use ≡ true
busy_slot c w v some_fd = elim (Bool-cases (w.clients c).in_use) [
  | inl busy ↦ busy
  | inr free ↦ absurd (some_fd (ap (λ d. d.client_fd) (v.idle c free)))
]

module _ (t : ℕ) (event : EpollEvent) (w : World) (v : IsSound w) where
  abbrev Ends : Option World → Type 0
  Ends o = (w' : World) × (o ≡ some w') × IsSound w'

  read :
      (recv : RecvResult) (i : ℕ)
      → i < max_clients_per_thread
      → (w.clients (slot t i)).in_use ≡ true
      → ((bytes : Bytes) → recv ≡ received bytes → FitsIn bytes (slot t i) w)
      → Ends (read_and_process_client_message t (slot t i) recv w)
  unfolding read_and_process_client_message
  read (nothing true) i p busy fits = (w, refl, v)
  read (nothing false) i p busy fits =
      let (w', done, v', freed) = handle_client_disconnection-IsSound t i w v p busy in
      (w', done, v')
  read (received bytes) i p busy fits =
      let fit = fits bytes refl in
      read_and_process_client_message-IsSound t i p bytes w v busy fit.last fit.short fit.few

  -- In a sound state an admissible entry of the event queue is served, and leaves a sound state.
  pub process_epoll_event-IsSound : Admissible t event w → Ends (process_epoll_event t event w)
  unfolding process_epoll_event
  process_epoll_event-IsSound (notified e coming) =
      let (w', done, v', seated) =
        register_new_client-IsSound t event.read_value event.can_add w v coming in
      (w', rw (e, ==_refl (w.notification_fd t)) done, v')
  process_epoll_event-IsSound (active other some_fd fits) =
      let else_branch : (event.fd == w.notification_fd t) ≡ false = ground arith in
      rw else_branch
        (served (find_client_by_fd t event.fd w) (find_client_by_fd-Finds t event.fd w))
    where
      served :
          (o : Option ClientRef)
          → Finds t event.fd w o
          → Ends (elim o [
            | none ↦ some w
            | some user ↦
                if event.hang_up
                then handle_client_disconnection t user w
                else read_and_process_client_message t user event.recv w
          ])
      served none nobody = (w, refl, v)
      served (some c) (somebody i p own) =
          let busy = busy_slot (slot t i) w v (λ e. some_fd (sym own ∙ e)) in
          elim (Bool-cases event.hang_up) [
            | inl gone ↦
                let (w', done, v', freed) = handle_client_disconnection-IsSound t i w v p busy in
                (w', rw gone done, v')
            | inr there ↦
                rw there (read event.recv i p busy (λ bytes e. fits bytes (slot t i) e own))
          ]
