-- ===== src/Server/Sound/Registering.antt =====
-- A worker keeps the invariant when it takes in a client that is on the way to it, and has a free
-- slot for it.
use chat_application.Prelude.{
  ℕ, ◌<◌, ◌≡◌, refl, ap, ◌≢◌, Bool, true, false, Option, some, List, [], ◌∷◌, ◌++◌, arith, ◌==◌,
  ==_refl, Bool-cases, inl, inr,
}
use chat_application.Prelude.Int.{decr}
use chat_application.Prelude.Memory.{update}
use chat_application.Config.{
  ClientRef, Client, World, Event, close, send, epoll_add, sem_post, slot, is_state, in_chat_room,
  max_clients_per_thread, cmd_welcome_request,
}
use chat_application.Send.{packet}
use chat_application.Trace.{waits, posts}
use chat_application.Trace.Says.{waits-append, posts-append}
use chat_application.ConnectionHandler.{register_new_client, slot_is_free}
use chat_application.ConnectionHandler.Registration.{
  Registers, unread, not_watched, no_slot, registered, fresh_client, register_new_client-Registers,
  Registers-IsConsistent,
}
use chat_application.ConnectionHandler.Texts.{welcome}
use chat_application.Server.Counts.{
  used_slots, OneClient, used_slots-more, used_slots-other, used_slots-all,
}
use chat_application.Server.Sound.{
  IsSound, Balanced, Balanced-at, Balanced-dropped, Balanced-registered, Balanced-free,
}

-- `sem_wait` has been called for more clients than the worker has picked up.
abbrev pub OnTheWay : ℕ → World → Type 0
OnTheWay t w = posts t w.trace < waits t w.trace

-- The events of a notification: one call of `sem_post`.
record Posts (t : ℕ) (es : List Event) : Type 0 where
  own : posts t es ≡ 1
  others : (u : ℕ) → t ≢ u → posts u es ≡ 0
  waits : (u : ℕ) → waits u es ≡ 0

dropping : ℕ → ℕ → List Event
dropping t fd = sem_post t ∷ epoll_add t fd ∷ close fd ∷ []

admitting : ℕ → ℕ → List Event
admitting t fd = sem_post t ∷ epoll_add t fd ∷ send fd (packet cmd_welcome_request welcome) ∷ []

unread-Posts : (t : ℕ) → Posts t (sem_post t ∷ [])
unfolding waits posts
unread-Posts t = record {
  own = rw (==_refl t) refl;
  others = λ u n. ground arith;
  waits = λ u. refl;
}

dropping-Posts : (t fd : ℕ) → Posts t (dropping t fd)
unfolding waits posts dropping
dropping-Posts t fd = record {
  own = rw (==_refl t) refl;
  others = λ u n. ground arith;
  waits = λ u. refl;
}

admitting-Posts : (t fd : ℕ) → Posts t (admitting t fd)
unfolding waits posts admitting
admitting-Posts t fd = record {
  own = rw (==_refl t) refl;
  others = λ u n. ground arith;
  waits = λ u. refl;
}

module _ (t : ℕ) (w : World) (v : IsSound w) (coming : OnTheWay t w) where
  dropped :
      (es : List Event)
      → Posts t es
      → (u : ℕ)
      → Balanced
          (update w.num_of_clients t (decr (w.num_of_clients t)) u)
          (used_slots w.clients u)
          (waits u (w.trace ++ es))
          (posts u (w.trace ++ es))
  dropped es p u = elim (Bool-cases (t == u)) [
    | inl here ↦
        let e : u ≡ t = ground arith in
        rw (e, ==_refl t)
          (Balanced-at _ _ _ _ _ _ (omega (arith, waits-append t w.trace es, p.waits t))
            (omega (arith, posts-append t w.trace es, p.own))
            (Balanced-dropped (w.num_of_clients t) _ _ _ coming (v.balanced t)))
    | inr other ↦ rw other (
        Balanced-at _ _ _ _ _ _ (omega (arith, waits-append u w.trace es, p.waits u))
          (omega (arith, posts-append u w.trace es, p.others u (ground arith))) (v.balanced u))
  ]

  admitted :
      (i : ℕ) (client : Client) (es : List Event)
      → i < max_clients_per_thread
      → (w.clients (slot t i)).in_use ≡ false
      → client.in_use ≡ true
      → Posts t es
      → (u : ℕ)
      → Balanced
          (w.num_of_clients u)
          (used_slots (update w.clients (slot t i) client) u)
          (waits u (w.trace ++ es))
          (posts u (w.trace ++ es))
  admitted i client es q free used p u =
      let others : OneClient (slot t i) w.clients (update w.clients (slot t i) client) =
        λ d n. ground arith in
      elim (Bool-cases (t == u)) [
        | inl here ↦
            let e : u ≡ t = ground arith in
            let more =
              used_slots-more t i w.clients (update w.clients (slot t i) client) q others free
                (rw (==_refl (slot t i)) used) in
            rw (e, more)
              (Balanced-at _ _ _ _ _ _ (omega (arith, waits-append t w.trace es, p.waits t))
                (omega (arith, posts-append t w.trace es, p.own))
                (Balanced-registered (w.num_of_clients t) _ _ _ coming (v.balanced t)))
        | inr other ↦
            rw
              (used_slots-other t u i w.clients (update w.clients (slot t i) client) q others
                (ground arith))
              (Balanced-at _ _ _ _ _ _ (omega (arith, waits-append u w.trace es, p.waits u))
                (omega (arith, posts-append u w.trace es, p.others u (ground arith)))
                (v.balanced u))
      ]

slot-free :
    (c : ClientRef) (w : World)
    → IsSound w
    → (w.clients c).in_use ≡ false
    → is_state (w.clients c).state in_chat_room ≡ false
slot-free c w v free = ap (λ d. is_state d.state in_chat_room) (v.idle c free)

-- With a client on the way there is a free slot.
not_crowded :
    (t : ℕ) (w : World)
    → IsSound w
    → OnTheWay t w
    → ((i : ℕ) → i < max_clients_per_thread → slot_is_free t w i ≡ false)
    → ⊥
not_crowded t w v coming taken =
    let few = Balanced-free (w.num_of_clients t) _ _ _ coming (v.balanced t) in
    let all = used_slots-all t w.clients (λ i p. ground (arith, taken i p)) in omega arith

Registers-IsSound :
    {t : ℕ} {w w' : World} {read_value : Option ℕ} {can_add : Bool}
    → IsSound w
    → OnTheWay t w
    → Registers t w read_value can_add w'
    → IsSound w'
unfolding dropping admitting
Registers-IsSound {t} {w} v coming unread = record {
  consistent = v.consistent;
  index = v.index;
  idle = v.idle;
  balanced = dropped t w v coming (sem_post t ∷ []) (unread-Posts t);
}
Registers-IsSound {t} {w} v coming (not_watched {fd}) = record {
  consistent = v.consistent;
  index = v.index;
  idle = v.idle;
  balanced = dropped t w v coming (dropping t fd) (dropping-Posts t fd);
}
Registers-IsSound {t} {w} v coming (no_slot taken) = absurd (not_crowded t w v coming taken)
Registers-IsSound {t} {w} v coming (registered {fd} i p free before) = record {
  consistent =
      Registers-IsConsistent {w = w} v.consistent (λ j q. slot-free (slot t j) w v (ground arith))
        (registered {fd = fd} i p free before);
  index = v.index;
  idle = λ c q. ground (arith, v.idle c);
  balanced =
      admitted t w v coming i (fresh_client fd) (admitting t fd) p (ground arith) refl
        (admitting-Posts t fd);
}

-- The client on `fd` sits in a slot of worker `t` that was free.
abbrev pub IsSeated : ℕ → ℕ → World → World → Type 0
IsSeated t fd w w' =
    (i : ℕ) × (i < max_clients_per_thread)
    × ((w.clients (slot t i)).in_use ≡ false)
    × (w'.clients (slot t i) ≡ fresh_client fd)

Registers-IsSeated :
    {t fd : ℕ} {w w' : World} {read_value : Option ℕ} {can_add : Bool}
    → IsSound w
    → OnTheWay t w
    → read_value ≡ some fd
    → can_add ≡ true
    → Registers t w read_value can_add w'
    → IsSeated t fd w w'
Registers-IsSeated v coming e f unread = absurd (ground arith)
Registers-IsSeated v coming e f not_watched = absurd (ground arith)
Registers-IsSeated {t} {w} v coming e f (no_slot taken) = absurd (not_crowded t w v coming taken)
Registers-IsSeated {t} {w} v coming e f (registered i p free before) =
    (i, p, ground arith, rw (==_refl (slot t i)) (ap fresh_client (ground arith)))

-- In a sound state with a client on the way to the worker, register_new_client completes in a
-- sound state, whatever read and epoll_ctl answer; and where both succeed the client sits in a
-- slot of the worker that was free.
pub register_new_client-IsSound :
    (t : ℕ) (read_value : Option ℕ) (can_add : Bool) (w : World)
    → IsSound w
    → OnTheWay t w
    → (w' : World) × (register_new_client t read_value can_add w ≡ some w')
      × IsSound w'
      × ((fd : ℕ) → read_value ≡ some fd → can_add ≡ true → IsSeated t fd w w')
register_new_client-IsSound t read_value can_add w v coming =
    let (w', done, outcome) = register_new_client-Registers t w read_value can_add in
    (
      w',
      done,
      Registers-IsSound v coming outcome,
      λ fd e f. Registers-IsSeated v coming e f outcome,
    )
