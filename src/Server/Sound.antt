-- ===== src/Server/Sound.antt =====
-- The invariant of the running server: rooms and clients agree, free slots are zeroed, and the count
-- of each worker is that of its slots in use and of the clients on the way to it.
pub mod Accepting
pub mod Registering
pub mod Serving
pub mod Messages
pub mod Events
use chat_application.Prelude.{
  ℕ, zero, suc, ◌+◌, ◌≤◌, ◌<◌, ◌≡◌, refl, ap, sym, ◌∙◌, ◌≢◌, Bool, true, false, List, ◌++◌, arith,
  ◌==◌, if◌then◌else◌, Bool-cases, inl, inr,
}
use chat_application.Prelude.Int.{ℤ, pos, negsuc, incr, decr, at_least}
use chat_application.Config.{
  ClientRef, Client, World, Event, slot, zeroed_client, max_threads, max_clients_per_thread,
}
use chat_application.Membership.{IsConsistent}
use chat_application.Trace.{waits, posts}
use chat_application.Trace.Says.{IsQuiet, waits-append, posts-append}
use chat_application.Server.Counts.{used_slots, OneClient, used_slots-kept}

-- A worker's count, its slots in use, and the `sem_wait` and `sem_post` calls on its semaphore: the
-- clients on the way to the worker are those with a `sem_wait` and no `sem_post` yet.
abbrev pub Balanced : ℤ → ℕ → ℕ → ℕ → Type 0
Balanced (pos n) used waited posted =
    (n + posted ≡ used + waited) × (n ≤ max_clients_per_thread) × (posted ≤ waited)
Balanced (negsuc n) used waited posted = ⊥

abbrev pub IsBalanced : World → ℕ → Type 0
IsBalanced w t =
    Balanced (w.num_of_clients t) (used_slots w.clients t) (waits t w.trace) (posts t w.trace)

pub record IsSound (w : World) : Type 0 where
  pub consistent : IsConsistent w.rooms w.clients
  pub index : w.worker_index < max_threads
  pub idle : (c : ClientRef) → (w.clients c).in_use ≡ false → w.clients c ≡ zeroed_client
  pub balanced : (t : ℕ) → IsBalanced w t

-- A client is sent to a worker with capacity; is refused after the semaphore was taken; is picked
-- up and dropped, or gets a slot; leaves its slot.
pub Balanced-handed :
    (z : ℤ) (u a b : ℕ)
    → at_least z max_clients_per_thread ≡ false
    → Balanced z u a b
    → Balanced (incr z) u (a + 1) b
Balanced-handed (pos n) u a b free h = ground (arith, h.0)
Balanced-handed (negsuc n) u a b free h = absurd h

pub Balanced-refused : (z : ℤ) (u a b : ℕ) → Balanced z u a b → Balanced z u (a + 1) (b + 1)
Balanced-refused (pos n) u a b h = omega arith
Balanced-refused (negsuc n) u a b h = h

pub Balanced-dropped :
    (z : ℤ) (u a b : ℕ) → b < a → Balanced z u a b → Balanced (decr z) u a (b + 1)
Balanced-dropped (pos zero) u a b p h = absurd (omega arith)
Balanced-dropped (pos (suc n)) u a b p h = omega arith
Balanced-dropped (negsuc n) u a b p h = h

pub Balanced-registered :
    (z : ℤ) (u a b : ℕ) → b < a → Balanced z u a b → Balanced z (u + 1) a (b + 1)
Balanced-registered (pos n) u a b p h = omega arith
Balanced-registered (negsuc n) u a b p h = h

pub Balanced-left : (z : ℤ) (u a b : ℕ) → Balanced z (u + 1) a b → Balanced (decr z) u a b
Balanced-left (pos zero) u a b h = absurd (omega arith)
Balanced-left (pos (suc n)) u a b h = omega arith
Balanced-left (negsuc n) u a b h = h

-- With a client on the way, a worker has a free slot for it.
pub Balanced-free : (z : ℤ) (u a b : ℕ) → b < a → Balanced z u a b → u < max_clients_per_thread
Balanced-free (pos n) u a b p h = omega arith
Balanced-free (negsuc n) u a b p h = absurd h

-- The semaphores' calls after quiet events.
pub quiet-calls :
    (t : ℕ) (before after es : List Event)
    → IsQuiet es
    → after ≡ before ++ es
    → (waits t after ≡ waits t before) × (posts t after ≡ posts t before)
quiet-calls t before after es quiet e = rw e (
  omega (arith, waits-append t before es, quiet t),
  omega (arith, posts-append t before es, quiet t),
)

-- A step of worker `t` on a client in use, with quiet events, that keeps the client in its slot.
pub IsSound-kept :
    (t i : ℕ) {w w' : World} (es : List Event)
    → IsSound w
    → i < max_clients_per_thread
    → (w.clients (slot t i)).in_use ≡ true
    → IsConsistent w'.rooms w'.clients
    → w'.worker_index ≡ w.worker_index
    → OneClient (slot t i) w.clients w'.clients
    → (w'.clients (slot t i)).in_use ≡ (w.clients (slot t i)).in_use
    → w'.num_of_clients ≡ w.num_of_clients
    → IsQuiet es
    → w'.trace ≡ w.trace ++ es
    → IsSound w'
IsSound-kept t i {w} {w'} es v p busy consistent index others kept counts quiet trace = record {
  consistent = consistent;
  index = rw index v.index;
  idle = λ c free. elim (Bool-cases (slot t i == c)) [
    | inl here ↦ let e : c ≡ slot t i = ground arith in cc (rw e at free, kept, busy)
    | inr other ↦
        let same = others c (ground arith) in same ∙ v.idle c (ap (λ d. d.in_use) (sym same) ∙ free)
  ];
  balanced = λ u.
      rw
        (
          ap (λ f. f u) counts,
          used_slots-kept t u i w.clients w'.clients p others kept,
          (quiet-calls u w.trace w'.trace es quiet trace).0,
          (quiet-calls u w.trace w'.trace es quiet trace).1,
        )
        (v.balanced u);
}

pub Balanced-at :
    (z : ℤ) (u a b a' b' : ℕ) → a' ≡ a → b' ≡ b → Balanced z u a b → Balanced z u a' b'
Balanced-at z u a b a' b' e f h = rw (e, f) h
