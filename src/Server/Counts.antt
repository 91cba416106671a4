-- ===== src/Server/Counts.antt =====
-- The slots in use of a worker, and how a change of one client changes their number.
use chat_application.Prelude.{
  ℕ, ◌+◌, ◌<◌, ◌≡◌, ap, sym, ◌≢◌, Bool, true, false, arith, ◌==◌, if◌then◌else◌, Bool-cases, inl,
  inr,
}
use chat_application.Prelude.Memory.{count, count-same, count-change, count-none, count-all}
use chat_application.Config.{ClientRef, Client, slot, max_clients_per_thread}

abbrev slot_in_use : (ℕ → Client) → ℕ → ℕ → Bool
slot_in_use clients t i = (clients (slot t i)).in_use

-- The number of slots of worker `t` that are in use.
pub used_slots : (ℕ → Client) → ℕ → ℕ
used_slots clients t = count max_clients_per_thread (slot_in_use clients t)

slot-inj : (t i j : ℕ) → slot t i ≡ slot t j → i ≡ j
slot-inj t i j h = omega arith

slot-worker :
    (t u i j : ℕ)
    → i < max_clients_per_thread
    → j < max_clients_per_thread
    → slot t i ≡ slot u j
    → t ≡ u
slot-worker t u i j p q h = omega arith

-- A change of slot `i` of worker `t`, as a condition on the clients before and after.
abbrev pub OneClient : ClientRef → (ℕ → Client) → (ℕ → Client) → Type 0
OneClient c clients clients' = (d : ClientRef) → c ≢ d → clients' d ≡ clients d

pub used_slots-change :
    (t i : ℕ) (clients clients' : ℕ → Client)
    → i < max_clients_per_thread
    → OneClient (slot t i) clients clients'
    → used_slots clients t + (if (clients' (slot t i)).in_use then 1 else 0)
      ≡ used_slots clients' t + (if (clients (slot t i)).in_use then 1 else 0)
unfolding used_slots
used_slots-change t i clients clients' p others =
    count-change max_clients_per_thread i (slot_in_use clients t) (slot_in_use clients' t) p
      (λ j n. ap (λ c. c.in_use) (sym (others (slot t j) (λ e. n (sym (slot-inj t i j e))))))

pub used_slots-other :
    (t u i : ℕ) (clients clients' : ℕ → Client)
    → i < max_clients_per_thread
    → OneClient (slot t i) clients clients'
    → t ≢ u
    → used_slots clients' u ≡ used_slots clients u
unfolding used_slots
used_slots-other t u i clients clients' p others n =
    count-same max_clients_per_thread (slot_in_use clients' u) (slot_in_use clients u)
      (λ j q. ap (λ c. c.in_use) (others (slot u j) (λ e. n (slot-worker t u i j p q e))))

-- A change that leaves it whether the slot is in use.
pub used_slots-kept :
    (t u i : ℕ) (clients clients' : ℕ → Client)
    → i < max_clients_per_thread
    → OneClient (slot t i) clients clients'
    → (clients' (slot t i)).in_use ≡ (clients (slot t i)).in_use
    → used_slots clients' u ≡ used_slots clients u
used_slots-kept t u i clients clients' p others kept = elim (Bool-cases (t == u)) [
  | inl here ↦
      let e : u ≡ t = ground arith in
      rw e (omega (arith, rw kept at (used_slots-change t i clients clients' p others)))
  | inr other ↦ used_slots-other t u i clients clients' p others (ground arith)
]

pub used_slots-none :
    (t : ℕ) (clients : ℕ → Client)
    → ((c : ClientRef) → (clients c).in_use ≡ false)
    → used_slots clients t ≡ 0
unfolding used_slots
used_slots-none t clients h = count-none max_clients_per_thread _ (λ j p. h (slot t j))

pub used_slots-all :
    (t : ℕ) (clients : ℕ → Client)
    → ((i : ℕ) → i < max_clients_per_thread → (clients (slot t i)).in_use ≡ true)
    → used_slots clients t ≡ max_clients_per_thread
unfolding used_slots
used_slots-all t clients h = count-all max_clients_per_thread _ h

-- A slot that comes into use, and one that is free again.
pub used_slots-more :
    (t i : ℕ) (clients clients' : ℕ → Client)
    → i < max_clients_per_thread
    → OneClient (slot t i) clients clients'
    → (clients (slot t i)).in_use ≡ false
    → (clients' (slot t i)).in_use ≡ true
    → used_slots clients' t ≡ used_slots clients t + 1
used_slots-more t i clients clients' p others free used =
    omega (arith, rw (free, used) at (used_slots-change t i clients clients' p others))

pub used_slots-less :
    (t i : ℕ) (clients clients' : ℕ → Client)
    → i < max_clients_per_thread
    → OneClient (slot t i) clients clients'
    → (clients (slot t i)).in_use ≡ true
    → (clients' (slot t i)).in_use ≡ false
    → used_slots clients t ≡ used_slots clients' t + 1
used_slots-less t i clients clients' p others used free =
    omega (arith, rw (free, used) at (used_slots-change t i clients clients' p others))
