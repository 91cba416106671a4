-- ===== src/Server/Mailbox/HandOver.antt =====
-- What the hand-over of descriptors comes to: the worker picks up what was handed to it, in order.
use chat_application.Prelude.{
  ℕ, ◌<◌, ◌≡◌, refl, ap, sym, ◌∙◌, [], ◌∷◌, ◌++◌, arith, inl, inr, ◌⊎◌, Option-cases,
}
use chat_application.Server.Mailbox.{
  Kernel, Mailbox, accepting, writing, polling, posting, created, Call, main_waits, main_writes,
  write_fails, worker_reads, worker_posts, Calls, no_calls, then_call,
}

abbrev pub IsPositive : ℕ → Type 0
IsPositive fd = 0 < fd

module _ (k : Kernel) where
  -- The four phases of the hand-over of a descriptor.
  data Phase (m : Mailbox k) : Type 0 where
    free :
        m.main_thread ≡ accepting
        → m.worker ≡ polling
        → k.value m.new_client ≡ 1
        → k.counter m.notification_fd ≡ 0
        → m.handed ≡ m.picked_up
        → Phase m
    held :
        (fd : ℕ)
        → 0 < fd
        → m.main_thread ≡ writing fd
        → m.worker ≡ polling
        → k.value m.new_client ≡ 0
        → k.counter m.notification_fd ≡ 0
        → m.handed ≡ m.picked_up
        → Phase m
    full :
        (fd : ℕ)
        → 0 < fd
        → m.main_thread ≡ accepting
        → m.worker ≡ polling
        → k.value m.new_client ≡ 0
        → k.counter m.notification_fd ≡ fd
        → m.handed ≡ m.picked_up ++ fd ∷ []
        → Phase m
    taken :
        (fd : ℕ)
        → m.main_thread ≡ accepting
        → m.worker ≡ posting fd
        → k.value m.new_client ≡ 0
        → k.counter m.notification_fd ≡ 0
        → m.handed ≡ m.picked_up
        → Phase m

  Phase-created : Phase (created k)
  Phase-created = free refl refl k.value-sem_init k.counter-eventfd refl

  Phase-Call : {m m' : Mailbox k} → Phase m → Call k IsPositive m m' → Phase m'
  Phase-Call (free a b c d e) (main_waits fd ok at taking) =
      held fd ok refl b (omega (arith, k.value-sem_wait taking)) d e
  Phase-Call (free a b c d e) (main_writes fd at writes) = absurd (cc (a, at))
  Phase-Call (free a b c d e) (write_fails fd at fails) = absurd (cc (a, at))
  Phase-Call (free a b c d e) (worker_reads n at reads) =
      absurd (omega (arith, k.counter-read reads))
  Phase-Call (free a b c d e) (worker_posts n at) = absurd (cc (b, at))
  Phase-Call (held fd ok a b c d e) (main_waits n ok' at taking) = absurd (cc (a, at))
  Phase-Call {m} (held fd ok a b c d e) (main_writes n at writes) =
      let same : fd ≡ n = cc (a, at) in
      full fd ok refl b c (omega (arith, k.counter-write writes))
        (ap (λ fds. fds ++ n ∷ []) e ∙ ap (λ f. m.picked_up ++ f ∷ []) (sym same))
  Phase-Call (held fd ok a b c d e) (write_fails n at fails) =
      free refl b (omega (arith, k.value-sem_post _)) d e
  Phase-Call (held fd ok a b c d e) (worker_reads n at reads) =
      absurd (omega (arith, k.counter-read reads))
  Phase-Call (held fd ok a b c d e) (worker_posts n at) = absurd (cc (b, at))
  Phase-Call (full fd ok a b c d e) (main_waits n ok' at taking) =
      absurd (omega (arith, k.value-sem_wait taking))
  Phase-Call (full fd ok a b c d e) (main_writes n at writes) = absurd (cc (a, at))
  Phase-Call (full fd ok a b c d e) (write_fails n at fails) = absurd (cc (a, at))
  Phase-Call {m} (full fd ok a b c d e) (worker_reads n at reads) =
      taken n a refl c (k.counter-read reads).2
        (e ∙ ap (λ f. m.picked_up ++ f ∷ []) (sym ((k.counter-read reads).1 ∙ d)))
  Phase-Call (full fd ok a b c d e) (worker_posts n at) = absurd (cc (b, at))
  Phase-Call (taken fd a b c d e) (main_waits n ok' at taking) =
      absurd (omega (arith, k.value-sem_wait taking))
  Phase-Call (taken fd a b c d e) (main_writes n at writes) = absurd (cc (a, at))
  Phase-Call (taken fd a b c d e) (write_fails n at fails) = absurd (cc (a, at))
  Phase-Call (taken fd a b c d e) (worker_reads n at reads) = absurd (cc (b, at))
  Phase-Call (taken fd a b c d e) (worker_posts n at) =
      free a refl (omega (arith, k.value-sem_post _)) d e

  Phase-Calls : {m m' : Mailbox k} → Phase m → Calls k IsPositive m m' → Phase m'
  Phase-Calls p no_calls = p
  Phase-Calls p (then_call before call) = Phase-Call (Phase-Calls p before) call

  -- All that was handed over has been picked up, or all but the last.
  abbrev pub IsInOrder : Mailbox k → Type 0
  IsInOrder m = m.handed ≡ m.picked_up ⊎ ((fd : ℕ) × (m.handed ≡ m.picked_up ++ fd ∷ []))

  Phase-IsInOrder : {m : Mailbox k} → Phase m → IsInOrder m
  Phase-IsInOrder (free a b c d e) = inl e
  Phase-IsInOrder (held fd ok a b c d e) = inl e
  Phase-IsInOrder (full fd ok a b c d e) = inr (fd, e)
  Phase-IsInOrder (taken fd a b c d e) = inl e

  -- For descriptors above 0, whatever the order of the calls of the two threads, the worker has
  -- picked up the descriptors that were handed to it, each by itself and in order, but for the
  -- last at most.
  pub Calls-IsInOrder : {m : Mailbox k} → Calls k IsPositive (created k) m → IsInOrder m
  Calls-IsInOrder before = Phase-IsInOrder (Phase-Calls Phase-created before)

  -- The main thread can take the semaphore, and everything has been picked up.
  pub record IsFree (m : Mailbox k) : Type 0 where
    pub at_accept : m.main_thread ≡ accepting
    pub at_poll : m.worker ≡ polling
    pub semaphore : k.value m.new_client ≡ 1
    pub all_picked_up : m.handed ≡ m.picked_up

  abbrev Frees : Mailbox k → Type 0
  Frees m = (m' : Mailbox k) × Calls k IsPositive m m' × IsFree m'

  Calls-first :
      {m m' m'' : Mailbox k}
      → Call k IsPositive m m'
      → Calls k IsPositive m' m''
      → Calls k IsPositive m m''
  Calls-first call no_calls = then_call no_calls call
  Calls-first call (then_call before last) = then_call (Calls-first call before) last

  Frees-before : {m m' : Mailbox k} → Call k IsPositive m m' → Frees m' → Frees m
  Frees-before call (m'', after, v) = (m'', Calls-first call after, v)

  -- From each phase the calls that follow.
  taken-Frees :
      (fd : ℕ) (m : Mailbox k)
      → m.main_thread ≡ accepting
      → m.worker ≡ posting fd
      → k.value m.new_client ≡ 0
      → m.handed ≡ m.picked_up
      → Frees m
  taken-Frees fd m a b c e = (
    _,
    then_call no_calls (worker_posts fd b),
    record {
      at_accept = a;
      at_poll = refl;
      semaphore = omega (arith, k.value-sem_post m.new_client);
      all_picked_up = e;
    },
  )

  full-Frees :
      (fd : ℕ) (m : Mailbox k)
      → 0 < fd
      → m.main_thread ≡ accepting
      → m.worker ≡ polling
      → k.value m.new_client ≡ 0
      → k.counter m.notification_fd ≡ fd
      → m.handed ≡ m.picked_up ++ fd ∷ []
      → Frees m
  full-Frees fd m ok a b c d e =
      let (n, e', reads) = k.read-ready m.notification_fd (omega arith) in
      Frees-before (worker_reads n b reads) (
        taken-Frees n _ a refl c
          (e ∙ ap (λ f. m.picked_up ++ f ∷ []) (sym ((k.counter-read reads).1 ∙ d))))

  Phase-Frees : {m : Mailbox k} → Phase m → Frees m
  Phase-Frees {m} (free a b c d e) =
      (m, no_calls, record { at_accept = a; at_poll = b; semaphore = c; all_picked_up = e })
  Phase-Frees {m} (held fd ok a b c d e) = elim (Option-cases (k.write fd m.notification_fd)) [
    | inl fails ↦ (
      _,
      then_call no_calls (write_fails fd a fails),
      record {
        at_accept = refl;
        at_poll = b;
        semaphore = omega (arith, k.value-sem_post m.new_client);
        all_picked_up = e;
      },
    )
    | inr (e', writes) ↦ Frees-before (main_writes fd a writes) (
        full-Frees fd _ ok refl b c (omega (arith, k.counter-write writes))
          (ap (λ fds. fds ++ fd ∷ []) e))
  ]
  Phase-Frees {m} (full fd ok a b c d e) = full-Frees fd m ok a b c d e
  Phase-Frees {m} (taken fd a b c d e) = taken-Frees fd m a b c e

  -- For descriptors above 0, from every state of the hand-over some calls of the two threads lead
  -- to one in which the main thread can take the semaphore and everything that was handed over has
  -- been picked up.
  pub Calls-IsFree :
      {m : Mailbox k}
      → Calls k IsPositive (created k) m
      → (m' : Mailbox k) × Calls k IsPositive m m' × IsFree m'
  Calls-IsFree before = Phase-Frees (Phase-Calls Phase-created before)
