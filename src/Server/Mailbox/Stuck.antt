-- ===== src/Server/Mailbox/Stuck.antt =====
-- What becomes of the hand-over of descriptor 0.
use chat_application.Prelude.{ℕ, ◌≤◌, ◌≡◌, refl, some, arith}
use chat_application.Server.Mailbox.{
  Kernel, Mailbox, accepting, polling, created, Call, main_waits, main_writes, write_fails,
  worker_reads, worker_posts, Calls, no_calls, then_call,
}

-- Any descriptor.
abbrev pub IsNatural : ℕ → Type 0
IsNatural fd = 0 ≤ fd

module _ (k : Kernel) where
  -- No thread can do anything more.
  abbrev pub IsStuck : Mailbox k → Type 0
  IsStuck m = (m' : Mailbox k) → Call k IsNatural m m' → ⊥

  stuck_at :
      {m m' : Mailbox k}
      → m.main_thread ≡ accepting
      → m.worker ≡ polling
      → k.value m.new_client ≡ 0
      → k.counter m.notification_fd ≡ 0
      → Call k IsNatural m m'
      → ⊥
  stuck_at a b c d (main_waits n ok at taking) = omega (arith, k.value-sem_wait taking)
  stuck_at a b c d (main_writes n at writes) = cc (a, at)
  stuck_at a b c d (write_fails n at fails) = cc (a, at)
  stuck_at a b c d (worker_reads n at reads) = omega (arith, k.counter-read reads)
  stuck_at a b c d (worker_posts n at) = cc (b, at)

  -- If a write of 0 to the eventfd succeeds, the hand-over of descriptor 0 leads to a state in
  -- which neither thread can do anything more: the main thread waits for the semaphore for ever.
  pub hand_over_of_zero-IsStuck :
      {e : k.EventFd}
      → k.write 0 k.eventfd ≡ some e
      → (m : Mailbox k) × Calls k IsNatural (created k) m × IsStuck m
  hand_over_of_zero-IsStuck {e} writes =
      let (s, taking) = k.sem_wait-ready k.sem_init (omega (arith, k.value-sem_init)) in
      (
        _,
        then_call (then_call no_calls (main_waits 0 (omega arith) refl taking))
            (main_writes 0 refl writes),
        λ m' call.
            stuck_at refl refl (omega (arith, k.value-sem_wait taking, k.value-sem_init))
              (omega (arith, k.counter-write writes, k.counter-eventfd)) call,
      )
