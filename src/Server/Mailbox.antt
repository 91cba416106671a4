-- ===== src/Server/Mailbox.antt =====
-- How the main thread hands a descriptor to a worker: `sem_wait` and `write` in
-- server/client_distributor.c, `read` and `sem_post` in server/connection_handler.c, as steps of the
-- two threads in any order. The eventfd and the semaphore are those of the kernel; a `sem_wait` that
-- is interrupted, and a `read` that fails on a readable eventfd, are left out.
pub mod HandOver
pub mod Stuck
use chat_application.Prelude.{ℕ, ◌+◌, ◌<◌, ◌≡◌, Option, none, some, List, [], ◌∷◌, ◌++◌}

-- The calls on a non-blocking eventfd and on a semaphore, and what eventfd(2) and sem_overview(7)
-- say of them: a write adds to the counter; a read takes the counter, and fails at 0; `sem_wait`
-- takes one from the value, and waits at 0 (`none`).
pub record Kernel : Type 1 where
  pub EventFd : Type 0
  pub Semaphore : Type 0
  pub counter : EventFd → ℕ
  pub value : Semaphore → ℕ
  pub eventfd : EventFd
  pub sem_init : Semaphore
  pub write : ℕ → EventFd → Option EventFd
  pub read : EventFd → Option (ℕ × EventFd)
  pub sem_wait : Semaphore → Option Semaphore
  pub sem_post : Semaphore → Semaphore
  pub counter-eventfd : counter eventfd ≡ 0
  pub value-sem_init : value sem_init ≡ 1
  pub counter-write : {n : ℕ} {e e' : EventFd} → write n e ≡ some e' → counter e' ≡ counter e + n
  pub counter-read :
      {n : ℕ} {e e' : EventFd}
      → read e ≡ some (n, e')
      → (0 < n) × (n ≡ counter e) × (counter e' ≡ 0)
  pub read-ready :
      (e : EventFd) → 0 < counter e → (n : ℕ) × (e' : EventFd) × (read e ≡ some (n, e'))
  pub value-sem_wait : {s s' : Semaphore} → sem_wait s ≡ some s' → value s ≡ value s' + 1
  pub sem_wait-ready : (s : Semaphore) → 0 < value s → (s' : Semaphore) × (sem_wait s ≡ some s')
  pub value-sem_post : (s : Semaphore) → value (sem_post s) ≡ value s + 1

-- Where the main thread is in `distribute_client`, and the worker in `register_new_client`.
pub data MainAt : Type 0 where
  accepting : MainAt
  writing : ℕ → MainAt

pub data WorkerAt : Type 0 where
  polling : WorkerAt
  posting : ℕ → WorkerAt

-- `notification_fd` and `new_client` of a worker, the two threads, and the descriptors that were
-- written and that were picked up, oldest first.
pub record Mailbox (k : Kernel) : Type 0 where
  pub notification_fd : k.EventFd
  pub new_client : k.Semaphore
  pub main_thread : MainAt
  pub worker : WorkerAt
  pub handed : List ℕ
  pub picked_up : List ℕ

module _ (k : Kernel) where
  abbrev pub created : Mailbox k
  created = record {
    notification_fd = k.eventfd;
    new_client = k.sem_init;
    main_thread = accepting;
    worker = polling;
    handed = [];
    picked_up = [];
  }

module _ (k : Kernel) (IsOffered : ℕ → Type 0) where
  -- A call of the main thread or of the worker, for descriptors that `accept` may return. The main thread waits for the semaphore, and then
  -- writes, or posts again if the write fails; the worker reads when epoll reports the eventfd,
  -- and then posts.
  pub data Call : Mailbox k → Mailbox k → Type 0 where
    main_waits :
        {m : Mailbox k} {s : k.Semaphore} (fd : ℕ)
        → IsOffered fd
        → m.main_thread ≡ accepting
        → k.sem_wait m.new_client ≡ some s
        → Call m (record m { new_client = s; main_thread = writing fd })
    main_writes :
        {m : Mailbox k} {e : k.EventFd} (fd : ℕ)
        → m.main_thread ≡ writing fd
        → k.write fd m.notification_fd ≡ some e
        → Call m (record m {
          notification_fd = e;
          main_thread = accepting;
          handed = m.handed ++ fd ∷ [];
        })
    write_fails :
        {m : Mailbox k} (fd : ℕ)
        → m.main_thread ≡ writing fd
        → k.write fd m.notification_fd ≡ none
        → Call m (record m { new_client = k.sem_post m.new_client; main_thread = accepting })
    worker_reads :
        {m : Mailbox k} {e : k.EventFd} (value : ℕ)
        → m.worker ≡ polling
        → k.read m.notification_fd ≡ some (value, e)
        → Call m (record m {
          notification_fd = e;
          worker = posting value;
          picked_up = m.picked_up ++ value ∷ [];
        })
    worker_posts :
        {m : Mailbox k} (value : ℕ)
        → m.worker ≡ posting value
        → Call m (record m { new_client = k.sem_post m.new_client; worker = polling })

  -- Any number of calls.
  pub data Calls : Mailbox k → Mailbox k → Type 0 where
    no_calls : {m : Mailbox k} → Calls m m
    then_call : {m m' m'' : Mailbox k} → Calls m m' → Call m' m'' → Calls m m''
