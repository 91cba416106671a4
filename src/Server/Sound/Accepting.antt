-- ===== src/Server/Sound/Accepting.antt =====
-- The main thread keeps the invariant.
use chat_application.Prelude.{
  ℕ, ◌+◌, ◌≡◌, Bool, some, List, [], ◌∷◌, ◌++◌, arith, ◌==◌, ==_refl, Bool-cases, inl, inr,
}
use chat_application.Prelude.Int.{incr}
use chat_application.Prelude.Memory.{update}
use chat_application.CString.{Bytes}
use chat_application.Config.{World, Event, notify, sem_wait, sem_post}
use chat_application.ClientDistributor.Selection.{HasCapacity}
use chat_application.ClientDistributor.Handover.{Distributes, all_full, not_told, handed, refusal}
use chat_application.Trace.{waits, posts}
use chat_application.Trace.Says.{waits-append, posts-append}
use chat_application.Server.{Accepted, accept_connection}
use chat_application.Server.Accept.{
  Accepts, no_connection, dropped, distributed, accept_connection-Accepts,
}
use chat_application.Server.Counts.{used_slots}
use chat_application.Server.Sound.{
  IsSound, IsBalanced, Balanced, Balanced-at, Balanced-handed, Balanced-refused,
}

module _ (w : World) (t : ℕ) where
  -- One call on the semaphore of worker `t` in the events, and then a count.
  calls :
      (es : List Event) (u : ℕ)
      → (waits u (w.trace ++ es) ≡ waits u w.trace + waits u es)
        × (posts u (w.trace ++ es) ≡ posts u w.trace + posts u es)
  calls es u = (waits-append u w.trace es, posts-append u w.trace es)

  handed-Balanced :
      (fd : ℕ)
      → HasCapacity w.num_of_clients t
      → ((u : ℕ) → IsBalanced w u)
      → (u : ℕ)
      → Balanced
          (update w.num_of_clients t (incr (w.num_of_clients t)) u)
          (used_slots w.clients u)
          (waits u (w.trace ++ sem_wait t ∷ notify t fd ∷ []))
          (posts u (w.trace ++ sem_wait t ∷ notify t fd ∷ []))
  unfolding waits posts
  handed-Balanced fd free v u = elim (Bool-cases (t == u)) [
    | inl here ↦
        let e : u ≡ t = ground arith in
        rw (e, ==_refl t)
          (Balanced-at _ _ _ _ _ _
            (ground (arith, (calls (sem_wait t ∷ notify t fd ∷ []) t).0, ==_refl t))
            (omega (arith, (calls (sem_wait t ∷ notify t fd ∷ []) t).1))
            (Balanced-handed (w.num_of_clients t) _ _ _ free (v t)))
    | inr other ↦ rw other (
        Balanced-at _ _ _ _ _ _ (ground (arith, (calls (sem_wait t ∷ notify t fd ∷ []) u).0))
          (omega (arith, (calls (sem_wait t ∷ notify t fd ∷ []) u).1)) (v u))
  ]

  refused-Balanced :
      (fd code : ℕ) (text : Bytes)
      → ((u : ℕ) → IsBalanced w u)
      → (u : ℕ)
      → Balanced
          (w.num_of_clients u)
          (used_slots w.clients u)
          (waits u (w.trace ++ sem_wait t ∷ sem_post t ∷ refusal fd code text))
          (posts u (w.trace ++ sem_wait t ∷ sem_post t ∷ refusal fd code text))
  unfolding waits posts
  refused-Balanced fd code text v u =
      let c = calls (sem_wait t ∷ sem_post t ∷ refusal fd code text) u in
      elim (Bool-cases (t == u)) [
        | inl here ↦
            Balanced-at _ _ _ _ _ _
              (ground (arith, (calls (sem_wait t ∷ sem_post t ∷ refusal fd code text) u).0))
              (ground (arith, (calls (sem_wait t ∷ sem_post t ∷ refusal fd code text) u).1))
              (Balanced-refused (w.num_of_clients u) _ _ _ (v u))
        | inr other ↦
            Balanced-at _ _ _ _ _ _
              (ground (arith, (calls (sem_wait t ∷ sem_post t ∷ refusal fd code text) u).0))
              (ground (arith, (calls (sem_wait t ∷ sem_post t ∷ refusal fd code text) u).1)) (v u)
      ]

full-Balanced :
    (w : World) (fd code : ℕ) (text : Bytes)
    → ((u : ℕ) → IsBalanced w u)
    → (u : ℕ)
    → Balanced
        (w.num_of_clients u)
        (used_slots w.clients u)
        (waits u (w.trace ++ refusal fd code text))
        (posts u (w.trace ++ refusal fd code text))
unfolding waits posts
full-Balanced w fd code text v u =
    Balanced-at _ _ _ _ _ _ (omega (arith, waits-append u w.trace (refusal fd code text)))
      (omega (arith, posts-append u w.trace (refusal fd code text))) (v u)

pub Distributes-IsSound :
    {fd : ℕ} {can_write : Bool} {w w' : World}
    → IsSound w
    → Distributes fd can_write w w'
    → IsSound w'
Distributes-IsSound {fd} v (all_full {w = w} full) = record {
  consistent = v.consistent;
  index = omega arith;
  idle = v.idle;
  balanced = full-Balanced w fd _ _ v.balanced;
}
Distributes-IsSound {fd} v (not_told {w = w} {t = t} p free) = record {
  consistent = v.consistent;
  index = omega arith;
  idle = v.idle;
  balanced = refused-Balanced w t fd _ _ v.balanced;
}
Distributes-IsSound {fd} v (handed {w = w} {t = t} p free) = record {
  consistent = v.consistent;
  index = omega arith;
  idle = v.idle;
  balanced = handed-Balanced w t fd free v.balanced;
}

Accepts-IsSound : {a : Accepted} {w w' : World} → IsSound w → Accepts a w w' → IsSound w'
Accepts-IsSound v (no_connection e) = v
Accepts-IsSound v (dropped fd e f) = v
Accepts-IsSound v (distributed fd e f outcome) = Distributes-IsSound v outcome

-- From a sound state a round of the accept loop completes, and leaves a sound state.
pub accept_connection-IsSound :
    (a : Accepted) (w : World)
    → IsSound w
    → (w' : World) × (accept_connection a a.client_fd w ≡ some w') × IsSound w'
accept_connection-IsSound a w v =
    let (w', done, outcome) = accept_connection-Accepts a w v.index in
    (w', done, Accepts-IsSound v outcome)
