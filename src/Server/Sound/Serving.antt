-- ===== src/Server/Sound/Serving.antt =====
-- A worker keeps the invariant when it serves a client in a slot in use.
use chat_application.Prelude.{
  ℕ, ◌<◌, ◌≡◌, refl, ap, sym, ◌∙◌, true, some, List, ◌++◌, arith, ◌==◌, ==_refl, Bool-cases, inl,
  inr, ◌⊎◌,
}
use chat_application.Prelude.Int.{decr}
use chat_application.Prelude.Memory.{update}
use chat_application.CString.{char_at}
use chat_application.Config.{
  ClientRef, World, Event, slot, zeroed_client, max_clients_per_thread, cmd_exit,
}
use chat_application.Membership.{IsConsistent}
use chat_application.Trace.{waits, posts}
use chat_application.Trace.Says.{IsQuiet, IsQuiet-append, notices-IsNeutral, reply-IsNeutral}
use chat_application.ClientStateManager.{handle_client_disconnection}
use chat_application.ClientStateManager.Disconnect.{
  Disconnects, from_room, from_elsewhere, Disconnects-clients, Disconnects-IsConsistent,
  handle_client_disconnection-cases, told, closing,
}
use chat_application.ClientStateManager.Route.{Routes, format_error-keeps, state_error-keeps}
use chat_application.Server.Counts.{OneClient, used_slots-less, used_slots-other}
use chat_application.Server.Sound.{IsSound, IsSound-kept, Balanced-left, quiet-calls}

-- A step on client `c` that leaves it in its slot.
pub record Keeps (c : ClientRef) (w w' : World) : Type 0 where
  pub consistent : IsConsistent w'.rooms w'.clients
  pub index : w'.worker_index ≡ w.worker_index
  pub others : OneClient c w.clients w'.clients
  pub in_use : (w'.clients c).in_use ≡ (w.clients c).in_use
  pub counts : w'.num_of_clients ≡ w.num_of_clients
  pub events : List Event
  pub quiet : IsQuiet events
  pub trace : w'.trace ≡ w.trace ++ events

pub Keeps-IsSound :
    (t i : ℕ) {w w' : World}
    → IsSound w
    → i < max_clients_per_thread
    → (w.clients (slot t i)).in_use ≡ true
    → Keeps (slot t i) w w'
    → IsSound w'
Keeps-IsSound t i {w} {w'} v p busy k =
    IsSound-kept t i k.events v p busy k.consistent k.index k.others k.in_use k.counts k.quiet
      k.trace

-- A message leaves the client in its slot, or disconnects it.
pub Routes-Keeps :
    {t : ℕ} {c : ClientRef} {w w' : World}
    → IsConsistent w.rooms w.clients
    → Routes t c w w'
    → Keeps c w w' ⊎ (char_at (w.clients c).current_msg 0 ≡ cmd_exit) × Disconnects t c w w'
Routes-Keeps {c} {w} v (Routes.malformed _ code text e e') = inl (
    rw e' (record {
      consistent = v;
      index = refl;
      others = λ d _. refl;
      in_use = refl;
      counts = refl;
      events = _;
      quiet = (reply-IsNeutral _ code text (format_error-keeps (w.clients c) e)).quiet;
      trace = refl;
    }))
Routes-Keeps {c} {w} v (Routes.not_available _ _ code text e e') = inl (
    rw e' (record {
      consistent = v;
      index = refl;
      others = λ d _. refl;
      in_use = refl;
      counts = refl;
      events = _;
      quiet = (reply-IsNeutral _ code text (state_error-keeps (w.clients c) e)).quiet;
      trace = refl;
    }))
Routes-Keeps v (Routes.exits _ leave gone) = inr (leave, gone)
Routes-Keeps v (Routes.handled _ _ _ done) = inl (record {
  consistent = done.consistent;
  index = done.index;
  others = done.others;
  in_use = done.in_use;
  counts = done.counts;
  events = done.says.events;
  quiet = done.says.quiet;
  trace = done.says.trace;
})

module _ (t i : ℕ) (w : World) (v : IsSound w) (p : i < max_clients_per_thread)
    (busy : (w.clients (slot t i)).in_use ≡ true) where
  gone-IsSound :
      (w' : World) (es : List Event)
      → IsQuiet es
      → IsConsistent w'.rooms w'.clients
      → w'.worker_index ≡ w.worker_index
      → w'.clients ≡ update w.clients (slot t i) zeroed_client
      → w'.num_of_clients ≡ update w.num_of_clients t (decr (w.num_of_clients t))
      → w'.trace ≡ w.trace ++ es
      → IsSound w'
  gone-IsSound w' es quiet consistent index clients counts trace = record {
    consistent = consistent;
    index = rw index v.index;
    idle = λ c free. elim (Bool-cases (slot t i == c)) [
      | inl here ↦ ap (λ f. f c) clients ∙ rw here refl
      | inr other ↦
          let same : w'.clients c ≡ w.clients c = ap (λ f. f c) clients ∙ rw other refl in
          same ∙ v.idle c (ap (λ d. d.in_use) (sym same) ∙ free)
    ];
    balanced = λ u.
        let calls = quiet-calls u w.trace w'.trace es quiet trace in
        let others : OneClient (slot t i) w.clients w'.clients =
          λ d n. ap (λ f. f d) clients ∙ ground arith in
        elim (Bool-cases (t == u)) [
          | inl here ↦
              let e : u ≡ t = ground arith in
              let less =
                used_slots-less t i w.clients w'.clients p others busy
                  (ap (λ f. (f (slot t i)).in_use) clients ∙ rw (==_refl (slot t i)) refl) in
              rw (ap (λ f. f u) counts, calls.0, calls.1, e, ==_refl t)
                (Balanced-left (w.num_of_clients t) _ _ _ (rw less at (v.balanced t)))
          | inr other ↦
              rw
                (
                  ap (λ f. f u) counts,
                  calls.0,
                  calls.1,
                  other,
                  used_slots-other t u i w.clients w'.clients p others (ground arith),
                )
                (v.balanced u)
        ];
  }

  closing-IsQuiet : IsQuiet (closing t (slot t i) w)
  unfolding waits posts
  closing-IsQuiet u = (refl, refl)

  pub Disconnects-IsSound : {w' : World} → Disconnects t (slot t i) w w' → IsSound w'
  Disconnects-IsSound {w'} (from_room inside e) =
      gone-IsSound w' _
        (IsQuiet-append (told t (slot t i) w) _ (notices-IsNeutral w.clients _ _).quiet
          closing-IsQuiet)
        (Disconnects-IsConsistent t (slot t i) w v.consistent (from_room inside e))
        (ap (λ u. u.worker_index) e) (ap (λ u. u.clients) e) (ap (λ u. u.num_of_clients) e)
        (ap (λ u. u.trace) e)
  Disconnects-IsSound {w'} (from_elsewhere outside e) =
      gone-IsSound w' _ closing-IsQuiet
        (Disconnects-IsConsistent t (slot t i) w v.consistent (from_elsewhere outside e))
        (ap (λ u. u.worker_index) e) (ap (λ u. u.clients) e) (ap (λ u. u.num_of_clients) e)
        (ap (λ u. u.trace) e)

  -- A disconnection from a slot in use completes, leaves a sound state, and frees the slot.
  pub handle_client_disconnection-IsSound :
      (w' : World) × (handle_client_disconnection t (slot t i) w ≡ some w')
      × IsSound w'
      × (w'.clients (slot t i) ≡ zeroed_client)
  handle_client_disconnection-IsSound =
      let (w', done, gone) = handle_client_disconnection-cases t (slot t i) w v.consistent in
      (
        w',
        done,
        Disconnects-IsSound gone,
        ap (λ f. f (slot t i)) (Disconnects-clients gone).0 ∙ rw (==_refl (slot t i)) refl,
      )
