-- ===== src/Trace/Says.antt =====
-- What a step adds to the events: which lists leave the semaphores and the clients' knowledge as
-- they are, and what a step on one client tells that client.
use chat_application.Prelude.{
  ℕ, ◌+◌, ◌≡◌, ◌≢◌, refl, ◌∙◌, Bool, List, [], ◌∷◌, ◌++◌, arith, ==_refl,
}
use chat_application.CString.{Bytes}
use chat_application.Config.{
  ClientRef, Client, World, Event, send, close, epoll_add, epoll_del, sem_wait, sem_post, notify,
}
use chat_application.Send.{packet}
use chat_application.RoomManager.Broadcast.{notices}
use chat_application.Trace.{waits, posts, told_in_room, announced}

pub waits-append : (t : ℕ) (xs ys : List Event) → waits t (xs ++ ys) ≡ waits t xs + waits t ys
unfolding waits
waits-append t [] ys = omega arith
waits-append t (sem_wait u ∷ es) ys = omega (arith, waits-append t es ys)
waits-append t (send to text ∷ es) ys = waits-append t es ys
waits-append t (close to ∷ es) ys = waits-append t es ys
waits-append t (epoll_add u to ∷ es) ys = waits-append t es ys
waits-append t (epoll_del u to ∷ es) ys = waits-append t es ys
waits-append t (sem_post u ∷ es) ys = waits-append t es ys
waits-append t (notify u to ∷ es) ys = waits-append t es ys

pub posts-append : (t : ℕ) (xs ys : List Event) → posts t (xs ++ ys) ≡ posts t xs + posts t ys
unfolding posts
posts-append t [] ys = omega arith
posts-append t (sem_post u ∷ es) ys = omega (arith, posts-append t es ys)
posts-append t (send to text ∷ es) ys = posts-append t es ys
posts-append t (close to ∷ es) ys = posts-append t es ys
posts-append t (epoll_add u to ∷ es) ys = posts-append t es ys
posts-append t (epoll_del u to ∷ es) ys = posts-append t es ys
posts-append t (sem_wait u ∷ es) ys = posts-append t es ys
posts-append t (notify u to ∷ es) ys = posts-append t es ys

pub announced-append :
    (fd : ℕ) (xs ys : List Event) (b : Bool)
    → announced fd (xs ++ ys) b ≡ announced fd ys (announced fd xs b)
unfolding announced
announced-append fd [] ys b = refl
announced-append fd (send to text ∷ es) ys b = announced-append fd es ys _
announced-append fd (close to ∷ es) ys b = announced-append fd es ys b
announced-append fd (epoll_add u to ∷ es) ys b = announced-append fd es ys b
announced-append fd (epoll_del u to ∷ es) ys b = announced-append fd es ys b
announced-append fd (sem_wait u ∷ es) ys b = announced-append fd es ys b
announced-append fd (sem_post u ∷ es) ys b = announced-append fd es ys b
announced-append fd (notify u to ∷ es) ys b = announced-append fd es ys b

abbrev pub IsQuiet : List Event → Type 0
IsQuiet es = (t : ℕ) → (waits t es ≡ 0) × (posts t es ≡ 0)

pub IsQuiet-append : (xs ys : List Event) → IsQuiet xs → IsQuiet ys → IsQuiet (xs ++ ys)
IsQuiet-append xs ys p q t =
    (omega (arith, waits-append t xs ys, p t, q t), omega (arith, posts-append t xs ys, p t, q t))

-- Events that touch no semaphore and tell no client that it has entered or left a room.
pub record IsNeutral (es : List Event) : Type 0 where
  pub quiet : IsQuiet es
  pub keeps : (fd : ℕ) (b : Bool) → announced fd es b ≡ b

pub reply-IsNeutral :
    (to cmd : ℕ) (text : Bytes)
    → ((b : Bool) → told_in_room cmd b ≡ b)
    → IsNeutral (send to (packet cmd text) ∷ [])
unfolding waits posts announced
reply-IsNeutral to cmd text h = record {
  quiet = λ t. (refl, refl);
  keeps = λ fd b. ground (arith, h b);
}

pub notices-IsNeutral :
    (clients : ℕ → Client) (msg : Bytes) (ds : List ClientRef) → IsNeutral (notices clients msg ds)
unfolding notices waits posts announced
notices-IsNeutral clients msg [] = record { quiet = λ t. (refl, refl); keeps = λ fd b. refl }
notices-IsNeutral clients msg (d ∷ ds) =
    let rest = notices-IsNeutral clients msg ds in
    record { quiet = rest.quiet; keeps = λ fd b. ground (arith, rest.keeps fd b) }

-- A step on the client on `fd`, which is told whether it is in a room if that changes.
pub record Says (fd : ℕ) (before after : Bool) (w w' : World) : Type 0 where
  pub events : List Event
  pub trace : w'.trace ≡ w.trace ++ events
  pub quiet : IsQuiet events
  pub announces : announced fd events before ≡ after
  pub elsewhere : (other : ℕ) (b : Bool) → fd ≢ other → announced other events b ≡ b

-- Neutral events, then a reply that tells of the change.
pub Says-reply :
    (fd cmd : ℕ) (text : Bytes) (before after : Bool) (es : List Event) {w w' : World}
    → IsNeutral es
    → told_in_room cmd before ≡ after
    → w'.trace ≡ w.trace ++ (es ++ send fd (packet cmd text) ∷ [])
    → Says fd before after w w'
unfolding waits posts announced
Says-reply fd cmd text before after es neutral h e = record {
  events = _;
  trace = e;
  quiet = IsQuiet-append es (send fd (packet cmd text) ∷ []) neutral.quiet (λ t. (refl, refl));
  announces =
      announced-append fd es (send fd (packet cmd text) ∷ []) before
      ∙ rw (neutral.keeps fd before, ==_refl fd) h;
  elsewhere = λ other b n.
      announced-append other es (send fd (packet cmd text) ∷ []) b
      ∙ ground (arith, neutral.keeps other b);
}

pub Says-neutral :
    (fd : ℕ) (before after : Bool) (es : List Event) {w w' : World}
    → IsNeutral es
    → before ≡ after
    → w'.trace ≡ w.trace ++ es
    → Says fd before after w w'
Says-neutral fd before after es neutral h e = record {
  events = es;
  trace = e;
  quiet = neutral.quiet;
  announces = neutral.keeps fd before ∙ h;
  elsewhere = λ other b n. neutral.keeps other b;
}

pub nothing-IsNeutral : IsNeutral []
unfolding waits posts announced
nothing-IsNeutral = record { quiet = λ t. (refl, refl); keeps = λ fd b. refl }
