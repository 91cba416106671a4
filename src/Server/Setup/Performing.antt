-- ===== src/Server/Setup/Performing.antt =====
-- The calls one after the other: all succeed, or the first that fails ends the process.
use chat_application.Prelude.{
  ℕ, ◌≡◌, refl, ap, subst, Option, none, some, Option-cases, inl, inr, List, [], ◌∷◌, ◌++◌,
  append-nil, append_assoc,
}
use chat_application.CString.{Bytes}
use chat_application.Config.{World}
use chat_application.Logger.{print_erro_n_exit}
use chat_application.Server.Setup.{SysCall, Check, Started, listens, exits, effect, perform}

-- All of the calls succeed.
abbrev pub Succeed : (SysCall → Option ℕ) → List Check → Type 0
Succeed answer [] = Unit
Succeed answer (c ∷ calls) = (answer c.0 ≡ none) × Succeed answer calls

-- The state after them.
abbrev pub effects : (ℕ → ℕ) → List Check → World → World
effects eventfds [] w = w
effects eventfds (c ∷ calls) w = effects eventfds calls (effect eventfds c.0 w)

-- What may come of the calls: all succeed; or one fails after the calls before it have succeeded, and
-- none after it is made.
pub data Performs (strerror : ℕ → Bytes) (answer : SysCall → Option ℕ) (eventfds : ℕ → ℕ)
    (made calls : List Check) (w : World) (fd : ℕ) : Started → Type 0 where
  all_made :
      Succeed answer calls
      → Performs strerror answer eventfds made calls w fd
          (listens (made ++ calls) (effects eventfds calls w) fd)
  one_failed :
      (before after : List Check) (c : Check) (errno : ℕ)
      → calls ≡ before ++ c ∷ after
      → Succeed answer before
      → answer c.0 ≡ some errno
      → Performs strerror answer eventfds made calls w fd
          (exits (made ++ (before ++ c ∷ [])) (print_erro_n_exit strerror errno c.1))

module _ (strerror : ℕ → Bytes) (answer : SysCall → Option ℕ) (eventfds : ℕ → ℕ) (fd : ℕ) where
  later :
      (made calls : List Check) (c : Check) (w : World) {o : Started}
      → answer c.0 ≡ none
      → Performs strerror answer eventfds (made ++ c ∷ []) calls (effect eventfds c.0 w) fd o
      → Performs strerror answer eventfds made (c ∷ calls) w fd o
  later made calls c w good (all_made all) =
      rw (append_assoc made (c ∷ []) calls) (all_made (good, all))
  later made calls c w good (one_failed before after d errno e all bad) =
      rw (append_assoc made (c ∷ []) (before ++ d ∷ []))
        (one_failed (c ∷ before) after d errno (ap (λ t. c ∷ t) e) (good, all) bad)

  pub perform-Performs :
      (made calls : List Check) (w : World)
      → Performs strerror answer eventfds made calls w fd
          (perform strerror answer eventfds made calls w fd)
  unfolding perform
  perform-Performs made [] w =
      subst (λ m. Performs strerror answer eventfds made [] w fd (listens m w fd)) (append-nil made)
        (all_made tt)
  perform-Performs made (c ∷ calls) w = elim (Option-cases (answer c.0)) [
    | inl good ↦
        rw (good, perform)
          (later made calls c w good
            (perform-Performs (made ++ c ∷ []) calls (effect eventfds c.0 w)))
    | inr (errno, bad) ↦ rw (bad, perform) (one_failed [] calls c errno refl tt bad)
  ]
