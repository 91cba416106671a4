-- ===== src/ChatClient/Program/Names.antt =====
-- `get_username` of client/main.c: the names that its checks let pass.
use chat_application.Prelude.{
  ◌+◌, ◌≤◌, ◌<◌, ◌≡◌, ◌≢◌, ◌⊎◌, refl, ap, subst, true, false, none, some, inl, inr, [], ◌∷◌, ◌++◌,
  arith, length, length-append, ltb, ◌==◌, ==_refl, Bool-cases,
}
use chat_application.CString.{Bytes, codes}
use chat_application.ChatClient.{isspace, has_whitespace, first_line, same_text, name_command}
use chat_application.ChatClient.Lines.{length-first_line-le, same_text→eq, snprintf-fits}

abbrev pub HasNoSpace : Bytes → Type 0
HasNoSpace [] = Unit
HasNoSpace (c ∷ s) = (isspace c ≡ false) × HasNoSpace s

-- A name that can be taken.
pub record IsName (name : Bytes) : Type 0 where
  some_byte : 0 < length name
  no_space : HasNoSpace name
  no_exit : name ≢ codes "/exit"
  no_help : name ≢ codes "HELP"

has_whitespace-HasNoSpace : (s : Bytes) → has_whitespace s ≡ false → HasNoSpace s
has_whitespace-HasNoSpace [] h = tt
has_whitespace-HasNoSpace (c ∷ s) h = (ground arith, has_whitespace-HasNoSpace s (ground arith))

HasNoSpace-has_whitespace : (s : Bytes) → HasNoSpace s → has_whitespace s ≡ false
HasNoSpace-has_whitespace [] h = refl
HasNoSpace-has_whitespace (c ∷ s) h = rw h.0 (HasNoSpace-has_whitespace s h.1)

same_text_refl : (s : Bytes) → same_text s s ≡ true
same_text_refl [] = refl
same_text_refl (c ∷ s) = rw (==_refl c) (same_text_refl s)

different : (a b : Bytes) → same_text a b ≡ false → a ≢ b
different a b h e =
    let same : same_text a b ≡ true = subst (λ t. same_text a t ≡ true) e (same_text_refl a) in
    ground arith

-- The packet with a name.
abbrev pub name_packet : Bytes → Bytes
name_packet name = (2 ∷ b' ' ∷ name) ++ b'\r' ∷ b'\n' ∷ []

length-packet : (name : Bytes) → length (name_packet name) ≡ length name + 4
length-packet name = omega (arith, length-append name (b'\r' ∷ b'\n' ∷ []))

-- A line that fits in `username`: its first line is a name, and the packet with it is made, or it is
-- none, and it is refused.
module _ (line : Bytes) (short : length line ≤ 31) where
  abbrev pub Decided : Type 0
  Decided =
      (¬ IsName (first_line line) × (name_command line ≡ none))
      ⊎ (IsName (first_line line) × (name_command line ≡ some (name_packet (first_line line))))

  pub name_command-Decided : Decided
  unfolding name_command
  name_command-Decided =
      let fits : ltb 31 (length line) ≡ false = ground (arith, short) in
      let name = first_line line in
      let whole =
        snprintf-fits 256 (name_packet name)
          (omega (arith, length-packet name, length-first_line-le line)) in
      rw fits (elim (Bool-cases (length name == 0)) [
        | inl empty ↦ rw empty (inl (λ n. ground (arith, n.some_byte, empty), refl))
        | inr filled ↦ elim (Bool-cases (has_whitespace name)) [
          | inl space ↦
              rw (filled, space)
                (inl (λ n. ground (arith, HasNoSpace-has_whitespace name n.no_space, space), refl))
          | inr plain ↦ elim (Bool-cases (same_text name (codes "/exit"))) [
            | inl e ↦
                rw (filled, plain, e)
                  (inl (λ n. n.no_exit (same_text→eq name (codes "/exit") e), refl))
            | inr no_exit ↦ elim (Bool-cases (same_text name (codes "HELP"))) [
              | inl e ↦
                  rw (filled, plain, no_exit, e)
                    (inl (λ n. n.no_help (same_text→eq name (codes "HELP") e), refl))
              | inr no_help ↦
                  rw (filled, plain, no_exit, no_help)
                    (inr (
                      record {
                        some_byte = ground (arith, filled);
                        no_space = has_whitespace-HasNoSpace name plain;
                        no_exit = different name (codes "/exit") no_exit;
                        no_help = different name (codes "HELP") no_help;
                      },
                      ap (λ t. some t) whole,
                    ))
            ]
          ]
        ]
      ])
