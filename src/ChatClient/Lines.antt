-- ===== src/ChatClient/Lines.antt =====
-- What the client sends, cut into messages by the server.
use chat_application.Prelude.{
  ℕ, zero, suc, ◌-◌, ◌≤◌, ◌<◌, ◌≡◌, refl, ap, Bool, true, false, not, [], ◌∷◌, ◌++◌, arith, length,
  take, all, ◌==◌, Bool-cases, inl, inr,
}
use chat_application.CString.{Bytes}
use chat_application.ClientStateManager.Format.{is_blank}
use chat_application.ClientStateManager.Framing.{frames}
use chat_application.ChatClient.{isspace, word, same_text, snprintf, has_whitespace, first_line}

abbrev pub has_no_cr : Bytes → Bool
has_no_cr = all (λ c. not (c == b'\r'))

-- A text without `\r` and a terminator are one message.
pub frames-line : (s : Bytes) → has_no_cr s ≡ true → frames (s ++ b'\r' ∷ b'\n' ∷ []) ≡ (s ∷ [], [])
unfolding frames
frames-line [] h = refl
frames-line (c ∷ []) h = ground arith
frames-line (c ∷ d ∷ s) h =
    let rest : frames (d ∷ (s ++ b'\r' ∷ b'\n' ∷ [])) ≡ ((d ∷ s) ∷ [], []) =
      frames-line (d ∷ s) (ground arith) in
    let other : (c == b'\r') ≡ false = ground arith in rw (other, rest) refl

take-all : (n : ℕ) (s : Bytes) → length s ≤ n → take n s ≡ s
take-all zero [] h = refl
take-all zero (c ∷ s) h = absurd (omega arith)
take-all (suc n) [] h = refl
take-all (suc n) (c ∷ s) h = ap (λ t. c ∷ t) (take-all n s (omega arith))

-- A text that fits is printed whole.
pub snprintf-fits : (size : ℕ) (text : Bytes) → length text < size → snprintf size text ≡ text
snprintf-fits size text h = take-all (size - 1) text (omega arith)

pub same_text→eq : (a b : Bytes) → same_text a b ≡ true → a ≡ b
same_text→eq [] [] h = refl
same_text→eq [] (d ∷ b) h = absurd (ground arith)
same_text→eq (c ∷ a) [] h = absurd (ground arith)
same_text→eq (c ∷ a) (d ∷ b) h =
    let here : c ≡ d = ground arith in
    let rest = same_text→eq a b (ground arith) in rw (here, rest) refl

-- A word has no whitespace in it.
pub has_whitespace-word : (s : Bytes) → has_whitespace (word s).0 ≡ false
unfolding word
has_whitespace-word [] = refl
has_whitespace-word (c ∷ s) = elim (Bool-cases (isspace c)) [
  | inl e ↦ rw e refl
  | inr e ↦ rw (e, e) (has_whitespace-word s)
]

-- A text without whitespace has no `\r` in it, and is not blank unless it is empty.
pub has_no_cr-of_word : (s : Bytes) → has_whitespace s ≡ false → has_no_cr s ≡ true
has_no_cr-of_word [] h = refl
has_no_cr-of_word (c ∷ s) h = let rest = has_no_cr-of_word s (ground arith) in ground arith

pub is_blank-of_word : (s : Bytes) → 0 < length s → has_whitespace s ≡ false → is_blank s ≡ false
is_blank-of_word [] p h = absurd (omega arith)
is_blank-of_word (c ∷ s) p h = ground arith

pub length-first_line-le : (s : Bytes) → length (first_line s) ≤ length s
unfolding first_line
length-first_line-le [] = omega arith
length-first_line-le (c ∷ s) = ground (arith, length-first_line-le s)
