-- ===== src/ChatClient/Rounds.antt =====
-- `validate_and_format` and `handle_commands` of client/main.c on a line that `command` holds.
use chat_application.Prelude.{
  ℕ, ◌+◌, ◌≤◌, ◌<◌, ◌≡◌, refl, Bool, true, false, Option, none, some, [], ◌∷◌, arith, length, ltb,
  ◌==◌, Bool-cases, inl, inr,
}
use chat_application.CString.{Bytes, char_at}
use chat_application.CString.Laws.{write_text-fits}
use chat_application.Config.{max_content_len}
use chat_application.ChatClient.{skip_whitespace, word, scan, handle_commands, validate_and_format}

length-skip_whitespace-le : (s : Bytes) → length (skip_whitespace s) ≤ length s
unfolding skip_whitespace
length-skip_whitespace-le [] = omega arith
length-skip_whitespace-le (c ∷ s) = ground (arith, length-skip_whitespace-le s)

length-word : (s : Bytes) → length (word s).0 + length (word s).1 ≡ length s
unfolding word
length-word [] = refl
length-word (c ∷ s) = ground (arith, length-word s)

-- The first word of a text that begins with a slash is not empty.
slash-word : (s : Bytes) → (char_at s 0 == b'/') ≡ true → 0 < length (word (skip_whitespace s)).0
unfolding word skip_whitespace
slash-word [] h = absurd (ground arith)
slash-word (c ∷ s) h = let e : c ≡ b'/' = ground arith in rw e (omega arith)

-- No line of at most 127 bytes overruns the buffers of `sscanf`.
handle_commands-some :
    (is_in_room : Bool) (input : Bytes) (size : ℕ)
    → (char_at input 0 == b'/') ≡ true
    → length input ≤ 128
    → (r : Option Bytes) × (handle_commands is_in_room input size ≡ some r)
unfolding handle_commands scan
handle_commands-some is_in_room input size slash short =
    let first = skip_whitespace input in
    let second = skip_whitespace (word first).1 in
    let p = length-skip_whitespace-le input in
    let q = length-word (skip_whitespace input) in
    let r = length-skip_whitespace-le (word (skip_whitespace input)).1 in
    let k = length-word (skip_whitespace (word (skip_whitespace input)).1) in
    let l = slash-word input slash in
    rw
      (
        write_text-fits 512 (word (skip_whitespace input)).0 (omega arith),
        write_text-fits max_content_len (word (skip_whitespace (word (skip_whitespace input)).1)).0
            (omega arith),
      )
      (_, refl)

pub validate_and_format-some :
    (is_running is_in_room : Bool) (input : Bytes) (size : ℕ)
    → length input ≤ 128
    → (r : Option Bytes) × (validate_and_format is_running is_in_room input size ≡ some r)
unfolding validate_and_format
validate_and_format-some false is_in_room input size short = (none, refl)
validate_and_format-some true false input size short = elim (Bool-cases (char_at input 0 == b'/')) [
  | inl slash ↦ rw slash (handle_commands-some false input size slash short)
  | inr other ↦ rw other (none, refl)
]
validate_and_format-some true true input size short = elim (Bool-cases (char_at input 0 == b'/')) [
  | inl slash ↦ rw slash (handle_commands-some true input size slash short)
  | inr other ↦ rw other (elim (Bool-cases (ltb max_content_len (length input))) [
    | inl long ↦ rw long (none, refl)
    | inr fits ↦ rw fits (_, refl)
  ])
]
