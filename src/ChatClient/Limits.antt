-- ===== src/ChatClient/Limits.antt =====
-- The limits of what the client sends: names, the longest lines, and the buffers.
use chat_application.Prelude.{
  ℕ, zero, suc, ◌+◌, ◌≤◌, ◌<◌, ◌≡◌, refl, sym, ap, true, false, some, [], ◌∷◌, ◌++◌, arith, length,
  take, ltb, ◌==◌, inl,
}
use chat_application.CString.{Bytes, char_at}
use chat_application.Config.{awaiting_username, max_content_len, max_message_len_to_server}
use chat_application.ClientStateManager.Framing.{frames}
use chat_application.ChatClient.{
  with_arg, snprintf, validate_and_format, first_line, has_whitespace, name_command,
}
use chat_application.ChatClient.Lines.{
  length-first_line-le, has_no_cr, has_no_cr-of_word, is_blank-of_word,
}
use chat_application.ChatClient.Commands.{IsAccepted, content-IsAccepted}

-- The message for a name that passes the checks of the client is one message that the checks of
-- the server let pass, for a client that waits for its name.
pub name_command-IsAccepted :
    (line out : Bytes) → name_command line ≡ some out → IsAccepted awaiting_username out
unfolding name_command
name_command-IsAccepted line out h =
    let shorter = length-first_line-le line in
    let short : length line ≤ 31 = ground arith in
    let some_text : 0 < length (first_line line) = ground arith in
    let plain : has_whitespace (first_line line) ≡ false = ground arith in
    let e : snprintf 256 (with_arg 2 (first_line line)) ≡ out = ground arith in
    rw (sym e) (
      content-IsAccepted 256 awaiting_username 2 (first_line line) (omega arith) (omega arith)
        (omega arith) (omega arith) (is_blank-of_word (first_line line) some_text plain)
        (has_no_cr-of_word (first_line line) plain) (inl refl))

-- Without a `\n` there is no message.
pub frames-cr_last :
    (s : Bytes) → has_no_cr s ≡ true → frames (s ++ b'\r' ∷ []) ≡ ([], s ++ b'\r' ∷ [])
unfolding frames
frames-cr_last [] h = refl
frames-cr_last (c ∷ []) h = ground arith
frames-cr_last (c ∷ d ∷ s) h =
    let rest = frames-cr_last (d ∷ s) (ground arith) in
    let other : (c == b'\r') ≡ false = ground arith in rw (other, rest) refl

take-append : (m n : ℕ) (s t : Bytes) → m ≡ length s + n → take m (s ++ t) ≡ s ++ take n t
take-append m n [] t h = ap (λ k. take k t) (omega arith)
take-append zero n (c ∷ s) t h = absurd (omega arith)
take-append (suc m) n (c ∷ s) t h = ap (λ r. c ∷ r) (take-append m n s t (omega arith))

-- A line of 128 bytes that does not begin with a slash and has no carriage return is sent in a
-- room without the last byte of its terminator: the server finds no message in it.
pub validate_and_format-cut :
    (input : Bytes)
    → (char_at input 0 == b'/') ≡ false
    → length input ≡ 128
    → has_no_cr input ≡ true
    → (out : Bytes) × (validate_and_format true true input max_message_len_to_server
        ≡ some (some out))
      × (frames out ≡ ([], out))
unfolding validate_and_format
validate_and_format-cut input typed long no_cr =
    let fits : ltb max_content_len (length input) ≡ false = ground arith in
    let out = (7 ∷ b' ' ∷ input) ++ b'\r' ∷ [] in
    (
      out,
      rw (typed, fits)
          (ap (λ r. some (some (7 ∷ b' ' ∷ r)))
            (take-append 129 1 input (b'\r' ∷ b'\n' ∷ []) (omega arith))),
      frames-cr_last (7 ∷ b' ' ∷ input) (ground arith),
    )
