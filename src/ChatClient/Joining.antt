-- ===== src/ChatClient/Joining.antt =====
-- The numbers of the room list, typed behind `/join`, come back as those numbers at the server.
use chat_application.Prelude.{
  ℕ, ◌+◌, ◌*◌, ◌/◌, ◌%◌, ◌≤◌, ◌<◌, ◌≡◌, refl, ap, true, false, some, [], ◌∷◌, ◌++◌, arith, length,
  length-append, ltb, ◌==◌, Bool-cases, inl, inr,
}
use chat_application.CString.{Bytes, codes, write_text, isdigit, atoi, decimal}
use chat_application.Config.{Client, max_message_len_to_server}
use chat_application.RoomManager.{content, parse_room_number}
use chat_application.ClientStateManager.Framing.{frames}
use chat_application.ChatClient.{
  isspace, skip_whitespace, word, has_whitespace, with_arg, scan, format_found, format_scanned,
  handle_commands, validate_and_format,
}
use chat_application.ChatClient.Lines.{frames-line, has_no_cr-of_word, snprintf-fits}

-- The text of a number below 100: one digit, or two.
data IsDecimal (i : ℕ) : Bytes → Type 0 where
  one_digit : i < 10 → IsDecimal i ((i + 48) ∷ [])
  two_digits : (a b : ℕ) → a < 10 → b < 10 → i ≡ a * 10 + b → IsDecimal i ((a + 48) ∷ (b + 48) ∷ [])

decimal-IsDecimal : (i : ℕ) → i < 100 → IsDecimal i (decimal i)
unfolding decimal
decimal-IsDecimal i h = elim (Bool-cases (ltb i 10)) [
  | inl small ↦ rw small (one_digit (ground arith))
  | inr large ↦ rw large (two_digits (i / 10) (i % 10) (omega arith) (omega arith) (omega arith))
]

digit :
    (a : ℕ)
    → a < 10
    → (isdigit (a + 48) ≡ true) × (isspace (a + 48) ≡ false) × ((a + 48 == 0) ≡ false)
unfolding isdigit
digit a h = (ground arith, ground arith, ground arith)

parse-IsDecimal :
    (i : ℕ) (s : Bytes) (client : Client)
    → content client ≡ s
    → IsDecimal i s
    → parse_room_number client ≡ some i
unfolding parse_room_number atoi
parse-IsDecimal i s client e (one_digit p) = rw (e, (digit i p).0) (ap some (omega arith))
parse-IsDecimal i s client e (two_digits a b p q eq) =
    rw (e, (digit a p).0, (digit b q).0, (digit b q).2) (ap some (omega arith))

-- The digits of a number below 100, as the content of a message, are read as that number.
pub parse_room_number-decimal :
    (i : ℕ) (client : Client)
    → i < 100
    → content client ≡ decimal i
    → parse_room_number client ≡ some i
parse_room_number-decimal i client h e =
    parse-IsDecimal i (decimal i) client e (decimal-IsDecimal i h)

has_whitespace-IsDecimal : (i : ℕ) (s : Bytes) → IsDecimal i s → has_whitespace s ≡ false
has_whitespace-IsDecimal i s (one_digit p) = rw (digit i p).1 refl
has_whitespace-IsDecimal i s (two_digits a b p q eq) = rw ((digit a p).1, (digit b q).1) refl

word-IsDecimal : (i : ℕ) (s : Bytes) → IsDecimal i s → (word s ≡ (s, [])) × (skip_whitespace s ≡ s)
unfolding word skip_whitespace
word-IsDecimal i s (one_digit p) = (rw (digit i p).1 refl, rw (digit i p).1 refl)
word-IsDecimal i s (two_digits a b p q eq) =
    (rw ((digit a p).1, (digit b q).1) refl, rw (digit a p).1 refl)

length-IsDecimal : (i : ℕ) (s : Bytes) → IsDecimal i s → (0 < length s) × (length s ≤ 2)
length-IsDecimal i s (one_digit p) = omega arith
length-IsDecimal i s (two_digits a b p q eq) = omega arith

-- What `sscanf` makes of the line.
scan-join_line :
    (i : ℕ) (s : Bytes)
    → IsDecimal i s
    → scan (codes "/join " ++ s) ≡ some (record { num_args = 2; cmd = codes "/join"; arg1 = s })
unfolding scan write_text word skip_whitespace
scan-join_line i s d =
    let some_text : (length s == 0) ≡ false = ground (arith, length-IsDecimal i s d) in
    let fits : ltb (length s) 128 ≡ true = ground (arith, length-IsDecimal i s d) in
    rw ((word-IsDecimal i s d).1, (word-IsDecimal i s d).0, fits, some_text) refl

join_line-sent :
    (i : ℕ) (s : Bytes)
    → IsDecimal i s
    → validate_and_format true false (codes "/join " ++ s) max_message_len_to_server
      ≡ some (some (with_arg 5 s))
unfolding validate_and_format handle_commands format_scanned format_found
join_line-sent i s d = rw (scan-join_line i s d) (
    ap (λ t. some (some t))
      (snprintf-fits 132 (with_arg 5 s)
        (omega (arith, length-IsDecimal i s d, length-append s (b'\r' ∷ b'\n' ∷ [])))))

join_line-framed :
    (i : ℕ) (s : Bytes) → IsDecimal i s → frames (with_arg 5 s) ≡ ((5 ∷ b' ' ∷ s) ∷ [], [])
join_line-framed i s d =
    let no_cr = has_no_cr-of_word s (has_whitespace-IsDecimal i s d) in
    frames-line (5 ∷ b' ' ∷ s) (rw no_cr refl)

-- For a number below 100, in the decimal digits of the room list, the line /join with that number
-- is sent by a client outside a room as one message, with nothing left over, from which the server
-- reads that number.
pub validate_and_format-parse_room_number :
    (i : ℕ) (client : Client)
    → i < 100
    → (msg : Bytes) × (validate_and_format true false
          (codes "/join " ++ decimal i)
          max_message_len_to_server
        ≡ some (some (msg ++ b'\r' ∷ b'\n' ∷ [])))
      × (frames (msg ++ b'\r' ∷ b'\n' ∷ []) ≡ (msg ∷ [], []))
      × (parse_room_number (record client { current_msg = msg }) ≡ some i)
validate_and_format-parse_room_number i client h =
    let d = decimal-IsDecimal i h in
    (
      5 ∷ b' ' ∷ decimal i,
      join_line-sent i (decimal i) d,
      join_line-framed i (decimal i) d,
      parse_room_number-decimal i (record client { current_msg = 5 ∷ b' ' ∷ decimal i }) h refl,
    )
