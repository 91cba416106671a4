-- ===== src/ChatClient/Receiving/Chunks.antt =====
-- What becomes of the messages of the server, by the chunks in which they arrive.
use chat_application.Prelude.{
  ℕ, zero, suc, ◌+◌, ◌≤◌, ◌<◌, ◌≡◌, ◌≢◌, refl, ap, true, false, some, List, [], ◌∷◌, ◌++◌, ◌==◌,
  if◌then◌else◌, arith, Bool-cases, inl, inr, length,
}
use chat_application.CString.{Bytes, c_string, char_at}
use chat_application.Config.{
  Event, send, close, epoll_add, epoll_del, sem_wait, sem_post, notify, max_message_len_from_server,
  msg_terminator,
}
use chat_application.Send.{packet}
use chat_application.ChatClient.{Session, parse_server_msg}
use chat_application.ChatClient.Lines.{has_no_cr}
use chat_application.ChatClient.Replies.{heard}
use chat_application.ChatClient.Receiving.{
  Chunk, received, take_chunk, receive_message, receive_messages, sanitize, shown_message,
}

-- A text that `recv` can deliver whole and that does not begin with a byte 0.
abbrev pub IsText : Bytes → Type 0
IsText text = (0 < length text) × (char_at text 0 ≢ 0)

-- Every message that is sent to the descriptor is such a text.
unfoldable pub IsReadable : ℕ → List Event → Type 0
IsReadable fd [] = Unit
IsReadable fd (send to text ∷ es) = (to ≡ fd → IsText text) × IsReadable fd es
IsReadable fd (close to ∷ es) = IsReadable fd es
IsReadable fd (epoll_add t to ∷ es) = IsReadable fd es
IsReadable fd (epoll_del t to ∷ es) = IsReadable fd es
IsReadable fd (sem_wait t ∷ es) = IsReadable fd es
IsReadable fd (sem_post t ∷ es) = IsReadable fd es
IsReadable fd (notify t to ∷ es) = IsReadable fd es

-- The messages that are sent to the descriptor, each in a chunk of its own.
pub one_by_one : ℕ → List Event → List Chunk
one_by_one fd [] = []
one_by_one fd (send to text ∷ es) =
    let rest = one_by_one fd es in if to == fd then received text ∷ rest else rest
one_by_one fd (close to ∷ es) = one_by_one fd es
one_by_one fd (epoll_add t to ∷ es) = one_by_one fd es
one_by_one fd (epoll_del t to ∷ es) = one_by_one fd es
one_by_one fd (sem_wait t ∷ es) = one_by_one fd es
one_by_one fd (sem_post t ∷ es) = one_by_one fd es
one_by_one fd (notify t to ∷ es) = one_by_one fd es

one_text :
    (text : Bytes) (s : Session)
    → s.is_running ≡ true
    → IsText text
    → receive_message (received text) s ≡ some (true, parse_server_msg text s)
unfolding receive_message take_chunk c_string
one_text [] s running h = absurd (omega (arith, h.0))
one_text (c ∷ text) s running h =
    let some_byte : (c == 0) ≡ false = ground (arith, h.1) in rw (running, some_byte) refl

-- Where each message that is sent to the descriptor of a running client arrives in a chunk of its
-- own, and none is empty or begins with a byte 0, the loop of receive_message does what parsing
-- them one by one does.
pub receive_messages-heard :
    (fd : ℕ) (es : List Event) (s : Session)
    → s.is_running ≡ true
    → IsReadable fd es
    → receive_messages (one_by_one fd es) s ≡ some (heard fd es s)
unfolding receive_messages one_by_one heard IsReadable
receive_messages-heard fd [] s running h = refl
receive_messages-heard fd (send to text ∷ es) s running (here, later) =
    elim (Bool-cases (to == fd)) [
      | inl own ↦
          rw (own, one_text text s running (here (ground arith)))
            (receive_messages-heard fd es (parse_server_msg text s) running later)
      | inr other ↦ rw other (receive_messages-heard fd es s running later)
    ]
receive_messages-heard fd (close to ∷ es) s running h = receive_messages-heard fd es s running h
receive_messages-heard fd (epoll_add t to ∷ es) s running h =
    receive_messages-heard fd es s running h
receive_messages-heard fd (epoll_del t to ∷ es) s running h =
    receive_messages-heard fd es s running h
receive_messages-heard fd (sem_wait t ∷ es) s running h = receive_messages-heard fd es s running h
receive_messages-heard fd (sem_post t ∷ es) s running h = receive_messages-heard fd es s running h
receive_messages-heard fd (notify t to ∷ es) s running h = receive_messages-heard fd es s running h

-- What is shown
sanitize-has_no_cr : (n : ℕ) (s : Bytes) → has_no_cr (sanitize n s) ≡ true
unfolding sanitize
sanitize-has_no_cr zero s = refl
sanitize-has_no_cr (suc n) [] = refl
sanitize-has_no_cr (suc n) (c ∷ s) = elim (Bool-cases (c == b'\r')) [
  | inl cr ↦ rw cr (sanitize-has_no_cr n s)
  | inr other ↦ rw (other, other) (sanitize-has_no_cr n s)
]

sanitize-nil : (n : ℕ) → sanitize n [] ≡ []
unfolding sanitize
sanitize-nil zero = refl
sanitize-nil (suc n) = refl

sanitize-line :
    (n : ℕ) (s : Bytes)
    → has_no_cr s ≡ true
    → length s + 2 ≤ n
    → sanitize n (s ++ msg_terminator) ≡ s ++ b'\n' ∷ []
unfolding sanitize
sanitize-line zero s h p = absurd (omega arith)
sanitize-line (suc zero) s h p = absurd (omega arith)
sanitize-line (suc (suc n)) [] h p = ap (λ t. 10 ∷ t) (sanitize-nil n)
sanitize-line (suc (suc n)) (c ∷ s) h p =
    let other : (c == b'\r') ≡ false = ground arith in
    rw other (ap (λ t. c ∷ t) (sanitize-line (suc n) s (ground arith) (omega arith)))

-- A packet without a carriage return in its text that fits its buffer is shown without the command,
-- on a line.
pub shown_message-packet :
    (cmd : ℕ) (text : Bytes)
    → has_no_cr text ≡ true
    → length text + 4 ≤ max_message_len_from_server
    → shown_message (packet cmd text) ≡ (b' ' ∷ text) ++ b'\n' ∷ []
unfolding shown_message
shown_message-packet cmd text h p = sanitize-line 1455 (b' ' ∷ text) h (omega arith)
