-- ===== src/Send/Packet.antt =====
-- When a message fits the buffer of `send_message_to_client`, and what is sent then.
use chat_application.Prelude.{
  ℕ, ◌+◌, ◌≤◌, ◌<◌, ◌≡◌, ap, some, none, List, [], ◌∷◌, ◌++◌, append-nil, append_assoc, arith,
  length, length-append,
}
use chat_application.CString.{Bytes}
use chat_application.Config.{World, Event, send, emit, msg_terminator}
use chat_application.Send.{packet, send_message_to_client}

pub length-packet : (cmd : ℕ) (message : Bytes) → length (packet cmd message) ≡ length message + 4
length-packet cmd message = omega (arith, length-append message msg_terminator)

-- A message of at most 1451 bytes is sent whole.
pub send_message_to_client-fits :
    (fd cmd : ℕ) (message : Bytes) (w : World)
    → length message < 1452
    → send_message_to_client fd cmd message w ≡ some (emit (send fd (packet cmd message) ∷ []) w)
unfolding send_message_to_client
send_message_to_client-fits fd cmd message w h = ground (arith, length-packet cmd message)

-- A longer one is written past the end of the buffer.
pub send_message_to_client-overflows :
    (fd cmd : ℕ) (message : Bytes) (w : World)
    → 1452 ≤ length message
    → send_message_to_client fd cmd message w ≡ none
unfolding send_message_to_client
send_message_to_client-overflows fd cmd message w h = ground (arith, length-packet cmd message)

pub emit-nil : (w : World) → emit [] w ≡ w
emit-nil w = ap (λ t. record w { trace = t }) (append-nil w.trace)

pub emit-emit : (xs ys : List Event) (w : World) → emit ys (emit xs w) ≡ emit (xs ++ ys) w
emit-emit xs ys w = ap (λ t. record w { trace = t }) (append_assoc w.trace xs ys)
