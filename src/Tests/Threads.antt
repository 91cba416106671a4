-- ===== src/Tests/Threads.antt =====
-- Applications of the theorems on the threads: server/client_distributor.c,
-- server/connection_handler.c and server/main.c; and on `send_message_to_client`.
use chat_application.Tests.{start}
use chat_application.Prelude.{Bool, ℕ, ◌≡◌, true, some, arith, List, [], ◌∷◌, ◌++◌, Option, false}
use chat_application.CString.{codes}
use chat_application.Config.{World}
use chat_application.Send.{SendResult, failed, accepted, transmit}
use chat_application.Send.Transmit.{taken, transmit-taken}
use chat_application.ClientDistributor.{distribute_client}
use chat_application.ClientDistributor.Handover.{Distributes, distribute_client-Distributes}
use chat_application.Server.{Accepted, accept_connection}
use chat_application.Server.Accept.{Accepts, accept_connection-Accepts}

-- The kernel takes two bytes, has no room, and takes the rest.
abbrev answers : List SendResult
answers = accepted 2 ∷ failed true ∷ accepted 9 ∷ []

transmit-taken_example :
    taken answers (codes "hello") ++ (transmit answers (codes "hello")).1 ≡ codes "hello"
transmit-taken_example = transmit-taken answers (codes "hello")

distribute_client-Distributes_example :
    (w' : World) × (distribute_client 9 true start ≡ some w') × Distributes 9 true start w'
distribute_client-Distributes_example = distribute_client-Distributes 9 true start (omega arith)

-- A connection whose settings fail, and one that goes well
abbrev round : Option ℕ → Bool → Accepted
round client_fd keepalive = record {
  client_fd = client_fd;
  keepalive = keepalive;
  idle = true;
  interval = true;
  probes = true;
  can_write = true;
}

accept_connection-Accepts_example :
    (w' : World) × (accept_connection (round (some 9) false) (some 9) start ≡ some w')
    × Accepts (round (some 9) false) start w'
accept_connection-Accepts_example =
    accept_connection-Accepts (round (some 9) false) start (omega arith)
