-- ===== src/Lib.antt =====
-- Chat application: the server and its client, modelled from its C sources.
--
-- The program. Clients connect over TCP and send messages `<command><space><content>\r\n`
-- (protocol.md). The main thread accepts connections and hands each to one of four workers; a
-- worker watches its clients with epoll, cuts what they send into messages, and runs each message
-- by the state of its client: waiting for a name, in the lobby, or in one of fifty chat rooms,
-- which all workers share.
--
-- The model. `Config.World` is what the threads share: the rooms, the clients of all workers by
-- address, the counts of the workers, the static index of the distributor, and the calls to the
-- kernel so far. A handler is a function from the state to `Option World`, where `none` is a write
-- past the end of a buffer. What the kernel answers (to recv, send, read, write, epoll_ctl,
-- setsockopt, accept4) is an argument; what close, sem_post and the like answer is only logged by
-- the sources, and is left out.
--
--   Trace               what the calls so far say of semaphores, and tell a client about its room
--   Config, CString     server/protocol.h, server/server_config.h; the string functions of C
--   Logger              server/logger.c and server/logger.h: what a call of `log_message` prints
--   Send                `send_message_to_client` of server/client_state_manager.c
--   RoomManager         server/room_manager.c: one function for each of the source's, under its
--                       name, and its loops over the client pointers in RoomManager/Slots
--   ClientStateManager  server/client_state_manager.c, from `read_and_process_client_message` to
--                       the handlers of the states
--   ConnectionHandler   server/connection_handler.c: new clients and the dispatch of events
--   ClientDistributor   server/client_distributor.c: the choice of a worker and the handing over
--   Server              server/main.c: the state at the start, and the steps of the threads. Sound
--                       is the invariant of the running server, Reach the states that the steps
--                       lead to, and Mailbox the calls on eventfd and semaphore, of the main thread
--                       and of a worker, each a step of its own; Setup is the calls of main before
--                       the accept loop
--   ChatClient          client/main.c: lines typed by the user, the messages made of them, and what
--                       is received; Dialogue joins client and server: a line, the answers of the
--                       server, and the client again; Display is what is shown, to the sender's
--                       room in the end; Program is main and its two threads, in any order of
--                       their steps
--   UserInterface       client/user_interface.c: the geometry of the windows, and the calls of
--                       ncurses of the two display functions
--   Membership          the invariant `IsConsistent`: rooms and clients agree; Bag takes a room as
--                       its clients, in no order
--   Prelude, Tests      shared names and lemmas; the theorems applied to concrete states
--
-- Bounds. C's `int` counters are unbounded integers here (`Prelude.Int`): the sources only add
-- and subtract one. Descriptors are natural numbers. A byte is its code; `char` is signed in C, which
-- the check of the command treats alike. The loop over the messages of a chunk runs on fuel one
-- above the length of the chunk, which is enough since each round takes two bytes.
--
-- The semaphore lets at most one client be on the way to a worker; Server.Reach allows any number,
-- and Server.Mailbox is about that one. An entry of an event queue is admissible (Server.Sound.Events)
-- if it tells of a client on its way, or if its descriptor is not 0 and what is received fits: then
-- CMD_EXIT comes last in the chunk, the text kept stays below 396 bytes, and the rooms in use and the
-- messages are at most 42 together, for which the room list fits. Where that fails the sources write
-- past a buffer or go on with a client that has left.
--
-- In ChatClient.Program a step of a thread goes up to its next access to a flag or to the socket,
-- and shows what is shown on the way; `validate_and_format` reads both flags in one step. There
-- `none` is a step of a thread that has ended or waits, or a write past a buffer. `wgetnstr` is given
-- the whole size of its buffer, so that a line of 128 bytes, or a name of 32, has its null byte written
-- past the end: that is `none` too, and what is said of the client is of lines that fit.
--
-- Not modelled: what the server logs where (the calls of the log macros in its modules), main's one
-- printf, and the mutexes of the log and of the windows; what a worker does before `start` has made
-- its last call (Reach has its first step, `start_worker`, at any time after); the locks of the
-- rooms and of the counts, since each handler of the server runs as one step here (but for the
-- hand-over); that `send_message_to_client` may try again for ever while the socket is full
-- (Send.Transmit has the answers of send one by one, but a message is one event of a handler), and
-- that `sem_wait` may block (in Server.Mailbox it does, in `distribute_client` it returns); what
-- ncurses and the terminal make of a call; signals.
pub mod Prelude
pub mod CString
pub mod Config
pub mod Trace
pub mod Logger
pub mod Send
pub mod Membership
pub mod RoomManager
pub mod ClientStateManager
pub mod ConnectionHandler
pub mod ClientDistributor
pub mod Server
pub mod ChatClient
pub mod UserInterface
pub mod Tests
