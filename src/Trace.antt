-- ===== src/Trace.antt =====
-- What a list of events says: the operations on the semaphore of a worker, and what the server has
-- told the client on a descriptor about its being in a room.
pub mod Says
use chat_application.Prelude.{
  ℕ, zero, ◌+◌, ◌≡◌, Bool, true, false, List, [], ◌∷◌, ◌++◌, arith, ◌==◌, if◌then◌else◌,
}
use chat_application.CString.{Bytes, char_at}
use chat_application.Config.{
  Event, send, close, epoll_add, epoll_del, sem_wait, sem_post, notify, cmd_room_create_ok,
  cmd_room_join_ok, cmd_room_leave_ok,
}

-- The `sem_wait` and `sem_post` calls on the semaphore of worker `t`.
unfoldable pub waits : ℕ → List Event → ℕ
waits t [] = 0
waits t (sem_wait u ∷ es) = (if u == t then 1 else 0) + waits t es
waits t (e ∷ es) = waits t es

unfoldable pub posts : ℕ → List Event → ℕ
posts t [] = 0
posts t (sem_post u ∷ es) = (if u == t then 1 else 0) + posts t es
posts t (e ∷ es) = posts t es

-- Whether a message with this command tells the client that it is in a room.
abbrev pub told_in_room : ℕ → Bool → Bool
told_in_room cmd before =
    if cmd == cmd_room_create_ok
    then true
    else if cmd == cmd_room_join_ok
    then true
    else if cmd == cmd_room_leave_ok
    then false
    else before

unfoldable pub announced : ℕ → List Event → Bool → Bool
announced fd [] before = before
announced fd (send to text ∷ es) before =
    announced fd es (if to == fd then told_in_room (char_at text 0) before else before)
announced fd (e ∷ es) before = announced fd es before
