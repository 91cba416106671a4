-- ===== src/Tests/Rooms.antt =====
-- Applications of the theorems on server/room_manager.c, and of those on the client's side of it.
use chat_application.Tests.{start, request, with_ann, with_ann-IsConsistent, asking_to_create}
use chat_application.Prelude.{◌≡◌, refl, none, some, arith, true}
use chat_application.CString.{codes}
use chat_application.Config.{World, in_chat_lobby}
use chat_application.Membership.{IsConsistent}
use chat_application.RoomManager.{create_chat_room, join_chat_room, send_avail_rooms}
use chat_application.RoomManager.Listing.Bound.{send_avail_rooms-full_house}
use chat_application.RoomManager.Create.{Creates, create_chat_room-Creates}
use chat_application.RoomManager.Join.{Joins, join_chat_room-Joins}

create_chat_room-Creates_example :
    (w' : World) × (create_chat_room 0 asking_to_create ≡ some w') × Creates 0 asking_to_create w'
create_chat_room-Creates_example =
    create_chat_room-Creates 0 asking_to_create
      (with_ann-IsConsistent in_chat_lobby (request 3 (codes "den")) refl) (omega arith)

abbrev asking_to_join : World
asking_to_join = with_ann in_chat_lobby (request 5 (codes "0"))

asking_to_join-IsConsistent : IsConsistent asking_to_join.rooms asking_to_join.clients
asking_to_join-IsConsistent = with_ann-IsConsistent in_chat_lobby (request 5 (codes "0")) refl

join_chat_room-Joins_example :
    (w' : World) × (join_chat_room 0 asking_to_join ≡ some w') × Joins 0 asking_to_join w'
join_chat_room-Joins_example = join_chat_room-Joins 0 asking_to_join asking_to_join-IsConsistent

-- All rooms in use, under names of 24 bytes
abbrev crowded : World
crowded = record start {
  rooms =
      λ r. record (start.rooms r) { in_use = true; room_name = codes "a room with a long name!" };
}

send_avail_rooms-full_house_example : send_avail_rooms 0 crowded ≡ none
send_avail_rooms-full_house_example =
    send_avail_rooms-full_house 0 crowded (λ r h. (refl, omega arith, omega arith))
