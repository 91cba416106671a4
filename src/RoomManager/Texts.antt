-- ===== src/RoomManager/Texts.antt =====
-- The texts that server/room_manager.c sends, with the lengths that its buffers must hold.
use chat_application.Prelude.{◌≡◌, refl, length}
use chat_application.CString.{Bytes, codes}

unfoldable pub name_invalid : Bytes
name_invalid = codes "Room creation failed: Room name length invalid\n"

pub length-name_invalid : length name_invalid ≡ 47
unfolding name_invalid
length-name_invalid = refl

unfoldable pub rooms_exhausted : Bytes
rooms_exhausted = codes "Room creation failed: Maximum number of rooms reached\n"

pub length-rooms_exhausted : length rooms_exhausted ≡ 54
unfolding rooms_exhausted
length-rooms_exhausted = refl

unfoldable pub created : Bytes
created = codes "Room created successfully: "

pub length-created : length created ≡ 27
unfolding created
length-created = refl

unfoldable pub list_header : Bytes
list_header = codes "=== Available Chat Rooms ===\n\n"

pub length-list_header : length list_header ≡ 30
unfolding list_header
length-list_header = refl

unfoldable pub room_word : Bytes
room_word = codes "Room "

pub length-room_word : length room_word ≡ 5
unfolding room_word
length-room_word = refl

unfoldable pub no_rooms : Bytes
no_rooms =
    codes "No chat rooms available!\nUse the create room command to start your own chat room.\n"

pub length-no_rooms : length no_rooms ≡ 82
unfolding no_rooms
length-no_rooms = refl

unfoldable pub left_suffix : Bytes
left_suffix = codes " left the room\n"

pub length-left_suffix : length left_suffix ≡ 15
unfolding left_suffix
length-left_suffix = refl

unfoldable pub entered_suffix : Bytes
entered_suffix = codes " has entered the room\n"

pub length-entered_suffix : length entered_suffix ≡ 22
unfolding entered_suffix
length-entered_suffix = refl

unfoldable pub bad_number : Bytes
bad_number = codes "Invalid room number format. Must be a number between 0-49\n"

pub length-bad_number : length bad_number ≡ 58
unfolding bad_number
length-bad_number = refl

unfoldable pub no_such_room : Bytes
no_such_room = codes "Room does not exist\n"

pub length-no_such_room : length no_such_room ≡ 20
unfolding no_such_room
length-no_such_room = refl

unfoldable pub room_full : Bytes
room_full = codes "Cannot join room: Room is full\n"

pub length-room_full : length room_full ≡ 31
unfolding room_full
length-room_full = refl

unfoldable pub joined : Bytes
joined = codes "Successfully joined room\n"

pub length-joined : length joined ≡ 25
unfolding joined
length-joined = refl

pub ruleset text_lengths = (
  length-name_invalid, length-rooms_exhausted, length-created, length-list_header, length-room_word,
  length-no_rooms, length-left_suffix, length-entered_suffix, length-bad_number,
  length-no_such_room, length-room_full, length-joined,
)
