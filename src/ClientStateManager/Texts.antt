-- ===== src/ClientStateManager/Texts.antt =====
-- The texts that server/client_state_manager.c sends, with their lengths.
use chat_application.Prelude.{◌≡◌, refl, length}
use chat_application.CString.{Bytes, codes}

unfoldable pub too_short : Bytes
too_short =
    codes
      "Message too short\nCorrect format:[command char][space][message content][MSG_TERMINATOR]\n"

pub length-too_short : length too_short ≡ 88
unfolding too_short
length-too_short = refl

unfoldable pub too_long : Bytes
too_long =
    codes
      "Invalid Foramt: Message too long\nCorrect format:[command char][space][message content][MSG_TERMINATOR]\n"

pub length-too_long : length too_long ≡ 103
unfolding too_long
length-too_long = refl

unfoldable pub space_missing : Bytes
space_missing =
    codes
      "Missing space after command.\nCorrect format: [command char][space][message content][MSG_TERMINATOR]\n"

pub length-space_missing : length space_missing ≡ 100
unfolding space_missing
length-space_missing = refl

unfoldable pub unknown_command : Bytes
unknown_command =
    codes
      "Command not found\nCorrect format: [command char][space][message content][MSG_TERMINATOR]\n"

pub length-unknown_command : length unknown_command ≡ 89
unfolding unknown_command
length-unknown_command = refl

unfoldable pub content_empty : Bytes
content_empty =
    codes
      "Content is Empty\nCorrect format: [command char][space][message content][MSG_TERMINATOR]\n"

pub length-content_empty : length content_empty ≡ 88
unfolding content_empty
length-content_empty = refl

unfoldable pub not_for_awaiting : Bytes
not_for_awaiting = codes "CMD not correct for client in awaiting username state\n"

pub length-not_for_awaiting : length not_for_awaiting ≡ 54
unfolding not_for_awaiting
length-not_for_awaiting = refl

unfoldable pub not_for_lobby : Bytes
not_for_lobby = codes "Invalid command for lobby state\n"

pub length-not_for_lobby : length not_for_lobby ≡ 32
unfolding not_for_lobby
length-not_for_lobby = refl

unfoldable pub not_for_room : Bytes
not_for_room = codes "Invalid command for in chat room state\n"

pub length-not_for_room : length not_for_room ≡ 39
unfolding not_for_room
length-not_for_room = refl

unfoldable pub username_too_long : Bytes
username_too_long = codes "\u{1b}[32mUser name too long, must be less than 32\n"

pub length-username_too_long : length username_too_long ≡ 46
unfolding username_too_long
length-username_too_long = refl

unfoldable pub left_room : Bytes
left_room = codes "You have left the room\n"

pub length-left_room : length left_room ≡ 23
unfolding left_room
length-left_room = refl

unfoldable pub has_left : Bytes
has_left = codes " has left the room"

pub length-has_left : length has_left ≡ 18
unfolding has_left
length-has_left = refl
