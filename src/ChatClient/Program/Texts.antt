-- ===== src/ChatClient/Program/Texts.antt =====
-- The texts that the threads of client/main.c show the user.
use chat_application.Prelude.{◌∷◌, ◌++◌, []}
use chat_application.CString.{Bytes, codes}

unfoldable pub input_error : Bytes
input_error = codes " Input error\n"

unfoldable pub empty_line : Bytes
empty_line = codes " Invalid input, cannot be empty.\n"

unfoldable pub help_in_full : Bytes
help_in_full =
    codes "\n List of commands:\n"
    ++ codes "\t/exit -this will allow you to close the client *NOT AVAILABLE WHEN ENTERING "
    ++ codes "USERNAME*\n"
    ++ codes "\t/create 'enter room name' -this will allow you to create and enter a room\n"
    ++ codes "\t/list -this will allow you to view available rooms\n"
    ++ codes "\t/join 'enter room NUMBER' -this will allow you to join a room\n"
    ++ codes "\t/leave -this will allow you to leave a room\n"
    ++ codes "\n For a list of commands available in a room or not in a room type HELP\n"

unfoldable pub help_in_short : Bytes
help_in_short =
    codes "\n List of commands available when NOT IN a room:\n"
    ++ codes "\t/exit , /create , /join 'room #' , /list\n"
    ++ codes "\n List of commands available when IN a room:\n"
    ++ codes "\t/exit , /leave\n\n"

unfoldable pub has_terminated : Bytes
has_terminated =
    codes " Server has terminated the connection.\nNo further commands can be processed.\n"

unfoldable pub too_long : Bytes
too_long = codes "\n Message too long please keep it under 128 characters\n"

unfoldable pub no_command : Bytes
no_command = codes "Invalid input. type HELP for list of commands\n"

unfoldable pub not_in_room : Bytes
not_in_room = codes "\n Invalid command. Available commands while in a room:\n\t/leave, /exit.\n"

unfoldable pub improper_usage : Bytes
improper_usage = codes "\n Improper Usage. Type HELP for a list of commands.\n"

unfoldable pub not_in_lobby : Bytes
not_in_lobby =
    codes "\n Invalid command. Available commands while not in a room are:\n"
    ++ codes "\t/create, /join, /list, /exit.\n"

unfoldable pub failed_to_send : Bytes
failed_to_send = codes " Failed to send command. Please retry\n\n"

unfoldable pub exiting : Bytes
exiting = codes " Exiting client\n"

unfoldable pub connection_ended : Bytes
connection_ended = codes "Server has terminated connection\n"

-- `" You: %s\n"`
abbrev pub own_line : Bytes → Bytes
own_line command = codes " You: " ++ command ++ b'\n' ∷ []
