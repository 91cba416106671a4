-- ===== src/ConnectionHandler/Texts.antt =====
-- The text that server/connection_handler.c sends, with its length.
use chat_application.Prelude.{◌≡◌, refl, length}
use chat_application.CString.{Bytes, codes}

unfoldable pub welcome : Bytes
welcome =
    codes
      "WELCOME TO THE SERVER: THIS IS A FAMILY FRIENDLY SPACE, NO CURSING\nPlease enter Your User Name"

pub length-welcome : length welcome ≡ 94
unfolding welcome
length-welcome = refl
