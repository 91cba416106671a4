-- ===== src/ClientDistributor/Texts.antt =====
-- The texts that server/client_distributor.c sends, with their lengths.
use chat_application.Prelude.{◌≡◌, refl, length}
use chat_application.CString.{Bytes, codes}

unfoldable pub at_capacity : Bytes
at_capacity = codes "Sorry, the server is currently at full capacity. Please try again later!\r\n"

pub length-at_capacity : length at_capacity ≡ 74
unfolding at_capacity
length-at_capacity = refl

unfoldable pub connection_error : Bytes
connection_error = codes "Sorry, there was an error connecting to the server. Please try again!\r\n"

pub length-connection_error : length connection_error ≡ 71
unfolding connection_error
length-connection_error = refl
