-- ===== src/Tests/Beginning.antt =====
-- Applications of the theorems on the beginning of the server.
use chat_application.Prelude.{ℕ, Option, none, some}
use chat_application.CString.{Bytes, codes}
use chat_application.Server.Setup.{SysCall}

-- The port is taken.
abbrev port_taken : SysCall → Option ℕ
port_taken SysCall.bind = some 98
port_taken _ = none

abbrev reason : ℕ → Bytes
reason errno = codes "Address already in use"
