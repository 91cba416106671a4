-- ===== src/RoomManager/Slots.antt =====
-- The loops of server/room_manager.c over a room's array of client pointers.
pub mod Occupancy
use chat_application.Prelude.{Bool, false, Option, none, some, List, [], ◌∷◌, ◌==◌, if◌then◌else◌}
use chat_application.Prelude.Int.{ℤ, decr}
use chat_application.Config.{ClientRef}

abbrev pub points_to : ClientRef → Option ClientRef → Bool
points_to c none = false
points_to c (some d) = d == c

abbrev pub keep_slot : Option ClientRef → List (Option ClientRef) × ℤ → List (Option ClientRef) × ℤ
keep_slot s (ss, n) = (s ∷ ss, n)

-- `leave_room`: the first slot that holds the client is cleared, and the count goes down.
unfoldable pub remove_client : ClientRef → List (Option ClientRef) → ℤ → List (Option ClientRef) × ℤ
remove_client c [] n = ([], n)
remove_client c (s ∷ ss) n =
    let rest = remove_client c ss n in
    if points_to c s then (none ∷ ss, decr n) else keep_slot s rest

abbrev pub behind :
    Option ClientRef → Option (List (Option ClientRef)) → Option (List (Option ClientRef))
behind s none = none
behind s (some ss) = some (s ∷ ss)

-- `join_chat_room`: the client goes to the first slot that is NULL, if there is one.
unfoldable pub place_client : ClientRef → List (Option ClientRef) → Option (List (Option ClientRef))
place_client c [] = none
place_client c (none ∷ ss) = some (some c ∷ ss)
place_client c (some d ∷ ss) = behind (some d) (place_client c ss)

-- `clients[0] = client`
unfoldable pub set_first : ClientRef → List (Option ClientRef) → List (Option ClientRef)
set_first c [] = []
set_first c (s ∷ ss) = some c ∷ ss

-- Those whom a broadcast from `c` reaches, in the order of the array.
unfoldable pub others : ClientRef → List (Option ClientRef) → List ClientRef
others c [] = []
others c (none ∷ ss) = others c ss
others c (some d ∷ ss) = let rest = others c ss in if d == c then rest else d ∷ rest
