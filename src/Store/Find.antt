-- ===== src/Store/Find.antt =====
-- The lookups of examples/web/rsswitch_web/store.py, and assignment to what they return. Python
-- code assigns to the dict that a lookup returned; here the same dict, the first with its id, is
-- replaced in the document.
pub mod Laws
pub mod Ids
pub mod After
use librsswitch.Base.{Bool, false, ◌||◌, List, [], ◌∷◌, Option, none, some, if◌then◌else◌}
use librsswitch.Base.Text.{Text, ◌==◌}
use librsswitch.Model.Types.{Socket, Room, Document}

-- The first socket with the id, in one room.
unfoldable pub find_in : List Socket → Text → Option Socket
find_in [] sid = none
find_in (s ∷ ss) sid = if s.id == sid then some s else find_in ss sid

unfoldable pub or_later : Room → Option Socket → Option (Room × Socket) → Option (Room × Socket)
or_later room none later = later
or_later room (some s) later = some (room, s)

-- `find_socket`
unfoldable pub find_socket : List Room → Text → Option (Room × Socket)
unfolding or_later
find_socket [] sid = none
find_socket (r ∷ rs) sid = or_later r (find_in r.sockets sid) (find_socket rs sid)

-- `find_room`
unfoldable pub find_room : List Room → Text → Option Room
find_room [] rid = none
find_room (r ∷ rs) rid = if r.id == rid then some r else find_room rs rid

unfoldable pub holds : List Socket → Text → Bool
holds [] sid = false
holds (s ∷ ss) sid = s.id == sid || holds ss sid

unfoldable pub update_in : Text → (Socket → Socket) → List Socket → List Socket
update_in sid f [] = []
update_in sid f (s ∷ ss) = if s.id == sid then f s ∷ ss else s ∷ update_in sid f ss

-- Assignment to the socket that `find_socket` returns.
unfoldable pub update_socket : Text → (Socket → Socket) → List Room → List Room
update_socket sid f [] = []
update_socket sid f (r ∷ rs) =
    if holds r.sockets sid
    then (record r { sockets = update_in sid f r.sockets }) ∷ rs
    else r ∷ update_socket sid f rs

-- Assignment to the room that `find_room` returns.
unfoldable pub update_room : Text → (Room → Room) → List Room → List Room
update_room rid f [] = []
update_room rid f (r ∷ rs) = if r.id == rid then f r ∷ rs else r ∷ update_room rid f rs

-- `sockets.remove(sock)`: the first socket that equals `sock`. That is the first one with its id
-- where `sock` was found in the list.
unfoldable pub remove_in : Text → List Socket → List Socket
remove_in sid [] = []
remove_in sid (s ∷ ss) = if s.id == sid then ss else s ∷ remove_in sid ss
