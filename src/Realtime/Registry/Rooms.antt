-- ===== src/Realtime/Registry/Rooms.antt =====
-- pkg/realtime/memory/registry.go: heartbeats, rooms and the questions that change nothing.
use sdkit.Base.{ℕ, String, Bool, Option, none, some, List, [], ◌∷◌, is_blank, if◌then◌else◌}
use sdkit.Base.Int.{ℤ}
use sdkit.Base.Dict
use sdkit.Base.Dict.{Dict, is_given}
use sdkit.Realtime.Identity.{Client}
use sdkit.Realtime.Index.{link, unlink, unlink_all, inner_keys}
use sdkit.Realtime.Registry.{Store, Step, empty_client_id, empty_event, guarded}

abbrev pub touched : ℤ → String → Option Client → Store → Store
touched now id none s = s
touched now id (some c) s = record s {
  clients = Dict.put s.clients id (record c { last_active_at = now });
}

-- Heartbeat
unfoldable pub heartbeat : Option ℕ → ℤ → String → Store → Step
heartbeat ctx now id s =
    let s' = touched now id (Dict.get s.clients id) s in
    guarded ctx s (
      if is_blank id
      then (some empty_client_id, s)
      else (none, record s' { heartbeats = Dict.put s'.heartbeats id now }))

-- Join
unfoldable pub join : Option ℕ → String → String → Store → Step
unfolding link
join ctx room_id client_id s = guarded ctx s (
    if is_blank room_id
    then (some empty_event, s)
    else if is_blank client_id
    then (some empty_client_id, s)
    else (
      none,
      record s {
        rooms = link s.rooms room_id client_id;
        client_rooms = link s.client_rooms client_id room_id;
      },
    ))

abbrev pub leave_all : String → Store → Store
unfolding unlink_all inner_keys
leave_all client_id s = record s {
  rooms = unlink_all s.rooms (inner_keys s.client_rooms client_id) client_id;
  client_rooms = Dict.delete s.client_rooms client_id;
}

-- Leave, of every room for a blank one
unfoldable pub leave : Option ℕ → String → String → Store → Step
unfolding unlink leave_all
leave ctx room_id client_id s = guarded ctx s (
    if is_blank room_id then (none, leave_all client_id s) else (
      none,
      record s {
        rooms = unlink s.rooms room_id client_id;
        client_rooms = unlink s.client_rooms client_id room_id;
      },
    ))

-- IsOnline, for a context without an error
unfoldable pub is_online : String → Store → Bool
is_online id s = is_given (Dict.get s.clients id)

-- Clients, for a context without an error
unfoldable pub clients_in : String → Store → List String
unfolding inner_keys
clients_in room_id s = inner_keys s.rooms room_id

-- Rooms, for a context without an error
unfoldable pub rooms_of : String → Store → List String
unfolding inner_keys
rooms_of client_id s = inner_keys s.client_rooms client_id

-- The loop over ids of GetUserClients and GetRoomClients.
abbrev pub known : Dict Client → List String → List Client
known clients [] = []
known clients (id ∷ ids) =
    let rest = known clients ids in elim (Dict.get clients id) [ none ↦ rest | some c ↦ c ∷ rest ]

unfoldable pub get_user_clients : String → Store → List Client
unfolding inner_keys
get_user_clients user_id s = known s.clients (inner_keys s.user_clients user_id)

-- GetRoomClients, of every client for a blank room
unfoldable pub get_room_clients : String → Store → List Client
unfolding inner_keys
get_room_clients room_id s =
    known s.clients (if is_blank room_id then Dict.keys s.clients else inner_keys s.rooms room_id)
