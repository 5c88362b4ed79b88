-- ===== src/Realtime/Registry/Steps/Rooms.antt =====
-- Rooms and their clients after any operations.
use sdkit.Base.{
  ◌≡◌, sym, ◌∙◌, ℕ, String, Option, none, some, List, [], ◌∷◌, is_blank, has_name, if_both,
}
use sdkit.Base.Int.{ℤ}
use sdkit.Base.Dict
use sdkit.Realtime.Identity.{Identity, Client}
use sdkit.Realtime.Index.{linked-empty, has_name-inner_keys}
use sdkit.Realtime.Registry.{
  Store, Step, new_store, stamped, add, register, remove, online, offline, identify, guarded,
  identified, client_or_new,
}
use sdkit.Realtime.Registry.Rooms.{heartbeat, touched, join, leave, leave_all, clients_in, rooms_of}
use sdkit.Realtime.Registry.Mirrored.{
  IsMirrored, Mirror-link, Mirror-unlink, Mirror-all, add_user_index-IsMirrored,
  remove_found-IsMirrored, remove-IsMirrored, register-IsMirrored,
}
use sdkit.Realtime.Registry.Steps.{
  Operation, adding, removing, going_online, going_offline, beating, joining, leaving, perform, run,
}

guarded-IsMirrored :
    (ctx : Option ℕ) (s : Store) (rest : Step)
    → IsMirrored s
    → IsMirrored rest.1
    → IsMirrored (guarded ctx s rest).1
guarded-IsMirrored none s rest h k = k
guarded-IsMirrored (some n) s rest h k = h

touched-IsMirrored :
    (now : ℤ) (id : String) (o : Option Client) (s : Store)
    → IsMirrored s
    → IsMirrored (touched now id o s)
touched-IsMirrored now id none s h = h
touched-IsMirrored now id (some c) s h = h

identify-IsMirrored :
    (now : ℤ) (id : String) (identity : Option Identity) (s : Store)
    → IsMirrored s
    → IsMirrored (identify now id identity s)
unfolding identify
identify-IsMirrored now id identity s h =
    add_user_index-IsMirrored (identified identity (client_or_new id (Dict.get s.clients id))) _
      (remove_found-IsMirrored (Dict.get s.clients id) s h)

Kept : Step → Type 0
Kept step = IsMirrored step.1

perform-IsMirrored : (op : Operation) (s : Store) → IsMirrored s → IsMirrored (perform op s)
unfolding perform add remove online offline heartbeat join leave Kept
perform-IsMirrored (adding aliased now none) s h = h
perform-IsMirrored (adding aliased now (some c)) s h =
    if_both Kept (is_blank c.id) (_, s) (_, register aliased now (stamped now c) s) h
      (register-IsMirrored aliased now (stamped now c) s h)
perform-IsMirrored (removing id) s h = remove-IsMirrored id s h
perform-IsMirrored (going_online ctx now id identity) s h = guarded-IsMirrored ctx s _ h (
    if_both Kept (is_blank id) (_, s) (_, identify now id identity s) h
      (identify-IsMirrored now id identity s h))
perform-IsMirrored (going_offline ctx id) s h =
    guarded-IsMirrored ctx s (none, remove id s) h (remove-IsMirrored id s h)
perform-IsMirrored (beating ctx now id) s h =
    guarded-IsMirrored ctx s _ h (
      if_both Kept (is_blank id) (_, s) _ h (touched-IsMirrored now id (Dict.get s.clients id) s h))
perform-IsMirrored (joining ctx room client) s h = guarded-IsMirrored ctx s _ h (
    if_both Kept (is_blank room) (_, s) _ h
      (if_both Kept (is_blank client) (_, s) _ h
        (Mirror-link s.rooms s.client_rooms room client h)))
perform-IsMirrored (leaving ctx room client) s h = guarded-IsMirrored ctx s _ h (
    if_both Kept (is_blank room) (_, leave_all client s) _
      (Mirror-all s.rooms s.client_rooms client h)
      (Mirror-unlink s.rooms s.client_rooms room client h))

run-IsMirrored : (ops : List Operation) (s : Store) → IsMirrored s → IsMirrored (run ops s)
unfolding run
run-IsMirrored [] s h = h
run-IsMirrored (op ∷ ops) s h = run-IsMirrored ops (perform op s) (perform-IsMirrored op s h)

new_store-IsMirrored : IsMirrored new_store
unfolding new_store
new_store-IsMirrored room client = linked-empty room client ∙ sym (linked-empty client room)

-- After any operations, a room has a client among its clients exactly when the client has the room
-- among its rooms.
pub clients_in-rooms_of :
    (ops : List Operation) (room client : String)
    → has_name client (clients_in room (run ops new_store))
      ≡ has_name room (rooms_of client (run ops new_store))
unfolding clients_in rooms_of
clients_in-rooms_of ops room client =
    let s = run ops new_store in
    has_name-inner_keys s.rooms room client
    ∙ run-IsMirrored ops new_store new_store-IsMirrored room client
    ∙ sym (has_name-inner_keys s.client_rooms client room)
