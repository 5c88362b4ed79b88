-- ===== src/Realtime/Registry.antt =====
-- pkg/realtime/memory/registry.go: the clients of a process, with their users and rooms. Each operation
-- runs under the lock of the store and is one step. A client is an object that the caller keeps: the
-- store's value of it is the one it has when an operation ends, and `aliased` says of Add whether the
-- client is the very object that is registered under its id, which then has been changed before its
-- indexes are removed. A context is the number of its error, `none` where it has none. Channels are
-- left out. clientUserID normalizes the identity of the client in place: `settled` is the client after
-- it, which is what stays in the store.
pub mod Rooms
pub mod Mirrored
pub mod Indexed
pub mod Steps
pub mod Stamped
use sdkit.Base.{ℕ, String, Bool, true, false, Option, none, some, List, is_blank, if◌then◌else◌}
use sdkit.Base.Int.{ℤ, pos}
use sdkit.Base.Dict
use sdkit.Base.Dict.{Dict, is_given}
use sdkit.Realtime.Identity.{Identity, Client, normalize, current_identity}
use sdkit.Realtime.Index.{Index, link, unlink, unlink_all, inner_keys}

pub data StoreError : Type 0 where
  nil_client empty_client_id empty_event : StoreError
  context_done : ℕ → StoreError

pub record Store : Type 0 where
  pub clients : Dict Client
  pub user_clients : Index
  pub rooms : Index
  pub client_rooms : Index
  pub heartbeats : Dict ℤ

-- The error, `none` for nil, and the store.
abbrev pub Step : Type 0
Step = Option StoreError × Store

unfoldable pub new_store : Store
new_store = record {
  clients = Dict.empty;
  user_clients = Dict.empty;
  rooms = Dict.empty;
  client_rooms = Dict.empty;
  heartbeats = Dict.empty;
}

abbrev pub user_or : String → Option Identity → String
unfolding normalize
user_or user_id none = user_id
user_or user_id (some i) = let id = (normalize i).id in if is_blank id then user_id else id

-- clientUserID, for a client that is not nil
unfoldable pub client_user_id : Client → String
unfolding user_or
client_user_id c = user_or c.user_id c.identity

unfoldable pub add_user_index : Client → Store → Store
unfolding client_user_id link
add_user_index c s =
    let user_id = client_user_id c in
    if is_blank user_id then s else record s { user_clients = link s.user_clients user_id c.id }

-- removeIndexesLocked, for a client that is not nil
unfoldable pub remove_indexes : Client → Store → Store
unfolding client_user_id unlink unlink_all inner_keys
remove_indexes c s =
    let user_id = client_user_id c in
    record s {
      user_clients =
          if is_blank user_id then s.user_clients else unlink s.user_clients user_id c.id;
      rooms = unlink_all s.rooms (inner_keys s.client_rooms c.id) c.id;
      client_rooms = Dict.delete s.client_rooms c.id;
    }

-- What Add writes into the client.
unfoldable pub stamped : ℤ → Client → Client
unfolding current_identity
stamped now c =
    let identity = current_identity c in
    record c {
      created_at = elim c.created_at [ none ↦ some now | some t ↦ some t ];
      last_active_at = now;
      identity = some identity;
      user_id = identity.id;
      tenant_id = identity.tenant_id;
    }

abbrev pub remove_current : Bool → Client → Option Client → Store → Store
unfolding remove_indexes
remove_current aliased c none s = s
remove_current aliased c (some current) s = remove_indexes (if aliased then c else current) s

abbrev pub settled_identity : Option Identity → Option Identity
unfolding normalize
settled_identity none = none
settled_identity (some i) = some (normalize i)

-- What clientUserID leaves of the client.
unfoldable pub settled : Client → Client
unfolding settled_identity
settled c = record c { identity = settled_identity c.identity }

-- What the removal of the registered client's indexes leaves of the client that is added.
unfoldable pub as_left : Bool → Option Client → Client → Client
unfolding settled
as_left aliased none c = c
as_left aliased (some current) c = if aliased then settled c else c

unfoldable pub register : Bool → ℤ → Client → Store → Store
unfolding remove_indexes add_user_index settled as_left
register aliased now c s =
    let found = Dict.get s.clients c.id in
    let s' = remove_current aliased c found s in
    let c' = as_left aliased found c in
    let s'' = add_user_index c' (record s' { clients = Dict.put s'.clients c.id (settled c') }) in
    record s'' { heartbeats = Dict.put s''.heartbeats c.id now }

-- Add
unfoldable pub add : Bool → ℤ → Option Client → Store → Step
unfolding register stamped
add aliased now none s = (some nil_client, s)
add aliased now (some c) s =
    if is_blank c.id
    then (some empty_client_id, s)
    else (none, register aliased now (stamped now c) s)

abbrev pub removed : String → Option Client → Store → Store
unfolding remove_indexes
removed id none s = s
removed id (some c) s =
    let s' = remove_indexes c s in
    record s' { clients = Dict.delete s'.clients id; heartbeats = Dict.delete s'.heartbeats id }

-- Remove, whose error is always nil
unfoldable pub remove : String → Store → Store
unfolding removed
remove id s = removed id (Dict.get s.clients id) s

-- `if err := ctxErr(ctx); err != nil { return err }`
abbrev pub guarded : Option ℕ → Store → Step → Step
guarded none s rest = rest
guarded (some n) s rest = (some (context_done n), s)

unfoldable pub offline : Option ℕ → String → Store → Step
unfolding remove
offline ctx id s = guarded ctx s (none, remove id s)

abbrev pub identified : Option Identity → Client → Client
unfolding normalize
identified none c = record c { identity = none }
identified (some i) c =
    let i' = normalize i in
    record c { identity = some i'; user_id = i'.id; tenant_id = i'.tenant_id }

abbrev pub new_client : String → Client
new_client id = record {
  id = id;
  identity = none;
  user_id = "";
  tenant_id = pos 0;
  created_at = none;
  last_active_at = pos 0;
}

abbrev pub client_or_new : String → Option Client → Client
client_or_new id none = new_client id
client_or_new id (some c) = c

abbrev pub remove_found : Option Client → Store → Store
unfolding remove_indexes
remove_found none s = s
remove_found (some c) s = remove_indexes c s

unfoldable pub identify : ℤ → String → Option Identity → Store → Store
unfolding remove_indexes add_user_index identified settled
identify now id identity s =
    let found = Dict.get s.clients id in
    let c = identified identity (client_or_new id found) in
    let s' = remove_found found s in
    let s'' = add_user_index c (record s' { clients = Dict.put s'.clients id (settled c) }) in
    record s'' { heartbeats = Dict.put s''.heartbeats id now }

-- Online
unfoldable pub online : Option ℕ → ℤ → String → Option Identity → Store → Step
unfolding identify
online ctx now id identity s =
    guarded ctx s
      (if is_blank id then (some empty_client_id, s) else (none, identify now id identity s))
