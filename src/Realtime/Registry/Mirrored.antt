-- ===== src/Realtime/Registry/Mirrored.antt =====
-- The rooms of the clients and the clients of the rooms say the same.
use sdkit.Base.{
  ◌≡◌, String, Bool, true, false, Option, none, some, is_blank, arith, eq_iff, if_both,
}
use sdkit.Base.Int.{ℤ}
use sdkit.Base.Dict
use sdkit.Base.Dict.{Dict}
use sdkit.Realtime.Identity.{Client}
use sdkit.Realtime.Index.{
  Index, linked, link, unlink, unlink_all, inner_keys, linked-link, linked-unlink,
  linked-unlink_all, linked-delete, has_name-inner_keys,
}
use sdkit.Realtime.Registry.{
  Store, add_user_index, remove_indexes, remove_current, register, as_left, removed, remove,
  remove_found, client_user_id,
}

abbrev pub Mirror : Index → Index → Type 0
Mirror rooms client_rooms =
    (room client : String) → linked rooms room client ≡ linked client_rooms client room

abbrev pub IsMirrored : Store → Type 0
IsMirrored s = Mirror s.rooms s.client_rooms

pub Mirror-link : (m n : Index) (a b : String) → Mirror m n → Mirror (link m a b) (link n b a)
Mirror-link m n a b h room client =
    ground (arith, linked-link m a b room client, linked-link n b a client room, h room client)

pub Mirror-unlink : (m n : Index) (a b : String) → Mirror m n → Mirror (unlink m a b) (unlink n b a)
Mirror-unlink m n a b h room client =
    ground (arith, linked-unlink m a b room client, linked-unlink n b a client room, h room client)

-- A client leaves every room.
pub Mirror-all :
    (m n : Index) (b : String)
    → Mirror m n
    → Mirror (unlink_all m (inner_keys n b) b) (Dict.delete n b)
Mirror-all m n b h room client = ground (
  arith,
  eq_iff b client,
  linked-unlink_all m (inner_keys n b) b room client,
  has_name-inner_keys n b room,
  linked-delete n b client room,
  h room client,
)

remove_indexes-IsMirrored :
    (c : Client) (s : Store) → IsMirrored s → IsMirrored (remove_indexes c s)
unfolding remove_indexes
remove_indexes-IsMirrored c s h = Mirror-all s.rooms s.client_rooms c.id h

pub add_user_index-IsMirrored :
    (c : Client) (s : Store) → IsMirrored s → IsMirrored (add_user_index c s)
unfolding add_user_index
add_user_index-IsMirrored c s h = if_both IsMirrored (is_blank (client_user_id c)) s _ h h

remove_current-IsMirrored :
    (b : Bool) (c : Client) (o : Option Client) (s : Store)
    → IsMirrored s
    → IsMirrored (remove_current b c o s)
unfolding remove_current
remove_current-IsMirrored b c none s h = h
remove_current-IsMirrored true c (some d) s h = remove_indexes-IsMirrored c s h
remove_current-IsMirrored false c (some d) s h = remove_indexes-IsMirrored d s h

pub remove_found-IsMirrored :
    (o : Option Client) (s : Store) → IsMirrored s → IsMirrored (remove_found o s)
unfolding remove_found
remove_found-IsMirrored none s h = h
remove_found-IsMirrored (some d) s h = remove_indexes-IsMirrored d s h

removed-IsMirrored :
    (id : String) (o : Option Client) (s : Store) → IsMirrored s → IsMirrored (removed id o s)
unfolding removed
removed-IsMirrored id none s h = h
removed-IsMirrored id (some d) s h = remove_indexes-IsMirrored d s h

pub remove-IsMirrored : (id : String) (s : Store) → IsMirrored s → IsMirrored (remove id s)
unfolding remove
remove-IsMirrored id s h = removed-IsMirrored id (Dict.get s.clients id) s h

pub register-IsMirrored :
    (b : Bool) (now : ℤ) (c : Client) (s : Store) → IsMirrored s → IsMirrored (register b now c s)
unfolding register
register-IsMirrored b now c s h =
    add_user_index-IsMirrored (as_left b (Dict.get s.clients c.id) c) _
      (remove_current-IsMirrored b c (Dict.get s.clients c.id) s h)
