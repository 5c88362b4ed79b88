-- ===== src/Tests/Realtime.antt =====
-- A client that goes online and joins two rooms, and one that leaves.
use sdkit.Base.{◌≡◌, refl, true, false, none, some, List, [], ◌∷◌, All, has_name}
use sdkit.Base.Int.{pos}
use sdkit.Base.Dict
use sdkit.Realtime.Identity.{Identity, Client, current_identity}
use sdkit.Realtime.Index.{linked}
use sdkit.Realtime.Registry.{new_store, client_user_id, add}
use sdkit.Realtime.Registry.Stamped.{IsFiledUnder, add-IsFiledUnder}
use sdkit.Realtime.Registry.Rooms.{clients_in, rooms_of, get_user_clients}
use sdkit.Realtime.Registry.Indexed.{indexed_by}
use sdkit.Realtime.Registry.Steps.{Operation, adding, removing, going_online, joining, leaving, run}
use sdkit.Realtime.Registry.Steps.Rooms.{clients_in-rooms_of}
use sdkit.Realtime.Registry.Steps.Users.{user_clients-indexed_by, get_user_clients-own}

abbrev ann : Identity
ann = record {
  id = " ann ";
  type = "";
  device_id = "";
  platform = "";
  subject = "";
  tenant_id = pos 1;
  kind = "";
}

abbrev phone : Client
phone = record {
  id = "c1";
  identity = some ann;
  user_id = "";
  tenant_id = pos 0;
  created_at = none;
  last_active_at = pos 0;
}

abbrev calls : List Operation
calls =
    adding false (pos 10) (some phone)
    ∷ joining none "r1" "c1"
    ∷ joining none "r2" "c1"
    ∷ going_online none (pos 11) "c2" (some ann)
    ∷ joining none "r1" "c2"
    ∷ leaving none "r2" "c1"
    ∷ removing "c2"
    ∷ []

clients_in-rooms_of_example :
    has_name "c1" (clients_in "r1" (run calls new_store))
    ≡ has_name "r1" (rooms_of "c1" (run calls new_store))
clients_in-rooms_of_example = clients_in-rooms_of calls "r1" "c1"

user_clients-indexed_by_example :
    linked (run calls new_store).user_clients "ann" "c1"
    ≡ indexed_by "ann" (Dict.get (run calls new_store).clients "c1")
user_clients-indexed_by_example =
    user_clients-indexed_by calls "ann" "c1" (refl, (tt, (tt, (tt, (tt, (tt, (tt, tt)))))))

get_user_clients-own_example :
    All (λ c. client_user_id c ≡ "ann") (get_user_clients "ann" (run calls new_store))
get_user_clients-own_example =
    get_user_clients-own calls "ann" (refl, (tt, (tt, (tt, (tt, (tt, (tt, tt)))))))

add-IsFiledUnder_example :
    ((add true (pos 10) (some phone) (run calls new_store)).0 ≡ none)
    × IsFiledUnder
        (current_identity phone).id
        "c1"
        (pos 10)
        (add true (pos 10) (some phone) (run calls new_store)).1
add-IsFiledUnder_example = add-IsFiledUnder true (pos 10) phone (run calls new_store) refl
