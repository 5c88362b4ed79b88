-- ===== src/Realtime/Registry/Steps/Users.antt =====
-- Users and their clients after any operations.
use sdkit.Base.{
  ◌≡◌, refl, ap, sym, subst, ◌∙◌, ℕ, String, Bool, true, false, not, ◌&&◌, Option, none, some, List,
  [], ◌∷◌, All, is_blank, has_name, if_both, if◌then◌else◌, str_eq, eq_iff, arith,
}
use sdkit.Base.Int.{ℤ}
use sdkit.Base.Dict
use sdkit.Base.Dict.{Dict}
use sdkit.Realtime.Identity.{Identity, Client}
use sdkit.Realtime.Index.{linked, linked-empty, inner_keys, has_name-inner_keys}
use sdkit.Realtime.Registry.{
  Store, Step, new_store, stamped, add, register, remove, removed, remove_current, online, offline,
  identify, guarded, identified, client_or_new, remove_found, add_user_index, settled, as_left,
  client_user_id,
}
use sdkit.Realtime.Registry.Rooms.{
  heartbeat, touched, join, leave, leave_all, get_user_clients, known,
}
use sdkit.Realtime.Registry.Indexed.{
  IsIndexed, indexed_by, IsIndexed-settled, IsIndexed-take, Keyed-put,
}
use sdkit.Realtime.Registry.Steps.{
  Operation, adding, removing, going_online, going_offline, beating, joining, leaving, perform, run,
  IsFresh,
}

guarded-IsIndexed :
    (ctx : Option ℕ) (s : Store) (rest : Step)
    → IsIndexed s
    → IsIndexed rest.1
    → IsIndexed (guarded ctx s rest).1
guarded-IsIndexed none s rest h k = k
guarded-IsIndexed (some n) s rest h k = h

current_found :
    (c : Client) (o : Option Client) (s : Store) → remove_found o s ≡ remove_current false c o s
unfolding remove_found remove_current
current_found c none s = refl
current_found c (some d) s = refl

as_left_fresh : (o : Option Client) (c : Client) → as_left false o c ≡ c
unfolding as_left
as_left_fresh none c = refl
as_left_fresh (some d) c = refl

register-IsIndexed :
    (now : ℤ) (c : Client) (s : Store) → IsIndexed s → IsIndexed (register false now c s)
unfolding register
register-IsIndexed now c s h =
    let s' = remove_current false c (Dict.get s.clients c.id) s in
    subst
      (λ d.
        IsIndexed (add_user_index d (record s' { clients = Dict.put s'.clients c.id (settled d) })))
      (sym (as_left_fresh (Dict.get s.clients c.id) c))
      (subst
        (λ x.
          IsIndexed (add_user_index c (record x { clients = Dict.put x.clients c.id (settled c) })))
        (current_found c (Dict.get s.clients c.id) s) (IsIndexed-settled s c.id c h refl))

identified-id : (identity : Option Identity) (c : Client) → (identified identity c).id ≡ c.id
unfolding identified
identified-id none c = refl
identified-id (some i) c = refl

found-id :
    (s : Store) (id : String) (o : Option Client)
    → IsIndexed s
    → Dict.get s.clients id ≡ o
    → (client_or_new id o).id ≡ id
found-id s id none h e = refl
found-id s id (some c) h e = h.0 id c e

identify-IsIndexed :
    (now : ℤ) (id : String) (identity : Option Identity) (s : Store)
    → IsIndexed s
    → IsIndexed (identify now id identity s)
unfolding identify
identify-IsIndexed now id identity s h =
    let c = client_or_new id (Dict.get s.clients id) in
    IsIndexed-settled s id (identified identity c) h
      (identified-id identity c ∙ found-id s id (Dict.get s.clients id) h refl)

removed-IsIndexed :
    (id : String) (o : Option Client) (s : Store)
    → Dict.get s.clients id ≡ o
    → IsIndexed s
    → IsIndexed (removed id o s)
unfolding removed remove_found
removed-IsIndexed id none s e h = h
removed-IsIndexed id (some c) s e h = IsIndexed-take s id (some c) e h

-- A new time of activity changes no user.
touched_index :
    (clients : Dict Client) (id user other : String) (now : ℤ) (c : Client) (b : Bool)
    → str_eq id other ≡ b
    → Dict.get clients id ≡ some c
    → indexed_by user (Dict.get clients other)
      ≡ indexed_by user
          (if b then some (record c { last_active_at = now }) else Dict.get clients other)
unfolding indexed_by client_user_id
touched_index clients id user other now c true e given =
    ap (indexed_by user) (ap (Dict.get clients) (sym ((eq_iff id other).0 e)) ∙ given)
touched_index clients id user other now c false e given = refl

touched-IsIndexed :
    (now : ℤ) (id : String) (o : Option Client) (s : Store)
    → Dict.get s.clients id ≡ o
    → IsIndexed s
    → IsIndexed (touched now id o s)
touched-IsIndexed now id none s e h = h
touched-IsIndexed now id (some c) s e h =
    let c' = record c { last_active_at = now } in
    (
      Keyed-put s.clients id c' h.0 (h.0 id c e),
      λ user other.
          h.1 user other
          ∙ touched_index s.clients id user other now c (str_eq id other) refl e
          ∙ ap (indexed_by user) (sym (Dict.get-put s.clients id other c')),
    )

Kept : Step → Type 0
Kept step = IsIndexed step.1

perform-IsIndexed :
    (op : Operation) (s : Store) → IsFresh op → IsIndexed s → IsIndexed (perform op s)
unfolding perform add remove online offline heartbeat join leave Kept
perform-IsIndexed (adding aliased now none) s f h = h
perform-IsIndexed (adding aliased now (some c)) s f h =
    subst (λ b. IsIndexed (add b now (some c) s).1) (sym f)
      (if_both Kept (is_blank c.id) (_, s) (_, register false now (stamped now c) s) h
        (register-IsIndexed now (stamped now c) s h))
perform-IsIndexed (removing id) s f h = removed-IsIndexed id (Dict.get s.clients id) s refl h
perform-IsIndexed (going_online ctx now id identity) s f h = guarded-IsIndexed ctx s _ h (
    if_both Kept (is_blank id) (_, s) (_, identify now id identity s) h
      (identify-IsIndexed now id identity s h))
perform-IsIndexed (going_offline ctx id) s f h =
    guarded-IsIndexed ctx s (none, remove id s) h
      (removed-IsIndexed id (Dict.get s.clients id) s refl h)
perform-IsIndexed (beating ctx now id) s f h = guarded-IsIndexed ctx s _ h (
    if_both Kept (is_blank id) (_, s) _ h
      (touched-IsIndexed now id (Dict.get s.clients id) s refl h))
perform-IsIndexed (joining ctx room client) s f h =
    guarded-IsIndexed ctx s _ h
      (if_both Kept (is_blank room) (_, s) _ h (if_both Kept (is_blank client) (_, s) _ h h))
perform-IsIndexed (leaving ctx room client) s f h =
    guarded-IsIndexed ctx s _ h (if_both Kept (is_blank room) (_, leave_all client s) _ h h)

run-IsIndexed :
    (ops : List Operation) (s : Store) → All IsFresh ops → IsIndexed s → IsIndexed (run ops s)
unfolding run
run-IsIndexed [] s f h = h
run-IsIndexed (op ∷ ops) s f h = run-IsIndexed ops (perform op s) f.1 (perform-IsIndexed op s f.0 h)

nothing_keyed : (id : String) (c : Client) → none ≡ some c → c.id ≡ id
nothing_keyed id c h = cc

new_store-IsIndexed : IsIndexed new_store
unfolding new_store indexed_by
new_store-IsIndexed = (
  λ id c h. nothing_keyed id c (sym (Dict.get-empty id) ∙ h),
  λ user id. linked-empty user id ∙ ap (indexed_by user) (sym (Dict.get-empty id)),
)

-- After operations in which no registered client is given to Add again as the same object, the index of
-- users has a client under a user exactly when it is registered and the user is its own, and not blank.
pub user_clients-indexed_by :
    (ops : List Operation) (user id : String)
    → All IsFresh ops
    → linked (run ops new_store).user_clients user id
      ≡ indexed_by user (Dict.get (run ops new_store).clients id)
user_clients-indexed_by ops user id f =
    (run-IsIndexed ops new_store f new_store-IsIndexed).1 user id

same_user : (user own : String) → (not (is_blank user) && str_eq own user) ≡ true → own ≡ user
same_user user own h = ground (arith, eq_iff own user)

owner : (user : String) (c : Client) → indexed_by user (some c) ≡ true → client_user_id c ≡ user
unfolding indexed_by
owner user c h = same_user user (client_user_id c) h

known_rest :
    (user : String) (o : Option Client) (rest : List Client)
    → indexed_by user o ≡ true
    → All (λ c. client_user_id c ≡ user) rest
    → All
        (λ c. client_user_id c ≡ user)
        (elim o as (λ _. List Client) [ none ↦ rest | some c ↦ c ∷ rest ])
known_rest user none rest h a = a
known_rest user (some c) rest h a = (owner user c h, a)

known_own :
    (s : Store) (user : String) (ids : List String)
    → IsIndexed s
    → All (λ id. linked s.user_clients user id ≡ true) ids
    → All (λ c. client_user_id c ≡ user) (known s.clients ids)
known_own s user [] h a = tt
known_own s user (id ∷ ids) h a =
    known_rest user (Dict.get s.clients id) (known s.clients ids) (sym (h.1 user id) ∙ a.0)
      (known_own s user ids h a.1)

-- What holds of each name that a list has holds of all of the list.
All-has_name :
    (P : String → Type 0) (ids : List String)
    → ((id : String) → has_name id ids ≡ true → P id)
    → All P ids
unfolding has_name
All-has_name P [] h = tt
All-has_name P (id ∷ ids) h = (
  h id (ground (arith, eq_iff id id)),
  All-has_name P ids (λ other k. h other (ground (arith, k))),
)

-- After operations in which no registered client is given to Add again as the same object, the clients
-- that are found for a user are the user's own.
pub get_user_clients-own :
    (ops : List Operation) (user : String)
    → All IsFresh ops
    → All (λ c. client_user_id c ≡ user) (get_user_clients user (run ops new_store))
unfolding get_user_clients
get_user_clients-own ops user f =
    let s = run ops new_store in
    known_own s user (inner_keys s.user_clients user)
      (run-IsIndexed ops new_store f new_store-IsIndexed)
      (All-has_name (λ id. linked s.user_clients user id ≡ true) (inner_keys s.user_clients user)
        (λ id k. sym (has_name-inner_keys s.user_clients user id) ∙ k))
