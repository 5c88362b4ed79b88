-- ===== src/Realtime/Registry/Indexed.antt =====
-- The index of users lists each client under its user, and nothing else.
use sdkit.Base.{
  ◌≡◌, refl, ap, sym, subst, ◌∙◌, String, Bool, true, false, not, ◌&&◌, ◌||◌, Option, none, some,
  is_blank, arith, eq_iff, str_eq, if◌then◌else◌,
}
use sdkit.Base.Dict
use sdkit.Base.Dict.{Dict}
use sdkit.Realtime.Identity.{Identity, Client}
use sdkit.Realtime.Identity.Settled.{normalize_id_twice}
use sdkit.Realtime.Index.{Index, linked, link, unlink, linked-link, linked-unlink}
use sdkit.Realtime.Registry.{
  settled, settled_identity, user_or, Store, client_user_id, remove_indexes, add_user_index,
  remove_found,
}

unfoldable pub indexed_by : String → Option Client → Bool
unfolding client_user_id
indexed_by user none = false
indexed_by user (some c) = not (is_blank user) && str_eq (client_user_id c) user

abbrev pub Indexes : Dict Client → Index → Type 0
Indexes clients users =
    (user id : String) → linked users user id ≡ indexed_by user (Dict.get clients id)

-- A client is registered under its own id.
abbrev pub Keyed : Dict Client → Type 0
Keyed clients = (id : String) (c : Client) → Dict.get clients id ≡ some c → c.id ≡ id

-- The index without the client of an id.
abbrev Cleared : Index → Index → String → Type 0
Cleared users users' id =
    (user other : String)
    → linked users' user other ≡ (linked users user other && not (str_eq id other))

abbrev pub IsIndexed : Store → Type 0
IsIndexed s = Keyed s.clients × Indexes s.clients s.user_clients

unlinked :
    (users : Index) (id by user other : String)
    → linked users user id ≡ (not (is_blank user) && str_eq by user)
    → linked (if is_blank by then users else unlink users by id) user other
      ≡ (linked users user other && not (str_eq id other))
unlinked users id by user other at =
    ground (arith, eq_iff id other, eq_iff by user, linked-unlink users by id user other, at)

relinked :
    (users : Index) (id by user other : String) (b : Bool)
    → is_blank by ≡ b
    → linked (if b then users else link users by id) user other
      ≡ ((not (is_blank user) && str_eq by user && str_eq id other) || linked users user other)
relinked users id by user other b e =
    ground (arith, eq_iff id other, eq_iff by user, linked-link users by id user other)

chosen :
    (user : String) (c : Client) (o : Option Client) (b l : Bool)
    → l ≡ (indexed_by user o && not b)
    → ((not (is_blank user) && str_eq (client_user_id c) user && b) || l)
      ≡ indexed_by user (if b then some c else o)
unfolding indexed_by
chosen user c o true l e = ground arith
chosen user c o false l e = ground arith

dropped :
    (user : String) (o : Option Client) (b : Bool)
    → (indexed_by user o && not b) ≡ indexed_by user (if b then none else o)
unfolding indexed_by
dropped user o true = ground arith
dropped user o false = ground arith

module _ (clients : Dict Client) (users : Index) (h : Indexes clients users) where
  Cleared-absent : (id : String) → Dict.get clients id ≡ none → Cleared users users id
  unfolding indexed_by
  Cleared-absent id e user other =
      let gone : linked users user id ≡ false = h user id ∙ ap (indexed_by user) e in
      ground (arith, eq_iff id other, gone)

  Cleared-unlink :
      (id : String) (c : Client)
      → Dict.get clients id ≡ some c
      → Cleared users
          (if is_blank (client_user_id c) then users else unlink users (client_user_id c) id)
          id
  unfolding indexed_by
  Cleared-unlink id c e user other =
      let at : linked users user id ≡ (not (is_blank user) && str_eq (client_user_id c) user) =
        h user id ∙ ap (indexed_by user) e in
      unlinked users id (client_user_id c) user other at

  Indexes-put :
      (users' : Index) (id : String) (c : Client)
      → Cleared users users' id
      → Indexes
          (Dict.put clients id c)
          (if is_blank (client_user_id c) then users' else link users' (client_user_id c) id)
  unfolding indexed_by
  Indexes-put users' id c k user other = rw (Dict.get-put clients id other c) (
      relinked users' id (client_user_id c) user other (is_blank (client_user_id c)) refl
      ∙ chosen user c (Dict.get clients other) (str_eq id other) (linked users' user other)
          (k user other ∙ ap (λ x. x && not (str_eq id other)) (h user other)))

  Indexes-delete :
      (users' : Index) (id : String)
      → Cleared users users' id
      → Indexes (Dict.delete clients id) users'
  unfolding indexed_by
  Indexes-delete users' id k user other = rw (Dict.get-delete clients id other) (
      k user other
      ∙ ap (λ x. x && not (str_eq id other)) (h user other)
      ∙ dropped user (Dict.get clients other) (str_eq id other))

keyed_choice :
    (id other : String) (c d : Client) (o : Option Client) (b : Bool)
    → str_eq id other ≡ b
    → (if b then some c else o) ≡ some d
    → (o ≡ some d → d.id ≡ other)
    → c.id ≡ id
    → d.id ≡ other
keyed_choice id other c d o true e given h k =
    let same_client : c ≡ d = cc in ap (λ x. x.id) (sym same_client) ∙ k ∙ (eq_iff id other).0 e
keyed_choice id other c d o false e given h k = h given

pub Keyed-put :
    (clients : Dict Client) (id : String) (c : Client)
    → Keyed clients
    → c.id ≡ id
    → Keyed (Dict.put clients id c)
Keyed-put clients id c h e other d given =
    keyed_choice id other c d (Dict.get clients other) (str_eq id other) refl
      (sym (Dict.get-put clients id other c) ∙ given) (h other d) e

keyed_rest :
    (other : String) (d : Client) (o : Option Client) (b : Bool)
    → (if b then none else o) ≡ some d
    → (o ≡ some d → d.id ≡ other)
    → d.id ≡ other
keyed_rest other d o true given h = cc
keyed_rest other d o false given h = h given

Keyed-delete :
    (clients : Dict Client) (id : String) → Keyed clients → Keyed (Dict.delete clients id)
Keyed-delete clients id h other d given =
    keyed_rest other d (Dict.get clients other) (str_eq id other)
      (sym (Dict.get-delete clients id other) ∙ given) (h other d)

-- The entry of a registered client is taken from the index, before it is replaced or removed.
Cleared-remove_found :
    (s : Store) (id : String) (o : Option Client)
    → IsIndexed s
    → Dict.get s.clients id ≡ o
    → Cleared s.user_clients (remove_found o s).user_clients id
unfolding remove_found remove_indexes
Cleared-remove_found s id none h e = Cleared-absent s.clients s.user_clients h.1 id e
Cleared-remove_found s id (some c) h e =
    subst
      (λ x.
        Cleared s.user_clients
          (if is_blank (client_user_id c)
            then s.user_clients
            else unlink s.user_clients (client_user_id c) x)
          id)
      (sym (h.0 id c e)) (Cleared-unlink s.clients s.user_clients h.1 id c e)

clients_kept : (o : Option Client) (s : Store) → (remove_found o s).clients ≡ s.clients
unfolding remove_found remove_indexes
clients_kept none s = refl
clients_kept (some c) s = refl

Filed : Dict Client → Index → Client → String → Type 0
Filed clients users c id =
    Keyed (Dict.put clients id c)
    × Indexes (Dict.put clients id c)
        (if is_blank (client_user_id c) then users else link users (client_user_id c) c.id)

added :
    (s : Store) (c : Client) (b : Bool)
    → Keyed s.clients
    → Indexes s.clients (if b then s.user_clients else link s.user_clients (client_user_id c) c.id)
    → IsIndexed
        (if b then s else record s { user_clients = link s.user_clients (client_user_id c) c.id })
added s c true k h = (k, h)
added s c false k h = (k, h)

-- A client takes the place of the one registered under its id.
IsIndexed-replace :
    (s : Store) (id : String) (c : Client)
    → IsIndexed s
    → c.id ≡ id
    → let s' = remove_found (Dict.get s.clients id) s in
      IsIndexed (add_user_index c (record s' { clients = Dict.put s'.clients id c }))
unfolding add_user_index Filed
IsIndexed-replace s id c h e =
    let s' = remove_found (Dict.get s.clients id) s in
    let cleared = Cleared-remove_found s id (Dict.get s.clients id) h refl in
    let indexes = Indexes-put s.clients s.user_clients h.1 s'.user_clients id c cleared in
    let filed : Filed s.clients s'.user_clients c id = (
      Keyed-put s.clients id c h.0 e,
      subst
          (λ i. Indexes (Dict.put s.clients id c) (
            if is_blank (client_user_id c)
            then s'.user_clients
            else link s'.user_clients (client_user_id c) i))
          (sym e) indexes,
    ) in
    let (keyed, all) =
      subst (λ x. Filed x s'.user_clients c id) (sym (clients_kept (Dict.get s.clients id) s))
        filed in
    added (record s' { clients = Dict.put s'.clients id c }) c (is_blank (client_user_id c)) keyed
      all

user_settled :
    (user_id : String) (o : Option Identity)
    → user_or user_id (settled_identity o) ≡ user_or user_id o
unfolding user_or settled_identity
user_settled user_id none = refl
user_settled user_id (some i) = rw (normalize_id_twice i) refl

-- A client keeps its user when its identity is normalized again.
pub client_user_id-settled : (c : Client) → client_user_id (settled c) ≡ client_user_id c
unfolding client_user_id settled
client_user_id-settled c = user_settled c.user_id c.identity

add_user_index-settled :
    (c : Client) (s : Store) → add_user_index (settled c) s ≡ add_user_index c s
unfolding add_user_index settled
add_user_index-settled c s =
    ap (λ u. if is_blank u then s else record s { user_clients = link s.user_clients u c.id })
      (client_user_id-settled c)

-- A client takes the place of the one registered under its id, and is settled.
pub IsIndexed-settled :
    (s : Store) (id : String) (c : Client)
    → IsIndexed s
    → c.id ≡ id
    → let s' = remove_found (Dict.get s.clients id) s in
      IsIndexed (add_user_index c (record s' { clients = Dict.put s'.clients id (settled c) }))
unfolding settled
IsIndexed-settled s id c h e =
    let s' = remove_found (Dict.get s.clients id) s in
    subst IsIndexed
      (add_user_index-settled c (record s' { clients = Dict.put s'.clients id (settled c) }))
      (IsIndexed-replace s id (settled c) h e)

-- A client that is registered goes with its entry.
pub IsIndexed-take :
    (s : Store) (id : String) (o : Option Client)
    → Dict.get s.clients id ≡ o
    → IsIndexed s
    → let s' = remove_found o s in
      Keyed (Dict.delete s'.clients id) × Indexes (Dict.delete s'.clients id) s'.user_clients
IsIndexed-take s id o e h =
    let s' = remove_found o s in
    let cleared = Cleared-remove_found s id o h e in
    subst (λ x. Keyed (Dict.delete x id) × Indexes (Dict.delete x id) s'.user_clients)
      (sym (clients_kept o s))
      (
        Keyed-delete s.clients id h.0,
        Indexes-delete s.clients s.user_clients h.1 s'.user_clients id cleared,
      )
