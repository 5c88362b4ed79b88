-- ===== src/Realtime/Registry/Stamped.antt =====
-- What Add files a client under.
use sdkit.Base.{
  Option, ◌≡◌, refl, sym, subst, ◌∙◌, String, Bool, true, false, none, some, is_blank, str_eq_refl,
  if_both, arith,
}
use sdkit.Base.Int.{ℤ}
use sdkit.Base.Dict
use sdkit.Base.Dict.{Dict, get-put}
use sdkit.Realtime.Identity.{Client, current_identity}
use sdkit.Realtime.Identity.Settled.{normalize-current_identity}
use sdkit.Realtime.Index.{linked, linked-link}
use sdkit.Realtime.Registry.Indexed.{client_user_id-settled}
use sdkit.Realtime.Registry.{
  Store, stamped, client_user_id, add_user_index, remove_current, register, add, settled, as_left,
}

client_user_id-stamped :
    (now : ℤ) (c : Client) → client_user_id (stamped now c) ≡ (current_identity c).id
unfolding client_user_id stamped
client_user_id-stamped now c =
    rw (normalize-current_identity c)
      (if_both (λ x. x ≡ (current_identity c).id) (is_blank (current_identity c).id) _ _ refl refl)

-- The store has a client of the user under the id, active at the time given, with its heartbeat, and
-- the index of users has it under the user, if that is not blank.
abbrev pub IsFiledUnder : String → String → ℤ → Store → Type 0
IsFiledUnder user id now s =
    ((c : Client) × (Dict.get s.clients id ≡ some c)
      × (c.id ≡ id)
      × (c.user_id ≡ user)
      × (client_user_id c ≡ user)
      × (c.last_active_at ≡ now))
    × (Dict.get s.heartbeats id ≡ some now)
    × (is_blank user ≡ false → linked s.user_clients user id ≡ true)

add_user_index-clients : (c : Client) (s : Store) → (add_user_index c s).clients ≡ s.clients
unfolding add_user_index
add_user_index-clients c s =
    if_both (λ t. t.clients ≡ s.clients) (is_blank (client_user_id c)) s _ refl refl

linked-add_user_index :
    (c : Client) (s : Store)
    → is_blank (client_user_id c) ≡ false
    → linked (add_user_index c s).user_clients (client_user_id c) c.id ≡ true
unfolding add_user_index
linked-add_user_index c s h =
    rw
      (
        h,
        linked-link s.user_clients (client_user_id c) c.id (client_user_id c) c.id,
        str_eq_refl (client_user_id c),
        str_eq_refl c.id,
      )
      refl

own_entry :
    {V : Type 0} (m : Dict V) (key : String) (v : V) → Dict.get (Dict.put m key v) key ≡ some v
own_entry m key v = ground (arith, get-put m key key v, str_eq_refl key)

-- `d` has the id, the user and the last activity of `c`.
IsSame : Client → Client → Type 0
IsSame c d =
    (d.id ≡ c.id)
    × (d.user_id ≡ c.user_id)
    × (client_user_id d ≡ client_user_id c)
    × (d.last_active_at ≡ c.last_active_at)

as_left-IsSame : (b : Bool) (o : Option Client) (c : Client) → IsSame c (as_left b o c)
unfolding as_left settled IsSame
as_left-IsSame b none c = (refl, refl, refl, refl)
as_left-IsSame true (some d) c = (refl, refl, client_user_id-settled c, refl)
as_left-IsSame false (some d) c = (refl, refl, refl, refl)

stored-IsSame : (b : Bool) (o : Option Client) (c : Client) → IsSame c (settled (as_left b o c))
unfolding settled IsSame
stored-IsSame b o c =
    let (same_id, same_user_id, same_user, same_time) = as_left-IsSame b o c in
    (same_id, same_user_id, client_user_id-settled (as_left b o c) ∙ same_user, same_time)

-- Registered, a client is in the store as `clientUserID` leaves it.
register_lem :
    (aliased : Bool) (now : ℤ) (c : Client) (s : Store)
    → let s' = register aliased now c s in
      ((d : Client) × (Dict.get s'.clients c.id ≡ some d) × IsSame c d)
      × (Dict.get s'.heartbeats c.id ≡ some now)
      × (is_blank (client_user_id c) ≡ false
          → linked s'.user_clients (client_user_id c) c.id ≡ true)
unfolding register IsSame
register_lem aliased now c s =
    let found = Dict.get s.clients c.id in
    let s' = remove_current aliased c found s in
    let d = as_left aliased found c in
    let s'' : Store = record s' { clients = Dict.put s'.clients c.id (settled d) } in
    let (same_id, same_user_id, same_user, same_time) = as_left-IsSame aliased found c in
    (
      (
        settled d,
        subst (λ m. Dict.get m c.id ≡ some (settled d)) (sym (add_user_index-clients d s''))
            (own_entry s'.clients c.id (settled d)),
        stored-IsSame aliased found c,
      ),
      own_entry (add_user_index d s'').heartbeats c.id now,
      subst
          (λ id.
            is_blank (client_user_id c) ≡ false
            → linked (add_user_index d s'').user_clients (client_user_id c) id ≡ true)
          same_id
          (subst
            (λ u. is_blank u ≡ false → linked (add_user_index d s'').user_clients u d.id ≡ true)
            same_user (linked-add_user_index d s'')),
    )

-- Add, of a client that is not nil and has an id, has no error. It leaves in the store, under the id, a
-- client with the id of the identity that was current before as its user, active now, with its
-- heartbeat, and the index of users has the client under that user, if it is not blank. This holds
-- whether or not the client is the very object that is registered already.
pub add-IsFiledUnder :
    (aliased : Bool) (now : ℤ) (c : Client) (s : Store)
    → is_blank c.id ≡ false
    → ((add aliased now (some c) s).0 ≡ none)
      × IsFiledUnder (current_identity c).id c.id now (add aliased now (some c) s).1
unfolding add stamped IsSame
add-IsFiledUnder aliased now c s h =
    let c' = stamped now c in
    let user = client_user_id-stamped now c in
    let ((d, got, (same_id, same_user_id, same_user, same_time)), beat, index) =
      register_lem aliased now c' s in
    rw h (
      refl,
      (
        (d, got, same_id, same_user_id, same_user ∙ user, same_time),
        beat,
        subst
            (λ u.
              is_blank u ≡ false → linked (register aliased now c' s).user_clients u c.id ≡ true)
            user index,
      ),
    )
