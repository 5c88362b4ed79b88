-- ===== src/Realtime/Identity/Settled.antt =====
-- The id of an identity that is normalized again, and the user that Add files a client under.
use sdkit.Base.{
  ◌≡◌, refl, String, Bool, true, false, not, ◌&&◌, Option, none, some, is_blank, if_both,
  if◌then◌else◌,
}
use sdkit.Base.Int.{ℤ}
use sdkit.Base.Text.{trim_space}
use sdkit.Base.Text.Trim.{trim_space_twice}
use sdkit.Realtime.Identity.{
  Identity, Client, normalize, authenticated, new_user_identity, current, current_identity,
}

abbrev pick : String → String → String
pick a b = if is_blank a && not (is_blank b) then b else a

pick_again :
    (a b : String) (x y : Bool)
    → is_blank a ≡ x
    → is_blank b ≡ y
    → trim_space a ≡ a
    → trim_space b ≡ b
    → let id = if x && not y then b else a in
      pick (trim_space id) (trim_space (if y then id else b)) ≡ id
pick_again a b true true ea eb ha hb = rw (ha, ea) refl
pick_again a b true false ea eb ha hb = rw (hb, eb) refl
pick_again a b false true ea eb ha hb = rw (ha, ea) refl
pick_again a b false false ea eb ha hb = rw (ha, ea) refl

-- Normalizing twice gives the id that normalizing once gives.
pub normalize_id_twice : (i : Identity) → (normalize (normalize i)).id ≡ (normalize i).id
unfolding normalize
normalize_id_twice i =
    pick_again (trim_space i.id) (trim_space i.subject) _ _ refl refl (trim_space_twice i.id)
      (trim_space_twice i.subject)

no_subject : (x : Bool) (id : String) → (if x && false then "" else id) ≡ id
no_subject true id = refl
no_subject false id = refl

new_user_id :
    (user_id : String) (tenant_id : ℤ)
    → (normalize (new_user_identity user_id tenant_id)).id
      ≡ (new_user_identity user_id tenant_id).id
unfolding normalize new_user_identity
new_user_id user_id tenant_id =
    rw (trim_space_twice user_id) (no_subject (is_blank (trim_space user_id)) (trim_space user_id))

current_id :
    (user_id : String) (tenant_id : ℤ) (o : Option Identity)
    → (normalize (current user_id tenant_id o)).id ≡ (current user_id tenant_id o).id
unfolding current
current_id user_id tenant_id none = new_user_id user_id tenant_id
current_id user_id tenant_id (some i) =
    if_both (λ j. (normalize j).id ≡ j.id) (authenticated i) (normalize (normalize i))
      (new_user_identity user_id tenant_id) (normalize_id_twice (normalize i))
      (new_user_id user_id tenant_id)

-- The current identity of a client keeps its id when it is normalized again.
pub normalize-current_identity :
    (c : Client) → (normalize (current_identity c)).id ≡ (current_identity c).id
unfolding current_identity
normalize-current_identity c = current_id c.user_id c.tenant_id c.identity
