-- ===== src/Base/Dict/Assoc.antt =====
-- Association lists, the representation of `Dict`. The first entry of a key counts.
use Prim.Native.String.{String}
use mathlib.Core.Path.{◌≡◌, refl, ap}
use mathlib.Core.Bool.{Bool, true, false}
use mathlib.Core.Option.{Option, none, some}
use mathlib.Core.List.{List, [], ◌∷◌, map}
use native.Mathlib.Omega.{arith}
use text.Mathlib.TextEquality.{eq_iff}
use sdkit.Base.Lists.{has_name}
use sdkit.Base.Tests.{str_eq, if◌then◌else◌}

abbrev pub Entries {ℓ} : Type ℓ → Type ℓ
Entries V = List (String × V)

abbrev pub kept {ℓ} : {V : Type ℓ} → (String → V → Bool) → String → Option V → Option V
kept p key none = none
kept p key (some value) = if p key value then some value else none

module _ {ℓ} {V : Type ℓ} where
  unfoldable pub find : Entries V → String → Option V
  find [] key = none
  find ((key', value) ∷ rest) key =
      let older = find rest key in if str_eq key' key then some value else older

  unfoldable pub drop_key : Entries V → String → Entries V
  drop_key [] key = []
  drop_key ((key', value) ∷ rest) key =
      let less = drop_key rest key in if str_eq key' key then less else (key', value) ∷ less

  -- An entry that is dropped takes those behind it with the same key along.
  unfoldable pub keep : (String → V → Bool) → Entries V → Entries V
  unfolding drop_key
  keep p [] = []
  keep p ((key', value) ∷ rest) =
      let others = keep p rest in
      if p key' value then (key', value) ∷ others else drop_key others key'

  pub find-drop_key :
      (es : Entries V) (gone key : String)
      → find (drop_key es gone) key ≡ (if str_eq gone key then none else find es key)
  unfolding find drop_key
  find-drop_key [] gone key = ground arith
  find-drop_key ((key', value) ∷ rest) gone key =
      ground
        (arith, eq_iff gone key, eq_iff key' key, eq_iff key' gone, find-drop_key rest gone key)

  pub find-keep :
      (p : String → V → Bool) (es : Entries V) (key : String)
      → find (keep p es) key ≡ kept p key (find es key)
  unfolding find keep
  find-keep p [] key = refl
  find-keep p ((key', value) ∷ rest) key = ground (
    arith,
    eq_iff key' key,
    find-keep p rest key,
    find-drop_key (keep p rest) key' key,
    ap (λ k. p k value) {x = key'},
  )

  abbrev pub is_given : Option V → Bool
  is_given none = false
  is_given (some v) = true

  pub has_name-keys :
      (es : Entries V) (key : String) → has_name key (map (λ e. e.0) es) ≡ is_given (find es key)
  unfolding find has_name
  has_name-keys [] key = refl
  has_name-keys ((key', value) ∷ rest) key = ground (arith, has_name-keys rest key)
