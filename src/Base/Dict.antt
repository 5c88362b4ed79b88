-- ===== src/Base/Dict.antt =====
-- Go's `map[string]V`, behind its laws. A range over a map has no order in Go: the operations that
-- range over a map here (`retain`) give a result that does not depend on it.
mod Assoc
pub use Assoc.{kept, is_given}
use Assoc.{Entries, find, drop_key, keep, kept, is_given, find-drop_key, find-keep}
use Prim.Native.String.{String}
use mathlib.Core.Path.{◌≡◌, refl}
use mathlib.Core.Bool.{Bool, true, false}
use mathlib.Core.Option.{Option, none, some}
use mathlib.Core.List.{List, [], ◌∷◌, map}
use native.Mathlib.Omega.{arith}
use sdkit.Base.Lists.{has_name}
use sdkit.Base.Tests.{str_eq, if◌then◌else◌}

pub record Dict {ℓ} (V : Type ℓ) : Type ℓ where
  entries : Entries V

unfoldable pub empty {ℓ} : {V : Type ℓ} → Dict V
empty = record { entries = [] }

module _ {ℓ} {V : Type ℓ} (m : Dict V) where
  -- v, ok := m[key]
  unfoldable pub get : String → Option V
  unfolding find
  get key = find m.entries key

  -- m[key] = value
  unfoldable pub put : String → V → Dict V
  unfolding drop_key
  put key value = record { entries = (key, value) ∷ drop_key m.entries key }

  -- delete(m, key)
  unfoldable pub delete : String → Dict V
  unfolding drop_key
  delete key = record { entries = drop_key m.entries key }

-- The keys of a range over the map.
unfoldable pub keys {ℓ} : {V : Type ℓ} → Dict V → List String
keys m = map (λ e. e.0) m.entries

-- len(m) == 0
unfoldable pub is_empty {ℓ} : {V : Type ℓ} → Dict V → Bool
is_empty m = elim m.entries [ [] ↦ true | e ∷ es ↦ false ]

-- for k, v := range m { if !p(k, v) { delete(m, k) } }
unfoldable pub retain {ℓ} : {V : Type ℓ} → (String → V → Bool) → Dict V → Dict V
unfolding keep
retain p m = record { entries = keep p m.entries }

module _ {ℓ} {V : Type ℓ} (m : Dict V) where
  pub get-delete :
      (gone key : String) → get (delete m gone) key ≡ (if str_eq gone key then none else get m key)
  get-delete gone key = unfold get delete in find-drop_key m.entries gone key

  pub get-put :
      (new key : String) (value : V)
      → get (put m new value) key ≡ (if str_eq new key then some value else get m key)
  get-put new key value = unfold get put find in ground (arith, find-drop_key m.entries new key)

pub get-retain {ℓ} :
    {V : Type ℓ} (p : String → V → Bool) (m : Dict V) (key : String)
    → get (retain p m) key ≡ kept p key (get m key)
get-retain p m key = unfold get retain in find-keep p m.entries key

pub get-empty {ℓ} : {V : Type ℓ} (key : String) → get (empty {V = V}) key ≡ none
get-empty key = unfold get empty find in refl

pub has_name-keys {ℓ} :
    {V : Type ℓ} (m : Dict V) (key : String) → has_name key (keys m) ≡ is_given (get m key)
has_name-keys m key = unfold keys get in Assoc.has_name-keys m.entries key

nothing_in {ℓ} :
    {V : Type ℓ} (es : Entries V) (key : String)
    → elim es as (λ _. Bool) [ [] ↦ true | e ∷ es' ↦ false ] ≡ true
    → find es key ≡ none
unfolding find
nothing_in [] key h = refl
nothing_in (e ∷ es) key h = cc

-- A map of no entries has no key.
pub get-is_empty {ℓ} :
    {V : Type ℓ} (m : Dict V) (key : String) → is_empty m ≡ true → get m key ≡ none
get-is_empty m key h = unfold get in nothing_in m.entries key (unfold is_empty in h)

pub ruleset dict_laws = (get-retain, get-put, get-delete, get-empty)
