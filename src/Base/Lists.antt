-- ===== src/Base/Lists.antt =====
-- Lists measured and indexed by native numbers, under the library's names, and membership tests.
use Prim.Native.Nat.{ℕ, zero, suc, ◌+◌}
use Prim.Native.String.{String}
use mathlib.Core.Path.{◌≡◌, refl, ap}
use mathlib.Core.Bool.{Bool, false, ◌||◌}
use mathlib.Core.Option.{Option, none, some}
use mathlib.Core.List.{List, [], ◌∷◌, ◌++◌}
use native.Mathlib.Omega.{arith}
use sdkit.Base.Tests.{str_eq}

module _ {ℓ} {A : Type ℓ} where
  abbrev pub length : List A → ℕ
  length [] = 0
  length (x ∷ xs) = suc (length xs)

  abbrev pub get_elem? : List A → ℕ → Option A
  get_elem? [] i = none
  get_elem? (x ∷ xs) zero = some x
  get_elem? (x ∷ xs) (suc i) = get_elem? xs i

  abbrev pub replicate : ℕ → A → List A
  replicate zero a = []
  replicate (suc n) a = a ∷ replicate n a

  abbrev pub All {κ} : (A → Type κ) → List A → Type κ
  All P [] = Unit
  All P (x ∷ xs) = P x × All P xs

  pub length-append : (xs ys : List A) → length (xs ++ ys) ≡ length xs + length ys
  length-append [] ys = omega arith
  length-append (x ∷ xs) ys = omega (arith, length-append xs ys)

  pub length-replicate : (n : ℕ) (a : A) → length (replicate n a) ≡ n
  length-replicate zero a = refl
  length-replicate (suc n) a = ap suc (length-replicate n a)

  pub All-append {κ} : (P : A → Type κ) (xs ys : List A) → All P xs → All P ys → All P (xs ++ ys)
  All-append P [] ys hx hy = hy
  All-append P (x ∷ xs) ys hx hy = (hx.0, All-append P xs ys hx.1 hy)

-- Whether a set of names, kept as a list, has `k`.
unfoldable pub has_name : String → List String → Bool
has_name k [] = false
has_name k (j ∷ js) = str_eq j k || has_name k js

pub has_name-append :
    (k : String) (xs ys : List String) → has_name k (xs ++ ys) ≡ (has_name k xs || has_name k ys)
unfolding has_name
has_name-append k [] ys = refl
has_name-append k (x ∷ xs) ys = ground (arith, has_name-append k xs ys)

pub has_name-nil : (k : String) → has_name k [] ≡ false
unfolding has_name
has_name-nil k = refl

pub has_name-cons :
    (k j : String) (js : List String) → has_name k (j ∷ js) ≡ (str_eq j k || has_name k js)
unfolding has_name
has_name-cons k j js = refl

pub append_nil {ℓ} : {A : Type ℓ} (xs : List A) → (xs ++ []) ≡ xs
append_nil [] = refl
append_nil (x ∷ xs) = ap (λ l. x ∷ l) (append_nil xs)
