-- ===== src/Base/Effect.antt =====
-- Steps on a world `W` that return a value or fail with an error of `E`. What was done to the world
-- before a failure stays done.
use mathlib.Core.Path.{◌≡◌, refl, subst}
use mathlib.Core.Bool.{Bool, true, false}
use sdkit.Base.Tests.{if◌then◌else◌}
use sdkit.Base.Result.{Result, ok, err}

abbrev pub Io : Type 0 → Type 0 → Type 0 → Type 0
Io E W A = W → Result E A × W

module _ {E W A : Type 0} where
  abbrev pub pure : A → Io E W A
  pure value world = (ok value, world)

  abbrev pub fail : E → Io E W A
  fail failure world = (err failure, world)

  abbrev pub lift : Result E A → Io E W A
  lift r world = (r, world)

module _ {E W A B : Type 0} where
  abbrev pub proceed : Result E A → (A → Io E W B) → Io E W B
  proceed (ok value) rest world = rest value world
  proceed (err failure) rest world = (err failure, world)

  infixl 5 ◌>>=◌
  abbrev pub ◌>>=◌ : Io E W A → (A → Io E W B) → Io E W B
  ◌>>=◌ first rest world = let (r, world') = first world in proceed r rest world'

  proceed-eq-ok :
      (r : Result E A) (rest : A → Io E W B) (world : W) {b : B}
      → (proceed r rest world).0 ≡ ok b
      → (a : A) × (r ≡ ok a) × ((rest a world).0 ≡ ok b)
  proceed-eq-ok (ok value) rest world h = (value, refl, h)
  proceed-eq-ok (err failure) rest world h = cc

  -- The first step of a block that succeeds has succeeded, and so has the rest.
  pub >>=-eq-ok :
      (first : Io E W A) (rest : A → Io E W B) (world : W) {b : B}
      → ((first >>= rest) world).0 ≡ ok b
      → (a : A) × ((first world).0 ≡ ok a) × ((rest a (first world).1).0 ≡ ok b)
  >>=-eq-ok first rest world h = let (r, world') = first world in proceed-eq-ok r rest world' h

module _ {E W B : Type 0} where
  infixl 5 ◌>>◌
  abbrev pub ◌>>◌ : Io E W (Unit {0}) → Io E W B → Io E W B
  check >> rest = check >>= λ _. rest

-- What a successful result is.
abbrev pub Holds : {E A : Type 0} → (A → Type 0) → Result E A → Type 0
Holds P (ok value) = P value
Holds P (err failure) = Unit

pub Holds-eq-ok :
    {E A : Type 0} (P : A → Type 0) (r : Result E A) (a : A) → Holds P r → r ≡ ok a → P a
Holds-eq-ok P r a h e = subst (Holds P) e h

-- A check that fails first, and the rest after it.
pub Holds-unless :
    {E A : Type 0} (P : A → Type 0) (wrong : Bool) (failure : E) (rest : Result E A)
    → (wrong ≡ false → Holds P rest)
    → Holds P (if wrong then err failure else rest)
Holds-unless P true failure rest h = tt
Holds-unless P false failure rest h = h refl

-- A check that fails first has not failed where the whole succeeds.
pub passed :
    {E A : Type 0} (wrong : Bool) (failure : E) (rest : Result E A) {a : A}
    → (if wrong then err failure else rest) ≡ ok a
    → (wrong ≡ false) × (rest ≡ ok a)
passed true failure rest h = cc
passed false failure rest h = (refl, h)

pub Holds-if :
    {E A : Type 0} (P : A → Type 0) (b : Bool) (first rest : Result E A)
    → (b ≡ true → Holds P first)
    → (b ≡ false → Holds P rest)
    → Holds P (if b then first else rest)
Holds-if P true first rest hf hr = hf refl
Holds-if P false first rest hf hr = hr refl

Holds-proceed :
    {E W A B : Type 0} (P : B → Type 0) (r : Result E A) (rest : A → Io E W B) (world : W)
    → ((a : A) → r ≡ ok a → Holds P (rest a world).0)
    → Holds P (proceed r rest world).0
Holds-proceed P (ok a) rest world h = h a refl
Holds-proceed P (err e) rest world h = tt

-- Each step of a block may use what the steps before it gave.
pub Holds->>= :
    {E W A B : Type 0} (P : B → Type 0) (first : Io E W A) (rest : A → Io E W B) (world : W)
    → ((a : A) (world' : W) → (first world).0 ≡ ok a → Holds P (rest a world').0)
    → Holds P ((first >>= rest) world).0
Holds->>= P first rest world h =
    let (r, world') = first world in Holds-proceed P r rest world' (λ a. h a world')

pub Holds-imp :
    {E A : Type 0} (Q P : A → Type 0) (r : Result E A)
    → Holds Q r
    → ((a : A) → Q a → P a)
    → Holds P r
Holds-imp Q P (ok a) q h = h a q
Holds-imp Q P (err e) q h = tt
