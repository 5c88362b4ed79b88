-- ===== src/Payment/Error/Checks.antt =====
-- Checks that give up with an error, and names that must agree where both are given.
use sdkit.Base.{
  ◌≡◌, ◌⊎◌, inl, inr, refl, if◌then◌else◌, String, Bool, true, false, not, ◌&&◌, arith, is_blank,
  str_eq, eq_iff,
}
use sdkit.Base.Effect.{Holds}
use sdkit.Base.Result.{Result, ok, err, ◌>>◌, ◌>>=◌}
use sdkit.Payment.Error.{PaymentError, reject_if}

pub not_eq_false : {b : Bool} → not b ≡ false → b ≡ true
not_eq_false {b} h = ground arith

pub reject_if-eq_ok :
    (b : Bool) (e : PaymentError) {v : Unit {0}} → reject_if (not b) e ≡ ok v → b ≡ true
reject_if-eq_ok true e h = refl
reject_if-eq_ok false e h = cc

pub Holds-reject_if :
    {A : Type 0} (P : A → Type 0) (wrong : Bool) (e : PaymentError) (rest : Result PaymentError A)
    → (wrong ≡ false → Holds P rest)
    → Holds P (reject_if wrong e >> rest)
Holds-reject_if P true e rest h = tt
Holds-reject_if P false e rest h = h refl

pub Holds-then :
    {A : Type 0} (P : A → Type 0) (first : Result PaymentError (Unit {0}))
    (rest : Result PaymentError A)
    → Holds P rest
    → Holds P (first >> rest)
Holds-then P (ok _) rest h = h
Holds-then P (err e) rest h = tt

-- What a step gives is used by the rest.
pub Holds-after :
    {A B : Type 0} (Q : A → Type 0) (P : B → Type 0) (r : Result PaymentError A)
    (rest : A → Result PaymentError B)
    → Holds Q r
    → ((a : A) → Q a → Holds P (rest a))
    → Holds P (r >>= rest)
Holds-after Q P (ok a) rest q h = h a q
Holds-after Q P (err e) rest q h = tt

-- `t` is refused when it is given and is not `s`.
pub named_kept :
    (t s : String) → (not (is_blank t) && not (str_eq t s)) ≡ false → is_blank t ≡ false → s ≡ t
named_kept t s h b = ground (arith, eq_iff t s)

-- What comes after a step that succeeds as a whole.
pub bound :
    {A B : Type 0} (r : Result PaymentError A) (rest : A → Result PaymentError B) {b : B}
    → (r >>= rest) ≡ ok b
    → (a : A) × (r ≡ ok a) × (rest a ≡ ok b)
bound (ok a) rest h = (a, refl, h)
bound (err e) rest h = cc

pub allowed :
    {B : Type 0} (wrong : Bool) (e : PaymentError) (rest : Result PaymentError B) {b : B}
    → (reject_if wrong e >> rest) ≡ ok b
    → (wrong ≡ false) × (rest ≡ ok b)
allowed true e rest h = cc
allowed false e rest h = (refl, h)

-- Which branch a success comes from.
pub branched :
    {B : Type 0} (b : Bool) (first rest : Result PaymentError B) {a : B}
    → (if b then first else rest) ≡ ok a
    → ((b ≡ true) × (first ≡ ok a)) ⊎ ((b ≡ false) × (rest ≡ ok a))
branched true first rest h = inl (refl, h)
branched false first rest h = inr (refl, h)

pub after :
    {B : Type 0} (first : Result PaymentError (Unit {0})) (rest : Result PaymentError B) {b : B}
    → (first >> rest) ≡ ok b
    → rest ≡ ok b
after (ok _) rest h = h
after (err e) rest h = cc
