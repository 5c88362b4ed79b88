-- ===== src/Base/Result.antt =====
-- A Go function that returns `(value, error)` and gives up on the first error.
pub data Result {ℓ κ} (E : Type κ) (A : Type ℓ) : Type (ℓ ⊔ κ) where
  ok : A → Result E A
  err : E → Result E A

module _ {ℓ κ μ} {E : Type κ} {A : Type ℓ} {B : Type μ} where
  infixl 5 ◌>>=◌
  abbrev pub ◌>>=◌ : Result E A → (A → Result E B) → Result E B
  ok value >>= rest = rest value
  err failure >>= rest = err failure

module _ {κ μ} {E : Type κ} {B : Type μ} where
  infixl 5 ◌>>◌
  -- `if err := check; err != nil { return err }` before the rest
  abbrev pub ◌>>◌ : Result E (Unit {0}) → Result E B → Result E B
  ok _ >> rest = rest
  err failure >> rest = err failure
