-- ===== src/Payment/Pricing/Rounds.antt =====
-- What rounding half up gives.
use native.Mathlib.Nat.{div-add-mod, mod-lt, mul-add, mul-one}
use sdkit.Base.{
  ◌≡◌, refl, ap, sym, subst, ◌∙◌, ℕ, zero, ◌+◌, ◌*◌, ◌/◌, ◌%◌, ◌<◌, ◌≤◌, Bool, true, false, leb,
  arith, if◌then◌else◌,
}
use sdkit.Base.Result.{ok, err}
use sdkit.Payment.Error.{invalid_amount}
use sdkit.Payment.Pricing.Rate.{half_up, round_half_up, max_int64}

-- `a`, the product of the denominator and the quotient, and the same with the quotient one larger.
within :
    (num den a r : ℕ)
    → a + r ≡ num
    → r < den
    → leb den (r * 2) ≡ true
    → (2 * (a + den) ≤ 2 * num + den) × (2 * num < 2 * (a + den) + den)
within num den a r e h b = (ground arith, ground arith)

below :
    (num den a r : ℕ)
    → a + r ≡ num
    → r < den
    → leb den (r * 2) ≡ false
    → (2 * a ≤ 2 * num + den) × (2 * num < 2 * a + den)
below num den a r e h b = (ground arith, ground arith)

Rounded : ℕ → ℕ → ℕ → Type 0
Rounded num den q = (2 * (den * q) ≤ 2 * num + den) × (2 * num < 2 * (den * q) + den)

half_up_choice :
    (num den : ℕ) (b : Bool)
    → zero < den
    → leb den (num % den * 2) ≡ b
    → Rounded num den (if b then num / den + 1 else num / den)
unfolding Rounded
half_up_choice num den true d e =
    let next : den * (num / den) + den ≡ den * (num / den + 1) =
      sym (mul-add den (num / den) 1 ∙ ap (λ x. den * (num / den) + x) (mul-one den)) in
    subst (λ x. (2 * x ≤ 2 * num + den) × (2 * num < 2 * x + den)) next
      (within num den (den * (num / den)) (num % den) (div-add-mod num den) (mod-lt num d) e)
half_up_choice num den false d e =
    below num den (den * (num / den)) (num % den) (div-add-mod num den) (mod-lt num d) e

rounded_ok :
    (num den q a : ℕ) (b : Bool)
    → leb q max_int64 ≡ b
    → (if b then ok q else err invalid_amount) ≡ ok a
    → (q ≡ a) × (a ≤ max_int64)
rounded_ok num den q a true e h =
    let same_amount : q ≡ a = cc in
    (same_amount, subst (λ x. x ≤ max_int64) same_amount (ground arith))
rounded_ok num den q a false e h = cc

-- An amount that rounding gives is a whole number nearest to the fraction, the larger one of two that
-- are equally near, and is at most the largest int64.
pub round_half_up-IsNearest :
    (num den amount : ℕ)
    → zero < den
    → round_half_up num den ≡ ok amount
    → (2 * (den * amount) ≤ 2 * num + den)
      × (2 * num < 2 * (den * amount) + den)
      × (amount ≤ max_int64)
unfolding round_half_up Rounded
round_half_up-IsNearest num den amount d h =
    let (same_amount, bound) =
      rounded_ok num den (half_up num den) amount (leb (half_up num den) max_int64) refl h in
    let (low, high) =
      subst (Rounded num den) same_amount
        (half_up_choice num den (leb den (num % den * 2)) d refl) in
    (low, high, bound)
