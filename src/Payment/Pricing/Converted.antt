-- ===== src/Payment/Pricing/Converted.antt =====
-- The amount that a rate gives.
use native.Mathlib.Nat.{mul-pos, one-le-pow}
use sdkit.Base.{
  ◌≡◌, refl, subst, ℕ, zero, ◌+◌, ◌*◌, ◌^◌, ◌<◌, ◌≤◌, String, Bool, true, false, not, ◌||◌, ◌==◌,
  Option, none, some, is_blank, str_eq, arith, if◌then◌else◌,
}
use Prim.Native.String.{◌++◌}
use sdkit.Base.Int.{ℤ, pos, negsuc, ltb_ℤ}
use sdkit.Base.Text.{trim_space}
use sdkit.Base.Result.{Result, ok, err}
use sdkit.Base.Effect.{passed}
use sdkit.Payment.Error.{PaymentError, invalid_amount, invalid_exchange_rate}
use sdkit.Payment.Error.Checks.{bound, allowed, not_eq_false}
use sdkit.Payment.Types.{Money, ExchangeRateSnapshot}
use sdkit.Payment.Pricing.{
  CurrencyMeta, calculate_settle_amount, exchanged, converted, of_direction,
}
use sdkit.Payment.Pricing.Rate.{
  parse_positive_decimal_rat, fraction, of_parts, Parts, or_zero, one, two, many, split_dots,
  starts_with, rest_of, read_digits, all_digits, size, pow10, max_int64,
}
use sdkit.Payment.Pricing.Rounds.{round_half_up-IsNearest}

pow10_positive : (e : ℤ) → zero < pow10 e
unfolding pow10
pow10_positive (pos n) = one-le-pow n 10 (omega arith)
pow10_positive (negsuc n) = omega arith

ok_pair :
    (a b num den : ℕ) → ◌≡◌ {A = Result PaymentError (ℕ × ℕ)} (ok (a, b)) (ok (num, den)) → b ≡ den
ok_pair a b num den h = cc

fraction_positive :
    (negative : Bool) (int frac : String) (num den : ℕ)
    → fraction negative int frac ≡ ok (num, den)
    → zero < den
unfolding fraction
fraction_positive negative int frac num den h =
    let (digits, h1) = allowed (not (all_digits (int ++ frac))) invalid_exchange_rate _ h in
    let (large, h2) =
      allowed (negative || read_digits 0 (int ++ frac) == 0) invalid_exchange_rate _ h1 in
    subst (λ x. zero < x) (ok_pair (read_digits 0 (int ++ frac)) (10 ^ size frac) num den h2)
      (one-le-pow (size frac) 10 (omega arith))

of_parts_positive :
    (negative : Bool) (parts : Parts) (num den : ℕ)
    → of_parts negative parts ≡ ok (num, den)
    → zero < den
unfolding of_parts
of_parts_positive negative (one s) num den h =
    let (given, h1) = allowed (is_blank s) invalid_exchange_rate _ h in
    fraction_positive negative (or_zero s) "" num den h1
of_parts_positive negative (two s t) num den h = fraction_positive negative (or_zero s) t num den h
of_parts_positive negative many num den h = cc

rate_positive :
    (raw : String) (num den : ℕ) → parse_positive_decimal_rat raw ≡ ok (num, den) → zero < den
unfolding parse_positive_decimal_rat
rate_positive raw num den h =
    let text = trim_space raw in
    let negative = starts_with 45 text in
    let parts = split_dots (if starts_with 43 text || negative then rest_of text else text) in
    let (given, h1) = passed (is_blank text) invalid_exchange_rate (of_parts negative parts) h in
    of_parts_positive negative parts num den h1

money_of :
    (a : ℕ) (currency : String) (m : Money)
    → ◌≡◌ {A = Result PaymentError Money}
        (ok (record { amount = pos a; currency = currency }))
        (ok m)
    → m ≡ record { amount = pos a; currency = currency }
money_of a currency m h = cc

-- `m` is the amount of `n` minor units of one currency in minor units of the other, at the rate `r`.
unfoldable pub IsConverted : ℕ → CurrencyMeta → CurrencyMeta → ExchangeRateSnapshot → Money → Type 0
unfolding parse_positive_decimal_rat pow10
IsConverted n pay_meta meta r m =
    (num : ℕ) × (den : ℕ) × (a : ℕ) × (parse_positive_decimal_rat r.rate ≡ ok (num, den))
    × (m ≡ record { amount = pos a; currency = meta.code })
    × (zero < a)
    × (a ≤ max_int64)
    × (let top = n * num * pow10 meta.minor_exp in
        let under = pow10 pay_meta.minor_exp * den in
        (2 * (under * a) ≤ 2 * top + under) × (2 * top < 2 * (under * a) + under))

converted_is :
    (n : ℕ) (pay_meta meta : CurrencyMeta) (r : ExchangeRateSnapshot) (m : Money) (num den a : ℕ)
    → parse_positive_decimal_rat r.rate ≡ ok (num, den)
    → converted (pos n) pay_meta.minor_exp meta.minor_exp (num, den) ≡ ok a
    → not (ltb_ℤ (pos 0) (pos a)) ≡ false
    → ◌≡◌ {A = Result PaymentError Money}
        (ok (record { amount = pos a; currency = meta.code }))
        (ok m)
    → IsConverted n pay_meta meta r m
unfolding IsConverted converted
converted_is n pay_meta meta r m num den a parsed rounded large last =
    let (low, high, bounded) =
      round_half_up-IsNearest (n * num * pow10 meta.minor_exp) (pow10 pay_meta.minor_exp * den) a
        (mul-pos (pow10_positive pay_meta.minor_exp) (rate_positive r.rate num den parsed))
        rounded in
    (num, den, a, parsed, money_of a meta.code m last, ground arith, bounded, (low, high))

second_branch :
    (b : Bool) (first rest : Result PaymentError Money) {m : Money}
    → b ≡ false
    → (if b then first else rest) ≡ ok m
    → rest ≡ ok m
second_branch true first rest e h = cc
second_branch false first rest e h = h

module _ (to_upper : String → String) where
  exchanged_is :
      (pay : Money) (n : ℕ) (pay_meta meta : CurrencyMeta) (r : ExchangeRateSnapshot) (m : Money)
      → pay.amount ≡ pos n
      → exchanged to_upper pay pay_meta meta r ≡ ok m
      → (of_direction to_upper pay meta r ≡ true) × IsConverted n pay_meta meta r m
  unfolding exchanged
  exchanged_is pay n pay_meta meta r m e h =
      let (right, h1) =
        allowed (not (of_direction to_upper pay meta r)) invalid_exchange_rate _ h in
      let (value, parsed, h2) = bound (parse_positive_decimal_rat r.rate) _ h1 in
      let (a, rounded, h3) =
        bound (converted pay.amount pay_meta.minor_exp meta.minor_exp value) _ h2 in
      let (large, h4) = allowed (not (ltb_ℤ (pos 0) (pos a))) invalid_amount _ h3 in
      (
        not_eq_false right,
        converted_is n pay_meta meta r m value.0 value.1 a parsed
            (subst (λ x. converted x pay_meta.minor_exp meta.minor_exp value ≡ ok a) e rounded)
            large h4,
      )

  quoted_is :
      (pay : Money) (n : ℕ) (pay_meta meta : CurrencyMeta) (rate : Option ExchangeRateSnapshot)
      (m : Money)
      → pay.amount ≡ pos n
      → elim rate as (λ _. Result PaymentError Money) [
        | none ↦ err invalid_exchange_rate
        | some r ↦ exchanged to_upper pay pay_meta meta r
      ]
        ≡ ok m
      → (r : ExchangeRateSnapshot) × (rate ≡ some r)
        × (of_direction to_upper pay meta r ≡ true)
        × IsConverted n pay_meta meta r m
  quoted_is pay n pay_meta meta none m e h = cc
  quoted_is pay n pay_meta meta (some r) m e h =
      let (right, is_it) = exchanged_is pay n pay_meta meta r m e h in (r, refl, right, is_it)

  -- A settlement amount that is calculated from a payment of `n` minor units in another currency comes
  -- from a rate of the right direction, is positive and fits in an int64, and is the whole number
  -- nearest to the exact amount, the larger one of two that are equally near.
  pub calculate_settle_amount-IsConverted :
      (pay : Money) (n : ℕ) (pay_meta meta : CurrencyMeta) (rate : Option ExchangeRateSnapshot)
      (m : Money)
      → pay.amount ≡ pos n
      → str_eq pay.currency meta.code ≡ false
      → calculate_settle_amount to_upper pay pay_meta meta rate ≡ ok m
      → (r : ExchangeRateSnapshot) × (rate ≡ some r)
        × (of_direction to_upper pay meta r ≡ true)
        × IsConverted n pay_meta meta r m
  unfolding calculate_settle_amount
  calculate_settle_amount-IsConverted pay n pay_meta meta rate m e other h =
      quoted_is pay n pay_meta meta rate m e
        (second_branch (str_eq pay.currency meta.code) _ _ other h)
