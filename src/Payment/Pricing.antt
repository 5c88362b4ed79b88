-- ===== src/Payment/Pricing.antt =====
-- core/payment/pricing.go: the pricing policy. `to_upper` is strings.ToUpper.
pub mod Rate
pub mod Rounds
pub mod Policy
pub mod Converted
pub mod Priced
use sdkit.Base.{
  ℕ, ◌*◌, String, Bool, true, false, not, ◌&&◌, ◌||◌, Option, none, some, is_blank, str_eq,
  if◌then◌else◌,
}
use sdkit.Base.Int.{ℤ, pos, negsuc, ltb_ℤ, eqb_ℤ}
use sdkit.Base.Dict
use sdkit.Base.Dict.{Dict}
use sdkit.Base.Text.{trim_space}
use sdkit.Base.Result.{Result, ok, err, ◌>>=◌, ◌>>◌}
use sdkit.Payment.Error.{
  PaymentError, invalid_amount, invalid_request, invalid_currency, invalid_exchange_rate,
  currency_meta_not_found, settle_amount_mismatch, nil_context, reject_if, Context, no_context,
  live, done,
}
use sdkit.Payment.Types.{Money, PaymentPricing, ExchangeRateSnapshot}
use sdkit.Payment.Guards.{normalize_currency, is_empty}
use sdkit.Payment.Pricing.Rate.{parse_positive_decimal_rat, pow10, round_half_up}

pub record CurrencyMeta : Type 0 where
  pub code : String
  pub minor_exp : ℤ

-- A nil map of currencies is the empty one.
pub record DefaultPricingPolicy : Type 0 where
  pub default_settle_currency : String
  pub currencies : Dict CurrencyMeta
  pub allow_explicit_settle : Bool

abbrev pub has_two_digits : String → Bool
has_two_digits code =
    str_eq code "CNY"
    || str_eq code "USD"
    || str_eq code "EUR"
    || str_eq code "GBP"
    || str_eq code "HKD"
    || str_eq code "MOP"
    || str_eq code "TWD"
    || str_eq code "SGD"
    || str_eq code "AUD"
    || str_eq code "CAD"

abbrev pub ok_ctx : Context → Result PaymentError (Unit {0})
ok_ctx no_context = err nil_context
ok_ctx live = ok tt
ok_ctx (done e) = err e

abbrev pub positive : Money → Bool
positive m = ltb_ℤ (pos 0) m.amount

-- money.Amount == 0 && strings.TrimSpace(money.Currency) == ""
abbrev pub is_unset : Money → Bool
is_unset m = eqb_ℤ m.amount (pos 0) && is_empty m.currency

-- m == n, for two values of Money
abbrev pub same_money : Money → Money → Bool
same_money m n = eqb_ℤ m.amount n.amount && str_eq m.currency n.currency

-- The amount of `pay` in the minor units of the other currency, for a rate.
unfoldable pub converted : ℤ → ℤ → ℤ → ℕ × ℕ → Result PaymentError ℕ
unfolding round_half_up pow10
converted (negsuc n) from to rate = err invalid_amount
converted (pos n) from to (num, den) = round_half_up (n * num * pow10 to) (pow10 from * den)

module _ (to_upper : String → String) where
  -- DefaultCurrencyMeta
  unfoldable pub default_currency_meta : String → Option CurrencyMeta
  unfolding normalize_currency
  default_currency_meta given =
      let code = normalize_currency to_upper given in
      if has_two_digits code
      then some (record { code = code; minor_exp = pos 2 })
      else if str_eq code "JPY" || str_eq code "KRW"
      then some (record { code = code; minor_exp = pos 0 })
      else none

  unfoldable pub checked_meta : String → CurrencyMeta → Result PaymentError CurrencyMeta
  unfolding normalize_currency
  checked_meta code meta =
      if ltb_ℤ meta.minor_exp (pos 0)
      then err invalid_currency
      else ok (record meta {
        code = if is_empty meta.code then code else normalize_currency to_upper meta.code;
      })

  unfoldable pub own_meta : String → Option CurrencyMeta → Result PaymentError CurrencyMeta
  unfolding default_currency_meta checked_meta
  own_meta code (some meta) = checked_meta code meta
  own_meta code none = elim (default_currency_meta code) [
    | none ↦ err currency_meta_not_found
    | some meta ↦ ok meta
  ]

  unfoldable pub currency_meta : DefaultPricingPolicy → String → Result PaymentError CurrencyMeta
  unfolding own_meta normalize_currency
  currency_meta p given =
      let code = normalize_currency to_upper given in own_meta code (Dict.get p.currencies code)

  unfoldable pub of_direction : Money → CurrencyMeta → ExchangeRateSnapshot → Bool
  unfolding normalize_currency
  of_direction pay meta rate =
      str_eq (normalize_currency to_upper rate.from_currency) pay.currency
      && str_eq (normalize_currency to_upper rate.to_currency) meta.code

  unfoldable pub exchanged :
      Money → CurrencyMeta → CurrencyMeta → ExchangeRateSnapshot → Result PaymentError Money
  unfolding of_direction parse_positive_decimal_rat converted
  exchanged pay pay_meta meta rate = do
    reject_if (not (of_direction pay meta rate)) invalid_exchange_rate
    value ← parse_positive_decimal_rat rate.rate
    amount ← converted pay.amount pay_meta.minor_exp meta.minor_exp value
    reject_if (not (ltb_ℤ (pos 0) (pos amount))) invalid_amount
    ok (record { amount = pos amount; currency = meta.code })

  unfoldable pub calculate_settle_amount :
      Money → CurrencyMeta → CurrencyMeta → Option ExchangeRateSnapshot → Result PaymentError Money
  unfolding exchanged
  calculate_settle_amount pay pay_meta meta rate =
      if str_eq pay.currency meta.code
      then ok (record { amount = pay.amount; currency = meta.code })
      else elim rate [ none ↦ err invalid_exchange_rate | some r ↦ exchanged pay pay_meta meta r ]
