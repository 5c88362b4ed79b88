-- ===== src/Tests/Pricing.antt =====
-- A payment in USD that is settled in CNY.
use sdkit.Base.{◌≡◌, ◌⊎◌, refl, String, true, false, none, some}
use sdkit.Base.Int.{pos}
use sdkit.Base.Dict
use sdkit.Base.Result.{ok}
use sdkit.Base.Text.{trim_space, trim_left, trim_right}
use sdkit.Payment.Error.{live}
use sdkit.Payment.Types.{Money, ExchangeRateSnapshot, PaymentPricing}
use sdkit.Payment.Guards.{normalize_currency}
use sdkit.Payment.Pricing.{
  CurrencyMeta, DefaultPricingPolicy, calculate_settle_amount, exchanged, of_direction, converted,
  positive, currency_meta, default_currency_meta,
}
use sdkit.Payment.Pricing.Rate.{
  parse_positive_decimal_rat, of_parts, split_dots, all_digits, read_digits, size, fraction, pow10,
  round_half_up,
}
use sdkit.Payment.Pricing.Policy.{
  normalize_pricing, settle_currency_of, settle_meta_of, order_amount_of, settle_amount_of,
  settled_amount, fee_amount_of,
}
use sdkit.Payment.Pricing.Converted.{IsConverted, calculate_settle_amount-IsConverted}
use sdkit.Payment.Pricing.Priced.{IsUnsettled, IsCalculated, normalize_pricing-IsPriced}

abbrev as_is : String → String
as_is s = s

abbrev usd : CurrencyMeta
usd = record { code = "USD"; minor_exp = pos 2 }

abbrev cny : CurrencyMeta
cny = record { code = "CNY"; minor_exp = pos 2 }

abbrev dollars : Money
dollars = record { amount = pos 1005; currency = "USD" }

abbrev yuan : Money
yuan = record { amount = pos 7136; currency = "CNY" }

abbrev quoted : ExchangeRateSnapshot
quoted = record {
  from_currency = "USD";
  to_currency = "";
  rate = " +7.1 ";
  source = "bank";
  quoted_at = pos 0;
}

abbrev strict_policy : DefaultPricingPolicy
strict_policy = record {
  default_settle_currency = "";
  currencies = Dict.empty;
  allow_explicit_settle = false;
}

settled : calculate_settle_amount as_is dollars usd cny (some quoted) ≡ ok yuan
unfolding calculate_settle_amount exchanged of_direction converted parse_positive_decimal_rat
    of_parts split_dots all_digits read_digits size fraction pow10 round_half_up normalize_currency
    trim_space trim_left trim_right
settled = refl

calculate_settle_amount-IsConverted_example :
    (r : ExchangeRateSnapshot) × (some quoted ≡ some r)
    × (of_direction as_is dollars cny r ≡ true)
    × IsConverted 1005 usd cny r yuan
calculate_settle_amount-IsConverted_example =
    calculate_settle_amount-IsConverted as_is dollars 1005 usd cny (some quoted) yuan refl refl
      settled

abbrev asked : PaymentPricing
asked = record {
  order_amount = record { amount = pos 0; currency = "" };
  pay_amount = dollars;
  settle_currency = "CNY";
  settle_amount = record { amount = pos 0; currency = "" };
  fee_amount = none;
  exchange_rate = some quoted;
}

abbrev priced : PaymentPricing
priced = record asked { order_amount = dollars; settle_amount = yuan }

normalize_pricing-IsPriced_example :
    (positive priced.pay_amount ≡ true)
    × (positive priced.order_amount ≡ true)
    × (IsUnsettled as_is strict_policy priced ⊎ IsCalculated as_is strict_policy priced)
unfolding normalize_pricing settle_currency_of settle_meta_of order_amount_of settle_amount_of
    settled_amount fee_amount_of currency_meta default_currency_meta calculate_settle_amount
    exchanged of_direction converted parse_positive_decimal_rat of_parts split_dots all_digits
    read_digits size fraction pow10 round_half_up normalize_currency trim_space trim_left trim_right
    Dict.get Dict.empty
normalize_pricing-IsPriced_example =
    normalize_pricing-IsPriced as_is strict_policy live asked priced refl refl
