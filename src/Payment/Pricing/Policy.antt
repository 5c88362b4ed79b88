-- ===== src/Payment/Pricing/Policy.antt =====
-- core/payment/pricing.go: NormalizePricing.
use sdkit.Base.{
  String, Bool, true, false, not, ◌&&◌, ◌||◌, Option, none, some, is_blank, str_eq, if◌then◌else◌,
}
use sdkit.Base.Int.{pos, ltb_ℤ}
use sdkit.Base.Text.{trim_space}
use sdkit.Base.Result.{Result, ok, ◌>>=◌, ◌>>◌}
use sdkit.Payment.Error.{
  PaymentError, invalid_amount, invalid_request, invalid_currency, settle_amount_mismatch,
  reject_if, Context,
}
use sdkit.Payment.Types.{Money, PaymentPricing, ExchangeRateSnapshot}
use sdkit.Payment.Guards.{normalize_currency, is_empty, in_normal}
use sdkit.Payment.Pricing.{
  CurrencyMeta, DefaultPricingPolicy, ok_ctx, positive, is_unset, same_money, currency_meta,
  calculate_settle_amount,
}

abbrev pub no_money : Money
no_money = record { amount = pos 0; currency = "" }

abbrev pub is_some : Option ExchangeRateSnapshot → Bool
is_some none = false
is_some (some r) = true

module _ (to_upper : String → String) (p : DefaultPricingPolicy) where
  -- The currency that the settlement is asked in.
  unfoldable pub settle_currency_of : PaymentPricing → String
  unfolding normalize_currency
  settle_currency_of pricing =
      if not (is_blank p.default_settle_currency) && is_empty pricing.settle_currency
      then normalize_currency to_upper p.default_settle_currency
      else to_upper (trim_space pricing.settle_currency)

  unfoldable pub settle_meta_of : String → Result PaymentError (Option CurrencyMeta)
  unfolding currency_meta
  settle_meta_of currency =
      if is_blank currency
      then ok none
      else currency_meta to_upper p currency >>= λ meta. ok (some meta)

  unfoldable pub order_amount_of : Money → Money → Result PaymentError Money
  unfolding currency_meta
  order_amount_of pay order = if is_unset order then ok pay else do
    reject_if (not (positive order)) invalid_amount
    meta ← currency_meta to_upper p (in_normal to_upper order).currency
    ok (in_normal to_upper order)

  -- The settlement amount that was given, against the one that was calculated.
  unfoldable pub settled_amount : String → Money → Money → Result PaymentError Money
  settled_amount currency given calculated =
      let own = in_normal to_upper given in
      if is_unset given then ok calculated else do
        reject_if (not (positive given)) invalid_amount
        reject_if (not (str_eq own.currency currency)) invalid_currency
        reject_if (not p.allow_explicit_settle && not (same_money own calculated))
            settle_amount_mismatch
        ok own

  unfoldable pub settle_amount_of :
      PaymentPricing
      → Money
      → CurrencyMeta
      → String
      → Option CurrencyMeta
      → Result PaymentError Money
  unfolding settled_amount calculate_settle_amount
  settle_amount_of pricing pay pay_meta currency none =
      reject_if (not (same_money pricing.settle_amount no_money) || is_some pricing.exchange_rate)
        invalid_request
      >> ok pricing.settle_amount
  settle_amount_of pricing pay pay_meta currency (some meta) =
      calculate_settle_amount to_upper pay pay_meta meta pricing.exchange_rate >>= λ calculated.
      settled_amount currency pricing.settle_amount calculated

  unfoldable pub fee_amount_of : Option Money → Result PaymentError (Option Money)
  unfolding currency_meta
  fee_amount_of none = ok none
  fee_amount_of (some fee) = do
    reject_if (ltb_ℤ fee.amount (pos 0)) invalid_amount
    meta ← currency_meta to_upper p (in_normal to_upper fee).currency
    ok (some (in_normal to_upper fee))

  -- NormalizePricing
  unfoldable pub normalize_pricing : Context → PaymentPricing → Result PaymentError PaymentPricing
  unfolding settle_currency_of settle_meta_of order_amount_of settle_amount_of fee_amount_of
      currency_meta
  normalize_pricing ctx pricing = do
    ok_ctx ctx
    reject_if (not (positive pricing.pay_amount)) invalid_amount
    pay_meta ← currency_meta to_upper p (in_normal to_upper pricing.pay_amount).currency
    settle_meta ← settle_meta_of (settle_currency_of pricing)
    order ← order_amount_of (in_normal to_upper pricing.pay_amount) pricing.order_amount
    settle ←
        settle_amount_of pricing (in_normal to_upper pricing.pay_amount) pay_meta
          (settle_currency_of pricing) settle_meta
    fee ← fee_amount_of pricing.fee_amount
    ok (record pricing {
      order_amount = order;
      pay_amount = in_normal to_upper pricing.pay_amount;
      settle_currency = settle_currency_of pricing;
      settle_amount = settle;
      fee_amount = fee;
    })
