-- ===== src/Payment/Service.antt =====
-- core/payment/service.go: the service, selectChannel and adapter. A request is passed by value in Go, and the
-- channel that `selectChannel` writes through pointers is a `Target` that it returns.
pub mod Fill
pub mod Payments
pub mod Refunds
pub mod Notify
pub mod Selects
use sdkit.Base.{
  ℕ, String, Bool, true, false, not, ◌&&◌, ◌||◌, Option, none, some, List, is_blank, str_eq,
  if◌then◌else◌,
}
use sdkit.Base.Int.{ℤ, pos, eqb_ℤ}
use sdkit.Base.Effect.{Io, pure, fail, lift, ◌>>=◌, ◌>>◌}
use sdkit.Base.Result.{Result, ok, err}
use sdkit.Payment.Error.{
  PaymentError, Context, no_context, nil_context, adapter_not_found, unsupported_provider,
  unsupported_channel, unsupported_capability, payment_action_required, notify_verification_fail,
  is_adapter_not_found, reject_if,
}
use sdkit.Payment.Types.{Capabilities, PaymentPricing, PaymentAction, PaymentEvent}
use sdkit.Payment.Requests.{
  CreatePaymentRequest, CreatePaymentResponse, PaymentQuery, QueryPaymentResponse, RefundRequest,
  RefundAmount, RefundResponse, QueryRefundRequest, QueryRefundResponse, NotifyRequest,
  NotifyResult,
}
use sdkit.Payment.Channels.{
  PaymentOperation, create, query, close, refund, query_refund, ChannelBinding, ChannelSelection,
}
use sdkit.Payment.Adapter.{Effect, ProviderAdapter, ChannelSelector, Registry}
use sdkit.Payment.Adapter
use sdkit.Payment.Service.Fill.{
  or_default, fill_create_payment_response, fill_query_payment_response, fill_query_refund_response,
  fill_event,
}
use sdkit.Payment.Guards.{
  validate_create_payment_request, validate_payment_query, validate_refund_request,
  validate_query_refund_request, validate_notify_request, normalize_and_validate_action,
  validate_channel, validate_action, validate_currency, normalize_refund_amount,
}

pub record Service (W : Type 0) : Type 0 where
  pub registry : Registry W
  pub normalize_pricing : Context → PaymentPricing → Effect W PaymentPricing
  pub channel_selector : Option (ChannelSelector W)

-- The provider, the channel and the merchant key of a request.
pub record Target : Type 0 where
  pub provider : String
  pub channel : String
  pub merchant_key : String

-- What selectChannel does with the answer of the selector.
abbrev pub accept : Target → ChannelSelection → Result PaymentError Target
accept t s =
    if is_blank s.provider
    then err unsupported_provider
    else if is_blank s.channel
    then err unsupported_channel
    else if not (is_blank t.provider) && not (str_eq t.provider s.provider)
    then err unsupported_provider
    else if not (is_blank t.channel) && not (str_eq t.channel s.channel)
    then err unsupported_channel
    else ok (record {
      provider = s.provider;
      channel = s.channel;
      merchant_key = or_default s.merchant_key t.merchant_key;
    })

abbrev pub selected :
    Target → Result PaymentError (Option ChannelSelection) → Result PaymentError Target
selected t (ok (some s)) = accept t s
selected t (ok none) = err adapter_not_found
selected t (err e) =
    if not (is_blank t.provider) && not (is_blank t.channel) && is_adapter_not_found e
    then ok t
    else err e

abbrev pub check_context : Context → Result PaymentError (Unit {0})
check_context no_context = err nil_context
check_context _ = ok tt

module _ {W : Type 0} (s : Service W) where
  abbrev pub ask :
      Option (ChannelSelector W) → Context → PaymentOperation → Target → Effect W Target
  ask none ctx operation t w = (ok t, w)
  ask (some selector) ctx operation t w =
      let (r, w') =
        selector.select_payment_channel ctx
          (record {
            provider = t.provider;
            channel = t.channel;
            merchant_key = t.merchant_key;
            operation = operation;
          })
          w in
      (selected t r, w')

  unfoldable pub select_channel : Context → PaymentOperation → Target → Effect W Target
  select_channel ctx operation t =
      if is_blank t.merchant_key then pure t else ask s.channel_selector ctx operation t

  -- Service.adapter, for the adapter that the registry has
  abbrev pub checked :
      String → ProviderAdapter W → Result PaymentError (ProviderAdapter W × Capabilities)
  checked provider a =
      let caps = a.capabilities in
      if not (is_blank caps.provider) && not (str_eq caps.provider provider)
      then err unsupported_provider
      else ok (a, record caps { provider = or_default caps.provider provider })

  abbrev found :
      String
      → Result PaymentError (ProviderAdapter W)
      → Result PaymentError (ProviderAdapter W × Capabilities)
  found provider (err e) = err e
  found provider (ok a) = checked provider a

  unfoldable pub adapter : String → Result PaymentError (ProviderAdapter W × Capabilities)
  adapter provider = found provider (Adapter.adapter s.registry provider)
