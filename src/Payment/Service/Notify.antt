-- ===== src/Payment/Service/Notify.antt =====
-- HandleNotify and ReloadChannels of core/payment/service.go.
pub mod Trusted
use sdkit.Base.{
  ℕ, String, Bool, true, false, not, ◌&&◌, ◌||◌, Option, none, some, List, is_blank, str_eq,
  if◌then◌else◌,
}
use sdkit.Base.Int.{ℤ, pos, eqb_ℤ}
use sdkit.Base.Effect.{Io, pure, fail, lift, ◌>>=◌, ◌>>◌}
use sdkit.Base.Result.{Result, ok, err}
use sdkit.Payment.Error.{
  PaymentError, Context, no_context, nil_context, adapter_not_found, unsupported_provider,
  unsupported_channel, unsupported_capability, payment_action_required, notify_verification_fail,
  is_adapter_not_found, reject_if,
}
use sdkit.Payment.Types.{Capabilities, PaymentPricing, PaymentAction, PaymentEvent}
use sdkit.Payment.Requests.{
  CreatePaymentRequest, CreatePaymentResponse, PaymentQuery, QueryPaymentResponse, RefundRequest,
  RefundAmount, RefundResponse, QueryRefundRequest, QueryRefundResponse, NotifyRequest,
  NotifyResult,
}
use sdkit.Payment.Channels.{
  PaymentOperation, create, query, close, refund, query_refund, ChannelBinding, ChannelSelection,
}
use sdkit.Payment.Adapter.{Effect, ProviderAdapter, ChannelSelector, Registry}
use sdkit.Payment.Service.Fill.{
  or_default, fill_create_payment_response, fill_query_payment_response, fill_query_refund_response,
  fill_event,
}
use sdkit.Payment.Guards.{
  validate_create_payment_request, validate_payment_query, validate_refund_request,
  validate_query_refund_request, validate_notify_request, normalize_and_validate_action,
  validate_channel, validate_action, validate_currency, normalize_refund_amount,
}
use sdkit.Payment.Service.{Service, Target, check_context, select_channel, adapter}

-- The checks that HandleNotify makes of an event against the request.
abbrev pub is_foreign : NotifyRequest → PaymentEvent → Bool
is_foreign req e =
    (not (is_blank e.provider) && not (str_eq e.provider req.provider))
    || (not (is_blank e.channel) && not (str_eq e.channel req.channel))
    || (not (is_blank req.merchant_key)
        && not (is_blank e.merchant_key)
        && not (str_eq e.merchant_key req.merchant_key))

abbrev pub trust_event :
    NotifyRequest → NotifyResult → Option PaymentEvent → Result PaymentError NotifyResult
trust_event req result none = ok result
trust_event req result (some e) =
    if is_foreign req e
    then err notify_verification_fail
    else ok (record result { event = some (fill_event e req) })

-- HandleNotify after ParseNotify
abbrev pub trust : NotifyRequest → Option NotifyResult → Result PaymentError NotifyResult
trust req none = err notify_verification_fail
trust req (some result) =
    if not result.verified
    then err notify_verification_fail
    else trust_event req result result.event

module _ {W : Type 0} (s : Service W) where
  unfoldable pub handle_notify : Context → NotifyRequest → Effect W NotifyResult
  handle_notify ctx req = do
    lift (check_context ctx)
    lift (validate_notify_request req)
    (a, caps) ← lift (adapter s req.provider)
    lift (validate_channel caps req.channel)
    lift (reject_if (not caps.supports_notify) unsupported_capability)
    result ← a.parse_notify ctx req
    lift (trust req result)

  abbrev reload_by :
      Option (List ChannelBinding → Effect W (Unit {0})) → List ChannelBinding → Effect W (Unit {0})
  reload_by none bindings = fail unsupported_capability
  reload_by (some reload) bindings = reload bindings

  unfoldable pub reload_channels : List ChannelBinding → Effect W (Unit {0})
  reload_channels bindings = elim s.channel_selector [
    | none ↦ fail unsupported_capability
    | some selector ↦ reload_by selector.reload bindings
  ]
