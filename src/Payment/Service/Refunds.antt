-- ===== src/Payment/Service/Refunds.antt =====
-- Refund and QueryRefund of core/payment/service.go.
pub mod Safe
use sdkit.Base.{
  ℕ, String, Bool, true, false, not, ◌&&◌, ◌||◌, Option, none, some, List, is_blank, str_eq,
  if◌then◌else◌,
}
use sdkit.Base.Int.{ℤ, pos, eqb_ℤ}
use sdkit.Base.Effect.{Io, pure, fail, lift, ◌>>=◌, ◌>>◌}
use sdkit.Base.Result.{Result, ok, err}
use sdkit.Payment.Error.{
  PaymentError, Context, no_context, nil_context, adapter_not_found, unsupported_provider,
  unsupported_channel, unsupported_capability, payment_action_required, notify_verification_fail,
  is_adapter_not_found, reject_if,
}
use sdkit.Payment.Types.{Capabilities, PaymentPricing, PaymentAction, PaymentEvent}
use sdkit.Payment.Requests.{
  CreatePaymentRequest, CreatePaymentResponse, PaymentQuery, QueryPaymentResponse, RefundRequest,
  RefundAmount, RefundResponse, QueryRefundRequest, QueryRefundResponse, NotifyRequest,
  NotifyResult,
}
use sdkit.Payment.Channels.{
  PaymentOperation, create, query, close, refund, query_refund, ChannelBinding, ChannelSelection,
}
use sdkit.Payment.Adapter.{Effect, ProviderAdapter, ChannelSelector, Registry}
use sdkit.Payment.Service.Fill.{
  or_default, fill_create_payment_response, fill_query_payment_response, fill_query_refund_response,
  fill_event,
}
use sdkit.Payment.Guards.{
  validate_create_payment_request, validate_payment_query, validate_refund_request,
  validate_query_refund_request, validate_notify_request, normalize_and_validate_action,
  validate_channel, validate_action, validate_currency, normalize_refund_amount,
}
use sdkit.Payment.Service.{Service, Target, check_context, select_channel, adapter}

module _ {W : Type 0} (to_upper : String → String) (s : Service W) where
  unfoldable pub refund_payment : Context → RefundRequest → Effect W (Option RefundResponse)
  refund_payment ctx given = do
    lift (check_context ctx)
    t ← select_channel s ctx refund (record {
      provider = given.provider;
      channel = given.channel;
      merchant_key = given.merchant_key;
    })
    let req = record given {
      provider = t.provider;
      channel = t.channel;
      merchant_key = t.merchant_key;
    }
    lift (validate_refund_request req)
    (a, caps) ← lift (adapter s req.provider)
    lift (validate_channel caps req.channel)
    lift (reject_if (not caps.supports_refund) unsupported_capability)
    amount ← lift (normalize_refund_amount to_upper req.amount)
    lift (validate_currency to_upper caps amount.refund.currency)
    a.refund ctx (record req { amount = amount })

module _ {W : Type 0} (s : Service W) where
  unfoldable pub query_refund_payment :
      Context → QueryRefundRequest → Effect W (Option QueryRefundResponse)
  query_refund_payment ctx given = do
    lift (check_context ctx)
    t ← select_channel s ctx query_refund (record {
      provider = given.provider;
      channel = given.channel;
      merchant_key = given.merchant_key;
    })
    let req = record given {
      provider = t.provider;
      channel = t.channel;
      merchant_key = t.merchant_key;
    }
    lift (validate_query_refund_request req)
    (a, caps) ← lift (adapter s req.provider)
    lift (validate_channel caps req.channel)
    lift (reject_if (not caps.supports_query_refund) unsupported_capability)
    resp ← a.query_refund ctx req
    pure (fill_query_refund_response resp req)
