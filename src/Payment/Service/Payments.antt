-- ===== src/Payment/Service/Payments.antt =====
-- CreatePayment, QueryPayment and ClosePayment of core/payment/service.go.
pub mod Usable
use sdkit.Base.{
  ℕ, String, Bool, true, false, not, ◌&&◌, ◌||◌, Option, none, some, List, is_blank, str_eq,
  if◌then◌else◌,
}
use sdkit.Base.Int.{ℤ, pos, eqb_ℤ}
use sdkit.Base.Effect.{Io, pure, fail, lift, ◌>>=◌, ◌>>◌}
use sdkit.Base.Result.{Result, ok, err}
use sdkit.Payment.Error.{
  PaymentError, Context, no_context, nil_context, adapter_not_found, unsupported_provider,
  unsupported_channel, unsupported_capability, payment_action_required, notify_verification_fail,
  is_adapter_not_found, reject_if,
}
use sdkit.Payment.Types.{Capabilities, PaymentPricing, PaymentAction, PaymentEvent}
use sdkit.Payment.Requests.{
  CreatePaymentRequest, CreatePaymentResponse, PaymentQuery, QueryPaymentResponse, RefundRequest,
  RefundAmount, RefundResponse, QueryRefundRequest, QueryRefundResponse, NotifyRequest,
  NotifyResult,
}
use sdkit.Payment.Channels.{
  PaymentOperation, create, query, close, refund, query_refund, ChannelBinding, ChannelSelection,
}
use sdkit.Payment.Adapter.{Effect, ProviderAdapter, ChannelSelector, Registry}
use sdkit.Payment.Service.Fill.{
  or_default, fill_create_payment_response, fill_query_payment_response, fill_query_refund_response,
  fill_event,
}
use sdkit.Payment.Guards.{
  validate_create_payment_request, validate_payment_query, validate_refund_request,
  validate_query_refund_request, validate_notify_request, normalize_and_validate_action,
  validate_channel, validate_action, validate_currency, normalize_refund_amount,
}
use sdkit.Payment.Service.{Service, Target, check_context, select_channel, adapter}

-- The response, or the error for a nil one.
abbrev value_or : {A : Type 0} → Option A → PaymentError → Result PaymentError A
value_or none e = err e
value_or (some a) e = ok a

module _ {W : Type 0} (to_upper : String → String) (s : Service W) where
  unfoldable pub create_payment :
      Context → ℕ → CreatePaymentRequest → Effect W CreatePaymentResponse
  create_payment ctx now given = do
    lift (check_context ctx)
    t ← select_channel s ctx create (record {
      provider = given.provider;
      channel = given.channel;
      merchant_key = given.merchant_key;
    })
    let req = record given {
      provider = t.provider;
      channel = t.channel;
      merchant_key = t.merchant_key;
    }
    lift (validate_create_payment_request req now)
    (a, caps) ← lift (adapter s req.provider)
    lift (validate_channel caps req.channel)
    pricing ← s.normalize_pricing ctx req.pricing
    lift (validate_currency to_upper caps pricing.pay_amount.currency)
    let priced = record req { pricing = pricing }
    answer ← a.create_payment ctx priced
    resp ← lift (value_or answer payment_action_required)
    action ← lift (normalize_and_validate_action resp.action)
    lift (validate_action caps action.type)
    pure (fill_create_payment_response (record resp { action = action }) priced)

module _ {W : Type 0} (s : Service W) where
  -- The part that QueryPayment and ClosePayment share, up to the check of a capability.
  abbrev prepare_query :
      Context
      → PaymentOperation
      → PaymentQuery
      → Effect W (PaymentQuery × ProviderAdapter W × Capabilities)
  prepare_query ctx operation given = do
    lift (check_context ctx)
    t ← select_channel s ctx operation (record {
      provider = given.provider;
      channel = given.channel;
      merchant_key = given.merchant_key;
    })
    let req = record given {
      provider = t.provider;
      channel = t.channel;
      merchant_key = t.merchant_key;
    }
    lift (validate_payment_query req)
    (a, caps) ← lift (adapter s req.provider)
    lift (validate_channel caps req.channel)
    pure (req, a, caps)

  unfoldable pub query_payment : Context → PaymentQuery → Effect W (Option QueryPaymentResponse)
  query_payment ctx given = do
    (req, a, caps) ← prepare_query ctx query given
    lift (reject_if (not caps.supports_query) unsupported_capability)
    resp ← a.query_payment ctx req
    pure (fill_query_payment_response resp req)

  unfoldable pub close_payment : Context → PaymentQuery → Effect W (Unit {0})
  close_payment ctx given = do
    (req, a, caps) ← prepare_query ctx close given
    lift (reject_if (not caps.supports_close) unsupported_capability)
    a.close_payment ctx req
