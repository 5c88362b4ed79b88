-- ===== src/Payment/Service/Fill.antt =====
-- The `fill...Defaults` functions of core/payment/service.go: what a provider leaves out of its answer
-- is taken from the request.
use sdkit.Base.{String, Option, none, some, is_blank, if◌then◌else◌}
use sdkit.Base.Int.{pos, eqb_ℤ}
use sdkit.Payment.Types.{PaymentPricing, PaymentEvent}
use sdkit.Payment.Requests.{
  CreatePaymentRequest, CreatePaymentResponse, PaymentQuery, QueryPaymentResponse,
  QueryRefundRequest, QueryRefundResponse, NotifyRequest,
}

abbrev pub or_default : String → String → String
or_default s default = if is_blank s then default else s

-- The pricing of the request, when the response has no amount to pay.
abbrev or_pricing : PaymentPricing → PaymentPricing → PaymentPricing
or_pricing p default = if eqb_ℤ p.pay_amount.amount (pos 0) then default else p

abbrev pub fill_create_payment_response :
    CreatePaymentResponse → CreatePaymentRequest → CreatePaymentResponse
fill_create_payment_response resp req = record resp {
  provider = or_default resp.provider req.provider;
  channel = or_default resp.channel req.channel;
  merchant_key = or_default resp.merchant_key req.merchant_key;
  payment_id = or_default resp.payment_id req.payment_id;
  order_id = or_default resp.order_id req.order_id;
  out_trade_no = or_default resp.out_trade_no req.out_trade_no;
  pricing = or_pricing resp.pricing req.pricing;
}

abbrev pub fill_query_payment_response :
    Option QueryPaymentResponse → PaymentQuery → Option QueryPaymentResponse
fill_query_payment_response none req = none
fill_query_payment_response (some resp) req = some (record resp {
  provider = or_default resp.provider req.provider;
  channel = or_default resp.channel req.channel;
  merchant_key = or_default resp.merchant_key req.merchant_key;
  payment_id = or_default resp.payment_id req.payment_id;
  order_id = or_default resp.order_id req.order_id;
  out_trade_no = or_default resp.out_trade_no req.out_trade_no;
  provider_trade_id = or_default resp.provider_trade_id req.provider_trade_id;
})

abbrev pub fill_query_refund_response :
    Option QueryRefundResponse → QueryRefundRequest → Option QueryRefundResponse
fill_query_refund_response none req = none
fill_query_refund_response (some resp) req = some (record resp {
  provider = or_default resp.provider req.provider;
  channel = or_default resp.channel req.channel;
  merchant_key = or_default resp.merchant_key req.merchant_key;
  payment_id = or_default resp.payment_id req.payment_id;
  out_trade_no = or_default resp.out_trade_no req.out_trade_no;
  provider_trade_id = or_default resp.provider_trade_id req.provider_trade_id;
  refund_id = or_default resp.refund_id req.refund_id;
  provider_refund_id = or_default resp.provider_refund_id req.provider_refund_id;
  out_refund_no = or_default resp.out_refund_no req.out_refund_no;
})

-- The end of HandleNotify
abbrev pub fill_event : PaymentEvent → NotifyRequest → PaymentEvent
fill_event e req = record e {
  provider = or_default e.provider req.provider;
  channel = or_default e.channel req.channel;
  merchant_key = or_default e.merchant_key req.merchant_key;
}
