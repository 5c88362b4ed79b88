-- ===== src/Payment/Event.antt =====
-- core/payment/event.go: a provider's answer to a query, turned into an event.
pub mod Agree
use sdkit.Base.{String, Bool, Option, none, some, if◌then◌else◌}
use sdkit.Payment.Status.{
  PaymentStatus, EventType, unset, same, payment_succeeded, payment_failed, payment_expired,
  payment_closed, payment_authorized, payment_refunding, payment_part_refund, payment_refunded,
  refund_created, refund_processing, refund_succeeded, refund_failed, unknown,
}
use sdkit.Payment.Types.{RefundStatus, PaymentEvent, Money}
use sdkit.Payment.Requests.{QueryPaymentResponse, QueryRefundResponse}

-- The `switch resp.Status` of EventFromQueryPaymentResponse.
abbrev pub type_of_status : PaymentStatus → EventType
type_of_status PaymentStatus.succeeded = payment_succeeded
type_of_status PaymentStatus.failed = payment_failed
type_of_status PaymentStatus.expired = payment_expired
type_of_status PaymentStatus.closed = payment_closed
type_of_status PaymentStatus.authorized = payment_authorized
type_of_status PaymentStatus.refunding = payment_refunding
type_of_status PaymentStatus.partial_refunded = payment_part_refund
type_of_status PaymentStatus.refunded = payment_refunded
type_of_status _ = unknown

abbrev event_of : QueryPaymentResponse → PaymentEvent
event_of resp = record {
  details = resp.details;
  expire_at = resp.expire_at;
  provider_settlement = resp.provider_settlement;
  event_id = "";
  type = type_of_status resp.status;
  provider = resp.provider;
  channel = resp.channel;
  merchant_key = resp.merchant_key;
  payment_id = resp.payment_id;
  order_id = resp.order_id;
  out_trade_no = resp.out_trade_no;
  provider_trade_id = resp.provider_trade_id;
  refund_id = "";
  provider_refund_id = "";
  status = resp.status;
  refund_status = RefundStatus.unset;
  amount = resp.pricing.pay_amount;
  paid_at = resp.paid_at;
  raw = resp.raw_body;
  extra = resp.extra;
}

-- `none` for a response that is nil or has no status.
unfoldable pub event_from_query_payment_response : Option QueryPaymentResponse → Option PaymentEvent
event_from_query_payment_response none = none
event_from_query_payment_response (some resp) =
    if same resp.status unset then none else some (event_of resp)

-- The `switch resp.Status` of EventFromQueryRefundResponse.
abbrev pub type_of_refund : RefundStatus → EventType
type_of_refund RefundStatus.pending = refund_created
type_of_refund RefundStatus.processing = refund_processing
type_of_refund RefundStatus.succeeded = refund_succeeded
type_of_refund RefundStatus.failed = refund_failed
type_of_refund RefundStatus.closed = refund_failed
type_of_refund _ = unknown

abbrev refund_event_of : QueryRefundResponse → PaymentEvent
refund_event_of resp = record {
  details = none;
  expire_at = none;
  provider_settlement = none;
  event_id = "";
  type = type_of_refund resp.status;
  provider = resp.provider;
  channel = resp.channel;
  merchant_key = resp.merchant_key;
  payment_id = resp.payment_id;
  order_id = "";
  out_trade_no = "";
  provider_trade_id = "";
  refund_id = resp.refund_id;
  provider_refund_id = resp.provider_refund_id;
  status = unset;
  refund_status = resp.status;
  amount = resp.amount.refund;
  paid_at = none;
  raw = 0;
  extra = 0;
}

abbrev without_status : RefundStatus → Option PaymentEvent → Option PaymentEvent
without_status RefundStatus.unset event = none
without_status _ event = event

unfoldable pub event_from_query_refund_response : Option QueryRefundResponse → Option PaymentEvent
event_from_query_refund_response none = none
event_from_query_refund_response (some resp) =
    without_status resp.status (some (refund_event_of resp))
