-- ===== src/Payment/Requests.antt =====
-- core/payment/request.go and provider_exchange.go: what goes to a provider and what comes back.
-- `PaymentQuery` stands for QueryPaymentRequest and ClosePaymentRequest, which have the same fields.
use sdkit.Base.{ℕ, String, Bool, Option}
use sdkit.Base.Int.{ℤ}
use sdkit.Payment.Status.{PaymentStatus}
use sdkit.Payment.Types.{
  Opaque, RefundStatus, Money, PaymentPricing, PaymentAction, ProviderSettlement, PaymentDetails,
  PaymentEvent,
}

pub record ProviderExchange : Type 0 where
  pub request_body : Opaque
  pub response_body : Opaque
  pub status_code : ℤ
  pub headers : Opaque

pub record CreatePaymentRequest : Type 0 where
  pub provider_trade_id : String
  pub provider : String
  pub channel : String
  pub merchant_key : String
  pub payment_id : String
  pub order_id : String
  pub out_trade_no : String
  pub subject : String
  pub body : String
  pub pricing : PaymentPricing
  pub notify_url : String
  pub return_url : String
  pub expire_at : Option ℕ
  pub extra : Opaque

pub record CreatePaymentResponse : Type 0 where
  pub expire_at : Option ℕ
  pub paid_at : Option ℕ
  pub provider_settlement : Option ProviderSettlement
  pub provider : String
  pub channel : String
  pub merchant_key : String
  pub payment_id : String
  pub order_id : String
  pub out_trade_no : String
  pub provider_trade_id : String
  pub status : PaymentStatus
  pub pricing : PaymentPricing
  pub action : PaymentAction
  pub raw : Opaque
  pub extra : Opaque

pub record PaymentQuery : Type 0 where
  pub provider : String
  pub channel : String
  pub merchant_key : String
  pub payment_id : String
  pub order_id : String
  pub out_trade_no : String
  pub provider_trade_id : String
  pub extra : Opaque

pub record QueryPaymentResponse : Type 0 where
  pub raw_body : Opaque
  pub details : Option PaymentDetails
  pub expire_at : Option ℕ
  pub provider_settlement : Option ProviderSettlement
  pub provider : String
  pub channel : String
  pub merchant_key : String
  pub payment_id : String
  pub order_id : String
  pub out_trade_no : String
  pub provider_trade_id : String
  pub status : PaymentStatus
  pub pricing : PaymentPricing
  pub paid_at : Option ℕ
  pub raw : Opaque
  pub extra : Opaque

pub record RefundAmount : Type 0 where
  pub refund : Money
  pub settle : Money

pub record RefundRequest : Type 0 where
  pub provider : String
  pub channel : String
  pub merchant_key : String
  pub payment_id : String
  pub order_id : String
  pub out_trade_no : String
  pub provider_trade_id : String
  pub refund_id : String
  pub out_refund_no : String
  pub amount : RefundAmount
  pub reason : String
  pub extra : Opaque

pub record RefundResponse : Type 0 where
  pub provider : String
  pub channel : String
  pub merchant_key : String
  pub payment_id : String
  pub order_id : String
  pub out_trade_no : String
  pub provider_trade_id : String
  pub refund_id : String
  pub out_refund_no : String
  pub provider_refund_id : String
  pub status : RefundStatus
  pub amount : RefundAmount
  pub exchange : ProviderExchange
  pub raw : Opaque
  pub extra : Opaque

pub record QueryRefundRequest : Type 0 where
  pub provider : String
  pub channel : String
  pub merchant_key : String
  pub payment_id : String
  pub out_trade_no : String
  pub provider_trade_id : String
  pub refund_id : String
  pub out_refund_no : String
  pub provider_refund_id : String
  pub extra : Opaque

pub record QueryRefundResponse : Type 0 where
  pub provider : String
  pub channel : String
  pub merchant_key : String
  pub payment_id : String
  pub out_trade_no : String
  pub provider_trade_id : String
  pub refund_id : String
  pub out_refund_no : String
  pub provider_refund_id : String
  pub status : RefundStatus
  pub amount : RefundAmount
  pub exchange : ProviderExchange
  pub raw : Opaque
  pub extra : Opaque

pub record NotifyAck : Type 0 where
  pub status_code : ℤ
  pub content_type : String
  pub body : Opaque

pub record NotifyRequest : Type 0 where
  pub merchant_key : String
  pub provider : String
  pub channel : String
  pub method : String
  pub header : Opaque
  pub query : Opaque
  pub form : Opaque
  pub body : Opaque
  pub raw : Opaque
  pub received_at : ℕ

pub record NotifyResult : Type 0 where
  pub verified : Bool
  pub event : Option PaymentEvent
  pub ack : NotifyAck
