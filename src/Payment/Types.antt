-- ===== src/Payment/Types.antt =====
-- core/payment/types.go and settlement.go: the values that payments are made of.
-- Providers, channels and references are strings. Times are nanoseconds, and a nil pointer is `none`.
-- What the code only hands on (`map[string]any`, `any`, raw bytes) is a number, `Opaque`.
use sdkit.Base.{ℕ, String, Bool, Option, List}
use sdkit.Base.Int.{ℤ}
use sdkit.Payment.Status.{PaymentStatus, EventType}

abbrev pub Opaque : Type 0
Opaque = ℕ

pub data ActionType : Type 0 where
  unset action_none redirect_url html_form qr_code sdk_params client_token : ActionType
  other : ℕ → ActionType

pub data RefundStatus : Type 0 where
  unset pending processing succeeded failed closed : RefundStatus
  other : ℕ → RefundStatus

pub record Money : Type 0 where
  pub amount : ℤ
  pub currency : String

pub record ExchangeRateSnapshot : Type 0 where
  pub from_currency : String
  pub to_currency : String
  pub rate : String
  pub source : String
  pub quoted_at : ℤ

pub record PaymentPricing : Type 0 where
  pub order_amount : Money
  pub pay_amount : Money
  pub settle_currency : String
  pub settle_amount : Money
  pub fee_amount : Option Money
  pub exchange_rate : Option ExchangeRateSnapshot

pub record PaymentAction : Type 0 where
  pub type : ActionType
  pub method : String
  pub url : String
  pub fields : List (String × String)
  pub html : String
  pub encoded_html : String
  pub token : String
  pub params : List (String × Opaque)

pub record ProviderSettlement : Type 0 where
  pub currency : String
  pub amount : Option Money
  pub net_amount : Option Money
  pub fee_amount : Option Money
  pub exchange_rate : Option ExchangeRateSnapshot
  pub reference : String
  pub updated_at : Option ℕ

pub record PaymentDetails : Type 0 where
  pub method : String
  pub attempt_id : String
  pub transaction_id : String
  pub card_brand : String
  pub card_last4 : String

pub record PaymentEvent : Type 0 where
  pub details : Option PaymentDetails
  pub expire_at : Option ℕ
  pub provider_settlement : Option ProviderSettlement
  pub event_id : String
  pub type : EventType
  pub provider : String
  pub channel : String
  pub merchant_key : String
  pub payment_id : String
  pub order_id : String
  pub out_trade_no : String
  pub provider_trade_id : String
  pub refund_id : String
  pub provider_refund_id : String
  pub status : PaymentStatus
  pub refund_status : RefundStatus
  pub amount : Money
  pub paid_at : Option ℕ
  pub raw : Opaque
  pub extra : Opaque

pub record Capabilities : Type 0 where
  pub provider : String
  pub channels : List String
  pub supported_currencies : List String
  pub supported_actions : List ActionType
  pub supports_multi_merchant : Bool
  pub supports_expire_at : Bool
  pub supports_close : Bool
  pub supports_refund : Bool
  pub supports_query_refund : Bool
  pub supports_partial_refund : Bool
  pub supports_query : Bool
  pub supports_notify : Bool
  pub supports_capture : Bool
  pub supports_confirm : Bool
  pub supports_reconcile : Bool
  pub supports_dispute : Bool
  pub supports_subscription : Bool
