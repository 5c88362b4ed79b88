-- ===== src/Tests/Service.antt =====
-- Runs of the payment service with one provider, `demo`, whose adapter counts its calls.
use sdkit.Base.{ℕ, ◌+◌, ◌≡◌, refl, ap, String, true, false, none, some, [], ◌∷◌, has_name}
use sdkit.Base.Int.{pos}
use sdkit.Base.Dict
use sdkit.Base.Effect.{pure}
use sdkit.Base.Result.{ok, err}
use sdkit.Base.Text.{trim_left, trim_right, trim_space}
use sdkit.Payment.Status.{PaymentStatus, payment_succeeded}
use sdkit.Payment.Types.{
  redirect_url, RefundStatus, Money, PaymentPricing, PaymentAction, PaymentEvent, Capabilities,
}
use sdkit.Payment.Requests.{
  ProviderExchange, CreatePaymentRequest, CreatePaymentResponse, RefundRequest, RefundAmount,
  RefundResponse, NotifyAck, NotifyRequest, NotifyResult,
}
use sdkit.Payment.Error.{live, foreign, notify_verification_fail}
use sdkit.Payment.Channels.{PaymentOperation, ChannelSelection}
use sdkit.Payment.Adapter.{ProviderAdapter, ChannelSelector, Registry, register, new_registry}
use sdkit.Payment.Adapter
use sdkit.Payment.Adapter.Filed.{IsFiled, Keeps, register-IsFiled}
use sdkit.Payment.Guards.{
  has_payment_reference, validate_create_payment_request, validate_refund_request,
  validate_notify_request, normalize_and_validate_action, validate_channel, validate_action,
  validate_currency, normalize_currency, normalize_refund_amount,
}
use sdkit.Payment.Service.{Service, Target, select_channel, adapter}
use sdkit.Payment.Service.Selects.{IsWithin, select_channel-IsWithin}
use sdkit.Payment.Service.Payments.{create_payment}
use sdkit.Payment.Service.Payments.Usable.{IsServed, create_payment-IsServed}
use sdkit.Payment.Service.Refunds.{refund_payment}
use sdkit.Payment.Service.Refunds.Safe.{IsSent, refund_payment-IsSent}
use sdkit.Payment.Service.Notify.{handle_notify}
use sdkit.Payment.Service.Notify.Trusted.{IsTrusted, handle_notify-IsTrusted}

abbrev yuan : ℕ → Money
yuan n = record { amount = pos n; currency = "CNY" }

abbrev price : PaymentPricing
price = record {
  order_amount = yuan 100;
  pay_amount = yuan 100;
  settle_currency = "CNY";
  settle_amount = yuan 100;
  fee_amount = none;
  exchange_rate = none;
}

abbrev go_to : PaymentAction
go_to = record {
  type = redirect_url;
  method = "";
  url = "https://pay.test";
  fields = [];
  html = "";
  encoded_html = "";
  token = "";
  params = [];
}

abbrev able : Capabilities
able = record {
  provider = "";
  channels = "web" ∷ [];
  supported_currencies = [];
  supported_actions = [];
  supports_multi_merchant = false;
  supports_expire_at = false;
  supports_close = false;
  supports_refund = true;
  supports_query_refund = false;
  supports_partial_refund = false;
  supports_query = false;
  supports_notify = true;
  supports_capture = false;
  supports_confirm = false;
  supports_reconcile = false;
  supports_dispute = false;
  supports_subscription = false;
}

abbrev paid_event : PaymentEvent
paid_event = record {
  details = none;
  expire_at = none;
  provider_settlement = none;
  event_id = "";
  type = payment_succeeded;
  provider = "demo";
  channel = "";
  merchant_key = "shop";
  payment_id = "p-1";
  order_id = "";
  out_trade_no = "";
  provider_trade_id = "";
  refund_id = "";
  provider_refund_id = "";
  status = PaymentStatus.unset;
  refund_status = RefundStatus.unset;
  amount = yuan 0;
  paid_at = none;
  raw = 0;
  extra = 0;
}

abbrev no_exchange : ProviderExchange
no_exchange = record { request_body = 0; response_body = 0; status_code = pos 200; headers = 0 }

abbrev no_ack : NotifyAck
no_ack = record { status_code = pos 200; content_type = ""; body = 0 }

abbrev ten : RefundAmount
ten = record { refund = yuan 10; settle = record { amount = pos 0; currency = "" } }

abbrev created : CreatePaymentResponse
created = record {
  expire_at = none;
  paid_at = none;
  provider_settlement = none;
  provider = "";
  channel = "";
  merchant_key = "";
  payment_id = "";
  order_id = "";
  out_trade_no = "";
  provider_trade_id = "";
  status = PaymentStatus.pending;
  pricing = record price { pay_amount = yuan 0 };
  action = go_to;
  raw = 0;
  extra = 0;
}

abbrev order : CreatePaymentRequest
order = record {
  provider_trade_id = "";
  provider = "demo";
  channel = "web";
  merchant_key = "";
  payment_id = "p-1";
  order_id = "";
  out_trade_no = "";
  subject = "";
  body = "";
  pricing = price;
  notify_url = "";
  return_url = "";
  expire_at = none;
  extra = 0;
}

abbrev give_back : RefundRequest
give_back = record {
  provider = "demo";
  channel = "web";
  merchant_key = "";
  payment_id = "p-1";
  order_id = "";
  out_trade_no = "";
  provider_trade_id = "";
  refund_id = "";
  out_refund_no = "";
  amount = ten;
  reason = "";
  extra = 0;
}

abbrev given_back : RefundResponse
given_back = record {
  provider = "";
  channel = "";
  merchant_key = "";
  payment_id = "";
  order_id = "";
  out_trade_no = "";
  provider_trade_id = "";
  refund_id = "";
  out_refund_no = "";
  provider_refund_id = "";
  status = RefundStatus.succeeded;
  amount = ten;
  exchange = no_exchange;
  raw = 0;
  extra = 0;
}

abbrev called : NotifyRequest
called = record {
  merchant_key = "shop";
  provider = "demo";
  channel = "web";
  method = "";
  header = 0;
  query = 0;
  form = 0;
  body = 0;
  raw = 0;
  received_at = 0;
}

abbrev demo : ProviderAdapter ℕ
demo = record {
  name = "demo";
  capabilities = able;
  create_payment = λ ctx req calls. (ok (some created), calls + 1);
  query_payment = λ ctx req calls. (err (foreign 1), calls + 1);
  close_payment = λ ctx req calls. (err (foreign 2), calls + 1);
  refund = λ ctx req calls. (ok (some given_back), calls + 1);
  query_refund = λ ctx req calls. (err (foreign 3), calls + 1);
  parse_notify = λ ctx req calls.
      (ok (some (record { verified = true; event = some paid_event; ack = no_ack })), calls + 1);
}

abbrev only_demo : Registry ℕ
only_demo = record { adapters = Dict.put Dict.empty "demo" demo }

abbrev service : Service ℕ
service = record {
  registry = only_demo;
  normalize_pricing = λ ctx pricing. pure pricing;
  channel_selector = none;
}

abbrev same_text : String → String
same_text s = s

register_runs : (register new_registry (some demo)).1 ≡ only_demo
unfolding register new_registry Dict.put Dict.empty Dict.get
register_runs = refl

none_is_some : {a : ProviderAdapter ℕ} → none ≡ some a → ⊥
none_is_some h = cc

new_registry-IsFiled : IsFiled (new_registry {W = ℕ})
unfolding new_registry Dict.empty Dict.get
new_registry-IsFiled key a h = elim (none_is_some h) [ ]

register-IsFiled_example :
    IsFiled (register new_registry (some demo)).1
    × Keeps new_registry (register new_registry (some demo)).1
register-IsFiled_example = register-IsFiled new_registry (some demo) new_registry-IsFiled

abbrev chosen : ChannelSelection
chosen = record {
  disabled_for_new = false;
  provider = "demo";
  channel = "web";
  merchant_key = "shop";
}

-- The service with a selector that always gives out `chosen`.
abbrev choosing : Service ℕ
choosing = record service {
  channel_selector = some (record {
    select_payment_channel = λ ctx req calls. (ok (some chosen), calls + 1);
    reload = none;
  });
}

abbrev to_demo : Target
to_demo = record { provider = "demo"; channel = ""; merchant_key = "shop" }

abbrev to_web : Target
to_web = record { provider = "demo"; channel = "web"; merchant_key = "shop" }

select_runs : (select_channel choosing live PaymentOperation.query to_demo 0).0 ≡ ok to_web
unfolding select_channel
select_runs = refl

select_channel-IsWithin_example : IsWithin to_demo to_web
select_channel-IsWithin_example =
    select_channel-IsWithin choosing live PaymentOperation.query to_demo to_web 0 select_runs

abbrev trusted : NotifyResult
trusted = record {
  verified = true;
  event = some (record paid_event { channel = "web" });
  ack = no_ack;
}

notify_runs : handle_notify service live called 4 ≡ (ok trusted, 5)
unfolding handle_notify validate_notify_request validate_channel has_name adapter Adapter.adapter
    Dict.get Dict.put Dict.empty
notify_runs = refl

notify_other :
    (handle_notify service live (record called { merchant_key = "kiosk" }) 4)
    ≡ (err notify_verification_fail, 5)
unfolding handle_notify validate_notify_request validate_channel has_name adapter Adapter.adapter
    Dict.get Dict.put Dict.empty
notify_other = refl

handle_notify-IsTrusted_example : IsTrusted called trusted
handle_notify-IsTrusted_example =
    handle_notify-IsTrusted service live called 4 trusted (ap (λ p. p.0) notify_runs)

refund_runs : (refund_payment same_text service live give_back 0) ≡ (ok (some given_back), 1)
unfolding refund_payment select_channel validate_refund_request has_payment_reference
    validate_channel validate_currency normalize_refund_amount normalize_currency has_name adapter
    Adapter.adapter Dict.get Dict.put Dict.empty trim_space trim_left trim_right
refund_runs = refl

refund_payment-IsSent_example :
    (req : RefundRequest) × (a : ProviderAdapter ℕ) × (w' : ℕ) × IsSent service same_text give_back
      req a
    × ((a.refund live req w').0 ≡ ok (some given_back))
refund_payment-IsSent_example =
    refund_payment-IsSent service same_text live give_back 0 (some given_back)
      (ap (λ p. p.0) refund_runs)

abbrev served : CreatePaymentResponse
served = record created { provider = "demo"; channel = "web"; payment_id = "p-1"; pricing = price }

create_runs : create_payment same_text service live 7 order 0 ≡ (ok served, 1)
unfolding create_payment select_channel validate_create_payment_request has_payment_reference
    validate_channel validate_currency normalize_and_validate_action validate_action has_name
    adapter Adapter.adapter Dict.get Dict.put Dict.empty trim_space trim_left trim_right
create_runs = refl

create_payment-IsServed_example : IsServed served
create_payment-IsServed_example =
    create_payment-IsServed same_text service live 7 order 0 served (ap (λ p. p.0) create_runs)
