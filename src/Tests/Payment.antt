-- ===== src/Tests/Payment.antt =====
-- Runs of the parts of core/payment that keep no state.
use sdkit.Base.{ℕ, ◌≡◌, ◌⊎◌, refl, true, false, none, some, [], ◌∷◌, arith, eq_iff}
use sdkit.Base.Int.{pos}
use sdkit.Base.Dict
use sdkit.Base.Dict.{Dict}
use sdkit.Base.Result.{ok, err}
use sdkit.Payment.Status.{unset, authorized, succeeded, refunded}
use sdkit.Payment.Status.Paid.{Reach, is_paid, Reach-is_paid}
use sdkit.Payment.Status.Settles.{Reach-to_refunded}
use sdkit.Payment.Types.{Money, PaymentPricing, ProviderSettlement}
use sdkit.Payment.Requests.{QueryPaymentResponse}
use sdkit.Payment.Settlement.{merge_provider_settlement}
use sdkit.Payment.Settlement.Merge.{
  IsConsistent, merge_provider_settlement_stale, merge_provider_settlement-IsConsistent,
}
use sdkit.Payment.Event.{event_from_query_payment_response}
use sdkit.Payment.Event.Agree.{status_of, typed_status, status_of-event_from_query_payment_response}
use sdkit.Payment.Error.{live, adapter_already_exists, invalid_request}
use sdkit.Payment.Channels.{
  PaymentOperation, ChannelBinding, ChannelSelection, ChannelSelectionRequest,
  StaticChannelSelector, selection_of, normalize_channel_binding, bind, bind_all,
  build_channel_binding_map, select_payment_channel, reload,
}
use sdkit.Payment.Channels.Bound.{Answers, select_payment_channel-Answers}

Reach-is_paid_example : is_paid refunded ≡ true
Reach-is_paid_example = Reach-is_paid (Reach-to_refunded succeeded) refl

Reach-to_refunded_example : Reach authorized refunded
Reach-to_refunded_example = Reach-to_refunded authorized

abbrev yuan : ℕ → Money
yuan n = record { amount = pos n; currency = "CNY" }

abbrev known : ProviderSettlement
known = record {
  currency = "CNY";
  amount = some (yuan 100);
  net_amount = none;
  fee_amount = none;
  exchange_rate = none;
  reference = "";
  updated_at = some 5;
}

abbrev late : ProviderSettlement
late = record {
  currency = "USD";
  amount = none;
  net_amount = none;
  fee_amount = some (yuan 1);
  exchange_rate = none;
  reference = "";
  updated_at = some 4;
}

abbrev report : ProviderSettlement
report = record {
  currency = "";
  amount = none;
  net_amount = none;
  fee_amount = some (yuan 1);
  exchange_rate = none;
  reference = "s-1";
  updated_at = some 6;
}

merge_runs :
    merge_provider_settlement (some known) (some report)
    ≡ some (record known { fee_amount = some (yuan 1); reference = "s-1"; updated_at = some 6 })
unfolding merge_provider_settlement
merge_runs = refl

merge_provider_settlement_stale_example :
    merge_provider_settlement (some known) (some late) ≡ some known
merge_provider_settlement_stale_example = merge_provider_settlement_stale known late refl

merge_provider_settlement-IsConsistent_example :
    IsConsistent (merge_provider_settlement (some known) (some report))
merge_provider_settlement-IsConsistent_example =
    merge_provider_settlement-IsConsistent (some known) (some report)
      (λ m at n. ground (arith, eq_iff m.currency "CNY"))

abbrev price : PaymentPricing
price = record {
  order_amount = yuan 100;
  pay_amount = yuan 100;
  settle_currency = "CNY";
  settle_amount = yuan 100;
  fee_amount = none;
  exchange_rate = none;
}

abbrev answered : QueryPaymentResponse
answered = record {
  raw_body = 0;
  details = none;
  expire_at = none;
  provider_settlement = none;
  provider = "demo";
  channel = "";
  merchant_key = "";
  payment_id = "p-1";
  order_id = "";
  out_trade_no = "";
  provider_trade_id = "";
  status = succeeded;
  pricing = price;
  paid_at = none;
  raw = 0;
  extra = 0;
}

status_of-event_from_query_payment_response_example :
    (status_of (event_from_query_payment_response (some answered)) ≡ succeeded)
    × ((typed_status (event_from_query_payment_response (some answered)) ≡ succeeded)
        ⊎ (typed_status (event_from_query_payment_response (some answered)) ≡ unset))
status_of-event_from_query_payment_response_example =
    status_of-event_from_query_payment_response answered

abbrev shop : ChannelBinding
shop = record {
  disabled_for_new = true;
  key = "shop";
  provider = "demo";
  channel = "web";
  merchant_key = "";
}

abbrev kiosk : ChannelBinding
kiosk = record shop { disabled_for_new = false; key = "kiosk"; merchant_key = "m-2" }

abbrev both_bound : Dict ChannelSelection
both_bound = Dict.put (Dict.put Dict.empty "shop" (selection_of shop)) "kiosk" (selection_of kiosk)

build_runs : build_channel_binding_map (shop ∷ kiosk ∷ []) ≡ ok both_bound
unfolding build_channel_binding_map bind_all bind normalize_channel_binding Dict.put Dict.empty
    Dict.get
build_runs = refl

build_twice : build_channel_binding_map (shop ∷ shop ∷ []) ≡ err adapter_already_exists
unfolding build_channel_binding_map bind_all bind normalize_channel_binding Dict.put Dict.empty
    Dict.get
build_twice = refl

abbrev bound_selector : StaticChannelSelector
bound_selector = record { bindings = both_bound }

abbrev ask_kiosk : ChannelSelectionRequest
ask_kiosk = record {
  provider = "demo";
  channel = "";
  merchant_key = "kiosk";
  operation = PaymentOperation.create;
}

select_runs : select_payment_channel bound_selector live ask_kiosk ≡ ok (selection_of kiosk)
unfolding select_payment_channel Dict.put Dict.empty Dict.get
select_runs = refl

select_disabled :
    select_payment_channel bound_selector live (record ask_kiosk { merchant_key = "shop" })
    ≡ err invalid_request
unfolding select_payment_channel Dict.put Dict.empty Dict.get
select_disabled = refl

reload_twice :
    reload bound_selector (shop ∷ shop ∷ []) ≡ (err adapter_already_exists, bound_selector)
unfolding reload build_channel_binding_map bind_all bind normalize_channel_binding Dict.put
    Dict.empty Dict.get
reload_twice = refl

select_payment_channel-Answers_example : Answers bound_selector ask_kiosk (selection_of kiosk)
select_payment_channel-Answers_example =
    select_payment_channel-Answers bound_selector live ask_kiosk (selection_of kiosk) select_runs
