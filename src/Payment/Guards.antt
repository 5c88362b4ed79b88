-- ===== src/Payment/Guards.antt =====
-- core/payment/validation.go, the checks of core/payment/service.go and NormalizeCurrency of
-- core/payment/currency.go. `to_upper` is strings.ToUpper, which knows all of Unicode.
use sdkit.Base.{
  ℕ, ◌+◌, String, Bool, true, false, not, ◌&&◌, ◌||◌, Option, none, some, List, [], ◌∷◌, ltb,
  is_blank, str_eq, ◌==◌, if◌then◌else◌, has_name,
}
use sdkit.Base.Int.{pos, ltb_ℤ, eqb_ℤ}
use sdkit.Base.Text.{trim_space}
use sdkit.Base.Result.{Result, ok, err, ◌>>◌}
use sdkit.Payment.Error.{
  PaymentError, invalid_request, invalid_action, invalid_amount, unsupported_channel,
  unsupported_capability, reject_if,
}
use sdkit.Payment.Types.{
  ActionType, unset, action_none, redirect_url, html_form, qr_code, sdk_params, client_token, other,
  PaymentAction, Capabilities, Money,
}
use sdkit.Payment.Requests.{
  CreatePaymentRequest, PaymentQuery, RefundRequest, RefundAmount, QueryRefundRequest,
  NotifyRequest,
}

-- strings.TrimSpace(s) == ""
abbrev pub is_empty : String → Bool
is_empty s = is_blank (trim_space s)

unfoldable pub has_payment_reference : String → String → String → String → Bool
has_payment_reference payment_id out_trade_no provider_trade_id order_id =
    not (is_empty payment_id)
    || not (is_empty out_trade_no)
    || not (is_empty provider_trade_id)
    || not (is_empty order_id)

-- The two checks that every validation begins with.
abbrev check_target : String → String → Result PaymentError (Unit {0})
check_target provider channel =
    reject_if (is_blank provider) invalid_request >> reject_if (is_blank channel) invalid_request

-- req.ExpireAt != nil && !req.ExpireAt.After(now)
abbrev pub is_over : Option ℕ → ℕ → Bool
is_over none now = false
is_over (some t) now = not (ltb now t)

unfoldable pub validate_create_payment_request :
    CreatePaymentRequest → ℕ → Result PaymentError (Unit {0})
validate_create_payment_request req now = do
  check_target req.provider req.channel
  reject_if (not (has_payment_reference req.payment_id req.out_trade_no "" "")) invalid_request
  reject_if (is_over req.expire_at now) invalid_request

-- validateQueryPaymentRequest and validateClosePaymentRequest, which have the same body.
unfoldable pub validate_payment_query : PaymentQuery → Result PaymentError (Unit {0})
validate_payment_query req = do
  check_target req.provider req.channel
  reject_if
      (not
        (has_payment_reference req.payment_id req.out_trade_no req.provider_trade_id req.order_id))
      invalid_request

unfoldable pub validate_refund_request : RefundRequest → Result PaymentError (Unit {0})
validate_refund_request req = do
  check_target req.provider req.channel
  reject_if
      (not
        (has_payment_reference req.payment_id req.provider_trade_id req.out_trade_no req.order_id))
      invalid_request

unfoldable pub validate_query_refund_request : QueryRefundRequest → Result PaymentError (Unit {0})
validate_query_refund_request req = do
  check_target req.provider req.channel
  reject_if
      (is_empty req.refund_id && is_empty req.out_refund_no && is_empty req.provider_refund_id)
      invalid_request

unfoldable pub validate_notify_request : NotifyRequest → Result PaymentError (Unit {0})
validate_notify_request req = check_target req.provider req.channel

abbrev pub with_type : PaymentAction → ActionType → PaymentAction
with_type a t = record {
  type = t;
  method = a.method;
  url = a.url;
  fields = a.fields;
  html = a.html;
  encoded_html = a.encoded_html;
  token = a.token;
  params = a.params;
}

abbrev pub with_method : PaymentAction → String → PaymentAction
with_method a m = record {
  type = a.type;
  method = m;
  url = a.url;
  fields = a.fields;
  html = a.html;
  encoded_html = a.encoded_html;
  token = a.token;
  params = a.params;
}

abbrev pub is_nil {ℓ} : {A : Type ℓ} → List A → Bool
is_nil [] = true
is_nil (x ∷ xs) = false

-- The case `ActionHTMLForm`, without and with its HTML.
abbrev pub check_fields : PaymentAction → Result PaymentError PaymentAction
check_fields a = do
  reject_if (is_empty a.url) invalid_action
  reject_if (is_nil a.fields) invalid_action
  ok (if is_empty a.method then with_method a "POST" else a)

abbrev pub check_form : PaymentAction → Result PaymentError PaymentAction
check_form a = if not (is_empty a.html) then ok a else check_fields a

-- The `switch action.Type` of normalizeAndValidateAction.
abbrev pub check_action : ActionType → PaymentAction → Result PaymentError PaymentAction
check_action action_none a = ok a
check_action redirect_url a = reject_if (is_empty a.url) invalid_action >> ok a
check_action html_form a = check_form a
check_action qr_code a = reject_if (is_empty a.url && is_empty a.token) invalid_action >> ok a
check_action sdk_params a = reject_if (is_nil a.params) invalid_action >> ok a
check_action client_token a = reject_if (is_empty a.token) invalid_action >> ok a
check_action unset a = err invalid_action
check_action (other n) a = err invalid_action

-- An empty type becomes `none`.
abbrev pub or_none : ActionType → ActionType
or_none unset = action_none
or_none t = t

unfoldable pub normalize_and_validate_action : PaymentAction → Result PaymentError PaymentAction
normalize_and_validate_action a = check_action (or_none a.type) (with_type a (or_none a.type))

unfoldable pub validate_channel : Capabilities → String → Result PaymentError (Unit {0})
unfolding has_name
validate_channel caps channel =
    reject_if (not (is_nil caps.channels || has_name channel caps.channels)) unsupported_channel

-- A number for each action type, by which two are compared.
abbrev pub action_code : ActionType → ℕ
action_code unset = 0
action_code action_none = 1
action_code redirect_url = 2
action_code html_form = 3
action_code qr_code = 4
action_code sdk_params = 5
action_code client_token = 6
action_code (other n) = 7 + n

unfoldable pub has_action : ActionType → List ActionType → Bool
has_action a [] = false
has_action a (supported ∷ rest) = action_code supported == action_code a || has_action a rest

unfoldable pub validate_action : Capabilities → ActionType → Result PaymentError (Unit {0})
unfolding has_action
validate_action caps action =
    reject_if
      (not (
        is_nil caps.supported_actions
        || action_code action == 0
        || has_action action caps.supported_actions))
      unsupported_capability

module _ (to_upper : String → String) where
  unfoldable pub normalize_currency : String → String
  normalize_currency given =
      let trimmed = trim_space given in if is_blank trimmed then "CNY" else to_upper trimmed

  -- The loop of validateCurrency, for a normalized currency.
  unfoldable pub has_currency : String → List String → Bool
  has_currency currency [] = false
  has_currency currency (supported ∷ rest) =
      str_eq (normalize_currency supported) currency || has_currency currency rest

  unfoldable pub validate_currency : Capabilities → String → Result PaymentError (Unit {0})
  validate_currency caps currency =
      reject_if
        (not (
          is_nil caps.supported_currencies
          || has_currency (normalize_currency currency) caps.supported_currencies))
        unsupported_capability

  abbrev pub in_normal : Money → Money
  in_normal m = record { amount = m.amount; currency = normalize_currency m.currency }

  -- normalizeRefundAmount once the refund is known to be positive
  abbrev pub settle_refund : RefundAmount → Result PaymentError RefundAmount
  settle_refund a =
      if eqb_ℤ a.settle.amount (pos 0) && is_blank a.settle.currency
      then ok (record { refund = in_normal a.refund; settle = in_normal a.refund })
      else (reject_if (not (ltb_ℤ (pos 0) a.settle.amount)) invalid_amount
          >> ok (record { refund = in_normal a.refund; settle = in_normal a.settle }))

  unfoldable pub normalize_refund_amount : RefundAmount → Result PaymentError RefundAmount
  normalize_refund_amount a =
      reject_if (not (ltb_ℤ (pos 0) a.refund.amount)) invalid_amount >> settle_refund a
