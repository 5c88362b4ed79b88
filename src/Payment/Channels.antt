-- ===== src/Payment/Channels.antt =====
-- core/payment/channel_selector.go: which provider and channel a merchant key stands for.
-- Each operation of the selector runs under its lock, and so is one step.
pub mod Bound
use sdkit.Base.{
  ℕ, String, Bool, true, false, not, ◌&&◌, ◌||◌, Option, none, some, List, [], ◌∷◌, is_blank,
  str_eq, if◌then◌else◌,
}
use sdkit.Base.Dict
use sdkit.Base.Dict.{Dict}
use sdkit.Base.Result.{Result, ok, err, ◌>>=◌, ◌>>◌}
use sdkit.Payment.Error.{
  PaymentError, Context, no_context, live, done, nil_context, invalid_request, adapter_not_found,
  unsupported_provider, unsupported_channel, adapter_already_exists, reject_if,
}

-- Go's `PaymentOperation` is a string: the constants, the texts that the code compares it with, and
-- `other_operation n` for the rest, numbered.
pub data PaymentOperation : Type 0 where
  create query close refund query_refund : PaymentOperation
  create_payout create_beneficiary create_payout_batch : PaymentOperation
  other_operation : ℕ → PaymentOperation

pub record ChannelSelectionRequest : Type 0 where
  pub provider : String
  pub channel : String
  pub merchant_key : String
  pub operation : PaymentOperation

pub record ChannelSelection : Type 0 where
  pub disabled_for_new : Bool
  pub provider : String
  pub channel : String
  pub merchant_key : String

pub record ChannelBinding : Type 0 where
  pub disabled_for_new : Bool
  pub key : String
  pub provider : String
  pub channel : String
  pub merchant_key : String

pub record StaticChannelSelector : Type 0 where
  pub bindings : Dict ChannelSelection

abbrev pub selection_of : ChannelBinding → ChannelSelection
selection_of b = record {
  disabled_for_new = b.disabled_for_new;
  provider = b.provider;
  channel = b.channel;
  merchant_key = if is_blank b.merchant_key then b.key else b.merchant_key;
}

unfoldable pub normalize_channel_binding :
    ChannelBinding → Result PaymentError (String × ChannelSelection)
normalize_channel_binding b = do
  reject_if (is_blank b.key) invalid_request
  reject_if (is_blank b.provider) unsupported_provider
  reject_if (is_blank b.channel) unsupported_channel
  ok (b.key, selection_of b)

-- The end of a round: a key that is taken is an error.
abbrev pub place :
    Dict ChannelSelection
    → String × ChannelSelection
    → Option ChannelSelection
    → Result PaymentError (Dict ChannelSelection)
place out p none = ok (Dict.put out p.0 p.1)
place out p (some old) = err adapter_already_exists

-- One round of the loop of buildChannelBindingMap.
unfoldable pub bind :
    Dict ChannelSelection → ChannelBinding → Result PaymentError (Dict ChannelSelection)
bind out b = normalize_channel_binding b >>= λ p. place out p (Dict.get out p.0)

unfoldable pub bind_all :
    Dict ChannelSelection → List ChannelBinding → Result PaymentError (Dict ChannelSelection)
bind_all out [] = ok out
bind_all out (b ∷ bindings) = bind out b >>= λ out'. bind_all out' bindings

unfoldable pub build_channel_binding_map :
    List ChannelBinding → Result PaymentError (Dict ChannelSelection)
build_channel_binding_map bindings = bind_all Dict.empty bindings

unfoldable pub new_static_channel_selector :
    List ChannelBinding → Result PaymentError StaticChannelSelector
new_static_channel_selector bindings =
    build_channel_binding_map bindings >>= λ out. ok (record { bindings = out })

-- Reload: the selector after it, and its error.
unfoldable pub reload :
    StaticChannelSelector
    → List ChannelBinding
    → Result PaymentError (Unit {0}) × StaticChannelSelector
reload s bindings = elim (build_channel_binding_map bindings) [
  | ok out ↦ (ok tt, record { bindings = out })
  | err e ↦ (err e, s)
]

abbrev pub check_context : Context → Result PaymentError (Unit {0})
check_context no_context = err nil_context
check_context live = ok tt
check_context (done e) = err e

abbrev pub makes_new : PaymentOperation → Bool
makes_new create = true
makes_new create_payout = true
makes_new create_beneficiary = true
makes_new create_payout_batch = true
makes_new _ = false

-- What SelectPaymentChannel answers for the binding that it found.
abbrev pub answer :
    ChannelSelectionRequest → Option ChannelSelection → Result PaymentError ChannelSelection
answer req none = err adapter_not_found
answer req (some selection) = do
  reject_if (not (is_blank req.provider) && not (str_eq req.provider selection.provider))
      unsupported_provider
  reject_if (not (is_blank req.channel) && not (str_eq req.channel selection.channel))
      unsupported_channel
  reject_if (selection.disabled_for_new && makes_new req.operation) invalid_request
  ok selection

unfoldable pub select_payment_channel :
    StaticChannelSelector → Context → ChannelSelectionRequest → Result PaymentError ChannelSelection
select_payment_channel s ctx req = do
  check_context ctx
  reject_if (is_blank req.merchant_key) invalid_request
  answer req (Dict.get s.bindings req.merchant_key)
