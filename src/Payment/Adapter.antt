-- ===== src/Payment/Adapter.antt =====
-- core/payment/registry.go and the interfaces of core/payment: a provider's adapter, the pricing
-- policy and the channel selector. Their methods run on a world `W`, the providers' own state, and
-- may fail; `Name` and `Capabilities` are taken to be constant.
pub mod Filed
use sdkit.Base.{
  String, Bool, Option, none, some, List, [], ◌∷◌, is_blank, str_eq, not, ◌&&◌, if◌then◌else◌,
}
use sdkit.Base.Dict
use sdkit.Base.Dict.{Dict}
use sdkit.Base.Effect.{Io}
use sdkit.Base.Result.{Result, ok, err}
use sdkit.Payment.Error.{
  PaymentError, Context, adapter_not_found, unsupported_provider, adapter_already_exists,
}
use sdkit.Payment.Types.{Capabilities, PaymentPricing}
use sdkit.Payment.Channels.{ChannelBinding, ChannelSelection, ChannelSelectionRequest}
use sdkit.Payment.Requests.{
  CreatePaymentRequest, CreatePaymentResponse, PaymentQuery, QueryPaymentResponse, RefundRequest,
  RefundResponse, QueryRefundRequest, QueryRefundResponse, NotifyRequest, NotifyResult,
}

abbrev pub Effect : Type 0 → Type 0 → Type 0
Effect W A = Io PaymentError W A

pub record ProviderAdapter (W : Type 0) : Type 0 where
  pub name : String
  pub capabilities : Capabilities
  pub create_payment : Context → CreatePaymentRequest → Effect W (Option CreatePaymentResponse)
  pub query_payment : Context → PaymentQuery → Effect W (Option QueryPaymentResponse)
  pub close_payment : Context → PaymentQuery → Effect W (Unit {0})
  pub refund : Context → RefundRequest → Effect W (Option RefundResponse)
  pub query_refund : Context → QueryRefundRequest → Effect W (Option QueryRefundResponse)
  pub parse_notify : Context → NotifyRequest → Effect W (Option NotifyResult)

-- `reload` is missing when the selector is not a ReloadableChannelSelector.
pub record ChannelSelector (W : Type 0) : Type 0 where
  pub select_payment_channel :
      Context → ChannelSelectionRequest → Effect W (Option ChannelSelection)
  pub reload : Option (List ChannelBinding → Effect W (Unit {0}))

pub record Registry (W : Type 0) : Type 0 where
  pub adapters : Dict (ProviderAdapter W)

module _ {W : Type 0} where
  unfoldable pub new_registry : Registry W
  new_registry = record { adapters = Dict.empty }

  -- The end of Register, for what the registry has under the name.
  abbrev pub enter :
      Registry W
      → ProviderAdapter W
      → Option (ProviderAdapter W)
      → Result PaymentError (Unit {0}) × Registry W
  enter r a none = (ok tt, record { adapters = Dict.put r.adapters a.name a })
  enter r a (some old) = (err adapter_already_exists, r)

  -- Register: the registry after it, and its error.
  unfoldable pub register :
      Registry W → Option (ProviderAdapter W) → Result PaymentError (Unit {0}) × Registry W
  register r none = (err adapter_not_found, r)
  register r (some a) =
      if is_blank a.name then (err unsupported_provider, r) else elim (Dict.get r.adapters a.name) [
        | none ↦ (ok tt, record { adapters = Dict.put r.adapters a.name a })
        | some old ↦ (err adapter_already_exists, r)
      ]

  -- Adapter
  unfoldable pub adapter : Registry W → String → Result PaymentError (ProviderAdapter W)
  adapter r provider = elim (Dict.get r.adapters provider) [
    | none ↦ err adapter_not_found
    | some a ↦ ok a
  ]
