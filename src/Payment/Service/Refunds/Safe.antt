-- ===== src/Payment/Service/Refunds/Safe.antt =====
-- What reaches a provider when the service refunds a payment.
use sdkit.Base.{
  ◌≡◌, refl, ap, subst, String, true, false, not, ◌&&◌, Option, arith, is_blank, str_eq, eq_iff,
}
use sdkit.Base.Int.{pos, ltb_ℤ, eqb_ℤ}
use sdkit.Base.Effect.{Holds, Holds-eq-ok, Holds-unless, Holds-if, lift, >>=-eq-ok}
use sdkit.Base.Result.{Result, ok, err}
use sdkit.Payment.Error.{PaymentError, Context, invalid_amount, unsupported_capability, reject_if}
use sdkit.Payment.Error.Checks.{not_eq_false, reject_if-eq_ok, Holds-reject_if}
use sdkit.Payment.Types.{Capabilities}
use sdkit.Payment.Requests.{RefundRequest, RefundAmount, RefundResponse}
use sdkit.Payment.Channels.{refund}
use sdkit.Payment.Adapter.{ProviderAdapter}
use sdkit.Payment.Adapter
use sdkit.Payment.Guards.{
  normalize_refund_amount, settle_refund, validate_refund_request, validate_channel,
  validate_currency,
}
use sdkit.Payment.Service.{Service, Target, check_context, select_channel, adapter, checked, found}
use sdkit.Payment.Service.Fill.{or_default}
use sdkit.Payment.Service.Selects.{IsWithin, select_channel-IsWithin}
use sdkit.Payment.Service.Refunds.{refund_payment}

abbrev pub IsPositive : RefundAmount → Type 0
IsPositive a = (ltb_ℤ (pos 0) a.refund.amount ≡ true) × (ltb_ℤ (pos 0) a.settle.amount ≡ true)

module _ (to_upper : String → String) where
  settle_refund-IsPositive :
      (a : RefundAmount)
      → ltb_ℤ (pos 0) a.refund.amount ≡ true
      → Holds IsPositive (settle_refund to_upper a)
  settle_refund-IsPositive a h =
      Holds-if IsPositive (eqb_ℤ a.settle.amount (pos 0) && is_blank a.settle.currency) _ _
        (λ _. (h, h))
        (λ _.
          Holds-reject_if IsPositive (not (ltb_ℤ (pos 0) a.settle.amount)) invalid_amount _
            (λ p. (h, not_eq_false p)))

  -- A refund that is accepted has positive amounts, whatever the request left out.
  normalize_refund_amount-IsPositive :
      (a : RefundAmount) → Holds IsPositive (normalize_refund_amount to_upper a)
  unfolding normalize_refund_amount
  normalize_refund_amount-IsPositive a =
      Holds-reject_if IsPositive (not (ltb_ℤ (pos 0) a.refund.amount)) invalid_amount _
        (λ p. settle_refund-IsPositive a (not_eq_false p))

-- The adapter is the registered one, and its capabilities are its own.
abbrev IsRegistered : {W : Type 0} → Service W → String → ProviderAdapter W × Capabilities → Type 0
IsRegistered s provider p =
    (Adapter.adapter s.registry provider ≡ ok p.0)
    × (p.1 ≡ record p.0.capabilities { provider = provider })

or_default-eq : (s t : String) → (not (is_blank s) && not (str_eq s t)) ≡ false → or_default s t ≡ t
or_default-eq s t h = ground (arith, eq_iff s t)

module _ {W : Type 0} (s : Service W) where
  checked-IsRegistered :
      (provider : String) (a : ProviderAdapter W)
      → Adapter.adapter s.registry provider ≡ ok a
      → Holds (IsRegistered s provider) (checked s provider a)
  checked-IsRegistered provider a h =
      Holds-unless (IsRegistered s provider)
        (not (is_blank a.capabilities.provider) && not (str_eq a.capabilities.provider provider)) _
        _
        (λ same. (
          h,
          ap (λ p. record a.capabilities { provider = p })
              (or_default-eq a.capabilities.provider provider same),
        ))

  found-IsRegistered :
      (provider : String) (r : Result PaymentError (ProviderAdapter W))
      → Adapter.adapter s.registry provider ≡ r
      → Holds (IsRegistered s provider) (found s provider r)
  found-IsRegistered provider (err e) h = tt
  found-IsRegistered provider (ok a) h = checked-IsRegistered provider a h

  adapter-IsRegistered : (provider : String) → Holds (IsRegistered s provider) (adapter s provider)
  unfolding adapter
  adapter-IsRegistered provider = found-IsRegistered provider _ refl

  abbrev target_of : RefundRequest → Target
  target_of req = record {
    provider = req.provider;
    channel = req.channel;
    merchant_key = req.merchant_key;
  }

  -- `req` is what the service sends to the adapter `a` for `given`.
  pub record IsSent (to_upper : String → String) (given req : RefundRequest) (a : ProviderAdapter W)
      : Type 0 where
    pub target : IsWithin (target_of given) (target_of req)
    pub registered : Adapter.adapter s.registry req.provider ≡ ok a
    pub valid : validate_refund_request req ≡ ok tt
    pub channel : validate_channel a.capabilities req.channel ≡ ok tt
    pub supported : a.capabilities.supports_refund ≡ true
    pub positive : IsPositive req.amount
    pub currency : validate_currency to_upper a.capabilities req.amount.refund.currency ≡ ok tt

  -- A refund that succeeds is the answer of the adapter that is registered for its provider, which
  -- supports refunds, the channel and the currency of the refund, to a valid request with positive
  -- amounts. The request has the provider and the channel that the caller named, where the caller
  -- named one.
  pub refund_payment-IsSent :
      (to_upper : String → String) (ctx : Context) (given : RefundRequest) (w : W)
      (resp : Option RefundResponse)
      → (refund_payment to_upper s ctx given w).0 ≡ ok resp
      → (req : RefundRequest) × (a : ProviderAdapter W) × (w' : W) × IsSent to_upper given req a
        × ((a.refund ctx req w').0 ≡ ok resp)
  unfolding refund_payment validate_refund_request validate_channel validate_currency
  refund_payment-IsSent to_upper ctx given w resp h =
      let (_, _, h1) = >>=-eq-ok (lift (check_context ctx)) _ w h in
      let (t, chosen, h2) = >>=-eq-ok (select_channel s ctx refund (target_of given)) _ _ h1 in
      let req = record given {
        provider = t.provider;
        channel = t.channel;
        merchant_key = t.merchant_key;
      } in
      let (_, valid, h3) = >>=-eq-ok (lift (validate_refund_request req)) _ _ h2 in
      let (p, registered, h4) = >>=-eq-ok (lift (adapter s t.provider)) _ _ h3 in
      let (own, same) =
        Holds-eq-ok (IsRegistered s t.provider) _ p (adapter-IsRegistered t.provider) registered in
      let (_, channel, h5) = >>=-eq-ok (lift (validate_channel p.1 t.channel)) _ _ h4 in
      let (_, supported, h6) =
        >>=-eq-ok (lift (reject_if (not p.1.supports_refund) unsupported_capability)) _ _ h5 in
      let (amount, normal, h7) =
        >>=-eq-ok (lift (normalize_refund_amount to_upper given.amount)) _ _ h6 in
      let (_, currency, h8) =
        >>=-eq-ok (lift (validate_currency to_upper p.1 amount.refund.currency)) _ _ h7 in
      (
        record req { amount = amount },
        p.0,
        _,
        record {
          target = select_channel-IsWithin s ctx refund (target_of given) t w chosen;
          registered = own;
          valid = valid;
          channel = subst (λ c. validate_channel c t.channel ≡ ok tt) same channel;
          supported = subst (λ c. c.supports_refund ≡ true) same (reject_if-eq_ok _ _ supported);
          positive =
              Holds-eq-ok IsPositive _ amount
                (normalize_refund_amount-IsPositive to_upper given.amount) normal;
          currency =
              subst (λ c. validate_currency to_upper c amount.refund.currency ≡ ok tt) same
                currency;
        },
        h8,
      )
