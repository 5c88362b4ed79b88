-- ===== src/Payment/Service/Notify/Trusted.antt =====
-- What the caller of HandleNotify can rely on.
use sdkit.Base.{
  ◌≡◌, refl, String, Bool, true, false, not, ◌&&◌, ◌||◌, Option, none, some, arith, is_blank,
  str_eq, eq_iff,
}
use sdkit.Base.Effect.{Holds, Holds-eq-ok, Holds-unless, Holds->>=}
use sdkit.Base.Result.{ok}
use sdkit.Payment.Error.{Context}
use sdkit.Payment.Types.{PaymentEvent}
use sdkit.Payment.Requests.{NotifyRequest, NotifyResult}
use sdkit.Payment.Service.{Service}
use sdkit.Payment.Service.Fill.{or_default}
use sdkit.Payment.Service.Notify.{is_foreign, trust, trust_event, handle_notify}

-- The event is about the provider, the channel and the merchant that the request was routed by.
abbrev pub Fits : NotifyRequest → Option PaymentEvent → Type 0
Fits req none = Unit
Fits req (some e) =
    (e.provider ≡ req.provider)
    × (e.channel ≡ req.channel)
    × (is_blank req.merchant_key ≡ false → e.merchant_key ≡ req.merchant_key)

abbrev pub IsTrusted : NotifyRequest → NotifyResult → Type 0
IsTrusted req result = (result.verified ≡ true) × Fits req result.event

or_default-eq : (s t : String) → (not (is_blank s) && not (str_eq s t)) ≡ false → or_default s t ≡ t
or_default-eq s t h = ground (arith, eq_iff s t)

or_default-eq_named :
    (s t : String)
    → (not (is_blank t) && not (is_blank s) && not (str_eq s t)) ≡ false
    → is_blank t ≡ false
    → or_default s t ≡ t
or_default-eq_named s t h b = ground (arith, eq_iff s t)

or_eq_false : (a b c : Bool) → (a || b || c) ≡ false → (a ≡ false) × (b ≡ false) × (c ≡ false)
or_eq_false a b c h = ground arith

trust_event-IsTrusted :
    (req : NotifyRequest) (result : NotifyResult) (o : Option PaymentEvent)
    → result.event ≡ o
    → result.verified ≡ true
    → Holds (IsTrusted req) (trust_event req result o)
trust_event-IsTrusted req result none h v = (v, rw (h) tt)
trust_event-IsTrusted req result (some e) h v =
    Holds-unless (IsTrusted req) (is_foreign req e) _ _ (λ f.
      let (p, c, m) = or_eq_false _ _ _ f in
      (
        v,
        (
          or_default-eq e.provider req.provider p,
          or_default-eq e.channel req.channel c,
          or_default-eq_named e.merchant_key req.merchant_key m,
        ),
      ))

trust-IsTrusted :
    (req : NotifyRequest) (o : Option NotifyResult) → Holds (IsTrusted req) (trust req o)
trust-IsTrusted req none = tt
trust-IsTrusted req (some result) =
    Holds-unless (IsTrusted req) (not result.verified) _ _
      (λ v. trust_event-IsTrusted req result result.event refl (ground arith))

module _ {W : Type 0} (s : Service W) where
  -- A notification that HandleNotify accepts was verified by its adapter, and its event names the
  -- provider and the channel of the request, and its merchant key when it has one.
  pub handle_notify-IsTrusted :
      (ctx : Context) (req : NotifyRequest) (w : W) (result : NotifyResult)
      → (handle_notify s ctx req w).0 ≡ ok result
      → IsTrusted req result
  unfolding handle_notify
  handle_notify-IsTrusted ctx req w result h =
      Holds-eq-ok (IsTrusted req) _ result (search (Holds->>=, trust-IsTrusted) depth 14) h
