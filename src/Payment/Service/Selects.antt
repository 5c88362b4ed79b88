-- ===== src/Payment/Service/Selects.antt =====
-- What selectChannel of core/payment/service.go can do to a request.
use sdkit.Base.{
  ◌≡◌, refl, Bool, true, false, not, ◌&&◌, Option, none, some, is_blank, str_eq, if◌then◌else◌,
}
use sdkit.Base.Effect.{Holds, Holds-eq-ok, Holds-unless, Holds-if, pure}
use sdkit.Base.Result.{Result, ok, err}
use sdkit.Payment.Error.{PaymentError, Context, is_adapter_not_found}
use sdkit.Payment.Error.Checks.{named_kept}
use sdkit.Payment.Channels.{PaymentOperation, ChannelSelection}
use sdkit.Payment.Adapter.{Effect, ChannelSelector}
use sdkit.Payment.Service.{Service, Target, accept, selected, select_channel, ask}

-- `u` is `t` with the provider and the channel kept where `t` names one.
pub record IsWithin (t u : Target) : Type 0 where
  pub provider : is_blank t.provider ≡ false → u.provider ≡ t.provider
  pub channel : is_blank t.channel ≡ false → u.channel ≡ t.channel

IsWithin-refl : (t : Target) → IsWithin t t
IsWithin-refl t = record { provider = λ _. refl; channel = λ _. refl }

accept-IsWithin : (t : Target) (s : ChannelSelection) → Holds (IsWithin t) (accept t s)
accept-IsWithin t s =
    let P = IsWithin t in
    Holds-unless P (is_blank s.provider) _ _ (λ _. Holds-unless P (is_blank s.channel) _ _ (λ _.
      Holds-unless P (not (is_blank t.provider) && not (str_eq t.provider s.provider)) _ _ (λ hp.
        Holds-unless P (not (is_blank t.channel) && not (str_eq t.channel s.channel)) _ _ (λ hc.
          record {
            provider = named_kept t.provider s.provider hp;
            channel = named_kept t.channel s.channel hc;
          }))))

selected-IsWithin :
    (t : Target) (r : Result PaymentError (Option ChannelSelection))
    → Holds (IsWithin t) (selected t r)
selected-IsWithin t (ok none) = tt
selected-IsWithin t (ok (some s)) = accept-IsWithin t s
selected-IsWithin t (err e) =
    Holds-if (IsWithin t)
      (not (is_blank t.provider) && not (is_blank t.channel) && is_adapter_not_found e) (ok t)
      (err e) (λ _. IsWithin-refl t) (λ _. tt)

module _ {W : Type 0} (s : Service W) where
  ask-IsWithin :
      (o : Option (ChannelSelector W)) (ctx : Context) (operation : PaymentOperation) (t : Target)
      (w : W)
      → Holds (IsWithin t) (ask s o ctx operation t w).0
  ask-IsWithin none ctx operation t w = IsWithin-refl t
  ask-IsWithin (some selector) ctx operation t w = search selected-IsWithin

  pick-IsWithin :
      (b : Bool) (t : Target) (rest : Effect W Target) (w : W)
      → Holds (IsWithin t) (rest w).0
      → Holds (IsWithin t) ((if b then pure t else rest) w).0
  pick-IsWithin true t rest w h = IsWithin-refl t
  pick-IsWithin false t rest w h = h

  -- A target that selectChannel returns has the provider and the channel of the one that it was
  -- given, where that one names them.
  pub select_channel-IsWithin :
      (ctx : Context) (operation : PaymentOperation) (t u : Target) (w : W)
      → (select_channel s ctx operation t w).0 ≡ ok u
      → IsWithin t u
  unfolding select_channel
  select_channel-IsWithin ctx operation t u w h =
      Holds-eq-ok (IsWithin t) _ u
        (pick-IsWithin (is_blank t.merchant_key) t _ w
          (ask-IsWithin s.channel_selector ctx operation t w))
        h
