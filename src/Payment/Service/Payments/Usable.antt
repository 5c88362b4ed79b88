-- ===== src/Payment/Service/Payments/Usable.antt =====
-- What the caller of CreatePayment can rely on: an action that a client can carry out.
use sdkit.Base.{
  ℕ, ◌≡◌, sym, subst, ◌⊎◌, inl, inr, refl, String, Bool, true, false, not, ◌&&◌, arith,
  if◌then◌else◌,
}
use sdkit.Base.Text.{trim_left, trim_right, trim_space}
use sdkit.Base.Effect.{Holds, Holds-eq-ok, Holds-if, Holds->>=}
use sdkit.Base.Result.{Result, ok, err, ◌>>◌}
use sdkit.Payment.Error.{PaymentError, Context, invalid_action, reject_if}
use sdkit.Payment.Error.Checks.{Holds-reject_if}
use sdkit.Payment.Types.{
  ActionType, unset, action_none, redirect_url, html_form, qr_code, sdk_params, client_token, other,
  PaymentAction,
}
use sdkit.Payment.Requests.{CreatePaymentRequest, CreatePaymentResponse}
use sdkit.Payment.Guards.{
  is_empty, is_nil, check_fields, check_form, check_action, or_none, with_type, with_method,
  normalize_and_validate_action,
}
use sdkit.Payment.Service.{Service}
use sdkit.Payment.Service.Payments.{create_payment}

-- A form is complete, or it has fields to be sent to a URL by a named method.
abbrev pub IsForm : PaymentAction → Type 0
IsForm a =
    (is_empty a.html ≡ false)
    ⊎ ((is_empty a.url ≡ false) × (is_nil a.fields ≡ false) × (is_empty a.method ≡ false))

-- The action, of the type `t`, has what its type needs.
abbrev pub HasParts : ActionType → PaymentAction → Type 0
HasParts action_none a = Unit
HasParts redirect_url a = is_empty a.url ≡ false
HasParts html_form a = IsForm a
HasParts qr_code a = (is_empty a.url ≡ false) ⊎ (is_empty a.token ≡ false)
HasParts sdk_params a = is_nil a.params ≡ false
HasParts client_token a = is_empty a.token ≡ false
HasParts unset a = ⊥
HasParts (other n) a = ⊥

abbrev pub IsUsable : PaymentAction → Type 0
IsUsable a = HasParts a.type a

post-IsForm :
    (a : PaymentAction) (b : Bool)
    → is_empty a.method ≡ b
    → is_empty a.url ≡ false
    → is_nil a.fields ≡ false
    → IsForm (if b then with_method a "POST" else a)
unfolding trim_space trim_left trim_right
post-IsForm a true h u f = inr (u, f, refl)
post-IsForm a false h u f = inr (u, f, h)

check_form-IsForm : (a : PaymentAction) → Holds IsForm (check_form a)
check_form-IsForm a =
    Holds-if IsForm (not (is_empty a.html)) (ok a) (check_fields a) (λ h. inl (ground arith))
      (λ _. Holds-reject_if IsForm (is_empty a.url) invalid_action _ (λ u.
        Holds-reject_if IsForm (is_nil a.fields) invalid_action
          (ok (if is_empty a.method then with_method a "POST" else a))
          (λ f. post-IsForm a (is_empty a.method) refl u f)))

check_action-HasParts : (t : ActionType) (a : PaymentAction) → Holds (HasParts t) (check_action t a)
check_action-HasParts action_none a = tt
check_action-HasParts redirect_url a =
    Holds-reject_if (HasParts redirect_url) _ invalid_action (ok a) (λ h. h)
check_action-HasParts html_form a = check_form-IsForm a
check_action-HasParts qr_code a =
    Holds-reject_if (HasParts qr_code) (is_empty a.url && is_empty a.token) invalid_action (ok a)
      (λ h. ground arith)
check_action-HasParts sdk_params a =
    Holds-reject_if (HasParts sdk_params) _ invalid_action (ok a) (λ h. h)
check_action-HasParts client_token a =
    Holds-reject_if (HasParts client_token) _ invalid_action (ok a) (λ h. h)
check_action-HasParts unset a = tt
check_action-HasParts (other n) a = tt

type-post : (a : PaymentAction) (b : Bool) → (if b then with_method a "POST" else a).type ≡ a.type
type-post a true = refl
type-post a false = refl

type-check_form : (a : PaymentAction) → Holds (λ b. b.type ≡ a.type) (check_form a)
type-check_form a =
    let P = λ (b : PaymentAction). b.type ≡ a.type in
    Holds-if P (not (is_empty a.html)) (ok a) (check_fields a) (λ h. refl)
      (λ _. Holds-reject_if P (is_empty a.url) invalid_action _ (λ _.
        Holds-reject_if P (is_nil a.fields) invalid_action
          (ok (if is_empty a.method then with_method a "POST" else a))
          (λ _. type-post a (is_empty a.method))))

type-reject :
    (a : PaymentAction) (wrong : Bool)
    → Holds (λ b. b.type ≡ a.type) (reject_if wrong invalid_action >> ok a)
type-reject a true = tt
type-reject a false = refl

type-check_action :
    (t : ActionType) (a : PaymentAction) → Holds (λ b. b.type ≡ a.type) (check_action t a)
type-check_action action_none a = refl
type-check_action redirect_url a = type-reject a (is_empty a.url)
type-check_action html_form a = type-check_form a
type-check_action qr_code a = type-reject a (is_empty a.url && is_empty a.token)
type-check_action sdk_params a = type-reject a (is_nil a.params)
type-check_action client_token a = type-reject a (is_empty a.token)
type-check_action unset a = tt
type-check_action (other n) a = tt

Holds-both :
    (t : ActionType) (r : Result PaymentError PaymentAction)
    → Holds (HasParts t) r
    → Holds (λ b. b.type ≡ t) r
    → Holds IsUsable r
Holds-both t (ok b) h e = subst (λ u. HasParts u b) (sym e) h
Holds-both t (err e) h _ = tt

normalize_and_validate_action-IsUsable :
    (a : PaymentAction) → Holds IsUsable (normalize_and_validate_action a)
unfolding normalize_and_validate_action
normalize_and_validate_action-IsUsable a =
    let t = or_none a.type in
    Holds-both t (check_action t (with_type a t)) (check_action-HasParts t (with_type a t))
      (type-check_action t (with_type a t))

action-IsUsable :
    (a action : PaymentAction) → normalize_and_validate_action a ≡ ok action → IsUsable action
action-IsUsable a action h =
    Holds-eq-ok IsUsable _ action (normalize_and_validate_action-IsUsable a) h

-- What CreatePayment returns: an action that a client can carry out.
abbrev pub IsServed : CreatePaymentResponse → Type 0
IsServed resp = IsUsable resp.action

module _ {W : Type 0} (to_upper : String → String) (s : Service W) where
  -- Whatever a provider answers, a payment that is created has an action with all the parts that its
  -- type needs.
  pub create_payment-IsServed :
      (ctx : Context) (now : ℕ) (req : CreatePaymentRequest) (w : W) (resp : CreatePaymentResponse)
      → (create_payment to_upper s ctx now req w).0 ≡ ok resp
      → IsServed resp
  unfolding create_payment
  create_payment-IsServed ctx now req w resp h =
      Holds-eq-ok IsServed _ resp (search (Holds->>=, action-IsUsable) depth 30) h
