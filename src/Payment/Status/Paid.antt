-- ===== src/Payment/Status/Paid.antt =====
-- Which statuses a payment can take once it was paid: reachability by allowed transitions.
use sdkit.Base.{◌≡◌, Bool, true, false, arith}
use sdkit.Payment.Status.{
  PaymentStatus, succeeded, refunding, partial_refunded, refunded, can_transition_payment_status,
}

-- A history of statuses, each step allowed by CanTransitionPaymentStatus.
pub data Reach (s : PaymentStatus) : PaymentStatus → Type 0 where
  here : Reach s s
  next : {t u : PaymentStatus} → Reach s t → can_transition_payment_status t u ≡ true → Reach s u

-- The provider has the money, or has given it back.
abbrev pub is_paid : PaymentStatus → Bool
is_paid succeeded = true
is_paid refunding = true
is_paid partial_refunded = true
is_paid refunded = true
is_paid _ = false

pub step-is_paid :
    (s t : PaymentStatus)
    → can_transition_payment_status s t ≡ true
    → is_paid s ≡ true
    → is_paid t ≡ true
unfolding can_transition_payment_status
step-is_paid s t h p = ground arith

-- A payment that was paid stays so: through any allowed transitions it never becomes pending,
-- processing, authorized, failed, closed, expired or a status that the code does not declare.
pub Reach-is_paid : {s t : PaymentStatus} → Reach s t → is_paid s ≡ true → is_paid t ≡ true
Reach-is_paid here p = p
Reach-is_paid (next {t} {u} r h) p = step-is_paid t u h (Reach-is_paid r p)

refunded-final :
    (t : PaymentStatus) → can_transition_payment_status refunded t ≡ true → t ≡ refunded
unfolding can_transition_payment_status
refunded-final t h = ground arith

-- A refunded payment takes no other status any more.
pub Reach-refunded : {s t : PaymentStatus} → Reach s t → s ≡ refunded → t ≡ refunded
Reach-refunded here p = p
Reach-refunded (next {t} {u} r h) p =
    let e = Reach-refunded r p in refunded-final u (ground (arith, e))
