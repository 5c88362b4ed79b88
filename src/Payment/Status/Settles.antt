-- ===== src/Payment/Status/Settles.antt =====
-- Every payment can still end well, and which single steps the state machine refuses.
use sdkit.Base.{◌≡◌, ◌≢◌, ◌↔◌, refl, true, arith}
use sdkit.Payment.Status.{PaymentStatus, succeeded, refunded, can_transition_payment_status}
use sdkit.Payment.Status.Paid.{Reach, here, next}

-- A late success is accepted from every status but `refunded`, and only from those.
pub to_succeeded_iff :
    (s : PaymentStatus) → (can_transition_payment_status s succeeded ≡ true) ↔ (s ≢ refunded)
unfolding can_transition_payment_status
to_succeeded_iff s = ground arith

-- From every status the payment can be refunded in the end.
pub Reach-to_refunded : (s : PaymentStatus) → Reach s refunded
unfolding can_transition_payment_status
Reach-to_refunded refunded = here
Reach-to_refunded s = next {t = succeeded} (next here (ground arith)) refl
