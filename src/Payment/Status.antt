-- ===== src/Payment/Status.antt =====
-- core/payment/state.go and the status and event types of core/payment/types.go.
-- Go's `PaymentStatus` is a string. A constructor stands for each declared constant, `unset` for the
-- empty string, and `other n` for the texts that are none of these, numbered.
pub mod Paid
pub mod Settles
use sdkit.Base.{ℕ, ◌+◌, Bool, true, false, not, ◌||◌, ◌==◌, if◌then◌else◌}

pub data PaymentStatus : Type 0 where
  unset pending processing requires_action authorized succeeded failed : PaymentStatus
  closed expired refunding partial_refunded refunded : PaymentStatus
  other : ℕ → PaymentStatus

pub data EventType : Type 0 where
  payment_created payment_succeeded payment_failed payment_closed payment_expired : EventType
  payment_authorized payment_captured payment_refunding payment_refunded : EventType
  payment_part_refund refund_created refund_processing refund_succeeded refund_failed : EventType
  dispute_created dispute_closed unknown : EventType
  other_event : ℕ → EventType

-- A number for each status, by which two statuses are compared.
abbrev pub code : PaymentStatus → ℕ
code unset = 0
code pending = 1
code processing = 2
code requires_action = 3
code authorized = 4
code succeeded = 5
code failed = 6
code closed = 7
code expired = 8
code refunding = 9
code partial_refunded = 10
code refunded = 11
code (other n) = 12 + n

-- `s == t` on statuses.
abbrev pub same : PaymentStatus → PaymentStatus → Bool
same s t = code s == code t

-- The `switch event.Type` of StatusFromEvent.
abbrev pub status_of_type : EventType → PaymentStatus
status_of_type payment_created = pending
status_of_type payment_succeeded = succeeded
status_of_type payment_captured = succeeded
status_of_type payment_failed = failed
status_of_type payment_expired = expired
status_of_type payment_closed = closed
status_of_type payment_authorized = authorized
status_of_type payment_refunding = refunding
status_of_type payment_part_refund = partial_refunded
status_of_type payment_refunded = refunded
status_of_type refund_processing = refunding
status_of_type refund_succeeded = refunded
status_of_type _ = unset

-- StatusFromEvent, over the two fields of the event that it reads.
unfoldable pub status_from_event : PaymentStatus → EventType → PaymentStatus
status_from_event status type = if not (same status unset) then status else status_of_type type

-- The `switch from` of CanTransitionPaymentStatus.
abbrev allowed : PaymentStatus → PaymentStatus → Bool
allowed pending to =
    same to processing
    || same to requires_action
    || same to authorized
    || same to failed
    || same to closed
    || same to expired
allowed processing to = same to authorized || same to failed || same to closed || same to expired
allowed requires_action to =
    same to authorized || same to failed || same to closed || same to expired
allowed authorized to = same to failed || same to closed || same to expired
allowed succeeded to = same to refunding || same to partial_refunded || same to refunded
allowed refunding to = same to succeeded || same to partial_refunded || same to refunded
allowed partial_refunded to = same to refunding || same to refunded
allowed expired to = false
allowed failed to = same to authorized
allowed closed to = same to authorized
allowed refunded to = false
allowed _ to = false

unfoldable pub can_transition_payment_status : PaymentStatus → PaymentStatus → Bool
can_transition_payment_status from to =
    if same to unset
    then false
    else if same from unset || same from to
    then true
    else if same to succeeded
    then not (same from refunded)
    else allowed from to
