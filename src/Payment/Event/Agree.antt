-- ===== src/Payment/Event/Agree.antt =====
-- A queried payment and the event made of it lead to the same status.
use sdkit.Base.{◌≡◌, ◌⊎◌, Option, none, some, arith}
use sdkit.Payment.Status.{PaymentStatus, unset, status_from_event, status_of_type}
use sdkit.Payment.Types.{PaymentEvent}
use sdkit.Payment.Requests.{QueryPaymentResponse}
use sdkit.Payment.Event.{event_from_query_payment_response}

-- StatusFromEvent of an event that may be missing.
abbrev pub status_of : Option PaymentEvent → PaymentStatus
status_of none = unset
status_of (some e) = status_from_event e.status e.type

-- What the type of an event that may be missing says on its own.
abbrev pub typed_status : Option PaymentEvent → PaymentStatus
typed_status none = unset
typed_status (some e) = status_of_type e.type

-- The event of a queried payment has the status that the provider reported, and none is made up for
-- a response without one. Its type alone says the same status, or nothing.
pub status_of-event_from_query_payment_response :
    (resp : QueryPaymentResponse)
    → (status_of (event_from_query_payment_response (some resp)) ≡ resp.status)
      × ((typed_status (event_from_query_payment_response (some resp)) ≡ resp.status)
          ⊎ (typed_status (event_from_query_payment_response (some resp)) ≡ unset))
unfolding event_from_query_payment_response status_from_event
status_of-event_from_query_payment_response resp = ground arith
