-- ===== src/Payment/Error.antt =====
-- core/payment/errors.go: a constructor for each error value. An error that wraps one of them with
-- more text is that constructor, and an error of a provider's own is `foreign`.
pub mod Checks
use sdkit.Base.{ℕ, Bool, true, false, if◌then◌else◌}
use sdkit.Base.Result.{Result, ok, err}

pub data PaymentError : Type 0 where
  nil_context invalid_amount invalid_request invalid_action invalid_currency : PaymentError
  invalid_exchange_rate currency_meta_not_found settle_amount_mismatch : PaymentError
  unsupported_provider unsupported_channel unsupported_capability : PaymentError
  adapter_already_exists adapter_not_found payment_action_required : PaymentError
  notify_verification_fail payment_reference invalid_state_transition : PaymentError
  foreign : ℕ → PaymentError

-- errors.Is(err, ErrAdapterNotFound)
abbrev pub is_adapter_not_found : PaymentError → Bool
is_adapter_not_found adapter_not_found = true
is_adapter_not_found _ = false

-- if wrong { return err }
abbrev pub reject_if : Bool → PaymentError → Result PaymentError (Unit {0})
reject_if wrong e = if wrong then err e else ok tt

-- A `context.Context`: nil, or what its `Err()` is at the time.
pub data Context : Type 0 where
  no_context live : Context
  done : PaymentError → Context
