-- ===== src/Queue/Record/Status.antt =====
-- The status that finishStoredTaskRun has for an error, against the orchestrator's state for it.
use sdkit.Base.{◌≡◌, ◌↔◌, Bool, true, false, not, ◌&&◌, ◌||◌, if◌then◌else◌, arith}
use sdkit.Base.Int.{ℤ, pos, ltb_ℤ}
use sdkit.Queue.State.{deadletter, success, failed, retry, retrying, succeeded}
use sdkit.Queue.Error.{
  Error, is, is_nil, is_rate_limit_error, is_retryable_error, is_fatal_error, is_timeout_error,
  is_ignored_error, is_dead_letter_error, deadline_exceeded,
}
use sdkit.Queue.Execute.Settles.{outcome, failure}
use sdkit.Queue.Record.{finished_status}

-- The two chains of conditions: on a nil error, a rate limit, an error that asks for a dead letter, a
-- fatal one, retries left, a timeout, and a retryable error.
statuses :
    (nothing rate dead fatal left late again : Bool)
    → let status =
        if nothing
        then succeeded
        else if (rate || left) && not dead && not fatal
        then retry
        else failed in
      let state =
        if nothing
        then success
        else if dead || fatal || (if rate || false then false else true && not left)
        then deadletter
        else if late
        then failed
        else if again || rate
        then retrying
        else failed in
      ((status ≡ failed) ↔ (state ≡ deadletter)) × ((status ≡ succeeded) ↔ (state ≡ success))
statuses nothing rate dead fatal left late again = ground arith

-- For most retries that are not negative and an error that is not ignored, the status of
-- finishStoredTaskRun is failed exactly when the orchestrator's state for the error is dead letter, and
-- succeeded exactly when it is success.
pub finished_status-outcome :
    (e : Error) (count most : ℤ)
    → ltb_ℤ most (pos 0) ≡ false
    → is_ignored_error e ≡ false
    → ((finished_status e count most ≡ failed) ↔ (outcome e count most ≡ deadletter))
      × ((finished_status e count most ≡ succeeded) ↔ (outcome e count most ≡ success))
unfolding finished_status outcome failure
finished_status-outcome e count most h n =
    rw (h, n)
      (statuses (is_nil e) (is_rate_limit_error e) (is_dead_letter_error e) (is_fatal_error e)
        (ltb_ℤ count most) (is_timeout_error e || is deadline_exceeded e) (is_retryable_error e))
