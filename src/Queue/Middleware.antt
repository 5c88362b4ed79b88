-- ===== src/Queue/Middleware.antt =====
-- core/queue/runtime/middleware: lock.go, concurrency.go, retry.go and deadletter.go. The locker, the
-- limiter, the strategy, the dead letters and the functions that give keys may change the run like a
-- handler, and none of them is nil. An unlock, whose error is logged, runs after the handler.
pub mod Moves
pub mod Keys
use sdkit.Base.{
  String, Bool, true, false, not, ◌&&◌, ◌||◌, Option, none, some, is_blank, if◌then◌else◌,
}
use sdkit.Base.Int.{ℤ, pos, ltb_ℤ}
use sdkit.Base.Dict.{Dict}
use sdkit.Queue.State.{TaskState, failed, deadletter, retrying}
use sdkit.Queue.Error.{
  Error, nil, sentinel, foreign, lock_not_acquired, is_nil, is_rate_limit_error, is_fatal_error,
  is_ignored_error, is_dead_letter_error, runtime_error_from, RuntimeInfo, join_errors,
  new_dead_letter_error, retryable_after,
}
use sdkit.Queue.Message.{Message}
use sdkit.Queue.Execute.{Run, Handler, retry_exhausted, is_dead, move}

-- What a LockKeyFunc gives: the error, or the key and the time to live, if the lock applies.
pub record Locker (W : Type 0) : Type 0 where
  pub key : Run W → Error × Option (String × ℤ) × Run W
  pub lock : String → ℤ → Run W → Error × Bool × Run W
  pub unlock : String → Run W → Run W

-- What a ConcurrencyKeyFunc gives: the error, or the key, if the limit applies.
pub record ConcurrencyLimiter (W : Type 0) : Type 0 where
  pub key : Run W → Error × Option String × Run W
  pub acquire : String → Run W → Error × Run W
  pub release : String → Run W → Run W

-- NextRetry: the delay, `none` for not ok.
abbrev pub RetryStrategy : Type 0 → Type 0
RetryStrategy W = Error → Run W → Option ℤ × Run W

abbrev pub DeadLetters : Type 0 → Type 0
DeadLetters W = Error → Run W → Error × Run W

-- The error of a lock without a key.
abbrev pub key_required : Error
key_required = foreign 1

unfoldable pub exhausted_in : Option Message → Bool
unfolding retry_exhausted
exhausted_in none = false
exhausted_in (some msg) = retry_exhausted msg

-- runtimeErr.Retryable && runtimeErr.RetryIn > 0
abbrev pub delays_itself : Option RuntimeInfo → Bool
delays_itself none = false
delays_itself (some info) = info.retryable && ltb_ℤ (pos 0) info.retry_in

-- The errors that Retry passes on.
unfoldable pub passes : {W : Type 0} → Error → Run W → Bool
passes e r =
    is_nil e
    || is_rate_limit_error e
    || is_dead_letter_error e
    || is_fatal_error e
    || is_ignored_error e
    || is_dead r.message

-- shouldDeadLetter, for an error that is not nil
unfoldable pub should_dead_letter : Option Message → Error → Bool
unfolding exhausted_in
should_dead_letter msg e = is_fatal_error e || exhausted_in msg

module _ {W : Type 0} where
  -- The handler under a lock that is held.
  abbrev pub locked : Locker W → String → Handler W → Handler W
  locked locker key next r = let (e, r') = next r in (e, locker.unlock key r')

  abbrev pub with_lock : Locker W → Handler W → Option (String × ℤ) → Handler W
  with_lock locker next none r = next r
  with_lock locker next (some (key, ttl)) r =
      let (e, held, r') = locker.lock key ttl r in
      if is_blank key
      then (key_required, r)
      else if not (is_nil e)
      then (e, r')
      else if held
      then locked locker key next r'
      else (sentinel lock_not_acquired, r')

  -- Lock
  unfoldable pub lock : Locker W → Handler W → Handler W
  lock locker next r =
      let (e, key, r') = locker.key r in if is_nil e then with_lock locker next key r' else (e, r')

  abbrev pub with_limit : ConcurrencyLimiter W → Handler W → Option String → Handler W
  with_limit limiter next none r = next r
  with_limit limiter next (some key) r =
      let (e, r') = limiter.acquire key r in
      let (e', r'') = next r' in if is_nil e then (e', limiter.release key r'') else (e, r')

  -- Concurrency
  unfoldable pub concurrency : ConcurrencyLimiter W → Handler W → Handler W
  concurrency limiter next r =
      let (e, key, r') = limiter.key r in
      if is_nil e then with_limit limiter next key r' else (e, r')

module _ {W : Type 0} (trace_id_of : Dict String → String) where
  unfoldable pub give_up : Error → Run W → Error × Run W
  unfolding new_dead_letter_error
  give_up e r = (new_dead_letter_error e, move trace_id_of deadletter (move trace_id_of failed r))

  unfoldable pub again : Error → Option ℤ × Run W → Error × Run W
  unfolding retryable_after
  again e (none, r) = (e, r)
  again e (some delay, r) = (retryable_after delay e, move trace_id_of retrying r)

  -- Retry, after the handler
  unfoldable pub decide : RetryStrategy W → Error → Run W → Error × Run W
  unfolding passes give_up again exhausted_in
  decide strategy e r =
      if passes e r
      then (e, r)
      else if exhausted_in r.message
      then give_up e r
      else if delays_itself (runtime_error_from e)
      then (e, r)
      else again e (strategy e r)

  unfoldable pub retry : RetryStrategy W → Handler W → Handler W
  unfolding decide
  retry strategy next r = let (e, r') = next r in decide strategy e r'

  -- DeadLetter, after the handler
  unfoldable pub bury : DeadLetters W → Error → Run W → Error × Run W
  unfolding should_dead_letter give_up
  bury letters e r =
      let (e', r') = letters e r in
      if is_nil e || is_ignored_error e || not (should_dead_letter r.message e)
      then (e, r)
      else if is_nil e'
      then give_up e r'
      else (join_errors e e', r')

  unfoldable pub dead_letter : DeadLetters W → Handler W → Handler W
  unfolding bury
  dead_letter letters next r = let (e, r') = next r in bury letters e r'
