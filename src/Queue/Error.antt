-- ===== src/Queue/Error.antt =====
-- core/queue/error.go: the errors of tasks. An `error` of Go is a tree: `nil` is the nil error,
-- `runtime` and `rate_limit` wrap one error, `join` is errors.Join of two, in their order, and
-- `foreign` is an error of other code that wraps nothing.
use sdkit.Base.{ℕ, ◌+◌, String, Bool, true, false, ◌||◌, Option, none, some, ◌==◌}
use sdkit.Base.Int.{ℤ, pos}

-- The declared error values, and context.DeadlineExceeded.
pub data Sentinel : Type 0 where
  not_initialized capability_unsupported task_duplicated task_not_found : Sentinel
  queue_not_found queue_paused rate_limited task_canceled invalid_payload : Sentinel
  handler_not_found lock_not_acquired idempotent_done deadline_exceeded : Sentinel

pub data ErrorKind : Type 0 where
  unset retryable fatal timeout deadletter ignored : ErrorKind
  other_kind : ℕ → ErrorKind

-- The fields of a RuntimeError but for `Err`.
pub record RuntimeInfo : Type 0 where
  pub kind : ErrorKind
  pub code : String
  pub retryable : Bool
  pub fatal : Bool
  pub ignore : Bool
  pub retry_in : ℤ

pub data Error : Type 0 where
  nil : Error
  sentinel : Sentinel → Error
  runtime : RuntimeInfo → Error → Error
  rate_limit : ℤ → Error → Error
  join : Error → Error → Error
  foreign : ℕ → Error

-- err == nil
abbrev pub is_nil : Error → Bool
is_nil nil = true
is_nil _ = false

-- errors.Join of two errors, which leaves out what is nil; around one error it changes nothing that
-- errors.Is and errors.As see.
abbrev pub join_errors : Error → Error → Error
join_errors nil b = b
join_errors a nil = a
join_errors a b = join a b

-- A number for each sentinel and kind, by which two are compared.
abbrev pub sentinel_code : Sentinel → ℕ
sentinel_code not_initialized = 0
sentinel_code capability_unsupported = 1
sentinel_code task_duplicated = 2
sentinel_code task_not_found = 3
sentinel_code queue_not_found = 4
sentinel_code queue_paused = 5
sentinel_code rate_limited = 6
sentinel_code task_canceled = 7
sentinel_code invalid_payload = 8
sentinel_code handler_not_found = 9
sentinel_code lock_not_acquired = 10
sentinel_code idempotent_done = 11
sentinel_code deadline_exceeded = 12

abbrev pub kind_code : ErrorKind → ℕ
kind_code unset = 0
kind_code retryable = 1
kind_code fatal = 2
kind_code timeout = 3
kind_code deadletter = 4
kind_code ignored = 5
kind_code (other_kind n) = 6 + n

-- errors.Is(err, s), for a declared value
unfoldable pub is : Sentinel → Error → Bool
is s nil = false
is s (sentinel t) = sentinel_code t == sentinel_code s
is s (runtime info e) = is s e
is s (rate_limit t e) = is s e
is s (join a b) = is s a || is s b
is s (foreign n) = false

abbrev pub or_else {ℓ} : {A : Type ℓ} → Option A → Option A → Option A
or_else none b = b
or_else (some a) b = some a

-- RuntimeErrorFrom: the first RuntimeError of the tree, from the root on.
unfoldable pub runtime_error_from : Error → Option RuntimeInfo
runtime_error_from nil = none
runtime_error_from (sentinel s) = none
runtime_error_from (runtime info e) = some info
runtime_error_from (rate_limit t e) = runtime_error_from e
runtime_error_from (join a b) = or_else (runtime_error_from a) (runtime_error_from b)
runtime_error_from (foreign n) = none

-- errors.As(err, &target), for a *RateLimitError
unfoldable pub has_rate_limit : Error → Bool
has_rate_limit nil = false
has_rate_limit (sentinel s) = false
has_rate_limit (runtime info e) = has_rate_limit e
has_rate_limit (rate_limit t e) = true
has_rate_limit (join a b) = has_rate_limit a || has_rate_limit b
has_rate_limit (foreign n) = false

unfoldable pub is_rate_limit_error : Error → Bool
is_rate_limit_error e = is rate_limited e || has_rate_limit e

abbrev pub asks : (RuntimeInfo → Bool) → Option RuntimeInfo → Bool
asks p none = false
asks p (some info) = p info

abbrev pub has_kind : ErrorKind → RuntimeInfo → Bool
has_kind k info = kind_code info.kind == kind_code k

unfoldable pub is_retryable_error : Error → Bool
is_retryable_error e = asks (λ i. i.retryable || has_kind retryable i) (runtime_error_from e)

unfoldable pub is_fatal_error : Error → Bool
is_fatal_error e = asks (λ i. i.fatal || has_kind fatal i) (runtime_error_from e)

unfoldable pub is_ignored_error : Error → Bool
is_ignored_error e = asks (λ i. i.ignore || has_kind ignored i) (runtime_error_from e)

unfoldable pub is_timeout_error : Error → Bool
is_timeout_error e = asks (has_kind timeout) (runtime_error_from e)

unfoldable pub is_dead_letter_error : Error → Bool
is_dead_letter_error e = asks (has_kind deadletter) (runtime_error_from e)

abbrev plain : ErrorKind → String → RuntimeInfo
plain kind code = record {
  kind = kind;
  code = code;
  retryable = false;
  fatal = false;
  ignore = false;
  retry_in = pos 0;
}

unfoldable pub new_runtime_error : String → Error → Error
new_runtime_error code e = runtime (plain unset code) e

unfoldable pub retryable_after : ℤ → Error → Error
retryable_after t e =
    runtime (record (plain retryable "retryable") { retryable = true; retry_in = t }) e

unfoldable pub new_retryable_error : Error → Error
unfolding retryable_after
new_retryable_error e = retryable_after (pos 0) e

unfoldable pub new_fatal_error : Error → Error
new_fatal_error e = runtime (record (plain fatal "fatal") { fatal = true }) e

unfoldable pub new_ignored_error : Error → Error
new_ignored_error e = runtime (record (plain ignored "ignored") { ignore = true }) e

unfoldable pub new_timeout_error : Error → Error
new_timeout_error e = runtime (record (plain timeout "timeout") { retryable = true }) e

unfoldable pub new_dead_letter_error : Error → Error
new_dead_letter_error e = runtime (record (plain deadletter "deadletter") { fatal = true }) e

unfoldable pub new_rate_limit_error : ℤ → Error → Error
new_rate_limit_error t e = rate_limit t (join_errors (sentinel rate_limited) e)
