-- ===== src/Queue/Execute.antt =====
-- core/queue/orchestrator.go and retry.go: the run of one task, with the hooks of lifecycle.go and
-- the loops over them of dispatcher.go. The message is shared: a handler, a middleware, a hook, an
-- observer and a publisher may each change it, and the world `W`. Contexts, which carry copies of what
-- the message has, are left out, and lists hold no nil entries, which the code passes over.
pub mod Callbacks
pub mod Settles
pub mod Moves
use sdkit.Base.{
  ℕ, String, Bool, true, false, not, ◌&&◌, ◌||◌, Option, none, some, List, [], ◌∷◌, if◌then◌else◌,
}
use sdkit.Base.Int.{ℤ, pos, ltb_ℤ}
use sdkit.Base.Dict.{Dict}
use sdkit.Queue.State.{
  TaskState, unset, pending, running, retrying, failed, deadletter, success, same,
}
use sdkit.Queue.Error.{
  Error, nil, sentinel, is, is_nil, not_initialized, deadline_exceeded, is_rate_limit_error,
  is_retryable_error, is_fatal_error, is_ignored_error, is_timeout_error, is_dead_letter_error,
}
use sdkit.Queue.Message.{Message, ensure_message_runtime_context, set_task_state}
use sdkit.Queue.Stage.{RuntimeMiddleware, chain_runtime, normalize_runtime_middlewares}

-- The message of a run, `none` for a nil one, and the world.
pub record Run (W : Type 0) : Type 0 where
  pub message : Option Message
  pub world : W

pub data EventType : Type 0 where
  task_started task_success task_failed task_retry task_dead_letter task_timeout : EventType

abbrev pub Handler : Type 0 → Type 0
Handler W = Run W → Error × Run W

pub record Observer (W : Type 0) : Type 0 where
  pub on_task_start : Run W → Run W
  pub on_task_finish : Error → Run W → Run W
  pub on_task_retry : Error → Run W → Run W
  pub on_task_failure : Error → Run W → Run W

pub record Hook (W : Type 0) : Type 0 where
  pub before_process : Run W → Error × Run W
  pub after_process : Error → Run W → Run W
  pub on_success : Run W → Run W
  pub on_failure : Error → Run W → Run W

pub record Orchestrator (W : Type 0) : Type 0 where
  pub publishers : List (EventType → Error → Run W → Run W)
  pub observers : List (Observer W)

pub record RuntimeExecution (W : Type 0) : Type 0 where
  pub handler : Option (Handler W)
  pub middlewares : List (RuntimeMiddleware (Handler W → Handler W))
  pub hooks : List (Hook W)

unfoldable pub retry_exhausted : Message → Bool
retry_exhausted msg = not (ltb_ℤ msg.max_retry (pos 0)) && not (ltb_ℤ msg.retry_count msg.max_retry)

-- shouldMarkDeadLetter, for an error that is not nil
unfoldable pub should_mark_dead_letter : Option Message → Error → Bool
unfolding retry_exhausted
should_mark_dead_letter none e = false
should_mark_dead_letter (some msg) e =
    if is_rate_limit_error e || is_ignored_error e then false else retry_exhausted msg

abbrev pub is_dead : Option Message → Bool
is_dead none = false
is_dead (some msg) = same msg.state deadletter

-- A loop over callbacks, each on what the one before it left.
unfoldable pub each {ℓ} : {A : Type ℓ} {R : Type 0} → (A → R → R) → List A → R → R
each call [] r = r
each call (a ∷ as') r = each call as' (call a r)

module _ {W : Type 0} where
  -- runBeforeProcess
  unfoldable pub run_before_process : List (Hook W) → Run W → Error × Run W
  run_before_process [] r = (nil, r)
  run_before_process (hook ∷ hooks) r =
      let (e, r') = hook.before_process r in
      let rest = run_before_process hooks r' in if is_nil e then rest else (e, r')

  unfoldable pub run_after_process : Error → List (Hook W) → Run W → Run W
  run_after_process e hooks r = each (λ hook. hook.after_process e) hooks r

  unfoldable pub run_on_success : List (Hook W) → Run W → Run W
  run_on_success hooks r = each (λ hook. hook.on_success) hooks r

  unfoldable pub run_on_failure : Error → List (Hook W) → Run W → Run W
  run_on_failure e hooks r = each (λ hook. hook.on_failure e) hooks r

  -- The hooks before, and the handler in its middleware if none of them fails.
  unfoldable pub process : RuntimeExecution W → Handler W → Handler W
  unfolding run_before_process chain_runtime normalize_runtime_middlewares
  process exec handler r =
      let (e, r') = run_before_process exec.hooks r in
      if is_nil e
      then chain_runtime handler (normalize_runtime_middlewares exec.middlewares) r'
      else (e, r')

  abbrev pub on_message : (Message → Message) → Run W → Run W
  on_message f r = record r { message = elim r.message [ none ↦ none | some msg ↦ some (f msg) ] }

module _ {W : Type 0} (trace_id_of : Dict String → String) where
  abbrev pub move : TaskState → Run W → Run W
  move to r = on_message (λ msg. set_task_state trace_id_of msg to) r

  -- The chain of conditions of finishFailure: the event, and the message after it.
  unfoldable pub classify : Error → Run W → EventType × Run W
  classify e r =
      if is_dead r.message
      then (task_dead_letter, r)
      else if is_dead_letter_error e || is_fatal_error e || should_mark_dead_letter r.message e
      then (task_dead_letter, move deadletter (move failed r))
      else if is_timeout_error e || is deadline_exceeded e
      then (task_timeout, move failed r)
      else if is_retryable_error e || is_rate_limit_error e
      then (task_retry, move retrying r)
      else (task_failed, move failed r)

  abbrev pub begin_unset : Run W → Run W
  begin_unset r =
      on_message
        (λ msg. if same msg.state unset then set_task_state trace_id_of msg pending else msg) r

  -- What Execute does to the message before anything else.
  unfoldable pub begin : Run W → Run W
  begin r =
      on_message (ensure_message_runtime_context trace_id_of)
        (on_message (ensure_message_runtime_context trace_id_of) (move running (begin_unset r)))

module _ {W : Type 0} (o : Orchestrator W) where
  unfoldable pub publish : EventType → Error → Run W → Run W
  publish type e r = each (λ publisher. publisher type e) o.publishers r

  unfoldable pub observe_start : Run W → Run W
  observe_start r = each (λ observer. observer.on_task_start) o.observers r

  unfoldable pub observe_finish : Error → Run W → Run W
  observe_finish e r = each (λ observer. observer.on_task_finish e) o.observers r

  unfoldable pub observe_retry : Error → Run W → Run W
  observe_retry e r = each (λ observer. observer.on_task_retry e) o.observers r

  unfoldable pub observe_failure : Error → Run W → Run W
  observe_failure e r = each (λ observer. observer.on_task_failure e) o.observers r

  -- `eventType == RuntimeEventTaskRetry`
  abbrev pub observe_end : EventType → Error → Run W → Run W
  observe_end task_retry e r = observe_retry e r
  observe_end _ e r = observe_failure e r

module _ {W : Type 0} (trace_id_of : Dict String → String) (o : Orchestrator W) where
  unfoldable pub finish_failure : Error → Run W → Run W
  finish_failure e r =
      let (type, r') = classify trace_id_of e r in
      observe_finish o e (observe_end o type e (publish o type e r'))

  -- The end of Execute, for the error of the handler
  unfoldable pub settle : RuntimeExecution W → Error → Run W → Error × Run W
  settle exec e r =
      if is_nil e
      then (
        nil,
        run_on_success exec.hooks
            (observe_finish o nil (publish o task_success nil (move trace_id_of success r))),
      )
      else (e, run_on_failure e exec.hooks (finish_failure e r))

  abbrev pub perform : RuntimeExecution W → Handler W → Run W → Error × Run W
  perform exec handler r =
      let started = observe_start o (publish o task_started nil (begin trace_id_of r)) in
      let (e, r') = process exec handler started in
      settle exec e (run_after_process e exec.hooks r')

  -- Execute
  unfoldable pub execute : RuntimeExecution W → Run W → Error × Run W
  execute exec r = elim exec.handler [
    | none ↦ (sentinel not_initialized, r)
    | some handler ↦ perform exec handler r
  ]
