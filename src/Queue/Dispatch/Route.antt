-- ===== src/Queue/Dispatch/Route.antt =====
-- core/queue/dispatcher.go: lookup, applyHandlerMetadata and Dispatch.
use sdkit.Base.{
  String, Bool, false, not, Option, none, some, List, [], ◌++◌, is_blank, if◌then◌else◌,
}
use sdkit.Base.Int.{ℤ, pos, ltb_ℤ, eqb_ℤ}
use sdkit.Base.Dict
use sdkit.Base.Dict.{Dict}
use sdkit.Queue.Error.{Error, sentinel, foreign, handler_not_found}
use sdkit.Queue.State.{unset}
use sdkit.Queue.Message.{Message, Value, text, int, duration, flag, set_message_metadata}
use sdkit.Queue.Stage.{normalize_runtime_middlewares}
use sdkit.Queue.Execute.{Run, Handler, Hook, Orchestrator, execute}
use sdkit.Queue.Dispatch.{Chained, HandlerMetadata, Dispatcher}

-- What lookup returns of a pattern that has a handler.
pub record Route (W : Type 0) : Type 0 where
  pub handler : Handler W
  pub middlewares : List (Chained W)
  pub metadata : HandlerMetadata
  pub hooks : List (Hook W)
  pub orchestrator : Orchestrator W

abbrev pub no_metadata : HandlerMetadata
no_metadata = record {
  pattern = "";
  middleware_count = 0;
  queue = "";
  max_retry = none;
  timeout = pos 0;
  delay = pos 0;
  priority = pos 0;
  trace = false;
}

-- `m[key]`, with what Go gives for a missing key.
abbrev pub found {ℓ} : {A : Type ℓ} → A → Option A → A
found missing none = missing
found missing (some a) = a

module _ {W : Type 0} where
  unfoldable pub route_to : Dispatcher W → String → Handler W → Route W
  unfolding normalize_runtime_middlewares
  route_to d pattern h = record {
    handler = h;
    middlewares =
        normalize_runtime_middlewares
          (d.middlewares ++ found [] (Dict.get d.route_middleware pattern));
    metadata = found no_metadata (Dict.get d.entries pattern);
    hooks = d.hooks;
    orchestrator = d.orchestrator;
  }

  unfoldable pub lookup : Dispatcher W → String → Option (Route W)
  unfolding route_to
  lookup d pattern = elim (Dict.get d.handlers pattern) [
    | none ↦ none
    | some h ↦ some (route_to d pattern h)
  ]

-- One `if` of applyHandlerMetadata.
unfoldable pub note : Bool → String → Value → Message → Message
unfolding set_message_metadata
note given key value msg = if given then set_message_metadata key value msg else msg

unfoldable pub note_max_retry : Option ℤ → Message → Message
unfolding set_message_metadata
note_max_retry none msg = msg
note_max_retry (some n) msg = set_message_metadata "queue.max_retry" (int n) msg

unfoldable pub note_queue : String → Message → Message
unfolding set_message_metadata
note_queue queue msg =
    if is_blank queue
    then msg
    else let msg' = set_message_metadata "queue.queue" (text queue) msg in
      record msg' { queue = if is_blank msg'.queue then queue else msg'.queue }

unfoldable pub apply_handler_metadata : HandlerMetadata → Message → Message
unfolding set_message_metadata note note_max_retry note_queue
apply_handler_metadata metadata msg =
    let msg1 =
      note_queue metadata.queue
        (set_message_metadata "queue.pattern" (text metadata.pattern) msg) in
    let msg2 = note_max_retry metadata.max_retry msg1 in
    let msg3 =
      note (ltb_ℤ (pos 0) metadata.timeout) "queue.timeout" (duration metadata.timeout) msg2 in
    let msg4 = note (ltb_ℤ (pos 0) metadata.delay) "queue.delay" (duration metadata.delay) msg3 in
    let msg5 =
      note (not (eqb_ℤ metadata.priority (pos 0))) "queue.priority" (int metadata.priority) msg4 in
    set_message_metadata "queue.trace" (flag metadata.trace) msg5

-- The message that Dispatch runs, a new one for a nil one.
abbrev pub typed : String → Option Message → Message
typed pattern none = record {
  id = "";
  type = pattern;
  payload = 0;
  queue = "";
  state = unset;
  retry_count = pos 0;
  max_retry = pos 0;
  headers = Dict.empty;
  metadata = Dict.empty;
  runtime = none;
}
typed pattern (some msg) = if is_blank msg.type then record msg { type = pattern } else msg

abbrev pub pattern_of : String → Option Message → String
pattern_of pattern none = pattern
pattern_of pattern (some msg) = if is_blank pattern then msg.type else pattern

-- The error of a missing pattern.
abbrev pub pattern_missing : Error
pattern_missing = foreign 0

module _ {W : Type 0} (trace_id_of : Dict String → String) where
  unfoldable pub run_route : String → Route W → Run W → Error × Run W
  unfolding execute apply_handler_metadata
  run_route pattern route r =
      let msg = apply_handler_metadata route.metadata (typed pattern r.message) in
      execute trace_id_of route.orchestrator
        (record {
          handler = some route.handler;
          middlewares = route.middlewares;
          hooks = route.hooks;
        })
        (record r { message = some msg })

  -- Dispatch, for a dispatcher that is not nil: the error, and the run with the message that was
  -- used, which is another one than the caller's where that is nil or has no type.
  unfoldable pub dispatch : Dispatcher W → String → Run W → Error × Run W
  unfolding lookup run_route
  dispatch d pattern r =
      let name = pattern_of pattern r.message in
      if is_blank name then (pattern_missing, r) else elim (lookup d name) [
        | none ↦ (sentinel handler_not_found, r)
        | some route ↦ run_route name route r
      ]
