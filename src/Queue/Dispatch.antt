-- ===== src/Queue/Dispatch.antt =====
-- core/queue/dispatcher.go, with buildHandlerPipeline of queue.go and splitRegistrationArgs and
-- handlerMetadata of registry_runtime.go: the handlers that are registered for patterns, and the run
-- of a message by its pattern. Names of Go functions, found by reflection, are left out, and so is the
-- lock, under which each operation reads or writes the dispatcher. `timed` stands for
-- taskTimeoutMiddleware, which runs a handler under context.WithTimeout.
pub mod Route
pub mod Registered
pub mod Given
pub mod Routed
use sdkit.Base.{
  ℕ, ◌+◌, String, Bool, true, false, not, ◌&&◌, Option, none, some, List, [], ◌∷◌, ◌++◌, length,
  is_blank, if◌then◌else◌, map,
}
use sdkit.Base.Result.{Result, ok, err, ◌>>=◌}
use sdkit.Base.Int.{ℤ, pos, ltb_ℤ, eqb_ℤ}
use sdkit.Base.Dict
use sdkit.Base.Dict.{Dict}
use sdkit.Queue.Error.{Error, sentinel, foreign, handler_not_found}
use sdkit.Queue.State.{unset}
use sdkit.Queue.Message.{Message, Value, text, int, duration, flag, set_message_metadata}
use sdkit.Queue.Option.{TaskOption, apply_options}
use sdkit.Queue.Stage.{
  RuntimeMiddleware, business_stage, is_present, present, normalize_runtime_middlewares,
  has_runtime_middleware_stage,
}
use sdkit.Queue.Execute.{Run, Handler, Hook, Orchestrator, execute}

abbrev pub timeout_stage : ℕ
timeout_stage = 4

pub record HandlerMetadata : Type 0 where
  pub pattern : String
  pub middleware_count : ℕ
  pub queue : String
  pub max_retry : Option ℤ
  pub timeout : ℤ
  pub delay : ℤ
  pub priority : ℤ
  pub trace : Bool

abbrev pub Chained : Type 0 → Type 0
Chained W = RuntimeMiddleware (Handler W → Handler W)

-- An argument of Register, by its dynamic type: `final` is a HandlerFunc, a function of its type or one
-- that takes a payload, `context` is a ContextHandler, which is a handler and, before one, a
-- middleware, `alien` is any other value.
pub data Argument (W : Type 0) : Type 0 where
  none_given : Argument W
  final : Handler W → Argument W
  context : Handler W → (Handler W → Handler W) → Argument W
  staged : Chained W → Argument W
  plain : Option (Handler W → Handler W) → Argument W
  option : TaskOption → Argument W
  alien : Argument W

pub data RegisterError : Type 0 where
  pattern_required no_final bad_final : RegisterError
  bad_item : ℕ → RegisterError

pub record Dispatcher (W : Type 0) : Type 0 where
  pub handlers : Dict (Handler W)
  pub route_middleware : Dict (List (Chained W))
  pub entries : Dict HandlerMetadata
  pub middlewares : List (Chained W)
  pub hooks : List (Hook W)
  pub orchestrator : Orchestrator W

unfoldable pub handler_metadata : String → ℕ → List (Option TaskOption) → HandlerMetadata
unfolding apply_options
handler_metadata pattern count opts =
    let applied = apply_options opts in
    record {
      pattern = pattern;
      middleware_count = count;
      queue = applied.queue;
      max_retry = applied.max_retry;
      timeout = applied.timeout;
      delay = applied.process_in;
      priority = applied.priority;
      trace = applied.trace;
    }

module _ {W : Type 0} where
  unfoldable pub new_dispatcher : Dispatcher W
  new_dispatcher = record {
    handlers = Dict.empty;
    route_middleware = Dict.empty;
    entries = Dict.empty;
    middlewares = [];
    hooks = [];
    orchestrator = record { publishers = []; observers = [] };
  }

  unfoldable pub use_runtime : List (Chained W) → Dispatcher W → Dispatcher W
  unfolding present
  use_runtime ms d = record d { middlewares = d.middlewares ++ present ms }

  unfoldable pub add_hook : Hook W → Dispatcher W → Dispatcher W
  add_hook hook d = record d { hooks = d.hooks ++ (hook ∷ []) }

  unfoldable pub set_orchestrator : Orchestrator W → Dispatcher W → Dispatcher W
  set_orchestrator o d = record d { orchestrator = o }

  abbrev pub with_handler :
      Argument W
      → List (Argument W) × List (Option TaskOption)
      → List (Argument W) × List (Option TaskOption)
  with_handler none_given rest = rest
  with_handler (option opt) (handlers, opts) = (handlers, some opt ∷ opts)
  with_handler argument (handlers, opts) = (argument ∷ handlers, opts)

  unfoldable pub split_registration_args :
      List (Argument W) → List (Argument W) × List (Option TaskOption)
  split_registration_args [] = ([], [])
  split_registration_args (a ∷ as') = with_handler a (split_registration_args as')

  unfoldable pub as_handler_func : Argument W → Option (Handler W)
  as_handler_func (final h) = some h
  as_handler_func (context h m) = some h
  as_handler_func _ = none

  unfoldable pub as_runtime_middleware : Argument W → Option (Chained W)
  as_runtime_middleware (staged m) = some m
  as_runtime_middleware (plain m) = some (record { stage = business_stage; middleware = m })
  as_runtime_middleware (context h m) =
      some (record { stage = business_stage; middleware = some m })
  as_runtime_middleware _ = none

  -- The arguments before the last one, and the last one.
  abbrev pub parts : Argument W → List (Argument W) → List (Argument W) × Argument W
  parts a [] = ([], a)
  parts a (b ∷ as') = let (items, last) = parts b as' in (a ∷ items, last)

  -- The loop of buildHandlerPipeline, from item `i` on.
  unfoldable pub collect : ℕ → List (Argument W) → Result RegisterError (List (Chained W))
  unfolding as_runtime_middleware
  collect i [] = ok []
  collect i (a ∷ as') = elim (as_runtime_middleware a) [
    | none ↦ err (bad_item i)
    | some m ↦ collect (i + 1) as' >>= λ ms. ok (if is_present m.middleware then m ∷ ms else ms)
  ]

  unfoldable pub build_handler_pipeline :
      List (Argument W) → Result RegisterError (Handler W × List (Chained W))
  unfolding as_handler_func collect normalize_runtime_middlewares
  build_handler_pipeline [] = err no_final
  build_handler_pipeline (a ∷ as') =
      let (items, last) = parts a as' in
      elim (as_handler_func last) [
        | none ↦ err bad_final
        | some h ↦ collect 0 items >>= λ ms. ok (h, normalize_runtime_middlewares ms)
      ]

  -- What Register stores of a pattern under its lock.
  abbrev pub store :
      String → Handler W → List (Chained W) → HandlerMetadata → Dispatcher W → Dispatcher W
  store pattern h ms metadata d = record d {
    handlers = Dict.put d.handlers pattern h;
    route_middleware = Dict.put d.route_middleware pattern ms;
    entries = Dict.put d.entries pattern metadata;
  }

  -- What Register adds for a route with a timeout.
  unfoldable pub with_timeout :
      (ℤ → Handler W → Handler W)
      → List (Chained W)
      → HandlerMetadata
      → List (Chained W) × HandlerMetadata
  unfolding has_runtime_middleware_stage
  with_timeout timed ms metadata =
      if ltb_ℤ (pos 0) metadata.timeout && not (has_runtime_middleware_stage ms timeout_stage)
      then (
        ms ++ ((record { stage = timeout_stage; middleware = some (timed metadata.timeout) }) ∷ []),
        record metadata { middleware_count = length ms + 1 },
      )
      else (ms, metadata)

  -- Register, for a dispatcher that is not nil
  unfoldable pub register :
      (ℤ → Handler W → Handler W)
      → String
      → List (Argument W)
      → Dispatcher W
      → Result RegisterError (Dispatcher W)
  unfolding split_registration_args build_handler_pipeline handler_metadata with_timeout
  register timed pattern args d =
      if is_blank pattern
      then err pattern_required
      else let (chain, opts) = split_registration_args args in
        build_handler_pipeline chain >>= λ (h, ms).
        let (ms', metadata) = with_timeout timed ms (handler_metadata pattern (length ms) opts) in
        ok (store pattern h ms' metadata d)
