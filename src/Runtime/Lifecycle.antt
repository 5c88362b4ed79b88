-- ===== src/Runtime/Lifecycle.antt =====
-- core/runtime/lifecycle.go: starting the providers of an app, stopping them, and shutting down its
-- capabilities. An error is the list of the errors that are joined in it, by number, `[]` for nil.
-- `stop` and `shutdown` stand for the calls under runLifecycle, whose error may be that of the context.
-- A service provider runs in a goroutine: its result is a signal that waitServiceProviders receives.
-- `others` says of the world whether another goroutine is stopping the app or has stopped it. The log
-- has the calls and the statuses that are set on objects that keep one, the latest first. Providers and
-- capabilities are not nil, and an app has a context, as one that is run has.
pub mod Wait
pub mod Reverse
pub mod Stop
use sdkit.Base.{
  ℕ, zero, suc, ◌+◌, String, Bool, true, false, not, ◌&&◌, ◌||◌, Option, none, some, List, [], ◌∷◌,
  ◌++◌, str_eq, is_blank, if◌then◌else◌,
}

pub data Status : Type 0 where
  booting running failed stopping stopped : Status

pub data Event : Type 0 where
  set_status : String → Status → Event
  start_called stop_called shutdown_called : String → Event
  canceled : Event

abbrev pub Errors : Type 0
Errors = List ℕ

abbrev pub is_nil : Errors → Bool
is_nil [] = true
is_nil (e ∷ es) = false

pub record Provider (W : Type 0) : Type 0 where
  pub name : String
  pub is_service : Bool
  pub start : W → Errors × W
  pub stop : W → Errors × W

pub record Capability (W : Type 0) : Type 0 where
  pub name : String
  pub shutdown : W → Errors × W

pub record App (W : Type 0) : Type 0 where
  pub running_providers : List (Provider W)
  pub registered_capabilities : List (Capability W)
  pub is_stopping_itself : Bool
  pub is_stopped : Bool
  pub log : List Event
  pub world : W

-- What reaches waitServiceProviders: the result of a service, or the end of the context.
pub data Signal : Type 0 where
  finished : String → Errors → Signal
  context_done : ℕ → Signal

-- Whether the status of a provider is left as it is.
abbrev pub keeps : String → String → Bool
keeps keep name = not (is_blank keep) && str_eq name keep

module _ {W : Type 0} where
  abbrev pub note : Event → App W → App W
  note e app = record app { log = e ∷ app.log }

  -- What is left of an app after a call of `f`.
  abbrev pub call : Event → (W → Errors × W) → App W → Errors × App W
  call event f app =
      let (e, w) = f app.world in (e, record app { log = event ∷ app.log; world = w })

  -- `if !keepFailed { setObjectStatus(...) }`
  abbrev pub unless : Bool → Event → App W → App W
  unless kept event app = if kept then app else note event app

  -- One round of stopProviders.
  unfoldable pub stop_one : String → Provider W → App W → Errors × App W
  stop_one keep p app =
      let kept = keeps keep p.name in
      let (e, app') =
        call (stop_called p.name) p.stop (unless kept (set_status p.name stopping) app) in
      if is_nil e
      then ([], unless kept (set_status p.name stopped) app')
      else (e, note (set_status p.name failed) app')

  -- stopProviders, from the last provider to the first
  unfoldable pub stop_providers : String → List (Provider W) → App W → Errors × App W
  unfolding stop_one
  stop_providers keep [] app = ([], app)
  stop_providers keep (p ∷ ps) app =
      let (later, app') = stop_providers keep ps app in
      let (e, app'') = stop_one keep p app' in (later ++ e, app'')

  unfoldable pub shutdown_one : Capability W → App W → Errors × App W
  shutdown_one c app =
      let (e, app') =
        call (shutdown_called c.name) c.shutdown (note (set_status c.name stopping) app) in
      if is_nil e
      then ([], note (set_status c.name stopped) app')
      else (e, note (set_status c.name failed) app')

  -- shutdownCapabilities, from the last capability to the first; none of them is nil
  unfoldable pub shutdown_capabilities : List (Capability W) → App W → Errors × App W
  unfolding shutdown_one
  shutdown_capabilities [] app = ([], app)
  shutdown_capabilities (c ∷ cs) app =
      let (later, app') = shutdown_capabilities cs app in
      let (e, app'') = shutdown_one c app' in (later ++ e, app'')

  -- Stop
  unfoldable pub stop_app : App W → Errors × App W
  unfolding stop_providers shutdown_capabilities
  stop_app app =
      let (e, app1) =
        stop_providers "" app.running_providers (record app { is_stopping_itself = true }) in
      let (e', app2) = shutdown_capabilities app.registered_capabilities app1 in
      if app.is_stopped then ([], app) else (
        e ++ e',
        record app2 {
          running_providers = [];
          registered_capabilities = [];
          is_stopping_itself = false;
          is_stopped = true;
          log = canceled ∷ app2.log;
        },
      )

  -- setObjectStatus and addRunningProvider
  abbrev pub enter : Provider W → App W → App W
  enter p app = record app {
    running_providers = app.running_providers ++ (p ∷ []);
    log = set_status p.name booting ∷ app.log;
  }

  -- The branch of a provider that fails to start, with those that have started.
  unfoldable pub roll_back : List (Provider W) → Provider W → Errors → App W → Errors × App W
  unfolding stop_providers
  roll_back started p e app =
      let app' = note canceled (note (set_status p.name failed) app) in
      let stopped_app = (stop_providers p.name (started ++ (p ∷ [])) app').1 in
      (e, record stopped_app { running_providers = [] })

  module _ (others : W → Bool) where
    abbrev pub is_stopping : App W → Bool
    is_stopping app = app.is_stopping_itself || app.is_stopped || others app.world

    -- The loop of startProviders: the error, whether it returns there, and the app.
    unfoldable pub start_from :
        List (Provider W) → List (Provider W) → App W → Errors × Bool × App W
    unfolding roll_back
    start_from started [] app = ([], false, app)
    start_from started (p ∷ ps) app =
        let entered = enter p app in
        let spawned = note (set_status p.name running) (note (start_called p.name) entered) in
        let (e, called) = call (start_called p.name) p.start entered in
        let (e', rolled) = roll_back started p e called in
        let as_service = start_from (started ++ (p ∷ [])) ps spawned in
        let in_order =
          start_from (started ++ (p ∷ [])) ps (note (set_status p.name running) called) in
        if p.is_service
        then as_service
        else if is_nil e
        then (if is_stopping called then ([], true, called) else in_order)
        else if is_stopping called
        then ([], true, called)
        else (e', true, rolled)
