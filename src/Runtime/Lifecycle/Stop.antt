-- ===== src/Runtime/Lifecycle/Stop.antt =====
-- What Stop leaves.
use sdkit.Base.{◌≡◌, refl, ap, ◌∙◌, Bool, true, false, List, [], ◌∷◌, ◌++◌, if_both, if◌then◌else◌}
use sdkit.Runtime.Lifecycle.{
  set_status, shutdown_called, stopping, stopped, failed, Errors, is_nil, Capability, App, note,
  call, shutdown_one, shutdown_capabilities, stop_providers, stop_app,
}
use sdkit.Runtime.Lifecycle.Reverse.{starts, stops, names, calls, calls-stop_providers, append_nil}

module _ {W : Type 0} where
  calls-shutdown_one : (c : Capability W) (app : App W) → calls (shutdown_one c app).1 ≡ calls app
  unfolding shutdown_one starts stops
  calls-shutdown_one c app =
      let (e, app') =
        call (shutdown_called c.name) c.shutdown (note (set_status c.name stopping) app) in
      let Q : Errors × App W → Type 0 = λ x. calls x.1 ≡ calls app in
      if_both Q (is_nil e) ([], note (set_status c.name stopped) app')
        (e, note (set_status c.name failed) app') refl refl

  calls-shutdown_capabilities :
      (cs : List (Capability W)) (app : App W) → calls (shutdown_capabilities cs app).1 ≡ calls app
  unfolding shutdown_capabilities
  calls-shutdown_capabilities [] app = refl
  calls-shutdown_capabilities (c ∷ cs) app =
      calls-shutdown_one c (shutdown_capabilities cs app).1 ∙ calls-shutdown_capabilities cs app

  -- Every provider of `app` was called to stop, those that started first last, none is running, and
  -- stopping again does nothing.
  unfoldable pub IsHalted : App W → Errors × App W → Type 0
  unfolding stops names stop_app
  IsHalted app (e, app') =
      (stops app'.log ≡ names app.running_providers)
      × (app'.running_providers ≡ [])
      × (stop_app app' ≡ ([], app'))

  IsHalted-choice :
      (app : App W) (b : Bool) (x y : Errors × App W)
      → b ≡ false
      → IsHalted app y
      → IsHalted app (if b then x else y)
  IsHalted-choice app true x y e h = cc
  IsHalted-choice app false x y e h = h

  -- Stopping an app that is not stopped, with nothing in its log, calls each running provider to stop,
  -- the last one first, leaves none running, and stopping it again changes nothing and is no error.
  pub stop_app-IsHalted :
      (app : App W) → app.log ≡ [] → app.is_stopped ≡ false → IsHalted app (stop_app app)
  unfolding stop_app IsHalted stops
  stop_app-IsHalted app fresh live =
      let stopping_app = record app { is_stopping_itself = true } in
      let after_providers = (stop_providers "" app.running_providers stopping_app).1 in
      let called =
        calls-shutdown_capabilities app.registered_capabilities after_providers
        ∙ calls-stop_providers "" app.running_providers stopping_app in
      IsHalted-choice app app.is_stopped ([], app) _ live
        (
          ap (λ c. c.1) called
              ∙ ap (λ l. names app.running_providers ++ stops l) fresh
              ∙ append_nil (names app.running_providers),
          refl,
          refl,
        )
