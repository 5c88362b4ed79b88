-- ===== src/Runtime/Lifecycle/Wait.antt =====
-- core/runtime/lifecycle.go: waitServiceProviders and startProviders. The signals are what the select
-- receives, in its order; when they end, the call still waits.
use sdkit.Base.{ℕ, zero, suc, ◌+◌, String, Bool, ◌||◌, ◌==◌, List, [], ◌∷◌, ◌++◌, if◌then◌else◌}
use sdkit.Runtime.Lifecycle.{
  App, Provider, Signal, finished, context_done, Errors, is_nil, set_status, failed, note, stop_app,
  is_stopping, start_from,
}

-- The call has returned an error, or it waits.
pub data Waiting (W : Type 0) : Type 0 where
  returned : Errors → App W → Waiting W
  waits : App W → Waiting W

-- ErrProviderServiceExited, by its number.
abbrev pub service_exited : ℕ
service_exited = 0

module _ {W : Type 0} (others : W → Bool) (context_error : W → Errors) where
  -- errors.Join(err, a.Stop(...))
  abbrev pub stop_with : Errors → App W → Waiting W
  unfolding stop_app
  stop_with e app = let (e', app') = stop_app app in returned (e ++ e') app'

  -- The result of a service that ends while the app runs.
  unfoldable pub service_ended : String → Errors → App W → Waiting W
  unfolding stop_app
  service_ended name result app =
      let e = if is_nil result then service_exited ∷ [] else result in
      let (e', app') = stop_app (note (set_status name failed) app) in
      returned (e ++ e') (note (set_status name failed) app')

  unfoldable pub wait_service_providers : ℕ → List Signal → App W → Waiting W
  unfolding stop_with service_ended
  wait_service_providers zero signals app = returned [] app
  wait_service_providers (suc n) [] app = waits app
  wait_service_providers (suc n) (finished name result ∷ signals) app =
      let rest = wait_service_providers n signals app in
      if is_stopping others app
      then rest
      else if is_nil (context_error app.world)
      then service_ended name result app
      else stop_with (context_error app.world) app
  wait_service_providers (suc n) (context_done e ∷ signals) app =
      if is_stopping others app then returned [] app else stop_with (e ∷ []) app

  abbrev pub services : List (Provider W) → ℕ
  services [] = 0
  services (p ∷ ps) = let rest = services ps in if p.is_service then rest + 1 else rest

  -- startProviders
  unfoldable pub start_providers : List (Provider W) → List Signal → App W → Waiting W
  unfolding start_from wait_service_providers
  start_providers providers signals app =
      let (e, ended, app') = start_from others [] providers app in
      if ended || services providers == 0
      then returned e app'
      else wait_service_providers (services providers) signals app'
