-- ===== src/Runtime/Lifecycle/Reverse.antt =====
-- The order of stopping against the order of starting.
use sdkit.Base.{
  ◌≡◌, ◌⊎◌, inl, inr, refl, ap, sym, ◌∙◌, String, Bool, true, false, List, [], ◌∷◌, ◌++◌, if_both,
  if◌then◌else◌,
}
use sdkit.Runtime.Lifecycle.{
  Event, set_status, start_called, stop_called, shutdown_called, canceled, Status, stopping,
  stopped, failed, Errors, is_nil, Provider, App, note, call, unless, keeps, stop_one,
  stop_providers, roll_back, start_from, enter, is_stopping, running,
}

-- The names of the providers that were called to start, and to stop, the latest first.
unfoldable pub starts : List Event → List String
starts [] = []
starts (start_called name ∷ log) = name ∷ starts log
starts (set_status name s ∷ log) = starts log
starts (stop_called name ∷ log) = starts log
starts (shutdown_called name ∷ log) = starts log
starts (canceled ∷ log) = starts log

unfoldable pub stops : List Event → List String
stops [] = []
stops (stop_called name ∷ log) = name ∷ stops log
stops (set_status name s ∷ log) = stops log
stops (start_called name ∷ log) = stops log
stops (shutdown_called name ∷ log) = stops log
stops (canceled ∷ log) = stops log

unfoldable pub names : {W : Type 0} → List (Provider W) → List String
names [] = []
names (p ∷ ps) = p.name ∷ names ps

-- A list from its end.
unfoldable pub backwards : List String → List String
backwards [] = []
backwards (x ∷ xs) = backwards xs ++ (x ∷ [])

backwards-last : (xs : List String) (x : String) → backwards (xs ++ (x ∷ [])) ≡ x ∷ backwards xs
unfolding backwards
backwards-last [] x = refl
backwards-last (y ∷ xs) x = ap (λ l. l ++ (y ∷ [])) (backwards-last xs x)

pub append_nil : (xs : List String) → xs ++ [] ≡ xs
append_nil [] = refl
append_nil (x ∷ xs) = ap (λ l. x ∷ l) (append_nil xs)

module _ {W : Type 0} where
  -- The calls to start and to stop in the log of an app.
  abbrev pub calls : App W → List String × List String
  calls app = (starts app.log, stops app.log)

  calls-unless :
      (kept : Bool) (name : String) (s : Status) (app : App W)
      → calls (unless kept (set_status name s) app) ≡ calls app
  unfolding starts stops
  calls-unless true name s app = refl
  calls-unless false name s app = refl

  calls-stop_one :
      (keep : String) (p : Provider W) (app : App W)
      → calls (stop_one keep p app).1 ≡ (starts app.log, p.name ∷ stops app.log)
  unfolding stop_one starts stops
  calls-stop_one keep p app =
      let kept = keeps keep p.name in
      let before = unless kept (set_status p.name stopping) app in
      let (e, app') = call (stop_called p.name) p.stop before in
      let Q : Errors × App W → Type 0 = λ x. calls x.1 ≡ (starts app.log, p.name ∷ stops app.log) in
      let called : calls app' ≡ (starts app.log, p.name ∷ stops app.log) =
        ap (λ c. (c.0, p.name ∷ c.1)) (calls-unless kept p.name stopping app) in
      if_both Q (is_nil e) ([], unless kept (set_status p.name stopped) app')
        (e, note (set_status p.name failed) app') (calls-unless kept p.name stopped app' ∙ called)
        called

  pub calls-stop_providers :
      (keep : String) (ps : List (Provider W)) (app : App W)
      → calls (stop_providers keep ps app).1 ≡ (starts app.log, names ps ++ stops app.log)
  unfolding stop_providers names
  calls-stop_providers keep [] app = refl
  calls-stop_providers keep (p ∷ ps) app =
      calls-stop_one keep p (stop_providers keep ps app).1
      ∙ ap (λ c. (c.0, p.name ∷ c.1)) (calls-stop_providers keep ps app)

  names-last :
      (ps : List (Provider W)) (p : Provider W) → names (ps ++ (p ∷ [])) ≡ names ps ++ (p.name ∷ [])
  unfolding names
  names-last [] p = refl
  names-last (q ∷ ps) p = ap (λ x. q.name ∷ x) (names-last ps p)

  -- A provider that fails is stopped first, then those that have started, the latest first.
  calls-roll_back :
      (started : List (Provider W)) (p : Provider W) (e : Errors) (app : App W)
      → calls (roll_back started p e app).1
        ≡ (starts app.log, (names started ++ (p.name ∷ [])) ++ stops app.log)
  unfolding roll_back starts stops
  calls-roll_back started p e app =
      calls-stop_providers p.name (started ++ (p ∷ []))
        (note canceled (note (set_status p.name failed) app))
      ∙ ap (λ n. (starts app.log, n ++ stops app.log)) (names-last started p)

  -- Providers that have started, and none that was stopped.
  IsStarting : List (Provider W) → App W → Type 0
  unfolding starts stops backwards names
  IsStarting started app = (starts app.log ≡ backwards (names started)) × (stops app.log ≡ [])

  -- What the loop leaves: with no error no provider was stopped, and with one those that were called to
  -- start were stopped, in the reverse order, and no provider is running.
  unfoldable pub IsUndone : Errors → App W → Type 0
  unfolding starts stops backwards
  IsUndone e app =
      ((is_nil e ≡ true) × (stops app.log ≡ []))
      ⊎ ((is_nil e ≡ false)
          × (starts app.log ≡ backwards (stops app.log))
          × (app.running_providers ≡ []))

  IsStarting-next :
      (started : List (Provider W)) (p : Provider W) (app : App W)
      → IsStarting started app
      → (p.name ∷ starts app.log ≡ backwards (names (started ++ (p ∷ [])))) × (stops app.log ≡ [])
  unfolding IsStarting
  IsStarting-next started p app h = (
    ap (λ l. p.name ∷ l) h.0
        ∙ sym (backwards-last (names started) p.name)
        ∙ ap backwards (sym (names-last started p)),
    h.1,
  )

  IsUndone-roll_back :
      (started : List (Provider W)) (p : Provider W) (e : Errors) (app : App W)
      → is_nil e ≡ false
      → starts app.log ≡ backwards (names (started ++ (p ∷ [])))
      → stops app.log ≡ []
      → IsUndone (roll_back started p e app).0 (roll_back started p e app).1
  unfolding IsUndone roll_back
  IsUndone-roll_back started p e app bad h k =
      let c = calls-roll_back started p e app in
      let stopped_names =
        ap (λ x. x.1) c
        ∙ ap (λ l. (names started ++ (p.name ∷ [])) ++ l) k
        ∙ append_nil (names started ++ (p.name ∷ []))
        ∙ sym (names-last started p) in
      inr (bad, ap (λ x. x.0) c ∙ h ∙ ap backwards (sym stopped_names), refl)

  Ends : Errors × Bool × App W → Type 0
  Ends (e, ended, app) = IsUndone e app

  -- A provider that was called to start in order.
  IsUndone-called :
      (started : List (Provider W)) (p : Provider W) (e : Errors) (app : App W) (others_stop : Bool)
      (rest : Errors × Bool × App W) (b : Bool)
      → is_nil e ≡ b
      → starts app.log ≡ backwards (names (started ++ (p ∷ [])))
      → stops app.log ≡ []
      → Ends rest
      → Ends (
          if b
          then (if others_stop then ([], true, app) else rest)
          else if others_stop
          then ([], true, app)
          else ((roll_back started p e app).0, true, (roll_back started p e app).1))
  unfolding IsUndone Ends
  IsUndone-called started p e app true rest true n h k r = inl (refl, k)
  IsUndone-called started p e app false rest true n h k r = r
  IsUndone-called started p e app true rest false n h k r = inl (refl, k)
  IsUndone-called started p e app false rest false n h k r =
      IsUndone-roll_back started p e app n h k

module _ {W : Type 0} (others : W → Bool) where
  IsUndone-start_from :
      (started ps : List (Provider W)) (app : App W)
      → IsStarting started app
      → Ends (start_from others started ps app)
  unfolding start_from IsStarting Ends IsUndone starts stops
  IsUndone-start_from started [] app h = inl (refl, h.1)
  IsUndone-start_from started (p ∷ ps) app h =
      let next_names = IsStarting-next started p app h in
      let entered = enter p app in
      let (e, called) = call (start_called p.name) p.start entered in
      let spawned = note (set_status p.name running) (note (start_called p.name) entered) in
      if_both Ends p.is_service (start_from others (started ++ (p ∷ [])) ps spawned) _
        (IsUndone-start_from (started ++ (p ∷ [])) ps spawned next_names)
        (IsUndone-called started p e called (is_stopping others called)
          (start_from others (started ++ (p ∷ [])) ps (note (set_status p.name running) called))
          (is_nil e) refl next_names.0 next_names.1
          (IsUndone-start_from (started ++ (p ∷ [])) ps (note (set_status p.name running) called)
            next_names))

  -- From an app with an empty log, the loop of startProviders either returns no error and has stopped no
  -- provider, or it returns an error, has stopped each provider that was called to start, the one that
  -- failed first and the first one last, and has left no provider running.
  pub start_from-IsUndone :
      (ps : List (Provider W)) (app : App W)
      → app.log ≡ []
      → IsUndone (start_from others [] ps app).0 (start_from others [] ps app).2
  unfolding Ends IsStarting starts stops names backwards
  start_from-IsUndone ps app h = IsUndone-start_from [] ps app (ap starts h, ap stops h)
