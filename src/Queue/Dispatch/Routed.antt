-- ===== src/Queue/Dispatch/Routed.antt =====
-- The route that the arguments of a registration give to its pattern, described by the arguments.
use sdkit.Base.{
  ℕ, ◌+◌, ◌≡◌, String, Bool, true, false, ◌&&◌, some, List, [], ◌∷◌, ◌++◌, length, if◌then◌else◌,
}
use sdkit.Base.Int.{ℤ, pos, ltb_ℤ}
use sdkit.Queue.Option.{apply_options}
use sdkit.Queue.Stage.{is_present}
use sdkit.Queue.Stage.Ordered.{IsSorted, of_stage}
use sdkit.Queue.Execute.{Handler}
use sdkit.Queue.Dispatch.{Chained, Dispatcher, Argument, as_handler_func, timeout_stage}
use sdkit.Queue.Dispatch.Route.{Route}
use sdkit.Queue.Dispatch.Given.{chain_of, options_of, given}

module _ {W : Type 0} where
  -- How many middlewares are not nil.
  unfoldable pub number : List (Chained W) → ℕ
  number [] = 0
  number (m ∷ ms) = let rest = number ms in if is_present m.middleware then 1 + rest else rest

  abbrev pub is_none : List (Chained W) → Bool
  is_none [] = true
  is_none (m ∷ ms) = false

  -- The middleware that is added for a timeout, where none was given for its stage.
  abbrev pub added : (ℤ → Handler W → Handler W) → ℤ → List (Chained W) → List (Chained W)
  added timed timeout ms =
      if ltb_ℤ (pos 0) timeout && is_none (of_stage timeout_stage ms)
      then record { stage = timeout_stage; middleware = some (timed timeout) } ∷ []
      else []

  -- The route `r` that the arguments give to a pattern in the dispatcher `d`.
  pub record IsRoute (timed : ℤ → Handler W → Handler W) (pattern : String)
      (args : List (Argument W)) (d : Dispatcher W) (r : Route W) : Type 0 where
    pub items : List (Argument W)
    pub last : Argument W
    pub more : List (Chained W)
    pub chain : chain_of args ≡ items ++ (last ∷ [])
    pub handler : as_handler_func last ≡ some r.handler
    pub timeout : more ≡ added timed (apply_options (options_of args)).timeout (given items)
    pub sorted : IsSorted r.middlewares
    pub stages :
        (k : ℕ)
        → of_stage k r.middlewares
          ≡ of_stage k d.middlewares ++ (of_stage k (given items) ++ of_stage k more)
    pub count : r.metadata.middleware_count ≡ number (given items) + length more
    pub metadata :
        (r.metadata.pattern ≡ pattern)
        × (r.metadata.timeout ≡ (apply_options (options_of args)).timeout)
    pub shared : (r.hooks ≡ d.hooks) × (r.orchestrator ≡ d.orchestrator)
