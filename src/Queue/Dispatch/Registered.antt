-- ===== src/Queue/Dispatch/Registered.antt =====
-- What a registration changes of the routes.
use sdkit.Base.{
  ◌≡◌, refl, subst, String, Bool, true, false, Option, none, some, List, [], ◌++◌, is_blank, str_eq,
  length, if◌then◌else◌,
}
use sdkit.Base.Result.{Result, ok, err, ◌>>=◌}
use sdkit.Base.Effect.{passed}
use sdkit.Base.Int.{ℤ}
use sdkit.Base.Dict
use sdkit.Base.Dict.{Dict}
use sdkit.Queue.Option.{TaskOption}
use sdkit.Queue.Stage.{normalize_runtime_middlewares}
use sdkit.Queue.Execute.{Handler}
use sdkit.Queue.Dispatch.{
  Chained, HandlerMetadata, Dispatcher, Argument, RegisterError, pattern_required,
  split_registration_args, build_handler_pipeline, handler_metadata, with_timeout, store, register,
}
use sdkit.Queue.Dispatch.Route.{Route, found, route_to, lookup, no_metadata}

module _ {W : Type 0} where
  -- The route of a pattern that was stored last.
  unfoldable pub route_of : Dispatcher W → Handler W → List (Chained W) → HandlerMetadata → Route W
  unfolding normalize_runtime_middlewares
  route_of d h ms metadata = record {
    handler = h;
    middlewares = normalize_runtime_middlewares (d.middlewares ++ ms);
    metadata = metadata;
    hooks = d.hooks;
    orchestrator = d.orchestrator;
  }

  -- lookup, of what the three maps have for the pattern
  abbrev picked :
      Dispatcher W
      → Option (Handler W)
      → Option (List (Chained W))
      → Option HandlerMetadata
      → Option (Route W)
  unfolding normalize_runtime_middlewares
  picked d none ms metadata = none
  picked d (some h) ms metadata = some (route_of d h (found [] ms) (found no_metadata metadata))

  lookup-picked :
      (d : Dispatcher W) (q : String) (h : Option (Handler W))
      → Dict.get d.handlers q ≡ h
      → lookup d q ≡ picked d h (Dict.get d.route_middleware q) (Dict.get d.entries q)
  unfolding lookup route_to route_of
  lookup-picked d q none e = rw (lookup, e) refl
  lookup-picked d q (some h) e = rw (lookup, e) refl

  picked-if :
      (d : Dispatcher W) (b : Bool) (h : Handler W) (ms : List (Chained W))
      (metadata : HandlerMetadata) (old : Option (Handler W)) (ms' : Option (List (Chained W)))
      (metadata' : Option HandlerMetadata)
      → picked d
          (if b then some h else old)
          (if b then some ms else ms')
          (if b then some metadata else metadata')
        ≡ (if b then some (route_of d h ms metadata) else picked d old ms' metadata')
  unfolding picked
  picked-if d true h ms metadata old ms' metadata' = refl
  picked-if d false h ms metadata old ms' metadata' = refl

  lookup-store :
      (d : Dispatcher W) (p q : String) (h : Handler W) (ms : List (Chained W))
      (metadata : HandlerMetadata)
      → lookup (store p h ms metadata d) q
        ≡ (if str_eq p q then some (route_of d h ms metadata) else lookup d q)
  unfolding picked route_of
  lookup-store d p q h ms metadata =
      rw
        (
          lookup-picked (store p h ms metadata d) q _ refl,
          lookup-picked d q _ refl,
          Dict.get-put d.handlers p q h,
          Dict.get-put d.route_middleware p q ms,
          Dict.get-put d.entries p q metadata,
        )
        (picked-if d (str_eq p q) h ms metadata (Dict.get d.handlers q)
          (Dict.get d.route_middleware q) (Dict.get d.entries q))

  -- What the arguments of a registration make of a pattern: the handler, its middlewares and its
  -- metadata.
  unfoldable pub registered :
      (ℤ → Handler W → Handler W)
      → String
      → List (Option TaskOption)
      → Handler W × List (Chained W)
      → Dispatcher W
      → Route W
  unfolding with_timeout handler_metadata normalize_runtime_middlewares
  registered timed p opts (h, ms) d =
      let (ms', metadata) = with_timeout timed ms (handler_metadata p (length ms) opts) in
      route_of d h ms' metadata

  stored :
      (timed : ℤ → Handler W → Handler W) (p : String) (opts : List (Option TaskOption))
      (d : Dispatcher W) {d' : Dispatcher W}
      (r : Result RegisterError (Handler W × List (Chained W)))
      → (r >>= λ (h, ms).
          let (ms', metadata) = with_timeout timed ms (handler_metadata p (length ms) opts) in
          ok (store p h ms' metadata d))
        ≡ ok d'
      → (built : Handler W × List (Chained W)) × (r ≡ ok built)
        × ((q : String)
            → lookup d' q
              ≡ (if str_eq p q then some (registered timed p opts built d) else lookup d q))
  unfolding registered
  stored timed p opts d {d'} (err e) h = cc
  stored timed p opts d {d'} (ok (handler, ms)) h =
      let (ms', metadata) = with_timeout timed ms (handler_metadata p (length ms) opts) in
      let e : store p handler ms' metadata d ≡ d' = cc in
      (
        (handler, ms),
        refl,
        λ q.
            subst
              (λ x. lookup x q ≡ (
                if str_eq p q then some (registered timed p opts (handler, ms) d) else lookup d q))
              e (lookup-store d p q handler ms' metadata),
      )

  -- A registration that succeeds was given a pattern and a pipeline that can be built, and then the
  -- route of the pattern is its handler with the middlewares of the dispatcher and its own in the order
  -- of their stages, and the route of any other pattern is what it was.
  pub lookup-register :
      (timed : ℤ → Handler W → Handler W) (p : String) (args : List (Argument W))
      (d d' : Dispatcher W)
      → register timed p args d ≡ ok d'
      → (is_blank p ≡ false)
        × (built : Handler W × List (Chained W)) × (build_handler_pipeline
              (split_registration_args args).0
            ≡ ok built)
        × ((q : String)
            → lookup d' q ≡ (
                if str_eq p q
                then some (registered timed p (split_registration_args args).1 built d)
                else lookup d q))
  unfolding register
  lookup-register timed p args d d' h =
      let (chain, opts) = split_registration_args args in
      let (named, e) = passed (is_blank p) pattern_required _ h in
      let (built, done, routes) = stored timed p opts d (build_handler_pipeline chain) e in
      (named, built, done, routes)
