-- ===== src/Queue/Dispatch/Given.antt =====
-- What the arguments of a registration are, and the pipeline that is built of them.
use sdkit.Base.{
  ℕ, ◌+◌, ◌≡◌, ◌∙◌, refl, sym, ap, Option, none, some, List, [], ◌∷◌, ◌++◌, if◌then◌else◌,
}
use sdkit.Base.Result.{Result, ok, err, ◌>>=◌}
use sdkit.Queue.Option.{TaskOption}
use sdkit.Queue.Stage.{is_present, present, normalize_runtime_middlewares, business_stage}
use sdkit.Queue.Execute.{Handler}
use sdkit.Queue.Dispatch.{
  Chained, Argument, none_given, final, context, staged, plain, option, alien, RegisterError,
  bad_final, parts, collect, as_handler_func, build_handler_pipeline, split_registration_args,
}

module _ {W : Type 0} where
  -- The arguments but the options.
  unfoldable pub chain_of : List (Argument W) → List (Argument W)
  chain_of [] = []
  chain_of (none_given ∷ args) = chain_of args
  chain_of (option opt ∷ args) = chain_of args
  chain_of (final h ∷ args) = final h ∷ chain_of args
  chain_of (context h m ∷ args) = context h m ∷ chain_of args
  chain_of (staged m ∷ args) = staged m ∷ chain_of args
  chain_of (plain m ∷ args) = plain m ∷ chain_of args
  chain_of (alien ∷ args) = alien ∷ chain_of args

  unfoldable pub options_of : List (Argument W) → List (Option TaskOption)
  options_of [] = []
  options_of (option opt ∷ args) = some opt ∷ options_of args
  options_of (_ ∷ args) = options_of args

  -- The middlewares that arguments are, with the nil ones.
  unfoldable pub given : List (Argument W) → List (Chained W)
  given [] = []
  given (staged m ∷ args) = m ∷ given args
  given (plain m ∷ args) = record { stage = business_stage; middleware = m } ∷ given args
  given (context h m ∷ args) = record { stage = business_stage; middleware = some m } ∷ given args
  given (_ ∷ args) = given args

  pub split_lem :
      (args : List (Argument W)) → split_registration_args args ≡ (chain_of args, options_of args)
  unfolding split_registration_args chain_of options_of
  split_lem [] = refl
  split_lem (none_given ∷ args) = split_lem args
  split_lem (option opt ∷ args) = rw (split_lem args) refl
  split_lem (final h ∷ args) = rw (split_lem args) refl
  split_lem (context h m ∷ args) = rw (split_lem args) refl
  split_lem (staged m ∷ args) = rw (split_lem args) refl
  split_lem (plain m ∷ args) = rw (split_lem args) refl
  split_lem (alien ∷ args) = rw (split_lem args) refl

  parts_lem :
      (a : Argument W) (args : List (Argument W))
      → a ∷ args ≡ (parts a args).0 ++ ((parts a args).1 ∷ [])
  parts_lem a [] = refl
  parts_lem a (b ∷ args) = ap (λ l. a ∷ l) (parts_lem b args)

  kept_one :
      (m : Chained W) (ms : List (Chained W)) (r : Result RegisterError (List (Chained W)))
      (out : List (Chained W))
      → ((out' : List (Chained W)) → r ≡ ok out' → out' ≡ present ms)
      → (r >>= λ ns. ok (if is_present m.middleware then m ∷ ns else ns)) ≡ ok out
      → out ≡ present (m ∷ ms)
  unfolding present
  kept_one m ms (err e) out k h = cc
  kept_one m ms (ok ns) out k h =
      let e : (if is_present m.middleware then m ∷ ns else ns) ≡ out = cc in
      sym e ∙ ap (λ l. if is_present m.middleware then m ∷ l else l) (k ns refl)

  collect_lem :
      (i : ℕ) (args : List (Argument W)) (ms : List (Chained W))
      → collect i args ≡ ok ms
      → ms ≡ present (given args)
  unfolding collect given
  collect_lem i [] ms h = unfold present in cc
  collect_lem i (none_given ∷ args) ms h = cc
  collect_lem i (option opt ∷ args) ms h = cc
  collect_lem i (final f ∷ args) ms h = cc
  collect_lem i (alien ∷ args) ms h = cc
  collect_lem i (staged m ∷ args) ms h =
      kept_one m (given args) (collect (i + 1) args) ms (collect_lem (i + 1) args) h
  collect_lem i (plain m ∷ args) ms h =
      kept_one _ (given args) (collect (i + 1) args) ms (collect_lem (i + 1) args) h
  collect_lem i (context f m ∷ args) ms h =
      kept_one _ (given args) (collect (i + 1) args) ms (collect_lem (i + 1) args) h

  finished :
      (o : Option (Handler W)) (r : Result RegisterError (List (Chained W))) {h : Handler W}
      {ms : List (Chained W)}
      → (elim o as (λ _. Result RegisterError (Handler W × List (Chained W))) [
        | none ↦ err bad_final
        | some g ↦ r >>= λ ns. ok (g, normalize_runtime_middlewares ns)
      ])
        ≡ ok (h, ms)
      → (o ≡ some h)
        × (ns : List (Chained W)) × (r ≡ ok ns)
        × (ms ≡ normalize_runtime_middlewares ns)
  finished none r x = cc
  finished (some g) (err e) x = cc
  finished (some g) (ok ns) x = (cc, ns, refl, cc)

  -- What a chain that can be built is.
  abbrev pub IsBuilt : List (Argument W) → Handler W → List (Chained W) → Type 0
  IsBuilt chain h ms =
      (items : List (Argument W)) × (last : Argument W) × (chain ≡ items ++ (last ∷ []))
      × (as_handler_func last ≡ some h)
      × (ms ≡ normalize_runtime_middlewares (present (given items)))

  pub build_handler_pipeline-IsBuilt :
      (chain : List (Argument W)) (h : Handler W) (ms : List (Chained W))
      → build_handler_pipeline chain ≡ ok (h, ms)
      → IsBuilt chain h ms
  unfolding build_handler_pipeline
  build_handler_pipeline-IsBuilt [] h ms x = cc
  build_handler_pipeline-IsBuilt (a ∷ args) h ms x =
      let (items, last) = parts a args in
      let (at, ns, collected, e) = finished (as_handler_func last) (collect 0 items) x in
      (
        items,
        last,
        parts_lem a args,
        at,
        e ∙ ap normalize_runtime_middlewares (collect_lem 0 items ns collected),
      )
