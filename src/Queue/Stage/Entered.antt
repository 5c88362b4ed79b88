-- ===== src/Queue/Stage/Entered.antt =====
-- The order in which ChainRuntime runs normalized middleware.
use sdkit.Base.{
  ℕ, ◌≤◌, ◌≡◌, ◌∙◌, refl, sym, ap, Bool, true, false, Bool-cases, inl, inr, Option, none, some,
  List, [], ◌∷◌, ◌++◌, All, append_nil, arith, leb, if◌then◌else◌,
}
use sdkit.Queue.Stage.{
  RuntimeMiddleware, is_present, present, insert, sort_runtime_middlewares,
  normalize_runtime_middlewares, wrap, chain_runtime,
}
use sdkit.Queue.Stage.Ordered.{
  IsSorted, of_stage, of_stage-present, normalize_runtime_middlewares-IsSorted,
}

-- The middlewares that a run has entered, the first one first.
abbrev pub Log {ℓ} : Type ℓ → Type ℓ
Log M = List (RuntimeMiddleware M)

module _ {ℓ} {M : Type ℓ} where
  -- A middleware that notes `m` before it calls the handler that it is given, nil where `m` is.
  abbrev pub noting : RuntimeMiddleware M → Option M → Option ((Log M → Log M) → Log M → Log M)
  noting m none = none
  noting m (some f) = some (λ next log. next (log ++ (m ∷ [])))

  abbrev pub noted : RuntimeMiddleware M → RuntimeMiddleware ((Log M → Log M) → Log M → Log M)
  noted m = record { stage = m.stage; middleware = noting m m.middleware }

  abbrev pub noted_all :
      List (RuntimeMiddleware M) → List (RuntimeMiddleware ((Log M → Log M) → Log M → Log M))
  noted_all [] = []
  noted_all (m ∷ ms) = noted m ∷ noted_all ms

  is_present-noting :
      (m : RuntimeMiddleware M) (o : Option M) → is_present (noting m o) ≡ is_present o
  is_present-noting m none = refl
  is_present-noting m (some f) = refl

  noted_all-if :
      (b : Bool) (m : RuntimeMiddleware M) (ms : List (RuntimeMiddleware M))
      → (if b then noted m ∷ noted_all ms else noted_all ms) ≡ noted_all (if b then m ∷ ms else ms)
  noted_all-if true m ms = refl
  noted_all-if false m ms = refl

  present-noted_all :
      (ms : List (RuntimeMiddleware M)) → present (noted_all ms) ≡ noted_all (present ms)
  unfolding present
  present-noted_all [] = refl
  present-noted_all (m ∷ ms) =
      rw (is_present-noting m m.middleware, present-noted_all ms)
        (noted_all-if (is_present m.middleware) m (present ms))

  insert-noted_all :
      (m : RuntimeMiddleware M) (ms : List (RuntimeMiddleware M))
      → insert (noted m) (noted_all ms) ≡ noted_all (insert m ms)
  unfolding insert
  insert-noted_all m [] = refl
  insert-noted_all m (n ∷ ns) = elim (Bool-cases (leb m.stage n.stage)) [
    | inl e ↦ rw e refl
    | inr e ↦ rw (e, insert-noted_all m ns) refl
  ]

  sort-noted_all :
      (ms : List (RuntimeMiddleware M))
      → sort_runtime_middlewares (noted_all ms) ≡ noted_all (sort_runtime_middlewares ms)
  unfolding sort_runtime_middlewares
  sort-noted_all [] = refl
  sort-noted_all (m ∷ ms) =
      ap (insert (noted m)) (sort-noted_all ms) ∙ insert-noted_all m (sort_runtime_middlewares ms)

  normalize-noted_all :
      (ms : List (RuntimeMiddleware M))
      → normalize_runtime_middlewares (noted_all ms) ≡ noted_all (normalize_runtime_middlewares ms)
  unfolding normalize_runtime_middlewares
  normalize-noted_all ms =
      ap sort_runtime_middlewares (present-noted_all ms) ∙ sort-noted_all (present ms)

  assoc : (xs ys zs : Log M) → ((xs ++ ys) ++ zs) ≡ (xs ++ (ys ++ zs))
  assoc [] ys zs = refl
  assoc (x ∷ xs) ys zs = ap (λ l. x ∷ l) (assoc xs ys zs)

  step_in :
      (h : Log M → Log M) (m : RuntimeMiddleware M) (o : Option M) (ms log : Log M)
      (next : Log M → Log M)
      → ((l : Log M) → next l ≡ h (l ++ present ms))
      → wrap (noting m o) next log
        ≡ h (log ++ (if is_present o then m ∷ present ms else present ms))
  unfolding present
  step_in h m none ms log next e = e log
  step_in h m (some f) ms log next e = e (log ++ (m ∷ [])) ∙ ap h (assoc log (m ∷ []) (present ms))

  chain_runtime-noted_all :
      (h : Log M → Log M) (ms log : Log M)
      → chain_runtime h (noted_all ms) log ≡ h (log ++ present ms)
  unfolding chain_runtime present
  chain_runtime-noted_all h [] log = ap h (sym (append_nil log))
  chain_runtime-noted_all h (m ∷ ms) log =
      step_in h m m.middleware ms log (chain_runtime h (noted_all ms))
        (λ l. chain_runtime-noted_all h ms l)

  All-present :
      (k : ℕ) (ms : List (RuntimeMiddleware M))
      → All (λ n. k ≤ n.stage) ms
      → All (λ n. k ≤ n.stage) (present ms)
  unfolding present
  All-present k [] a = tt
  All-present k (m ∷ ms) (a, as') = ground (arith, All-present k ms as')

  present-IsSorted : (ms : List (RuntimeMiddleware M)) → IsSorted ms → IsSorted (present ms)
  unfolding present
  present-IsSorted [] s = tt
  present-IsSorted (m ∷ ms) (a, s) = ground (arith, present-IsSorted ms s, All-present m.stage ms a)

  -- When middlewares note themselves before they call what they are given, the handler that the
  -- normalized ones are chained to is called once they all have, in the order of their stages, those
  -- of one stage in the order in which they were given, without the nil ones.
  pub chain_runtime-IsSorted :
      (h : Log M → Log M) (ms : List (RuntimeMiddleware M))
      → (order : Log M) × (chain_runtime h (normalize_runtime_middlewares (noted_all ms)) []
          ≡ h order)
        × IsSorted order
        × ((k : ℕ) → of_stage k order ≡ of_stage k ms)
  chain_runtime-IsSorted h ms =
      let ns = normalize_runtime_middlewares ms in
      let (sorted, stages) = normalize_runtime_middlewares-IsSorted ms in
      (
        present ns,
        ap (λ l. chain_runtime h l []) (normalize-noted_all ms) ∙ chain_runtime-noted_all h ns [],
        present-IsSorted ns sorted,
        λ k. of_stage-present k ns ∙ stages k,
      )
