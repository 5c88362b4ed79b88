-- ===== src/Queue/Stage/Ordered.antt =====
-- The order in which middleware runs.
use sdkit.Base.{
  ℕ, ◌≤◌, ◌≡◌, ◌∙◌, refl, ap, ◌&&◌, Bool-cases, inl, inr, List, [], ◌∷◌, All, arith, leb, leb→le,
  ◌==◌, if◌then◌else◌,
}
use sdkit.Queue.Stage.{
  RuntimeMiddleware, is_present, present, insert, sort_runtime_middlewares,
  normalize_runtime_middlewares,
}

module _ {ℓ} {M : Type ℓ} where
  -- Stages do not fall along the list.
  abbrev pub IsSorted : List (RuntimeMiddleware M) → Type 0
  IsSorted [] = Unit
  IsSorted (m ∷ ms) = All (λ n. m.stage ≤ n.stage) ms × IsSorted ms

  -- The middleware of one stage, in its order, without the nil ones.
  unfoldable pub of_stage : ℕ → List (RuntimeMiddleware M) → List (RuntimeMiddleware M)
  of_stage k [] = []
  of_stage k (m ∷ ms) =
      let rest = of_stage k ms in if is_present m.middleware && m.stage == k then m ∷ rest else rest

  All-insert :
      (k : ℕ) (m : RuntimeMiddleware M) (ms : List (RuntimeMiddleware M))
      → k ≤ m.stage
      → All (λ n. k ≤ n.stage) ms
      → All (λ n. k ≤ n.stage) (insert m ms)
  unfolding insert
  All-insert k m [] h a = (h, tt)
  All-insert k m (n ∷ ns) h (a, as') = ground (arith, All-insert k m ns h as')

  All-le :
      (j k : ℕ) (ms : List (RuntimeMiddleware M))
      → j ≤ k
      → All (λ n. k ≤ n.stage) ms
      → All (λ n. j ≤ n.stage) ms
  All-le j k [] h a = tt
  All-le j k (m ∷ ms) h (a, rest) = (omega arith, All-le j k ms h rest)

  insert-IsSorted :
      (m : RuntimeMiddleware M) (ms : List (RuntimeMiddleware M))
      → IsSorted ms
      → IsSorted (insert m ms)
  unfolding insert
  insert-IsSorted m [] s = (tt, tt)
  insert-IsSorted m (n ∷ ns) (a, s) = elim (Bool-cases (leb m.stage n.stage)) [
    | inl e ↦ let h = leb→le m.stage n.stage e in rw e ((h, All-le m.stage n.stage ns h a), (a, s))
    | inr e ↦ rw e (All-insert n.stage m ns (ground arith) a, insert-IsSorted m ns s)
  ]

  sort-IsSorted : (ms : List (RuntimeMiddleware M)) → IsSorted (sort_runtime_middlewares ms)
  unfolding sort_runtime_middlewares
  sort-IsSorted [] = tt
  sort-IsSorted (m ∷ ms) = insert-IsSorted m (sort_runtime_middlewares ms) (sort-IsSorted ms)

  of_stage-insert :
      (k : ℕ) (m : RuntimeMiddleware M) (ms : List (RuntimeMiddleware M))
      → of_stage k (insert m ms) ≡ of_stage k (m ∷ ms)
  unfolding insert of_stage
  of_stage-insert k m [] = refl
  of_stage-insert k m (n ∷ ns) = ground (arith, of_stage-insert k m ns)

  of_stage-cons :
      (k : ℕ) (m : RuntimeMiddleware M) (xs ys : List (RuntimeMiddleware M))
      → of_stage k xs ≡ of_stage k ys
      → of_stage k (m ∷ xs) ≡ of_stage k (m ∷ ys)
  unfolding of_stage
  of_stage-cons k m xs ys e =
      ap (λ rest. if is_present m.middleware && m.stage == k then m ∷ rest else rest) e

  of_stage-sort :
      (k : ℕ) (ms : List (RuntimeMiddleware M))
      → of_stage k (sort_runtime_middlewares ms) ≡ of_stage k ms
  unfolding sort_runtime_middlewares
  of_stage-sort k [] = refl
  of_stage-sort k (m ∷ ms) =
      of_stage-insert k m (sort_runtime_middlewares ms)
      ∙ of_stage-cons k m (sort_runtime_middlewares ms) ms (of_stage-sort k ms)

  pub of_stage-present :
      (k : ℕ) (ms : List (RuntimeMiddleware M)) → of_stage k (present ms) ≡ of_stage k ms
  unfolding present of_stage
  of_stage-present k [] = refl
  of_stage-present k (m ∷ ms) = ground (arith, of_stage-present k ms)

  pub normalize_runtime_middlewares-IsSorted :
      (ms : List (RuntimeMiddleware M))
      → IsSorted (normalize_runtime_middlewares ms)
        × ((k : ℕ) → of_stage k (normalize_runtime_middlewares ms) ≡ of_stage k ms)
  unfolding normalize_runtime_middlewares
  normalize_runtime_middlewares-IsSorted ms =
      (sort-IsSorted (present ms), λ k. of_stage-sort k (present ms) ∙ of_stage-present k ms)
