-- ===== src/Queue/Stage.antt =====
-- core/queue/middleware_stage.go: middleware in the order of its stages. A `RuntimeMiddleware` has
-- the number of its stage, 0 for RecoverStage up to 10 for BusinessStage.
pub mod Ordered
pub mod Entered
use sdkit.Base.{
  ℕ, ◌+◌, Bool, true, false, ◌&&◌, ◌||◌, Option, none, some, List, [], ◌∷◌, leb, ◌==◌,
  if◌then◌else◌,
}

pub record RuntimeMiddleware {ℓ} (M : Type ℓ) : Type ℓ where
  pub stage : ℕ
  pub middleware : Option M

abbrev pub business_stage : ℕ
business_stage = 10

module _ {ℓ} {M : Type ℓ} where
  abbrev pub is_present : Option M → Bool
  is_present none = false
  is_present (some m) = true

  -- RuntimeMiddlewares
  unfoldable pub runtime_middlewares : ℕ → List (Option M) → List (RuntimeMiddleware M)
  runtime_middlewares stage [] = []
  runtime_middlewares stage (m ∷ ms) =
      let rest = runtime_middlewares stage ms in
      if is_present m then (record { stage = stage; middleware = m }) ∷ rest else rest

  -- The loop of normalizeRuntimeMiddlewares
  unfoldable pub present : List (RuntimeMiddleware M) → List (RuntimeMiddleware M)
  present [] = []
  present (m ∷ ms) = let rest = present ms in if is_present m.middleware then m ∷ rest else rest

  unfoldable pub insert :
      RuntimeMiddleware M → List (RuntimeMiddleware M) → List (RuntimeMiddleware M)
  insert m [] = m ∷ []
  insert m (n ∷ ns) = let rest = insert m ns in if leb m.stage n.stage then m ∷ n ∷ ns else n ∷ rest

  -- sortRuntimeMiddlewares: sort.SliceStable by stage, as an insertion sort.
  unfoldable pub sort_runtime_middlewares : List (RuntimeMiddleware M) → List (RuntimeMiddleware M)
  sort_runtime_middlewares [] = []
  sort_runtime_middlewares (m ∷ ms) = insert m (sort_runtime_middlewares ms)

  unfoldable pub normalize_runtime_middlewares :
      List (RuntimeMiddleware M) → List (RuntimeMiddleware M)
  normalize_runtime_middlewares ms = sort_runtime_middlewares (present ms)

  unfoldable pub has_runtime_middleware_stage : List (RuntimeMiddleware M) → ℕ → Bool
  has_runtime_middleware_stage [] stage = false
  has_runtime_middleware_stage (m ∷ ms) stage =
      (is_present m.middleware && m.stage == stage) || has_runtime_middleware_stage ms stage

-- ChainRuntime: the first middleware is the outermost.
abbrev pub wrap {ℓ} : {H : Type ℓ} → Option (H → H) → H → H
wrap none h = h
wrap (some m) h = m h

unfoldable pub chain_runtime {ℓ} : {H : Type ℓ} → H → List (RuntimeMiddleware (H → H)) → H
chain_runtime handler [] = handler
chain_runtime handler (m ∷ ms) = wrap m.middleware (chain_runtime handler ms)
