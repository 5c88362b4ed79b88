-- ===== src/Queue/Execute/Callbacks.antt =====
-- The callbacks of a run that all keep to a relation between what it was before and is after: then so
-- does each loop over them, and the run of the handler in its middleware.
use sdkit.Base.{Option, none, some, List, [], ◌∷◌, All, leb, if_both}
use sdkit.Queue.Error.{Error, is_nil}
use sdkit.Queue.Stage.{
  RuntimeMiddleware, is_present, present, insert, sort_runtime_middlewares,
  normalize_runtime_middlewares, wrap, chain_runtime,
}
use sdkit.Queue.Execute.{
  Run, Handler, Hook, Observer, EventType, Orchestrator, RuntimeExecution, each, run_before_process,
  run_after_process, run_on_success, run_on_failure, publish, observe_start, observe_finish,
  observe_retry, observe_failure, process, observe_end, task_retry, task_started, task_success,
  task_failed, task_dead_letter, task_timeout,
}

module _ {ℓ} {M : Type ℓ} (P : RuntimeMiddleware M → Type ℓ) where
  All-present : (ms : List (RuntimeMiddleware M)) → All P ms → All P (present ms)
  unfolding present
  All-present [] h = tt
  All-present (m ∷ ms) h =
      if_both (All P) (is_present m.middleware) (m ∷ present ms) (present ms)
        (h.0, All-present ms h.1) (All-present ms h.1)

  All-insert :
      (m : RuntimeMiddleware M) (ns : List (RuntimeMiddleware M))
      → P m
      → All P ns
      → All P (insert m ns)
  unfolding insert
  All-insert m [] p h = (p, tt)
  All-insert m (n ∷ ns) p h =
      if_both (All P) (leb m.stage n.stage) (m ∷ n ∷ ns) (n ∷ insert m ns) (p, h)
        (h.0, All-insert m ns p h.1)

  All-sort : (ms : List (RuntimeMiddleware M)) → All P ms → All P (sort_runtime_middlewares ms)
  unfolding sort_runtime_middlewares
  All-sort [] h = tt
  All-sort (m ∷ ms) h = All-insert m (sort_runtime_middlewares ms) h.0 (All-sort ms h.1)

  All-normalize :
      (ms : List (RuntimeMiddleware M)) → All P ms → All P (normalize_runtime_middlewares ms)
  unfolding normalize_runtime_middlewares
  All-normalize ms h = All-sort (present ms) (All-present ms h)

-- A step keeps to the relation, and one that returns an error too.
abbrev pub Respects : {R : Type 0} → (R → R → Type 0) → (R → R) → Type 0
Respects L f = (r : _) → L r (f r)

abbrev pub HandlerRespects : {W : Type 0} → (Run W → Run W → Type 0) → Handler W → Type 0
HandlerRespects L h = (r : _) → L r (h r).1

abbrev pub HookRespects : {W : Type 0} → (Run W → Run W → Type 0) → Hook W → Type 0
HookRespects L hook =
    HandlerRespects L hook.before_process
    × ((e : Error) → Respects L (hook.after_process e))
    × Respects L hook.on_success
    × ((e : Error) → Respects L (hook.on_failure e))

abbrev pub ObserverRespects : {W : Type 0} → (Run W → Run W → Type 0) → Observer W → Type 0
ObserverRespects L o =
    Respects L o.on_task_start
    × ((e : Error) → Respects L (o.on_task_finish e))
    × ((e : Error) → Respects L (o.on_task_retry e))
    × ((e : Error) → Respects L (o.on_task_failure e))

abbrev pub PublisherRespects :
    {W : Type 0} → (Run W → Run W → Type 0) → (EventType → Error → Run W → Run W) → Type 0
PublisherRespects L p = (type : EventType) (e : Error) → Respects L (p type e)

-- A middleware around a handler that keeps to the relation is one that does.
abbrev pub MiddlewareRespects :
    {W : Type 0} → (Run W → Run W → Type 0) → RuntimeMiddleware (Handler W → Handler W) → Type 0
MiddlewareRespects {W} L m =
    (h : Handler W) → HandlerRespects L h → HandlerRespects L (wrap m.middleware h)

abbrev pub OptionRespects : {W : Type 0} → (Run W → Run W → Type 0) → Option (Handler W) → Type 0
OptionRespects L none = Unit
OptionRespects L (some h) = HandlerRespects L h

abbrev pub OrchestratorRespects : {W : Type 0} → (Run W → Run W → Type 0) → Orchestrator W → Type 0
OrchestratorRespects L o =
    All (PublisherRespects L) o.publishers × All (ObserverRespects L) o.observers

abbrev pub ExecutionRespects : {W : Type 0} → (Run W → Run W → Type 0) → RuntimeExecution W → Type 0
ExecutionRespects L exec =
    OptionRespects L exec.handler
    × All (MiddlewareRespects L) exec.middlewares
    × All (HookRespects L) exec.hooks

module _ {R : Type 0} (L : R → R → Type 0) (keep : (r : R) → L r r)
    (follow : (r s t : R) → L r s → L s t → L r t) where
  -- A loop over callbacks that keep to the relation keeps to it.
  pub Respects-each {ℓ} :
      {A : Type ℓ} (P : A → Type ℓ) (call : A → R → R) (as' : List A)
      → ((a : A) → P a → Respects L (call a))
      → All P as'
      → Respects L (each call as')
  unfolding each
  Respects-each P call [] k h r = keep r
  Respects-each P call (a ∷ as') k h r =
      follow r (call a r) (each call as' (call a r)) (k a h.0 r)
        (Respects-each P call as' k h.1 (call a r))

module _ {W : Type 0} (L : Run W → Run W → Type 0) (keep : (r : Run W) → L r r)
    (follow : (r s t : Run W) → L r s → L s t → L r t) where
  HandlerRespects-before :
      (hooks : List (Hook W))
      → All (HookRespects L) hooks
      → HandlerRespects L (run_before_process hooks)
  unfolding run_before_process
  HandlerRespects-before [] h r = keep r
  HandlerRespects-before (hook ∷ hooks) h r =
      let (e, r') = hook.before_process r in
      if_both (λ x. L r x.1) (is_nil e) (run_before_process hooks r') (e, r')
        (follow r r' (run_before_process hooks r').1 (h.0.0 r)
          (HandlerRespects-before hooks h.1 r'))
        (h.0.0 r)

  HandlerRespects-chain :
      (handler : Handler W) (ms : List (RuntimeMiddleware (Handler W → Handler W)))
      → HandlerRespects L handler
      → All (MiddlewareRespects L) ms
      → HandlerRespects L (chain_runtime handler ms)
  unfolding chain_runtime
  HandlerRespects-chain handler [] k h = k
  HandlerRespects-chain handler (m ∷ ms) k h =
      h.0 (chain_runtime handler ms) (HandlerRespects-chain handler ms k h.1)

  pub HandlerRespects-process :
      (exec : RuntimeExecution W) (handler : Handler W)
      → HandlerRespects L handler
      → All (MiddlewareRespects L) exec.middlewares
      → All (HookRespects L) exec.hooks
      → HandlerRespects L (process exec handler)
  unfolding process
  HandlerRespects-process exec handler k hm hh r =
      let before = run_before_process exec.hooks r in
      let chained =
        HandlerRespects-chain handler (normalize_runtime_middlewares exec.middlewares) k
          (All-normalize (MiddlewareRespects L) exec.middlewares hm) before.1 in
      let first = HandlerRespects-before exec.hooks hh r in
      let chain = chain_runtime handler (normalize_runtime_middlewares exec.middlewares) in
      if_both (λ x. L r x.1) (is_nil before.0) (chain before.1) before
        (follow r before.1 (chain before.1).1 first chained) first

  pub Respects-after :
      (exec : RuntimeExecution W) (e : Error)
      → All (HookRespects L) exec.hooks
      → Respects L (run_after_process e exec.hooks)
  unfolding run_after_process
  Respects-after exec e h =
      Respects-each L keep follow (HookRespects L) _ exec.hooks (λ hook k. k.1 e) h

  pub Respects-success :
      (exec : RuntimeExecution W)
      → All (HookRespects L) exec.hooks
      → Respects L (run_on_success exec.hooks)
  unfolding run_on_success
  Respects-success exec h =
      Respects-each L keep follow (HookRespects L) _ exec.hooks (λ hook k. k.2) h

  pub Respects-failure :
      (exec : RuntimeExecution W) (e : Error)
      → All (HookRespects L) exec.hooks
      → Respects L (run_on_failure e exec.hooks)
  unfolding run_on_failure
  Respects-failure exec e h =
      Respects-each L keep follow (HookRespects L) _ exec.hooks (λ hook k. k.3 e) h

  pub Respects-publish :
      (o : Orchestrator W) (type : EventType) (e : Error)
      → OrchestratorRespects L o
      → Respects L (publish o type e)
  unfolding publish
  Respects-publish o type e h =
      Respects-each L keep follow (PublisherRespects L) _ o.publishers (λ p k. k type e) h.0

  pub Respects-start :
      (o : Orchestrator W) → OrchestratorRespects L o → Respects L (observe_start o)
  unfolding observe_start
  Respects-start o h =
      Respects-each L keep follow (ObserverRespects L) _ o.observers (λ p k. k.0) h.1

  pub Respects-finish :
      (o : Orchestrator W) (e : Error) → OrchestratorRespects L o → Respects L (observe_finish o e)
  unfolding observe_finish
  Respects-finish o e h =
      Respects-each L keep follow (ObserverRespects L) _ o.observers (λ p k. k.1 e) h.1

  Respects-retry :
      (o : Orchestrator W) (e : Error) → OrchestratorRespects L o → Respects L (observe_retry o e)
  unfolding observe_retry
  Respects-retry o e h =
      Respects-each L keep follow (ObserverRespects L) _ o.observers (λ p k. k.2 e) h.1

  Respects-observed :
      (o : Orchestrator W) (e : Error) → OrchestratorRespects L o → Respects L (observe_failure o e)
  unfolding observe_failure
  Respects-observed o e h =
      Respects-each L keep follow (ObserverRespects L) _ o.observers (λ p k. k.3 e) h.1

  pub Respects-end :
      (o : Orchestrator W) (type : EventType) (e : Error)
      → OrchestratorRespects L o
      → Respects L (observe_end o type e)
  Respects-end o task_retry e h = Respects-retry o e h
  Respects-end o task_started e h = Respects-observed o e h
  Respects-end o task_success e h = Respects-observed o e h
  Respects-end o task_failed e h = Respects-observed o e h
  Respects-end o task_dead_letter e h = Respects-observed o e h
  Respects-end o task_timeout e h = Respects-observed o e h
