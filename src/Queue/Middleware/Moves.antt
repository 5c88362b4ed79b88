-- ===== src/Queue/Middleware/Moves.antt =====
-- The middlewares of core/queue/runtime/middleware and the state machine.
use sdkit.Base.{String, not, ◌||◌, Option, none, some, if_both, is_blank}
use sdkit.Base.Int.{ℤ}
use sdkit.Base.Dict.{Dict}
use sdkit.Queue.State.{failed, deadletter, retrying}
use sdkit.Queue.Error.{
  Error, is_nil, is_ignored_error, runtime_error_from, join_errors, sentinel, lock_not_acquired,
}
use sdkit.Queue.Execute.{Run, Handler, move}
use sdkit.Queue.Execute.Callbacks.{HandlerRespects}
use sdkit.Queue.Execute.Moves.{Leads, Leads-refl, Leads-trans, Leads-move}
use sdkit.Queue.Middleware.{
  Locker, ConcurrencyLimiter, RetryStrategy, DeadLetters, key_required, exhausted_in, delays_itself,
  locked, with_lock, lock, with_limit, concurrency, give_up, passes, again, decide, retry,
  should_dead_letter, bury, dead_letter,
}

module _ {W : Type 0} where
  abbrev pub Kept : Run W → Error × Run W → Type 0
  Kept r step = Leads r step.1

  abbrev pub LockerRespects : Locker W → Type 0
  LockerRespects l =
      ((r : Run W) → Leads r (l.key r).2)
      × ((key : String) (ttl : ℤ) (r : Run W) → Leads r (l.lock key ttl r).2)
      × ((key : String) (r : Run W) → Leads r (l.unlock key r))

  abbrev pub LimiterRespects : ConcurrencyLimiter W → Type 0
  LimiterRespects l =
      ((r : Run W) → Leads r (l.key r).2)
      × ((key : String) (r : Run W) → Leads r (l.acquire key r).1)
      × ((key : String) (r : Run W) → Leads r (l.release key r))

  with_lock-Leads :
      (l : Locker W) (next : Handler W) (key : Option (String × ℤ))
      → LockerRespects l
      → HandlerRespects Leads next
      → HandlerRespects Leads (with_lock l next key)
  with_lock-Leads l next none h k r = k r
  with_lock-Leads l next (some (key, ttl)) h k r =
      let (e, held, r') = l.lock key ttl r in
      let reached = h.1 key ttl r in
      let done = next r' in
      if_both (Kept r) (is_blank key) (key_required, r) _ (Leads-refl r)
        (if_both (Kept r) (not (is_nil e)) (e, r') _ reached
          (if_both (Kept r) held (locked l key next r') (sentinel lock_not_acquired, r')
            (Leads-trans r r' (l.unlock key done.1) reached
              (Leads-trans r' done.1 (l.unlock key done.1) (k r') (h.2 key done.1)))
            reached))

  pub lock-Leads :
      (l : Locker W) (next : Handler W)
      → LockerRespects l
      → HandlerRespects Leads next
      → HandlerRespects Leads (lock l next)
  unfolding lock
  lock-Leads l next h k r =
      let (e, key, r') = l.key r in
      if_both (Kept r) (is_nil e) (with_lock l next key r') (e, r')
        (Leads-trans r r' (with_lock l next key r').1 (h.0 r) (with_lock-Leads l next key h k r'))
        (h.0 r)

  with_limit-Leads :
      (l : ConcurrencyLimiter W) (next : Handler W) (key : Option String)
      → LimiterRespects l
      → HandlerRespects Leads next
      → HandlerRespects Leads (with_limit l next key)
  with_limit-Leads l next none h k r = k r
  with_limit-Leads l next (some key) h k r =
      let (e, r') = l.acquire key r in
      let (e', r'') = next r' in
      if_both (Kept r) (is_nil e) (e', l.release key r'') (e, r')
        (Leads-trans r r' (l.release key r'') (h.1 key r)
          (Leads-trans r' r'' (l.release key r'') (k r') (h.2 key r'')))
        (h.1 key r)

  pub concurrency-Leads :
      (l : ConcurrencyLimiter W) (next : Handler W)
      → LimiterRespects l
      → HandlerRespects Leads next
      → HandlerRespects Leads (concurrency l next)
  unfolding concurrency
  concurrency-Leads l next h k r =
      let (e, key, r') = l.key r in
      if_both (Kept r) (is_nil e) (with_limit l next key r') (e, r')
        (Leads-trans r r' (with_limit l next key r').1 (h.0 r) (with_limit-Leads l next key h k r'))
        (h.0 r)

module _ {W : Type 0} (f : Dict String → String) where
  give_up-Leads : (e : Error) (r : Run W) → Kept r (give_up f e r)
  unfolding give_up
  give_up-Leads e r =
      Leads-trans r (move f failed r) (move f deadletter (move f failed r)) (Leads-move f failed r)
        (Leads-move f deadletter (move f failed r))

  again-Leads : (e : Error) (r : Run W) (o : Option ℤ × Run W) → Leads r o.1 → Kept r (again f e o)
  unfolding again
  again-Leads e r (none, r') h = h
  again-Leads e r (some delay, r') h =
      Leads-trans r r' (move f retrying r') h (Leads-move f retrying r')

  decide-Leads :
      (strategy : RetryStrategy W) (e : Error) (r : Run W)
      → ((e' : Error) (r' : Run W) → Leads r' (strategy e' r').1)
      → Kept r (decide f strategy e r)
  unfolding decide
  decide-Leads strategy e r h =
      if_both (Kept r) (passes e r) (e, r) _ (Leads-refl r)
        (if_both (Kept r) (exhausted_in r.message) (give_up f e r) _ (give_up-Leads e r) (
          if_both (Kept r) (delays_itself (runtime_error_from e)) (e, r) _ (Leads-refl r)
            (again-Leads e r (strategy e r) (h e r))))

  bury-Leads :
      (letters : DeadLetters W) (e : Error) (r : Run W)
      → ((e' : Error) (r' : Run W) → Leads r' (letters e' r').1)
      → Kept r (bury f letters e r)
  unfolding bury
  bury-Leads letters e r h =
      let (e', r') = letters e r in
      if_both (Kept r) (is_nil e || is_ignored_error e || not (should_dead_letter r.message e))
        (e, r) _ (Leads-refl r)
        (if_both (Kept r) (is_nil e') (give_up f e r') (join_errors e e', r')
          (Leads-trans r r' (give_up f e r').1 (h e r) (give_up-Leads e r')) (h e r))

  retry-Leads :
      (strategy : RetryStrategy W) (next : Handler W)
      → ((e : Error) (r : Run W) → Leads r (strategy e r).1)
      → HandlerRespects Leads next
      → HandlerRespects Leads (retry f strategy next)
  unfolding retry
  retry-Leads strategy next h k r =
      let (e, r') = next r in
      Leads-trans r r' (decide f strategy e r').1 (k r) (decide-Leads strategy e r' h)

  dead_letter-Leads :
      (letters : DeadLetters W) (next : Handler W)
      → ((e : Error) (r : Run W) → Leads r (letters e r).1)
      → HandlerRespects Leads next
      → HandlerRespects Leads (dead_letter f letters next)
  unfolding dead_letter
  dead_letter-Leads letters next h k r =
      let (e, r') = next r in
      Leads-trans r r' (bury f letters e r').1 (k r) (bury-Leads letters e r' h)

  -- A handler in the middlewares for concurrency, lock, retry and dead letters, in the order of their
  -- stages.
  unfoldable pub governed :
      ConcurrencyLimiter W → Locker W → RetryStrategy W → DeadLetters W → Handler W → Handler W
  unfolding concurrency lock retry dead_letter
  governed limiter locker strategy letters next =
      concurrency limiter (lock locker (retry f strategy (dead_letter f letters next)))

  -- When the handler, the limiter, the locker, the strategy and the dead letters move the task only as
  -- CanTransitionTaskState allows, so does the handler in the four middlewares.
  pub governed-Leads :
      (limiter : ConcurrencyLimiter W) (locker : Locker W) (strategy : RetryStrategy W)
      (letters : DeadLetters W) (next : Handler W)
      → LimiterRespects limiter
      → LockerRespects locker
      → ((e : Error) (r : Run W) → Leads r (strategy e r).1)
      → ((e : Error) (r : Run W) → Leads r (letters e r).1)
      → (k : (r : Run W) → Leads r (next r).1) → (r : Run W)
      → Leads r (governed limiter locker strategy letters next r).1
  unfolding governed
  governed-Leads limiter locker strategy letters next hc hl hs hd k =
      concurrency-Leads limiter (lock locker (retry f strategy (dead_letter f letters next))) hc (
        lock-Leads locker (retry f strategy (dead_letter f letters next)) hl (
          retry-Leads strategy (dead_letter f letters next) hs
            (dead_letter-Leads letters next hd k)))
