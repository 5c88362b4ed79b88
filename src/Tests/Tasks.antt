-- ===== src/Tests/Tasks.antt =====
-- Runs of tasks of core/queue, with a handler that fails in a way that can be retried.
use sdkit.Base.{◌≡◌, refl, ℕ, ◌+◌, String, true, Option, none, some, List, [], ◌∷◌}
use sdkit.Base.Result.{ok, err}
use sdkit.Base.Int.{ℤ, pos}
use sdkit.Base.Dict
use sdkit.Base.Dict.{Dict}
use sdkit.Queue.State.{unset}
use sdkit.Queue.Error.{Error, nil, sentinel, rate_limited, foreign}
use sdkit.Queue.Message.{Message}
use sdkit.Queue.Option.{timeout}
use sdkit.Queue.Stage.{RuntimeMiddleware, normalize_runtime_middlewares, chain_runtime}
use sdkit.Queue.Stage.Ordered.{IsSorted, of_stage}
use sdkit.Queue.Stage.Entered.{Log, noted_all, chain_runtime-IsSorted}
use sdkit.Queue.Execute.{Run, Handler, Hook, Observer, Orchestrator, RuntimeExecution, execute}
use sdkit.Queue.Execute.Moves.{Leads, Leads-refl, execute-Leads}
use sdkit.Queue.Execute.Settles.{outcome, standing_of, execute-standing}
use sdkit.Queue.Middleware.{ConcurrencyLimiter, Locker, RetryStrategy, DeadLetters}
use sdkit.Queue.Middleware.Moves.{governed, governed-Leads}
use sdkit.Queue.Dispatch.{Argument, final, option, staged, plain, Dispatcher, new_dispatcher, store}
use sdkit.Queue.Dispatch.Route.{Route}
use sdkit.Queue.Record.{TaskStore, TaskStoreOptions, task_store_middleware}
use sdkit.Queue.Record.Transparent.{IsQuiet, task_store_middleware-next}

abbrev no_trace : Dict String → String
no_trace headers = ""

abbrev mail : Message
mail = record {
  id = "t1";
  type = "mail";
  payload = 5;
  queue = "default";
  state = unset;
  retry_count = pos 1;
  max_retry = pos 3;
  headers = Dict.empty;
  metadata = Dict.empty;
  runtime = none;
}

abbrev start : Run ℕ
start = record { message = some mail; world = 0 }

abbrev failing : Handler ℕ
failing r = (sentinel rate_limited, record r { world = r.world + 1 })

abbrev counting : Run ℕ → Run ℕ
counting r = record r { world = r.world + 1 }

abbrev counter : Observer ℕ
counter = record {
  on_task_start = counting;
  on_task_finish = λ e. counting;
  on_task_retry = λ e. counting;
  on_task_failure = λ e. counting;
}

abbrev hook : Hook ℕ
hook = record {
  before_process = λ r. (nil, counting r);
  after_process = λ e. counting;
  on_success = counting;
  on_failure = λ e. counting;
}

abbrev orchestrator : Orchestrator ℕ
orchestrator = record { publishers = (λ type e. counting) ∷ []; observers = counter ∷ [] }

abbrev layer : ℕ → RuntimeMiddleware (Handler ℕ → Handler ℕ)
layer stage = record { stage = stage; middleware = some (λ next r. next (counting r)) }

abbrev execution : RuntimeExecution ℕ
execution = record {
  handler = some failing;
  middlewares = layer 7 ∷ layer 1 ∷ [];
  hooks = hook ∷ [];
}

execute-standing_example :
    standing_of (execute no_trace orchestrator execution start).1
    ≡ some (outcome (execute no_trace orchestrator execution start).0 (pos 1) (pos 3), pos 1, pos 3)
execute-standing_example =
    execute-standing no_trace orchestrator execution start failing unset (pos 1) (pos 3)
      (((λ type e r. refl), tt), (((λ r. refl), (λ e r. refl), (λ e r. refl), (λ e r. refl)), tt))
      (
        (λ r. refl),
        ((λ h k r. k (counting r)), ((λ h k r. k (counting r)), tt)),
        (((λ r. refl), (λ e r. refl), (λ r. refl), (λ e r. refl)), tt),
      )
      refl refl refl

execute-Leads_example : Leads start (execute no_trace orchestrator execution start).1
execute-Leads_example =
    execute-Leads no_trace orchestrator execution start
      (
        ((λ type e r. Leads-refl r), tt),
        (
          (
            (λ r. Leads-refl r),
            (λ e r. Leads-refl r),
            (λ e r. Leads-refl r),
            (λ e r. Leads-refl r),
          ),
          tt,
        ),
      )
      (
        (λ r. Leads-refl r),
        ((λ h k r. k (counting r)), ((λ h k r. k (counting r)), tt)),
        (
          ((λ r. Leads-refl r), (λ e r. Leads-refl r), (λ r. Leads-refl r), (λ e r. Leads-refl r)),
          tt,
        ),
      )

abbrev stages : List (RuntimeMiddleware ℕ)
stages =
    record { stage = 7; middleware = some 1 }
    ∷ record { stage = 1; middleware = some 2 }
    ∷ record { stage = 7; middleware = some 3 }
    ∷ record { stage = 2; middleware = none }
    ∷ []

chain_runtime-IsSorted_example :
    (order : Log ℕ) × (chain_runtime
        (λ log. log)
        (normalize_runtime_middlewares (noted_all stages))
        []
      ≡ order)
    × IsSorted order
    × ((k : ℕ) → of_stage k order ≡ of_stage k stages)
chain_runtime-IsSorted_example = chain_runtime-IsSorted (λ log. log) stages

abbrev timed : ℤ → Handler ℕ → Handler ℕ
timed d next = next

abbrev arguments : List (Argument ℕ)
arguments = staged (layer 7) ∷ plain none ∷ option (timeout (pos 5)) ∷ final failing ∷ []

abbrev mailer : Dispatcher ℕ
mailer =
    store "mail" failing (layer 7 ∷ record { stage = 4; middleware = some (timed (pos 5)) } ∷ [])
      (record {
        pattern = "mail";
        middleware_count = 2;
        queue = "default";
        max_retry = none;
        timeout = pos 5;
        delay = pos 0;
        priority = pos 0;
        trace = true;
      })
      new_dispatcher

abbrev no_text : Error → String
no_text e = "error"

-- The messages on which a handler ran, and the number of calls of the store.
abbrev Counted : Type 0
Counted = List (Option Message) × ℕ

abbrev counted : {A : Type 0} → A → Counted → A × Counted
counted a (runs, n) = (a, (runs, n + 1))

-- A store that refuses the last call of a run.
abbrev store_of_runs : TaskStore Counted
store_of_runs = record {
  ensure_running = λ task. counted (ok task);
  start_run = λ run. counted (ok run);
  finish_run = λ run. counted (ok tt);
  append_run_log = λ log. counted (ok tt);
  update_task_status = λ update. counted (err (foreign 2));
}

abbrev store_options : TaskStoreOptions Counted
store_options = record {
  driver = "memory";
  worker_id = "w1";
  run_id = counted "r1";
  now = counted (pos 9);
}

abbrev limited : Handler Counted
limited r = (sentinel rate_limited, record r { world = (r.message ∷ r.world.0, r.world.1) })

abbrev fresh : Run Counted
fresh = record { message = some mail; world = ([], 0) }

abbrev quiet : IsQuiet (λ w. w.0) store_of_runs store_options
quiet = record {
  ensure_running = λ task w. refl;
  start_run = λ run w. refl;
  finish_run = λ run w. refl;
  append_run_log = λ log w. refl;
  update_task_status = λ update w. refl;
  run_id = λ w. refl;
  now = λ w. refl;
}

task_store_middleware-next_example :
    let (e, r') = task_store_middleware no_text store_of_runs store_options limited fresh in
    (r'.world.0 ≡ some mail ∷ [])
    × (w : Counted) × (w.0 ≡ [])
    × (e ≡ (limited (record fresh { world = w })).0)
    × (r'.message ≡ (limited (record fresh { world = w })).1.message)
task_store_middleware-next_example =
    task_store_middleware-next (λ w. w.0) no_text store_of_runs store_options quiet limited
      (λ r. refl) fresh

abbrev limiter : ConcurrencyLimiter ℕ
limiter = record {
  key = λ r. (nil, some "mail", r);
  acquire = λ key r. (nil, counting r);
  release = λ key. counting;
}

abbrev locker : Locker ℕ
locker = record {
  key = λ r. (nil, some ("mail:t1", pos 5), r);
  lock = λ key ttl r. (nil, true, counting r);
  unlock = λ key. counting;
}

abbrev strategy : RetryStrategy ℕ
strategy e r = (some (pos 30), counting r)

abbrev letters : DeadLetters ℕ
letters e r = (nil, counting r)

governed-Leads_example :
    Leads start (governed no_trace limiter locker strategy letters failing start).1
governed-Leads_example =
    governed-Leads no_trace limiter locker strategy letters failing
      ((λ r. Leads-refl r), (λ key r. Leads-refl r), (λ key r. Leads-refl r))
      ((λ r. Leads-refl r), (λ key ttl r. Leads-refl r), (λ key r. Leads-refl r))
      (λ e r. Leads-refl r) (λ e r. Leads-refl r) (λ r. Leads-refl r) start
