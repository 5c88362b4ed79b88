-- ===== src/Queue/Record/Transparent.antt =====
-- What TaskStoreMiddleware leaves to the handler.
use sdkit.Base.{
  ◌≡◌, ◌∙◌, refl, ap, String, Bool, true, false, Option, none, some, List, ◌∷◌, is_blank,
  if◌then◌else◌,
}
use sdkit.Base.Result.{Result, ok, err}
use sdkit.Base.Effect.{Io, proceed, ◌>>=◌, ◌>>◌, pure}
use sdkit.Base.Int.{ℤ}
use sdkit.Queue.Error.{Error, is_nil}
use sdkit.Queue.Message.{Message}
use sdkit.Queue.Execute.{Run, Handler}
use sdkit.Queue.Record.{
  TaskStore, TaskStoreOptions, TaskRecord, TaskRunRecord, TaskRunLogRecord, TaskStatusUpdate,
  run_stored, start_stored_task_run, finish_stored_task_run, append_ignored, new_run_id,
  started_task, started_run, finished_run, finished_log, task_store_middleware,
}

-- A step leaves what `runs` reads of the world as it is.
abbrev pub Quiet : {W R A : Type 0} → (W → R) → (W → A × W) → Type 0
Quiet {W} runs step = (w : W) → runs (step w).1 ≡ runs w

module _ {E W R : Type 0} (runs : W → R) where
  Quiet-proceed :
      {A B : Type 0} (r : Result E A) (rest : A → Io E W B) (w : W)
      → ((a : A) → Quiet runs (rest a))
      → runs (proceed r rest w).1 ≡ runs w
  Quiet-proceed (ok a) rest w k = k a w
  Quiet-proceed (err e) rest w k = refl

  Quiet->>= :
      {A B : Type 0} (first : Io E W A) (rest : A → Io E W B)
      → Quiet runs first
      → ((a : A) → Quiet runs (rest a))
      → Quiet runs (first >>= rest)
  Quiet->>= first rest h k w = Quiet-proceed (first w).0 rest (first w).1 k ∙ h w

module _ {W R : Type 0} (runs : W → R) where
  -- The calls of the store do not touch what `runs` reads.
  pub record IsQuiet (store : TaskStore W) (opts : TaskStoreOptions W) : Type 0 where
    pub ensure_running : (task : TaskRecord) → Quiet runs (store.ensure_running task)
    pub start_run : (run : TaskRunRecord) → Quiet runs (store.start_run run)
    pub finish_run : (run : TaskRunRecord) → Quiet runs (store.finish_run run)
    pub append_run_log : (log : TaskRunLogRecord) → Quiet runs (store.append_run_log log)
    pub update_task_status :
        (update : TaskStatusUpdate) → Quiet runs (store.update_task_status update)
    pub run_id : Quiet runs opts.run_id
    pub now : Quiet runs opts.now

module _ {W R : Type 0} (runs : W → R) (text_of : Error → String) (store : TaskStore W)
    (opts : TaskStoreOptions W) (quiet : IsQuiet runs store opts) where
  start-Quiet :
      (msg : Option Message) (at : ℤ) → Quiet runs (start_stored_task_run text_of store opts msg at)
  unfolding start_stored_task_run
  start-Quiet none at w = refl
  start-Quiet (some msg) at w =
      let log : TaskRunRecord → TaskRunLogRecord = λ run. record {
        run = run;
        level = "info";
        message = "queue task started";
        fields = none;
        at = at;
      } in
      let note : TaskRunRecord → Io Error W TaskRunRecord =
        λ run. append_ignored text_of store opts (log run) >> pure run in
      let begin : TaskRecord → String → Io Error W TaskRunRecord =
        λ task id. store.start_run (started_run text_of store opts msg task id at) >>= note in
      let name : TaskRecord → Io Error W TaskRunRecord =
        λ task. new_run_id text_of store opts >>= begin task in
      Quiet->>= runs (store.ensure_running (started_task text_of store opts msg at)) name
        (quiet.ensure_running (started_task text_of store opts msg at))
        (λ task. Quiet->>= runs (new_run_id text_of store opts) (begin task) quiet.run_id (λ id.
          Quiet->>= runs (store.start_run (started_run text_of store opts msg task id at)) note
            (quiet.start_run (started_run text_of store opts msg task id at))
            (λ run v. quiet.append_run_log (log run) v)))
        w

  Quiet-unless :
      (b : Bool) (step : Io Error W (Unit {0}))
      → Quiet runs step
      → Quiet runs (if b then pure tt else step)
  Quiet-unless true step h w = refl
  Quiet-unless false step h w = h w

  finish-Quiet :
      (msg : Option Message) (run : TaskRunRecord) (at : ℤ) (e : Error)
      → Quiet runs (finish_stored_task_run text_of store opts msg run at e)
  unfolding finish_stored_task_run
  finish-Quiet none run at e w = refl
  finish-Quiet (some msg) run at e w =
      let ended = finished_run text_of store opts msg run at e in
      let log = finished_log text_of store opts msg ended (is_nil e) at in
      Quiet-unless (is_blank run.run_id) _
        (Quiet->>= runs (store.finish_run ended >> store.append_run_log log) _
          (Quiet->>= runs (store.finish_run ended) _ (quiet.finish_run ended)
            (λ _. quiet.append_run_log log))
          (λ _. quiet.update_task_status _))
        w

module _ {W : Type 0} (runs : W → List (Option Message)) (text_of : Error → String)
    (store : TaskStore W) (opts : TaskStoreOptions W) (quiet : IsQuiet runs store opts) where
  run_stored_lem :
      (next : Handler W) (msg : Option Message) (started : Result Error TaskRunRecord) (w : W)
      → let r' : Run W = record { message = msg; world = w } in
        let (e, r'') = run_stored text_of store opts next msg started w in
        (e ≡ (next r').0)
        × (r''.message ≡ (next r').1.message)
        × (runs r''.world ≡ runs (next r').1.world)
  unfolding run_stored
  run_stored_lem next msg (ok run) w =
      let (e, r) = next (record { message = msg; world = w }) in
      let (at, w') = opts.now r.world in
      (
        refl,
        refl,
        finish-Quiet runs text_of store opts quiet r.message run at e w' ∙ quiet.now r.world,
      )
  run_stored_lem next msg (err e) w = (refl, refl, refl)

  -- Let `runs` read from the world the messages that the handler ran on: the handler adds the one that
  -- it is given, and the calls of the store, the clock and the run ids add none. Then, whatever the
  -- store answers, the middleware runs the handler exactly once, on the message that it was given, in
  -- a world with the same runs as before, and its error and message are the handler's.
  pub task_store_middleware-next :
      (next : Handler W)
      → ((r : Run W) → runs (next r).1.world ≡ r.message ∷ runs r.world)
      → (r : Run W)
      → let (e, r') = task_store_middleware text_of store opts next r in
        (runs r'.world ≡ r.message ∷ runs r.world)
        × (w : W) × (runs w ≡ runs r.world)
        × (e ≡ (next (record r { world = w })).0)
        × (r'.message ≡ (next (record r { world = w })).1.message)
  unfolding task_store_middleware
  task_store_middleware-next next adds r =
      let (at, w) = opts.now r.world in
      let (started, w') = start_stored_task_run text_of store opts r.message at w in
      let same = start-Quiet runs text_of store opts quiet r.message at w ∙ quiet.now r.world in
      let (same_error, same_message, ran) = run_stored_lem next r.message started w' in
      (
        ran ∙ adds (record r { world = w' }) ∙ ap (λ l. r.message ∷ l) same,
        w',
        same,
        same_error,
        same_message,
      )
