-- ===== src/Queue/Record.antt =====
-- core/queue/task_store.go: TaskStoreMiddleware, startStoredTaskRun and finishStoredTaskRun, which keep
-- a record of each run in a store. The store, the clock and the generator of run ids are parameters.
-- Headers, the correlation ids in them, contexts, the logger that a handler finds in its context and
-- the duration, the difference of two times that are kept, are left out, and so is a
-- run that panics. `text_of` is the Error method.
pub mod Status
pub mod Transparent
pub mod Noted
use sdkit.Base.{
  ℕ, String, Bool, true, false, not, ◌&&◌, ◌||◌, Option, none, some, is_blank, if◌then◌else◌,
}
use sdkit.Base.Int.{ℤ, pos, ◌+ℤ◌, ◌-ℤ◌, ltb_ℤ}
use sdkit.Base.Result.{Result, ok, err}
use sdkit.Base.Effect.{Io, pure, ◌>>=◌, ◌>>◌}
use sdkit.Queue.State.{TaskState, unset, active, succeeded, failed, retry}
use sdkit.Queue.Error.{
  Error, nil, is_nil, is_rate_limit_error, is_fatal_error, is_dead_letter_error,
}
use sdkit.Queue.Message.{Message}
use sdkit.Queue.Execute.{Run, Handler}

pub record TaskRecord : Type 0 where
  pub record_id : ℤ
  pub driver : String
  pub task_id : String
  pub queue : String
  pub type : String
  pub payload : ℕ
  pub state : TaskState
  pub max_retry : ℤ
  pub attempts : ℤ
  pub started_at : ℤ
  pub worker_id : String

pub record TaskRunRecord : Type 0 where
  pub run_db_id : ℤ
  pub run_id : String
  pub queue_task_id : ℤ
  pub task_id : String
  pub queue : String
  pub type : String
  pub attempt : ℤ
  pub status : TaskState
  pub worker_id : String
  pub started_at : ℤ
  pub finished_at : ℤ
  pub error : String

-- A line of a run's log, with its fields `attempt`, `max_retry` and `error` where it has them.
pub record TaskRunLogRecord : Type 0 where
  pub run : TaskRunRecord
  pub level : String
  pub message : String
  pub fields : Option (ℤ × ℤ × String)
  pub at : ℤ

pub record TaskStatusUpdate : Type 0 where
  pub queue : String
  pub task_id : String
  pub status : TaskState
  pub last_error : String
  pub updated_at : ℤ

pub record TaskStore (W : Type 0) : Type 0 where
  pub ensure_running : TaskRecord → Io Error W TaskRecord
  pub start_run : TaskRunRecord → Io Error W TaskRunRecord
  pub finish_run : TaskRunRecord → Io Error W (Unit {0})
  pub append_run_log : TaskRunLogRecord → Io Error W (Unit {0})
  pub update_task_status : TaskStatusUpdate → Io Error W (Unit {0})

pub record TaskStoreOptions (W : Type 0) : Type 0 where
  pub driver : String
  pub worker_id : String
  pub run_id : W → String × W
  pub now : W → ℤ × W

abbrev pub first_non_empty : String → String → String
first_non_empty a b = if is_blank a then b else a

-- The status with which finishStoredTaskRun ends a run.
unfoldable pub finished_status : Error → ℤ → ℤ → TaskState
finished_status e count most =
    if is_nil e
    then succeeded
    else if (is_rate_limit_error e || ltb_ℤ count most)
        && not (is_dead_letter_error e)
        && not (is_fatal_error e)
    then retry
    else failed

module _ {W : Type 0} (text_of : Error → String) (store : TaskStore W)
    (opts : TaskStoreOptions W) where
  abbrev pub started_task : Message → ℤ → TaskRecord
  started_task msg at = record {
    record_id = pos 0;
    driver = opts.driver;
    task_id = msg.id;
    queue = first_non_empty msg.queue "default";
    type = msg.type;
    payload = msg.payload;
    state = active;
    max_retry = msg.max_retry;
    attempts = msg.retry_count +ℤ pos 1;
    started_at = at;
    worker_id = opts.worker_id;
  }

  abbrev pub started_run : Message → TaskRecord → String → ℤ → TaskRunRecord
  started_run msg task run_id at = record {
    run_db_id = pos 0;
    run_id = run_id;
    queue_task_id = task.record_id;
    task_id = msg.id;
    queue = first_non_empty msg.queue "default";
    type = msg.type;
    attempt = msg.retry_count +ℤ pos 1;
    status = active;
    worker_id = opts.worker_id;
    started_at = at;
    finished_at = pos 0;
    error = "";
  }

  abbrev pub no_run : TaskRunRecord
  no_run = record {
    run_db_id = pos 0;
    run_id = "";
    queue_task_id = pos 0;
    task_id = "";
    queue = "";
    type = "";
    attempt = pos 0;
    status = unset;
    worker_id = "";
    started_at = pos 0;
    finished_at = pos 0;
    error = "";
  }

  abbrev pub new_run_id : Io Error W String
  new_run_id w = let (id, w') = opts.run_id w in (ok id, w')

  -- `_ = store.AppendRunLog(...)`
  abbrev pub append_ignored : TaskRunLogRecord → Io Error W (Unit {0})
  append_ignored log w = (ok tt, (store.append_run_log log w).1)

  -- startStoredTaskRun, without the task, which its callers pass on and do not read.
  unfoldable pub start_stored_task_run : Option Message → ℤ → Io Error W TaskRunRecord
  start_stored_task_run none at = pure no_run
  start_stored_task_run (some msg) at = do
    task ← store.ensure_running (started_task msg at)
    id ← new_run_id
    run ← store.start_run (started_run msg task id at)
    append_ignored (record {
      run = run;
      level = "info";
      message = "queue task started";
      fields = none;
      at = at;
    })
    pure run

  abbrev pub finished_update : Message → TaskRunRecord → ℤ → TaskStatusUpdate
  finished_update msg run at = record {
    queue = msg.queue;
    task_id = msg.id;
    status = run.status;
    last_error = run.error;
    updated_at = at;
  }

  abbrev pub finished_log : Message → TaskRunRecord → Bool → ℤ → TaskRunLogRecord
  finished_log msg run good at = record {
    run = run;
    level = if good then "info" else "error";
    message = if good then "queue task completed" else "queue task failed";
    fields = some (msg.retry_count +ℤ pos 1, msg.max_retry, run.error);
    at = at;
  }

  abbrev pub finished_run : Message → TaskRunRecord → ℤ → Error → TaskRunRecord
  unfolding finished_status
  finished_run msg run at e = record run {
    status = finished_status e msg.retry_count msg.max_retry;
    finished_at = at;
    error = if is_nil e then "" else text_of e;
  }

  -- finishStoredTaskRun
  unfoldable pub finish_stored_task_run :
      Option Message → TaskRunRecord → ℤ → Error → Io Error W (Unit {0})
  unfolding finished_status
  finish_stored_task_run none run at e = pure tt
  finish_stored_task_run (some msg) run at e =
      if is_blank run.run_id
      then pure tt
      else let ended = finished_run msg run at e in
        store.finish_run ended
        >> store.append_run_log (finished_log msg ended (is_nil e) at)
        >> store.update_task_status (finished_update msg ended at)

  -- The deferred part of the middleware, for a run that has started.
  abbrev pub finish : TaskRunRecord → Error × Run W → Error × Run W
  unfolding finish_stored_task_run
  finish run (e, r) =
      let (at, w) = opts.now r.world in
      (e, record r { world = (finish_stored_task_run r.message run at e w).1 })

  abbrev pub run_stored :
      Handler W → Option Message → Result Error TaskRunRecord → W → Error × Run W
  unfolding finish_stored_task_run
  run_stored next msg (ok run) w = finish run (next (record { message = msg; world = w }))
  run_stored next msg (err e) w = next (record { message = msg; world = w })

  -- TaskStoreMiddleware
  unfoldable pub task_store_middleware : Handler W → Handler W
  unfolding start_stored_task_run finish_stored_task_run
  task_store_middleware next r =
      let (at, w) = opts.now r.world in
      let (started, w') = start_stored_task_run r.message at w in
      run_stored next r.message started w'
