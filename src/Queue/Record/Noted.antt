-- ===== src/Queue/Record/Noted.antt =====
-- What TaskStoreMiddleware records of a run in a store that notes its calls and refuses none.
use sdkit.Base.{◌≡◌, String, true, false, ◌||◌, some, List, ◌∷◌}
use sdkit.Base.Result.{ok}
use sdkit.Base.Int.{ℤ, pos, ◌+ℤ◌, ltb_ℤ}
use sdkit.Queue.State.{TaskState, active, succeeded, failed, retry}
use sdkit.Queue.Error.{Error, is_nil, is_rate_limit_error, is_fatal_error, is_dead_letter_error}
use sdkit.Queue.Message.{Message}
use sdkit.Queue.Execute.{Handler}
use sdkit.Queue.Record.{
  TaskStore, TaskStoreOptions, TaskRecord, TaskRunRecord, TaskRunLogRecord, TaskStatusUpdate,
}

-- A call of the store, or of the handler, with what it was given.
pub data Entry : Type 0 where
  ensured : TaskRecord → Entry
  started : TaskRunRecord → Entry
  logged : TaskRunLogRecord → Entry
  ran : Message → Entry
  finished : TaskRunRecord → Entry
  updated : TaskStatusUpdate → Entry

-- The calls, the last one first.
abbrev pub Calls : Type 0
Calls = List Entry

abbrev pub noting_store : TaskStore Calls
noting_store = record {
  ensure_running = λ task calls. (ok task, ensured task ∷ calls);
  start_run = λ run calls. (ok run, started run ∷ calls);
  finish_run = λ run calls. (ok tt, finished run ∷ calls);
  append_run_log = λ log calls. (ok tt, logged log ∷ calls);
  update_task_status = λ update calls. (ok tt, updated update ∷ calls);
}

-- A fixed time and a fixed run id.
abbrev pub fixed_options : String → String → String → ℤ → TaskStoreOptions Calls
fixed_options driver worker_id run_id at = record {
  driver = driver;
  worker_id = worker_id;
  run_id = λ calls. (run_id, calls);
  now = λ calls. (at, calls);
}

-- A handler that fails with `e` and leaves the message `msg'`.
abbrev pub leaving : Error → Message → Message → Handler Calls
leaving e msg msg' r = (e, record { message = some msg'; world = ran msg ∷ r.world })

-- The status of a run that ended with `e`, after `count` of `most` retries.
pub record IsStatus (e : Error) (count most : ℤ) (s : TaskState) : Type 0 where
  pub good : is_nil e ≡ true → s ≡ succeeded
  pub hopeless : is_nil e ≡ false → (is_dead_letter_error e || is_fatal_error e) ≡ true → s ≡ failed
  pub limited :
      is_nil e ≡ false
      → (is_dead_letter_error e || is_fatal_error e) ≡ false
      → is_rate_limit_error e ≡ true
      → s ≡ retry
  pub retries_left :
      is_nil e ≡ false
      → (is_dead_letter_error e || is_fatal_error e) ≡ false
      → ltb_ℤ count most ≡ true
      → s ≡ retry
  pub used_up :
      is_nil e ≡ false → is_rate_limit_error e ≡ false → ltb_ℤ count most ≡ false → s ≡ failed

-- The calls of the run of `msg` that ended with `e` and left `msg'`, before which there were `before`.
pub record IsNoted (run_id : String) (e : Error) (msg msg' : Message) (before after : Calls)
    : Type 0 where
  pub task : TaskRecord
  pub start : TaskRunRecord
  pub start_log : TaskRunLogRecord
  pub end : TaskRunRecord
  pub end_log : TaskRunLogRecord
  pub update : TaskStatusUpdate
  pub calls :
      after
      ≡ updated update
        ∷ logged end_log
        ∷ finished end
        ∷ ran msg
        ∷ logged start_log
        ∷ started start
        ∷ ensured task
        ∷ before
  pub task_started :
      (task.task_id ≡ msg.id) × (task.state ≡ active) × (task.attempts ≡ msg.retry_count +ℤ pos 1)
  pub run_started :
      (start.run_id ≡ run_id)
      × (start.task_id ≡ msg.id)
      × (start.status ≡ active)
      × (start.attempt ≡ task.attempts)
  pub same_run : (end.run_id ≡ run_id) × (end.task_id ≡ msg.id) × (end.attempt ≡ start.attempt)
  pub logs : (start_log.run ≡ start) × (end_log.run ≡ end)
  pub status : IsStatus e msg'.retry_count msg'.max_retry end.status
  pub task_updated :
      (update.task_id ≡ msg'.id) × (update.status ≡ end.status) × (update.last_error ≡ end.error)
