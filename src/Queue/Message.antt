-- ===== src/Queue/Message.antt =====
-- core/queue/task.go, runtime_context.go, message_metadata.go and state.go: a message, its runtime
-- context and its task state. A nil map is the empty one. `trace_id_of` is TraceIDFromHeaders of
-- core/tracecontext, which is not modelled.
use sdkit.Base.{ℕ, String, Bool, true, false, not, Option, none, some, is_blank, if◌then◌else◌}
use sdkit.Base.Int.{ℤ}
use sdkit.Base.Dict
use sdkit.Base.Dict.{Dict}
use sdkit.Queue.State.{TaskState, unset, same, can_transition_task_state}

pub record RuntimeContext : Type 0 where
  pub trace_id : String
  pub worker_id : String
  pub queue_name : String
  pub task_state : TaskState

-- A metadata value, of the dynamic types that the code reads, and the number of any other.
pub data Value : Type 0 where
  text : String → Value
  int : ℤ → Value
  duration : ℤ → Value
  flag : Bool → Value
  opaque : ℕ → Value

pub record Message : Type 0 where
  pub id : String
  pub type : String
  pub payload : ℕ
  pub queue : String
  pub state : TaskState
  pub retry_count : ℤ
  pub max_retry : ℤ
  pub headers : Dict String
  pub metadata : Dict Value
  pub runtime : Option RuntimeContext

-- SetMessageMetadata, for a message and a value that are not nil
unfoldable pub set_message_metadata : String → Value → Message → Message
set_message_metadata key value msg =
    if is_blank key then msg else record msg { metadata = Dict.put msg.metadata key value }

unfoldable pub message_metadata_value : Message → String → Option Value
message_metadata_value msg key = if is_blank key then none else Dict.get msg.metadata key

-- The text of a value, if it is one and is not empty.
abbrev pub text_of : Option Value → Option String
text_of (some (text s)) = if is_blank s then none else some s
text_of _ = none

unfoldable pub message_metadata_string : Message → String → Option String
unfolding message_metadata_value
message_metadata_string msg key = text_of (message_metadata_value msg key)

-- MessageMetadataDuration of a value: an int and an int64 are a duration as they are.
abbrev pub duration_of : Option Value → Option ℤ
duration_of (some (duration d)) = some d
duration_of (some (int n)) = some n
duration_of _ = none

unfoldable pub message_metadata_duration : Message → String → Option ℤ
unfolding message_metadata_value
message_metadata_duration msg key = duration_of (message_metadata_value msg key)

abbrev pub or_text : String → Option String → String
or_text s o = if is_blank s then (elim o [ none ↦ s | some t ↦ t ]) else s

abbrev pub clone : Option RuntimeContext → RuntimeContext
clone none = record { trace_id = ""; worker_id = ""; queue_name = ""; task_state = unset }
clone (some r) = r

module _ (trace_id_of : Dict String → String) where
  -- RuntimeContextFromMessage
  unfoldable pub runtime_context_from_message : Message → RuntimeContext
  unfolding message_metadata_string
  runtime_context_from_message msg =
      let r = clone msg.runtime in
      let named = if is_blank r.queue_name then msg.queue else r.queue_name in
      record {
        trace_id = if is_blank r.trace_id then trace_id_of msg.headers else r.trace_id;
        queue_name = or_text named (message_metadata_string msg "queue.queue");
        worker_id = or_text r.worker_id (message_metadata_string msg "queue.worker");
        task_state = if same r.task_state unset then msg.state else r.task_state;
      }

  -- What EnsureMessageRuntimeContext does to the message: both branches store the same context.
  unfoldable pub ensure_message_runtime_context : Message → Message
  unfolding runtime_context_from_message
  ensure_message_runtime_context msg = record msg {
    runtime = some (runtime_context_from_message msg);
  }

  abbrev pub or_context : Message → Option RuntimeContext → RuntimeContext
  or_context msg none = runtime_context_from_message msg
  or_context msg (some r) = r

  -- setTaskState
  unfoldable pub set_state : TaskState → Message → Message
  unfolding runtime_context_from_message
  set_state state msg =
      if same state unset
      then msg
      else let msg' = record msg { state = state } in
        record msg' {
          runtime = some (record (or_context msg' msg'.runtime) { task_state = state });
        }

  -- TransitionTaskState, for a message that is not nil
  unfoldable pub transition_task_state : Message → TaskState → Bool × Message
  unfolding can_transition_task_state set_state
  transition_task_state msg to =
      if not (can_transition_task_state msg.state to)
      then (false, msg)
      else (true, set_state to msg)

  -- SetTaskState
  unfoldable pub set_task_state : Message → TaskState → Message
  unfolding transition_task_state
  set_task_state msg state = (transition_task_state msg state).1
