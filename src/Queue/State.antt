-- ===== src/Queue/State.antt =====
-- core/queue/state.go: the task states and CanTransitionTaskState. Go's `TaskState` is a string: a
-- constructor stands for each declared text, `unset` for the empty one, and `other n` for the texts
-- that are none of these, numbered. StatePending and StateFailed are the texts of TaskPending and
-- TaskFailed.
pub mod Ends
use sdkit.Base.{ℕ, ◌+◌, Bool, true, false, ◌||◌, ◌==◌, if◌then◌else◌}

pub data TaskState : Type 0 where
  unset pending running retrying failed deadletter success : TaskState
  submitting submit_failed active scheduled retry succeeded archived canceled unknown : TaskState
  other : ℕ → TaskState

-- A number for each state, by which two are compared.
abbrev pub code : TaskState → ℕ
code unset = 0
code pending = 1
code running = 2
code retrying = 3
code failed = 4
code deadletter = 5
code success = 6
code submitting = 7
code submit_failed = 8
code active = 9
code scheduled = 10
code retry = 11
code succeeded = 12
code archived = 13
code canceled = 14
code unknown = 15
code (other n) = 16 + n

abbrev pub same : TaskState → TaskState → Bool
same s t = code s == code t

-- The `switch from` of CanTransitionTaskState.
abbrev pub follows : TaskState → TaskState → Bool
follows pending to = same to running
follows running to = same to success || same to retrying || same to failed
follows retrying to = same to running
follows failed to = same to deadletter
follows _ to = false

unfoldable pub can_transition_task_state : TaskState → TaskState → Bool
can_transition_task_state from to =
    if same to unset
    then false
    else if same from unset
    then same to pending || same to running
    else if same from to
    then true
    else follows from to
