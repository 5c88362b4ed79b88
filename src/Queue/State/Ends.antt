-- ===== src/Queue/State/Ends.antt =====
-- How the history of a task can end.
use sdkit.Base.{◌≡◌, ◌∙◌, ◌⊎◌, inl, inr, refl, subst, Bool, true, false, arith}
use sdkit.Queue.State.{
  TaskState, unset, pending, running, retrying, failed, deadletter, success,
  can_transition_task_state,
}

-- A history of task states, each step allowed by CanTransitionTaskState.
pub data Reach (s : TaskState) : TaskState → Type 0 where
  here : Reach s s
  next : {t u : TaskState} → Reach s t → can_transition_task_state t u ≡ true → Reach s u

-- The task has succeeded or was given up.
abbrev pub is_ended : TaskState → Bool
is_ended success = true
is_ended deadletter = true
is_ended _ = false

ended_step : (s t : TaskState) → can_transition_task_state s t ≡ true → is_ended s ≡ true → s ≡ t
unfolding can_transition_task_state
ended_step s t h e = ground arith

-- A task that has succeeded or is a dead letter stays what it is.
pub Reach-is_ended : {s t : TaskState} → Reach s t → is_ended s ≡ true → s ≡ t
Reach-is_ended here e = refl
Reach-is_ended {s} (next {t} {u} r h) e =
    let same_state = Reach-is_ended r e in
    same_state ∙ ended_step t u h (subst (λ x. is_ended x ≡ true) same_state e)

before_deadletter :
    (t u : TaskState)
    → can_transition_task_state t u ≡ true
    → u ≡ deadletter
    → (t ≡ failed) ⊎ (t ≡ deadletter)
unfolding can_transition_task_state
before_deadletter t u h e = ground arith

-- The history has the state `x` somewhere.
abbrev pub Visits : TaskState → {s t : TaskState} → Reach s t → Type 0
Visits x {s} here = s ≡ x
Visits x (next {t} {u} r h) = (u ≡ x) ⊎ Visits x r

Visits-end : (x : TaskState) {s t : TaskState} (r : Reach s t) → t ≡ x → Visits x r
Visits-end x here e = e
Visits-end x (next r h) e = inl e

-- A history that leads to a dead letter starts with one, or the task has failed in it.
pub Reach-deadletter :
    {s t : TaskState} (r : Reach s t) → t ≡ deadletter → (s ≡ deadletter) ⊎ Visits failed r
Reach-deadletter here e = inl e
Reach-deadletter (next {t} {u} r h) e = elim (before_deadletter t u h e) [
  | inl f ↦ inr (inr (Visits-end failed r f))
  | inr d ↦ elim (Reach-deadletter r d) [
    | inl started ↦ inl started
    | inr visited ↦ inr (inr visited)
  ]
]

-- The states in which the runtime keeps a task that it has not given up.
abbrev pub is_open : TaskState → Bool
is_open unset = true
is_open pending = true
is_open running = true
is_open retrying = true
is_open _ = false

to_running : (s : TaskState) → is_open s ≡ true → can_transition_task_state s running ≡ true
unfolding can_transition_task_state
to_running s h = ground arith

-- A task that is open can still succeed, and can still become a dead letter.
pub Reach-to_end : (s : TaskState) → is_open s ≡ true → Reach s success × Reach s deadletter
unfolding can_transition_task_state
Reach-to_end s h =
    let started = next {t = s} {u = running} here (to_running s h) in
    (
      next {t = running} {u = success} started refl,
      next {t = failed} {u = deadletter} (next {t = running} {u = failed} started refl) refl,
    )
