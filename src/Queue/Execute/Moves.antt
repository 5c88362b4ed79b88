-- ===== src/Queue/Execute/Moves.antt =====
-- The run of a task moves it from state to state as CanTransitionTaskState allows, when its callbacks
-- and its handler do.
use sdkit.Base.{
  ◌≡◌, refl, String, Bool, true, false, not, Option, none, some, All, if_both, if◌then◌else◌, ◌||◌,
}
use sdkit.Base.Dict.{Dict}
use sdkit.Queue.State.{
  TaskState, unset, pending, running, retrying, failed, deadletter, success, same,
  can_transition_task_state,
}
use sdkit.Queue.State.Ends.{Reach, here, next}
use sdkit.Queue.Error.{
  Error, nil, sentinel, not_initialized, is, is_nil, is_rate_limit_error, is_retryable_error,
  is_fatal_error, is_timeout_error, is_dead_letter_error, deadline_exceeded,
}
use sdkit.Queue.Message.{
  Message, set_task_state, transition_task_state, set_state, ensure_message_runtime_context,
}
use sdkit.Queue.Execute.{
  Run, Handler, Orchestrator, RuntimeExecution, on_message, move, classify, begin, begin_unset,
  process, finish_failure, settle, execute, should_mark_dead_letter, is_dead, publish, observe_end,
  observe_finish, observe_start, run_after_process, run_on_success, run_on_failure, task_success,
  task_started, EventType, perform, task_retry, task_dead_letter, task_timeout, task_failed,
  task_started, task_success,
}
use sdkit.Queue.Execute.Callbacks
use sdkit.Queue.Execute.Callbacks.{
  Respects, HandlerRespects, OrchestratorRespects, ExecutionRespects, HookRespects,
  MiddlewareRespects, OptionRespects,
}

abbrev pub state_of : {W : Type 0} → Run W → Option TaskState
state_of r = elim r.message [ none ↦ none | some msg ↦ some msg.state ]

-- Each of the two is of no message, or a history leads from the one state to the other.
abbrev pub LeadsTo : Option TaskState → Option TaskState → Type 0
LeadsTo none b = b ≡ none
LeadsTo (some s) none = some s ≡ none
LeadsTo (some s) (some t) = Reach s t

abbrev pub Leads : {W : Type 0} → Run W → Run W → Type 0
Leads r r' = LeadsTo (state_of r) (state_of r')

Reach-trans : {s t u : TaskState} → Reach s t → Reach t u → Reach s u
Reach-trans r here = r
Reach-trans r (next {t = x} {u = y} q h) = next {t = x} {u = y} (Reach-trans r q) h

LeadsTo-refl : (a : Option TaskState) → LeadsTo a a
LeadsTo-refl none = refl
LeadsTo-refl (some s) = here

LeadsTo-trans : (a b c : Option TaskState) → LeadsTo a b → LeadsTo b c → LeadsTo a c
LeadsTo-trans none none c h k = k
LeadsTo-trans none (some t) c h k = cc
LeadsTo-trans (some s) none c h k = cc
LeadsTo-trans (some s) (some t) none h k = cc
LeadsTo-trans (some s) (some t) (some u) h k = Reach-trans h k

Reach-transition :
    (f : Dict String → String) (msg : Message) (to : TaskState) (b : Bool)
    → can_transition_task_state msg.state to ≡ b
    → Reach msg.state
        (if◌then◌else◌ {A = Bool × Message} (not b) (false, msg) (true, set_state f to msg)).1.state
unfolding set_state
Reach-transition f msg to false h = here
Reach-transition f msg to true h =
    if_both (λ m. Reach msg.state m.state) (same to unset) msg _ here (next here h)

Reach-set_task_state :
    (f : Dict String → String) (msg : Message) (to : TaskState)
    → Reach msg.state (set_task_state f msg to).state
unfolding set_task_state transition_task_state
Reach-set_task_state f msg to =
    Reach-transition f msg to (can_transition_task_state msg.state to) refl

LeadsTo-on_message :
    (g : Message → Message) (m : Option Message)
    → ((msg : Message) → Reach msg.state (g msg).state)
    → LeadsTo
        (elim m [ none ↦ none | some msg ↦ some msg.state ])
        (elim (elim m as (λ _. Option Message) [ none ↦ none | some msg ↦ some (g msg) ]) [
          | none ↦ none
          | some msg ↦ some msg.state
        ])
LeadsTo-on_message g none h = refl
LeadsTo-on_message g (some msg) h = h msg

module _ {W : Type 0} where
  pub Leads-refl : (r : Run W) → Leads r r
  Leads-refl r = LeadsTo-refl (state_of r)

  pub Leads-trans : (r s t : Run W) → Leads r s → Leads s t → Leads r t
  Leads-trans r s t h k = LeadsTo-trans (state_of r) (state_of s) (state_of t) h k

module _ {W : Type 0} (f : Dict String → String) where
  Leads-on_message :
      (g : Message → Message) (r : Run W)
      → ((msg : Message) → Reach msg.state (g msg).state)
      → Leads r (on_message g r)
  Leads-on_message g r h = LeadsTo-on_message g r.message h

  pub Leads-move : (to : TaskState) (r : Run W) → Leads r (move f to r)
  Leads-move to r =
      Leads-on_message (λ msg. set_task_state f msg to) r (λ msg. Reach-set_task_state f msg to)

  Leads-context : (r : Run W) → Leads r (on_message (ensure_message_runtime_context f) r)
  unfolding ensure_message_runtime_context
  Leads-context r = Leads-on_message (ensure_message_runtime_context f) r (λ msg. here)

  Leads-unset : (r : Run W) → Leads r (begin_unset f r)
  Leads-unset r = Leads-on_message _ r (λ msg.
      if_both (λ m. Reach msg.state m.state) (same msg.state unset) (set_task_state f msg pending)
        msg (Reach-set_task_state f msg pending) here)

  Leads-begin : (r : Run W) → Leads r (begin f r)
  unfolding begin
  Leads-begin r =
      let a = begin_unset f r in
      let b = move f running a in
      let c = on_message (ensure_message_runtime_context f) b in
      Leads-trans r c (on_message (ensure_message_runtime_context f) c)
        (Leads-trans r b c (Leads-trans r a b (Leads-unset r) (Leads-move running a))
          (Leads-context b))
        (Leads-context c)

  Leads-classify : (e : Error) (r : Run W) → Leads r (classify f e r).1
  unfolding classify
  Leads-classify e r =
      let Q : EventType × Run W → Type 0 = λ x. Leads r x.1 in
      let failing = Leads-move failed r in
      let dead =
        Leads-trans r (move f failed r) (move f deadletter (move f failed r)) failing
          (Leads-move deadletter (move f failed r)) in
      if_both Q (is_dead r.message) (task_dead_letter, r) _ (Leads-refl r)
        (if_both Q
          (is_dead_letter_error e || is_fatal_error e || should_mark_dead_letter r.message e)
          (task_dead_letter, move f deadletter (move f failed r)) _ dead
          (if_both Q (is_timeout_error e || is deadline_exceeded e) (task_timeout, move f failed r)
            _ failing
            (if_both Q (is_retryable_error e || is_rate_limit_error e)
              (task_retry, move f retrying r) (task_failed, move f failed r) (Leads-move retrying r)
              failing)))

module _ {W : Type 0} (f : Dict String → String) (o : Orchestrator W)
    (ho : OrchestratorRespects Leads o) where
  Leads-finish_failure : (e : Error) (r : Run W) → Leads r (finish_failure f o e r)
  unfolding finish_failure
  Leads-finish_failure e r =
      let (type, r1) = classify f e r in
      let r2 = publish o type e r1 in
      let r3 = observe_end o type e r2 in
      let r4 = observe_finish o e r3 in
      Leads-trans r r1 r4 (Leads-classify f e r) (
        Leads-trans r1 r2 r4
          (Callbacks.Respects-publish Leads Leads-refl Leads-trans o type e ho r1)
          (Leads-trans r2 r3 r4 (Callbacks.Respects-end Leads Leads-refl Leads-trans o type e ho r2)
            (Callbacks.Respects-finish Leads Leads-refl Leads-trans o e ho r3)))

  Leads-succeed :
      (exec : RuntimeExecution W)
      → All (HookRespects Leads) exec.hooks
      → (r : Run W)
      → Leads r (
          run_on_success exec.hooks
            (observe_finish o nil (publish o task_success nil (move f success r))))
  Leads-succeed exec h r =
      let r1 = move f success r in
      let r2 = publish o task_success nil r1 in
      let r3 = observe_finish o nil r2 in
      let r4 = run_on_success exec.hooks r3 in
      Leads-trans r r1 r4 (Leads-move f success r) (
        Leads-trans r1 r2 r4
          (Callbacks.Respects-publish Leads Leads-refl Leads-trans o task_success nil ho r1)
          (Leads-trans r2 r3 r4 (Callbacks.Respects-finish Leads Leads-refl Leads-trans o nil ho r2)
            (Callbacks.Respects-success Leads Leads-refl Leads-trans exec h r3)))

  Leads-settle :
      (exec : RuntimeExecution W) (e : Error)
      → All (HookRespects Leads) exec.hooks
      → (r : Run W) → Leads r (settle f o exec e r).1
  unfolding settle
  Leads-settle exec e h r =
      let failing = finish_failure f o e r in
      let r' = run_on_failure e exec.hooks failing in
      let Q : Error × Run W → Type 0 = λ x. Leads r x.1 in
      if_both Q (is_nil e) (nil, _) (e, r') (Leads-succeed exec h r)
        (Leads-trans r failing r' (Leads-finish_failure e r)
          (Callbacks.Respects-failure Leads Leads-refl Leads-trans exec e h failing))

  Leads-perform :
      (exec : RuntimeExecution W) (handler : Handler W)
      → HandlerRespects Leads handler
      → All (MiddlewareRespects Leads) exec.middlewares
      → All (HookRespects Leads) exec.hooks
      → (r : Run W) → Leads r (perform f o exec handler r).1
  Leads-perform exec handler hh hm hk r =
      let r1 = begin f r in
      let r2 = publish o task_started nil r1 in
      let r3 = observe_start o r2 in
      let (e, r4) = process exec handler r3 in
      let r5 = run_after_process e exec.hooks r4 in
      let r6 = (settle f o exec e r5).1 in
      Leads-trans r r1 r6 (Leads-begin f r) (
        Leads-trans r1 r2 r6
          (Callbacks.Respects-publish Leads Leads-refl Leads-trans o task_started nil ho r1)
          (Leads-trans r2 r3 r6 (Callbacks.Respects-start Leads Leads-refl Leads-trans o ho r2) (
            Leads-trans r3 r4 r6
              (Callbacks.HandlerRespects-process Leads Leads-refl Leads-trans exec handler hh hm hk
                r3)
              (Leads-trans r4 r5 r6
                (Callbacks.Respects-after Leads Leads-refl Leads-trans exec e hk r4)
                (Leads-settle exec e hk r5)))))

execute_to :
    {W : Type 0} (f : Dict String → String) (o : Orchestrator W) (exec : RuntimeExecution W)
    (r : Run W) (h : Option (Handler W))
    → OrchestratorRespects Leads o
    → OptionRespects Leads h
    → All (MiddlewareRespects Leads) exec.middlewares
    → All (HookRespects Leads) exec.hooks
    → Leads r
        (elim h as (λ _. Error × Run W) [
          | none ↦ (sentinel not_initialized, r)
          | some handler ↦ perform f o exec handler r
        ]).1
execute_to f o exec r none ho hh hm hk = Leads-refl r
execute_to f o exec r (some handler) ho hh hm hk = Leads-perform f o ho exec handler hh hm hk r

-- When the publishers, the observers, the hooks, the handler and what the middlewares make of a
-- handler move the task only along histories that CanTransitionTaskState allows, a history it allows
-- leads from the state of the task before Execute to its state after.
pub execute-Leads :
    {W : Type 0} (trace_id_of : Dict String → String) (o : Orchestrator W)
    (exec : RuntimeExecution W) (r : Run W)
    → OrchestratorRespects Leads o
    → ExecutionRespects Leads exec
    → Leads r (execute trace_id_of o exec r).1
unfolding execute
execute-Leads trace_id_of o exec r ho h =
    execute_to trace_id_of o exec r exec.handler ho h.0 h.1 h.2
