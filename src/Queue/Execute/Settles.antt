-- ===== src/Queue/Execute/Settles.antt =====
-- Where the run of a task leaves it, for the error of its handler.
use sdkit.Base.{
  ◌≡◌, refl, ap, subst, sym, ◌∙◌, String, Bool, true, false, not, ◌||◌, ◌&&◌, Option, none, some,
  All, if◌then◌else◌, arith,
}
use sdkit.Base.Int.{ℤ, pos, ltb_ℤ}
use sdkit.Base.Dict.{Dict}
use sdkit.Queue.State.{
  TaskState, unset, pending, running, retrying, failed, deadletter, success, same,
  can_transition_task_state,
}
use sdkit.Queue.State.Ends.{is_open}
use sdkit.Queue.Error.{
  Error, nil, sentinel, runtime, rate_limit, join, foreign, not_initialized, is, is_nil,
  is_rate_limit_error, is_retryable_error, is_fatal_error, is_timeout_error, is_ignored_error,
  is_dead_letter_error, deadline_exceeded,
}
use sdkit.Queue.Message.{
  Message, set_task_state, transition_task_state, set_state, ensure_message_runtime_context,
}
use sdkit.Queue.Execute.{
  Run, Handler, Orchestrator, RuntimeExecution, move, classify, begin, process, finish_failure,
  settle, execute, should_mark_dead_letter, retry_exhausted, is_dead, publish, observe_end,
  observe_finish, observe_start, run_after_process, run_on_success, run_on_failure, EventType,
  perform, task_retry, task_dead_letter, task_timeout, task_failed, task_started, task_success,
}
use sdkit.Queue.Execute.Callbacks
use sdkit.Queue.Execute.Callbacks.{
  Respects, HandlerRespects, OrchestratorRespects, ExecutionRespects, HookRespects,
  MiddlewareRespects, OptionRespects,
}

-- The state of a task, its retries and its most retries.
abbrev pub Standing : Type 0
Standing = TaskState × ℤ × ℤ

abbrev pub standing : Message → Standing
standing msg = (msg.state, msg.retry_count, msg.max_retry)

abbrev pub standing_in : Option Message → Option Standing
standing_in none = none
standing_in (some msg) = some (standing msg)

abbrev pub standing_of : {W : Type 0} → Run W → Option Standing
standing_of r = standing_in r.message

-- Nothing of the three is changed.
abbrev pub Keeps : {W : Type 0} → Run W → Run W → Type 0
Keeps r r' = standing_of r ≡ standing_of r'

abbrev pub exhausted : ℤ → ℤ → Bool
exhausted count most = not (ltb_ℤ most (pos 0)) && not (ltb_ℤ count most)

-- The state in which a run leaves a task that has failed.
unfoldable pub failure : Error → ℤ → ℤ → TaskState
failure e count most =
    if is_dead_letter_error e
      || is_fatal_error e
      || (if is_rate_limit_error e || is_ignored_error e then false else exhausted count most)
    then deadletter
    else if is_timeout_error e || is deadline_exceeded e
    then failed
    else if is_retryable_error e || is_rate_limit_error e
    then retrying
    else failed

unfoldable pub outcome : Error → ℤ → ℤ → TaskState
unfolding failure
outcome e count most = if is_nil e then success else failure e count most

nil_is : (e : Error) → is_nil e ≡ true → nil ≡ e
nil_is nil h = refl
nil_is (sentinel s) h = cc
nil_is (runtime i e) h = cc
nil_is (rate_limit t e) h = cc
nil_is (join a b) h = cc
nil_is (foreign n) h = cc

module _ (f : Dict String → String) where
  standing-set_task_state :
      (msg : Message) (to : TaskState)
      → can_transition_task_state msg.state to ≡ true
      → same to unset ≡ false
      → standing (set_task_state f msg to) ≡ (to, msg.retry_count, msg.max_retry)
  unfolding set_task_state transition_task_state set_state
  standing-set_task_state msg to h k =
      rw (set_task_state, transition_task_state, set_state, h, k) refl

  standing-moved :
      (m : Option Message) (to : TaskState) {s : TaskState} {count most : ℤ}
      → standing_in m ≡ some (s, count, most)
      → can_transition_task_state s to ≡ true
      → same to unset ≡ false
      → standing_in (elim m as (λ _. Option Message) [
        | none ↦ none
        | some msg ↦ some (set_task_state f msg to)
      ])
        ≡ some (to, count, most)
  standing-moved none to e h k = cc
  standing-moved (some msg) to {s} {count} {most} e h k =
      let e1 : msg.state ≡ s = cc in
      let e2 : msg.retry_count ≡ count = cc in
      let e3 : msg.max_retry ≡ most = cc in
      ap some (
        standing-set_task_state msg to
          (subst (λ x. can_transition_task_state x to ≡ true) (sym e1) h) k
        ∙ cc)

  from_unset : (s : TaskState) → same s unset ≡ true → can_transition_task_state s pending ≡ true
  unfolding can_transition_task_state
  from_unset s h = ground arith

  from_open : (s : TaskState) → is_open s ≡ true → can_transition_task_state s running ≡ true
  unfolding can_transition_task_state
  from_open s h = ground arith

  standing-opened :
      (msg : Message) (b : Bool)
      → same msg.state unset ≡ b
      → is_open msg.state ≡ true
      → (s : TaskState) × (standing (if b then set_task_state f msg pending else msg)
          ≡ (s, msg.retry_count, msg.max_retry))
        × (can_transition_task_state s running ≡ true)
  unfolding can_transition_task_state
  standing-opened msg true e h =
      (pending, standing-set_task_state msg pending (from_unset msg.state e) refl, refl)
  standing-opened msg false e h = (msg.state, refl, from_open msg.state h)

  -- A task in an open state is running when its run has begun.
  standing-begin :
      {W : Type 0} (m : Option Message) (w : W) {s : TaskState} {count most : ℤ}
      → standing_in m ≡ some (s, count, most)
      → is_open s ≡ true
      → standing_of (begin f (record { message = m; world = w })) ≡ some (running, count, most)
  unfolding begin ensure_message_runtime_context
  standing-begin none w e h = cc
  standing-begin (some msg) w {s} {count} {most} e h =
      let e1 : msg.state ≡ s = cc in
      let e2 : msg.retry_count ≡ count = cc in
      let e3 : msg.max_retry ≡ most = cc in
      let (s1, at, able) =
        standing-opened msg (same msg.state unset) refl
          (subst (λ x. is_open x ≡ true) (sym e1) h) in
      standing-moved (some _) running (ap some (at ∙ cc)) able refl

marked_as :
    (m : Option Message) (e : Error) {s : TaskState} {count most : ℤ}
    → standing_in m ≡ some (s, count, most)
    → should_mark_dead_letter m e
      ≡ (if is_rate_limit_error e || is_ignored_error e then false else exhausted count most)
unfolding should_mark_dead_letter retry_exhausted
marked_as none e h = cc
marked_as (some msg) e {s} {count} {most} h =
    let e2 : msg.retry_count ≡ count = cc in let e3 : msg.max_retry ≡ most = cc in rw (e2, e3) refl

alive :
    (m : Option Message) {count most : ℤ}
    → standing_in m ≡ some (running, count, most)
    → is_dead m ≡ false
alive none h = cc
alive (some msg) h = let e1 : msg.state ≡ running = cc in rw e1 refl

module _ {W : Type 0} (f : Dict String → String) where
  standing-move :
      (r : Run W) (to : TaskState) {s : TaskState} {count most : ℤ}
      → standing_of r ≡ some (s, count, most)
      → can_transition_task_state s to ≡ true
      → same to unset ≡ false
      → standing_of (move f to r) ≡ some (to, count, most)
  standing-move r to e h k = standing-moved f r.message to e h k

  branches :
      (b0 b1 b2 b3 : Bool) (r dead late again : Run W) (count most : ℤ)
      → b0 ≡ false
      → standing_of dead ≡ some (deadletter, count, most)
      → standing_of late ≡ some (failed, count, most)
      → standing_of again ≡ some (retrying, count, most)
      → standing_of
          (if◌then◌else◌ {A = EventType × Run W} b0
            (task_dead_letter, r)
            (if b1
              then (task_dead_letter, dead)
              else if b2
              then (task_timeout, late)
              else if b3
              then (task_retry, again)
              else (task_failed, late))).1
        ≡ some (
          if b1 then deadletter else if b2 then failed else if b3 then retrying else failed,
          count,
          most,
        )
  branches true b1 b2 b3 r dead late again count most h d l a = cc
  branches false true b2 b3 r dead late again count most h d l a = d
  branches false false true b3 r dead late again count most h d l a = l
  branches false false false true r dead late again count most h d l a = a
  branches false false false false r dead late again count most h d l a = l

  -- A running task that fails is classified by its error and its retries.
  standing-classify :
      (e : Error) (r : Run W) {count most : ℤ}
      → standing_of r ≡ some (running, count, most)
      → standing_of (classify f e r).1 ≡ some (failure e count most, count, most)
  unfolding classify failure can_transition_task_state
  standing-classify e r {count} {most} h =
      let failing = standing-move r failed h refl refl in
      rw (marked_as r.message e h) (
        branches (is_dead r.message) _ _ _ r (move f deadletter (move f failed r)) (move f failed r)
          (move f retrying r) count most (alive r.message h)
          (standing-move (move f failed r) deadletter failing refl refl) failing
          (standing-move r retrying h refl refl))

module _ {W : Type 0} where
  Keeps-refl : (r : Run W) → Keeps r r
  Keeps-refl r = refl

  Keeps-trans : (r s t : Run W) → Keeps r s → Keeps s t → Keeps r t
  Keeps-trans r s t h k = h ∙ k

module _ {W : Type 0} (f : Dict String → String) (o : Orchestrator W)
    (ho : OrchestratorRespects Keeps o) where
  Keeps-finish_failure : (e : Error) (r : Run W) → Keeps (classify f e r).1 (finish_failure f o e r)
  unfolding finish_failure
  Keeps-finish_failure e r =
      let (type, r1) = classify f e r in
      let r2 = publish o type e r1 in
      Callbacks.Respects-publish Keeps Keeps-refl Keeps-trans o type e ho r1
      ∙ Callbacks.Respects-end Keeps Keeps-refl Keeps-trans o type e ho r2
      ∙ Callbacks.Respects-finish Keeps Keeps-refl Keeps-trans o e ho (observe_end o type e r2)

  standing-failure :
      (exec : RuntimeExecution W) (e : Error) (r : Run W) {count most : ℤ}
      → All (HookRespects Keeps) exec.hooks
      → standing_of r ≡ some (running, count, most)
      → standing_of (run_on_failure e exec.hooks (finish_failure f o e r))
        ≡ some (failure e count most, count, most)
  standing-failure exec e r h at =
      sym (
        Keeps-finish_failure e r
        ∙ Callbacks.Respects-failure Keeps Keeps-refl Keeps-trans exec e h (finish_failure f o e r))
      ∙ standing-classify f e r at

  standing-succeed :
      (exec : RuntimeExecution W) (r : Run W) {count most : ℤ}
      → All (HookRespects Keeps) exec.hooks
      → standing_of r ≡ some (running, count, most)
      → standing_of (
          run_on_success exec.hooks
            (observe_finish o nil (publish o task_success nil (move f success r))))
        ≡ some (success, count, most)
  unfolding can_transition_task_state
  standing-succeed exec r h at =
      let r1 = move f success r in
      let r2 = publish o task_success nil r1 in
      sym (
        Callbacks.Respects-publish Keeps Keeps-refl Keeps-trans o task_success nil ho r1
        ∙ Callbacks.Respects-finish Keeps Keeps-refl Keeps-trans o nil ho r2
        ∙ Callbacks.Respects-success Keeps Keeps-refl Keeps-trans exec h (observe_finish o nil r2))
      ∙ standing-move f r success at refl refl

  standing-settle :
      (exec : RuntimeExecution W) (e : Error) (b : Bool) (r : Run W) {count most : ℤ}
      → is_nil e ≡ b
      → All (HookRespects Keeps) exec.hooks
      → standing_of r ≡ some (running, count, most)
      → (standing_of (settle f o exec e r).1 ≡ some (outcome e count most, count, most))
        × ((settle f o exec e r).0 ≡ e)
  unfolding settle outcome
  standing-settle exec e true r n h at = rw n (standing-succeed exec r h at, nil_is e n)
  standing-settle exec e false r n h at = rw n (standing-failure exec e r h at, refl)

  standing-perform :
      (exec : RuntimeExecution W) (handler : Handler W) (r : Run W) {s : TaskState} {count most : ℤ}
      → HandlerRespects Keeps handler
      → All (MiddlewareRespects Keeps) exec.middlewares
      → All (HookRespects Keeps) exec.hooks
      → standing_of r ≡ some (s, count, most)
      → is_open s ≡ true
      → standing_of (perform f o exec handler r).1
        ≡ some (outcome (perform f o exec handler r).0 count most, count, most)
  standing-perform exec handler r {s} {count} {most} hh hm hk at h =
      let r1 = begin f r in
      let r2 = publish o task_started nil r1 in
      let r3 = observe_start o r2 in
      let (e, r4) = process exec handler r3 in
      let r5 = run_after_process e exec.hooks r4 in
      let kept =
        Callbacks.Respects-publish Keeps Keeps-refl Keeps-trans o task_started nil ho r1
        ∙ Callbacks.Respects-start Keeps Keeps-refl Keeps-trans o ho r2
        ∙ Callbacks.HandlerRespects-process Keeps Keeps-refl Keeps-trans exec handler hh hm hk r3
        ∙ Callbacks.Respects-after Keeps Keeps-refl Keeps-trans exec e hk r4 in
      let ended =
        standing-settle exec e (is_nil e) r5 refl hk
          (sym kept ∙ standing-begin f r.message r.world at h) in
      ended.0 ∙ ap (λ x. some (outcome x count most, count, most)) (sym ended.1)

standing_to :
    {W : Type 0} (f : Dict String → String) (o : Orchestrator W) (exec : RuntimeExecution W)
    (r : Run W) (h : Option (Handler W)) {handler : Handler W} {s : TaskState} {count most : ℤ}
    → OrchestratorRespects Keeps o
    → OptionRespects Keeps h
    → All (MiddlewareRespects Keeps) exec.middlewares
    → All (HookRespects Keeps) exec.hooks
    → h ≡ some handler
    → standing_of r ≡ some (s, count, most)
    → is_open s ≡ true
    → let end = elim h as (λ _. Error × Run W) [
      | none ↦ (sentinel not_initialized, r)
      | some g ↦ perform f o exec g r
    ] in
      standing_of end.1 ≡ some (outcome end.0 count most, count, most)
standing_to f o exec r none ho hh hm hk given at h = cc
standing_to f o exec r (some g) ho hh hm hk given at h =
    standing-perform f o ho exec g r hh hm hk at h

-- When the callbacks and the handler leave the state of the task and its retries alone, and the task
-- is in an open state, Execute leaves it in the state of `outcome` for the error it returns: success
-- for nil, else dead letter for an error that asks for it, a fatal one or one that is not a rate limit
-- and not ignored with no retries left, else failed for a timeout, else retrying for a retryable error
-- or a rate limit, else failed. The counts of retries stay.
pub execute-standing :
    {W : Type 0} (trace_id_of : Dict String → String) (o : Orchestrator W)
    (exec : RuntimeExecution W) (r : Run W) (handler : Handler W) (s : TaskState) (count most : ℤ)
    → OrchestratorRespects Keeps o
    → ExecutionRespects Keeps exec
    → exec.handler ≡ some handler
    → standing_of r ≡ some (s, count, most)
    → is_open s ≡ true
    → standing_of (execute trace_id_of o exec r).1
      ≡ some (outcome (execute trace_id_of o exec r).0 count most, count, most)
unfolding execute
execute-standing f o exec r handler s count most ho h given at k =
    standing_to f o exec r exec.handler ho h.0 h.1 h.2 given at k
