-- ===== src/Scheduler/Confirm.antt =====
-- `_reconcile_confirmations` of scheduler.py: each resolving request is settled at the provider, by
-- at most one attempt that is marked in the table before it is made.
pub mod Kept
pub mod Once
pub mod Loop
use managed_agent_web_slack.Common.{
  Option, none, some, List, [], ◌∷◌, Bool, true, false, ◌&&◌, ◌||◌, not, is_some, is_none,
  if◌then◌else◌, any_row, coalesce,
}
use managed_agent_web_slack.Store.{
  Key, A2aState, LifecycleState, HeldReason, PolicyCode, Decision, Task, Request, Clarification,
  is_resolving, is_resolved, task_of,
}
use managed_agent_web_slack.Runtime.Transaction.{Error, definitive}
use managed_agent_web_slack.Runtime.Lease.{TaskField, ContextField}
use managed_agent_web_slack.Runtime.Review.{mark_confirmation_attempted}
use managed_agent_web_slack.Runtime.Requests.{
  InputRequest, tool_approval, clarification, status_of, list_input_requests,
  mark_clarification_attempted,
}
use managed_agent_web_slack.Scheduler.Events.{
  Event, text_of, truthy, denied_by_policy, confirms, confirms_nothing, confirms_exactly, answers,
}
use managed_agent_web_slack.Scheduler.World.{
  Env, Effect, Action, pure, attempt, when, maybe, on_outcome, for_each, transact, read, returning,
  call, ◌>>=◌, ◌>>◌,
}
use managed_agent_web_slack.Scheduler.Finish.{
  set_task_fields, set_context_fields, resolve_input, finish,
}

-- `continue` and `return True` of the loop.
abbrev pub next : Action (Option (Unit {0}))
next = pure none

abbrev stop : Action (Option (Unit {0}))
stop = pure (some tt)

abbrev is_ambiguous_confirmation : Option HeldReason → Bool
is_ambiguous_confirmation (some HeldReason.ambiguous_confirmation) = true
is_ambiguous_confirmation _ = false

-- `reason.startswith("policy-")`
abbrev is_policy_hold : Option HeldReason → Bool
is_policy_hold (some (HeldReason.policy _)) = true
is_policy_hold _ = false

abbrev any_confirms : Key → Option Decision → List Event → Bool
any_confirms event_id none events = any_row (λ e. confirms_nothing event_id e.kind) events
any_confirms event_id (some d) events = any_row (λ e. confirms event_id d e.kind) events

abbrev any_answers : Key → List Event → Bool
any_answers event_id events = any_row (λ e. answers event_id e.kind) events

abbrev is_open_approval : InputRequest → Bool
is_open_approval (tool_approval r) = not (is_resolved r.status)
is_open_approval (clarification _) = false

-- The hold that the last lines of the function lift.
lifted : Option HeldReason → List InputRequest → Bool
lifted reason rows =
    (is_ambiguous_confirmation reason && not (any_row (λ r. is_resolving (status_of r)) rows))
    || (is_policy_hold reason && not (any_row is_open_approval rows))

-- What one round of the loop works with.
pub record Round : Type 0 where
  pub context_id : Key
  pub claim : Key
  pub session_id : Key
  pub task : Task
  pub events : List Event

module _ (env : Env) (round : Round) where
  open round use {context_id, claim, session_id, task, events}

  pub hold : HeldReason → Action (Unit {0})
  hold reason =
      set_task_fields env task.task_id context_id claim (TaskField.held_reason (some reason) ∷ [])

  pub fail_context : Action (Option (Unit {0}))
  fail_context = do
    set_context_fields env context_id claim
        (ContextField.lifecycle_state LifecycleState.failed ∷ [])
    finish env context_id task.task_id claim A2aState.failed none
    stop

  refresh : Action (List Event)
  refresh = call env none (λ turn. env.list_events turn session_id)

  settle_clarification : Clarification → Action (Option (Unit {0}))
  settle_clarification r = do
    resolve_input env r.request_id r.task_id context_id claim
    call env (some (Effect.delete_input (text_of r.answer_object_key)))
        (λ turn. env.delete_input turn (text_of r.answer_object_key))
    next

  send_answer : Clarification → Action (Unit {0})
  send_answer r = do
    answer ← call env none (λ turn. env.get_input turn (text_of r.answer_object_key))
    call env (some (Effect.send_custom_tool_result session_id r.cma_event_id)) (λ turn.
        env.send_custom_tool_result turn session_id r.cma_event_id answer
          (is_some task.cancel_requested_at))

  -- After a failure that may have reached the provider, its history decides.
  recheck_answer : Clarification → Action (Option (Unit {0}))
  unfolding hold refresh settle_clarification
  recheck_answer r = do
    hold HeldReason.ambiguous_confirmation
    refreshed ← refresh
    if any_answers r.cma_event_id refreshed then settle_clarification r else next

  answer_failed : Clarification → Error → Action (Option (Unit {0}))
  unfolding fail_context recheck_answer
  answer_failed r definitive = fail_context
  answer_failed r _ = recheck_answer r

  attempt_answer : Clarification → Action (Option (Unit {0}))
  unfolding settle_clarification send_answer answer_failed
  attempt_answer r = do
    marked ← transact env (returning (mark_clarification_attempted r.request_id context_id claim))
    if not marked then next else do
      sent ← attempt (send_answer r)
      on_outcome sent (λ _. settle_clarification r) (answer_failed r)

  pub reconcile_clarification : Clarification → Action (Option (Unit {0}))
  unfolding hold settle_clarification attempt_answer
  reconcile_clarification r =
      if any_answers r.cma_event_id events
      then settle_clarification r
      else (if is_some r.response_attempted_at
          then hold HeldReason.ambiguous_confirmation >> next
          else attempt_answer r)

  -- The reason that goes with a decision: the stored text, or the fixed one of a policy denial.
  pub reason_for : Request → Decision → Action (Option Key)
  reason_for r d =
      maybe (truthy r.decision_reason_object_key)
        (pure (elim d [
          | Decision.allow ↦ none
          | Decision.deny ↦ if is_none task.cancel_requested_at then some denied_by_policy else none
        ]))
        λ key. call env none (λ turn. env.get_input turn key) >>= λ text. pure (some text)

  abbrev approves : Decision → Bool
  approves Decision.allow = true
  approves Decision.deny = false

  send_decision : Request → Decision → Action (Unit {0})
  unfolding reason_for
  send_decision r d = do
    reason ← reason_for r d
    call env (some (Effect.confirm_tool session_id r.cma_event_id (approves d)))
        (λ turn. env.confirm_tool turn session_id r.cma_event_id (approves d) reason)

  pub settle_approval : Request → Action (Option (Unit {0}))
  settle_approval r = resolve_input env r.request_id r.task_id context_id claim >> next

  recheck_decision : Request → Decision → Action (Option (Unit {0}))
  unfolding hold refresh settle_approval
  recheck_decision r d = do
    hold HeldReason.ambiguous_confirmation
    refreshed ← refresh
    if any_row (λ e. confirms_exactly r.cma_event_id d e.kind) refreshed
        then settle_approval r
        else next

  pub decision_failed : Request → Decision → Error → Action (Option (Unit {0}))
  unfolding fail_context recheck_decision
  decision_failed r d definitive = fail_context
  decision_failed r d _ = recheck_decision r d

  send_marked : Request → Decision → Action (Option (Unit {0}))
  unfolding settle_approval send_decision decision_failed
  send_marked r d = do
    sent ← attempt (send_decision r d)
    on_outcome sent (λ _. settle_approval r) (decision_failed r d)

  -- Another worker, or a cancellation, may have come between: then there is no mark and no call.
  after_mark : Request → Decision → Bool → Action (Option (Unit {0}))
  unfolding send_marked
  after_mark r d marked = if marked then send_marked r d else next

  mark_attempt : Request → Action Bool
  mark_attempt r =
      transact env (returning (mark_confirmation_attempted r.request_id context_id claim))

  pub attempt_decision : Request → Decision → Action (Option (Unit {0}))
  unfolding mark_attempt after_mark
  attempt_decision r d = mark_attempt r >>= after_mark r d

  pub reconcile_approval : Request → Action (Option (Unit {0}))
  unfolding hold settle_approval attempt_decision
  reconcile_approval r =
      if any_confirms r.cma_event_id r.decision events
      then settle_approval r
      else (if is_some r.confirmation_attempted_at
          then when (not (is_ambiguous_confirmation task.held_reason))
              (hold HeldReason.ambiguous_confirmation)
            >> next
          else maybe r.decision (hold (HeldReason.policy PolicyCode.unpublished_decision) >> next)
              (attempt_decision r))

  reconcile_request : InputRequest → Action (Option (Unit {0}))
  unfolding reconcile_clarification reconcile_approval
  reconcile_request (clarification r) =
      if is_resolving r.status then reconcile_clarification r else next
  reconcile_request (tool_approval r) = if is_resolving r.status then reconcile_approval r else next

  pub lift_hold : Action Bool
  unfolding lifted
  lift_hold = do
    found ← read env (task_of task.task_id)
    rows ← read env (list_input_requests task.task_id)
    when (lifted (coalesce found task).held_reason rows)
        (set_task_fields env task.task_id context_id claim (TaskField.held_reason none ∷ []))
    pure false

  -- True when the task was ended on the way.
  unfoldable pub reconcile_confirmations : Action Bool
  unfolding reconcile_request lift_hold
  reconcile_confirmations = do
    rows ← read env (list_input_requests task.task_id)
    ended ← for_each rows reconcile_request
    maybe ended lift_hold (λ _. pure true)
