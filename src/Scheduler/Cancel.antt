-- ===== src/Scheduler/Cancel.antt =====
-- `_reconcile_cancel` of scheduler.py: a cancelled task is interrupted once, and ends when the
-- provider's history shows that the interrupt took.
pub mod Kept
use managed_agent_web_slack.Common.{
  equals, Option, none, some, [], ◌∷◌, Bool, true, false, ◌&&◌, ◌||◌, not, is_some, is_none,
  if◌then◌else◌,
}
use managed_agent_web_slack.Store.{
  Key, A2aState, InternalState, LifecycleState, HeldReason, Clarification, is_pending, is_resolving,
}
use managed_agent_web_slack.Runtime.Transaction.{Error, definitive}
use managed_agent_web_slack.Runtime.Lease.{TaskField, ContextField}
use managed_agent_web_slack.Runtime.Review.{deny_cancelled_input_request}
use managed_agent_web_slack.Runtime.Requests.{
  InputRequest, tool_approval, clarification, list_input_requests, decide_clarification_request,
}
use managed_agent_web_slack.Scheduler.Events.{
  Event, EventKind, StatusKind, StopReason, text_of, cancelled_by_user, after_event,
  after_interrupt, latest_status,
}
use managed_agent_web_slack.Scheduler.World.{
  Env, Effect, Action, attempt, skip, when, maybe, on_outcome, for_all, transact, read, returning,
  call, new_key, ◌>>=◌, ◌>>◌,
}
use managed_agent_web_slack.Scheduler.Finish.{set_task_fields, set_context_fields, finish}
use managed_agent_web_slack.Scheduler.Confirm.{Round, reconcile_confirmations}

-- `(event.get("stop_reason") or {})`
abbrev pub stop_of : EventKind → StopReason
stop_of (EventKind.status _ _ s) = s
stop_of (EventKind.budget_reached s) = s
stop_of _ = StopReason.missing

abbrev pub requires_action : StopReason → Bool
requires_action (StopReason.requires_action _) = true
requires_action _ = false

-- `kind in {"session.status_idle", "session.status_terminated"}`
abbrev pub has_stopped : EventKind → Bool
has_stopped (EventKind.status _ StatusKind.idle _) = true
has_stopped (EventKind.status _ StatusKind.terminated _) = true
has_stopped _ = false

abbrev is_ambiguous_interrupt : Option HeldReason → Bool
is_ambiguous_interrupt (some HeldReason.ambiguous_interrupt) = true
is_ambiguous_interrupt _ = false

-- Not this key's answer: another one came first.
unfoldable pub lost_to_another : Key → Option Clarification → Bool
lost_to_another key none = true
lost_to_another key (some r) = not (equals r.answer_object_key key)

module _ (env : Env) (round : Round) where
  open round use {context_id, claim, session_id, task, events}

  cancel_clarification : Clarification → Action (Unit {0})
  unfolding lost_to_another
  cancel_clarification r = do
    key ← new_key env
    call env (some (Effect.put_input key)) (λ turn. env.put_input turn key cancelled_by_user)
    row ← transact env (returning (decide_clarification_request r.request_id task.task_id key))
    when (lost_to_another key row)
        (call env (some (Effect.delete_input key)) (λ turn. env.delete_input turn key))

  cancel_request : InputRequest → Action (Unit {0})
  unfolding cancel_clarification
  cancel_request (clarification r) = when (is_pending r.status) (cancel_clarification r)
  cancel_request (tool_approval r) =
      when (is_pending r.status || (is_resolving r.status && is_none r.confirmation_attempted_at)) (
        transact env
          (returning (λ db. (tt, deny_cancelled_input_request r.request_id context_id claim db))))

  -- The provider waits for rulings that will not come: each is denied.
  cancel_requests : Action (Unit {0})
  unfolding cancel_request
  cancel_requests = do
    rows ← read env (list_input_requests task.task_id)
    for_all rows cancel_request
    reconcile_confirmations env round
    skip

  interrupt_failed : Error → Action (Unit {0})
  interrupt_failed definitive = do
    set_context_fields env context_id claim
        (ContextField.lifecycle_state LifecycleState.failed ∷ [])
    finish env context_id task.task_id claim A2aState.failed none
  interrupt_failed _ =
      set_task_fields env task.task_id context_id claim
        (TaskField.held_reason (some HeldReason.ambiguous_interrupt) ∷ [])

  start_interrupt : Action (Unit {0})
  unfolding interrupt_failed
  start_interrupt = do
    now ← read env (λ db. db.now)
    set_task_fields env task.task_id context_id claim (
        TaskField.cancel_attempted_at (some now)
        ∷ TaskField.internal_state InternalState.interrupting
        ∷ [])
    sent ←
        attempt
          (call env (some (Effect.interrupt session_id)) (λ turn. env.interrupt turn session_id))
    on_outcome sent (λ _. skip) interrupt_failed

  -- One interrupt: a second is never sent on a guess.
  interrupt_once : Action (Unit {0})
  unfolding start_interrupt
  interrupt_once =
      if is_some task.cancel_attempted_at
      then when (not (is_ambiguous_interrupt task.held_reason)) (
          set_task_fields env task.task_id context_id claim
            (TaskField.held_reason (some HeldReason.ambiguous_interrupt) ∷ []))
      else start_interrupt

  after_status : Event → Action (Unit {0})
  unfolding cancel_requests interrupt_once
  after_status idle =
      if has_stopped idle.kind && not (requires_action (stop_of idle.kind))
      then finish env context_id task.task_id claim A2aState.canceled idle.id
      else (if requires_action (stop_of idle.kind) then cancel_requests else interrupt_once)

  unfoldable pub reconcile_cancel : Action (Unit {0})
  unfolding after_status
  reconcile_cancel =
      maybe (after_interrupt (after_event events (some (text_of task.cma_input_event_id))))
        interrupt_once λ behind. maybe (latest_status behind) interrupt_once after_status
