-- ===== src/Scheduler/Finish.antt =====
-- Ending a task, binding its input, and the preview hints: `_finish`, `_bind_input`, `_preview` and
-- `_resolve_input` of scheduler.py.
pub mod Kept
pub mod Holds
pub mod Written
use managed_agent_web_slack.Common.{
  ◌==◌, equals, Option, none, some, List, [], ◌∷◌, ◌&&◌, not, is_none, if◌then◌else◌,
}
use managed_agent_web_slack.Store.{
  Key, A2aState, InternalState, Context, Task, is_terminal, is_resolved, context_of, task_of,
}
use managed_agent_web_slack.Runtime.Transaction.{ok}
use managed_agent_web_slack.Runtime.Lease.{TaskField, ContextField, update_task, update_context}
use managed_agent_web_slack.Runtime.Requests.{status_of, get_input_request, resolve_input_request}
use managed_agent_web_slack.Scheduler.Events.{truthy}
use managed_agent_web_slack.Scheduler.World.{
  Env, Effect, PreviewHint, Action, attempt, skip, when, maybe, transact, read, returning, call,
  ◌>>=◌, ◌>>◌,
}

-- `hints[task_id] = hint`
put_hint : PreviewHint → List PreviewHint → List PreviewHint
put_hint h [] = h ∷ []
put_hint h (g ∷ hints) = if g.task_id == h.task_id then h ∷ hints else g ∷ put_hint h hints

keep_hint : PreviewHint → Action (Unit {0})
unfolding put_hint
keep_hint h w = (ok tt, record w { hints = put_hint h w.hints })

-- The task is the context's live, uncancelled one, in an open session.
previewable : Key → Context → Task → Option Key
previewable task_id c t =
    if equals c.active_task_id task_id
      && (is_none t.cancel_requested_at && not (is_terminal t.internal_state))
    then truthy c.cma_session_id
    else none

module _ (env : Env) where
  unfoldable pub set_task_fields : Key → Key → Key → List TaskField → Action (Unit {0})
  set_task_fields task_id context_id claim fields =
      transact env (update_task task_id context_id claim fields) >> skip

  unfoldable pub set_context_fields : Key → Key → List ContextField → Action (Unit {0})
  set_context_fields context_id claim fields =
      transact env (update_context context_id claim fields) >> skip

  read_hint : Key → Key → Key → Action (Unit {0})
  unfolding keep_hint previewable
  read_hint task_id context_id phase_id = do
    c ← read env (context_of context_id)
    t ← read env (task_of task_id)
    maybe c skip λ c'. maybe t skip λ t'. maybe (previewable task_id c' t') skip λ session.
        keep_hint (record {
          task_id = task_id;
          context_id = context_id;
          session_id = session;
          phase_id = phase_id;
        })

  -- Its failures are swallowed.
  unfoldable pub preview : Key → Key → Key → Action (Unit {0})
  unfolding read_hint
  preview task_id context_id phase_id =
      when env.has_preview_trigger (attempt (read_hint task_id context_id phase_id) >> skip)

  preview_resolved : Key → Key → Key → Action (Unit {0})
  unfolding preview
  preview_resolved request_id task_id context_id = do
    current ← read env (get_input_request request_id task_id)
    maybe current skip
        λ row. when (is_resolved (status_of row)) (preview task_id context_id request_id)

  unfoldable pub resolve_input : Key → Key → Key → Key → Action (Unit {0})
  unfolding preview_resolved
  resolve_input request_id task_id context_id claim = do
    transact env (returning (λ db. (tt, resolve_input_request request_id context_id claim db)))
    when env.has_preview_trigger (attempt (preview_resolved request_id task_id context_id) >> skip)

  -- `state` is final; an empty event id is stored as NULL.
  unfoldable pub finish : Key → Key → Key → A2aState → Option Key → Action (Unit {0})
  unfolding set_task_fields set_context_fields
  finish context_id task_id claim state terminal_event_id = do
    set_task_fields task_id context_id claim (
        TaskField.internal_state InternalState.terminal
        ∷ TaskField.a2a_state state
        ∷ TaskField.cma_terminal_event_id (truthy terminal_event_id)
        ∷ TaskField.held_reason none
        ∷ [])
    set_context_fields context_id claim (ContextField.active_task_id none ∷ [])

  delete_handoff : Key → Action (Unit {0})
  delete_handoff key =
      attempt (call env (some (Effect.delete_input key)) (λ turn. env.delete_input turn key))
      >> skip

  unfoldable pub bind_input : Task → Key → Key → Key → Action (Unit {0})
  unfolding set_task_fields preview delete_handoff
  bind_input t context_id claim event_id = do
    set_task_fields t.task_id context_id claim (
        TaskField.cma_input_event_id (some event_id)
        ∷ TaskField.input_object_key none
        ∷ TaskField.internal_state InternalState.waiting
        ∷ TaskField.a2a_state A2aState.working
        ∷ TaskField.held_reason none
        ∷ [])
    preview t.task_id context_id event_id
    maybe (truthy t.input_object_key) skip delete_handoff
