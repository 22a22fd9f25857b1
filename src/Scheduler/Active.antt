-- ===== src/Scheduler/Active.antt =====
-- `_reconcile_active` of scheduler.py: what the provider's history says of the context's active task.
pub mod Kept
use text.Mathlib.Text.{◌==◌ as str_eq}
use managed_agent_web_slack.Common.{
  ◌==◌, Option, none, some, List, [], ◌∷◌, Bool, true, false, ◌&&◌, ◌||◌, not, is_some, is_none,
  if◌then◌else◌, any_row, find_row, coalesce,
}
use managed_agent_web_slack.Store.{
  Key, A2aState, InternalState, LifecycleState, HeldReason, Context, Task, is_resolved, task_of,
}
use managed_agent_web_slack.Runtime.Lease.{TaskField, ContextField}
use managed_agent_web_slack.Runtime.Requests.{
  status_of, list_input_requests, add_input_request, add_clarification_request,
}
use managed_agent_web_slack.Scheduler.Events.{
  Event, EventKind, StatusKind, StopReason, ToolUse, ToolInput, text_of, truthy, after_event,
  latest_status, is_user_message, by_id,
}
use managed_agent_web_slack.Scheduler.World.{
  Env, Action, skip, maybe, for_all, transact, read, call, ◌>>=◌, ◌>>◌,
}
use managed_agent_web_slack.Scheduler.Finish.{
  set_task_fields, set_context_fields, finish, bind_input,
}
use managed_agent_web_slack.Scheduler.Confirm.{Round, reconcile_confirmations}
use managed_agent_web_slack.Scheduler.Cancel.{stop_of, requires_action, reconcile_cancel}
use managed_agent_web_slack.Scheduler.Policy.{PolicyRound, evaluate_policy, set_waiting_state}

-- `kind`, where a thread's status counts as the session's.
pub data Kind : Type 0 where
  running idle finished other : Kind

unfoldable pub kind_of : EventKind → Kind
kind_of (EventKind.status _ StatusKind.running _) = Kind.running
kind_of (EventKind.status _ StatusKind.idle _) = Kind.idle
kind_of (EventKind.status _ StatusKind.terminated _) = Kind.finished
kind_of (EventKind.budget_reached _) = Kind.finished
kind_of _ = Kind.other

-- A status that cannot erase approvals found before: running, or idle for another reason.
unfoldable pub leaves_open : Event → Bool
unfolding kind_of
leaves_open status = elim (kind_of status.kind) [
  | Kind.running ↦ true
  | Kind.idle ↦ not (requires_action (stop_of status.kind))
  | _ ↦ false
]

abbrev is_open : Option Key → List Key → Bool
is_open id [] = false
is_open id (k ∷ ids) = text_of id == k || is_open id ids

-- `ask_user` with a prompt that is a text and not empty.
asks_user : ToolUse → Bool
asks_user u =
    elim u.name [ none ↦ false | some name ↦ str_eq name "ask_user" ]
    && elim u.input [ ToolInput.fields _ prompt ↦ is_some (truthy prompt) | _ ↦ false ]

-- A row for the person or the policy to answer.
pub data Ask : Type 0 where
  approval answer nothing : Ask

unfoldable pub ask_of : EventKind → Ask
unfolding asks_user
ask_of (EventKind.agent_tool_use _) = approval
ask_of (EventKind.agent_mcp_tool_use _) = approval
ask_of (EventKind.agent_custom_tool_use u) = if asks_user u then answer else nothing
ask_of _ = nothing

-- What a round on the active task works with; the task is read again on the way.
pub record ActiveRound : Type 0 where
  pub context_id : Key
  pub task_id : Key
  pub claim : Key
  pub session_id : Key

module _ (env : Env) (round : ActiveRound) where
  open round use {context_id, task_id, claim, session_id}

  list_session : Action (List Event)
  list_session = call env none (λ turn. env.list_events turn session_id)

  abbrev on_task : Task → List Event → Round
  on_task t events = record {
    context_id = context_id;
    claim = claim;
    session_id = session_id;
    task = t;
    events = events;
  }

  abbrev to_judge : List Event → PolicyRound
  to_judge events = record {
    context_id = context_id;
    task_id = task_id;
    claim = claim;
    by_id = by_id events;
  }

  -- Judge what is pending, then confirm what is judged.
  judge_and_confirm : Task → List Event → Action (Unit {0})
  judge_and_confirm t events = do
    judged ← evaluate_policy env (to_judge events)
    if not judged then set_waiting_state env (to_judge events) else do
      found ← read env (task_of task_id)
      let current = coalesce found t
      if is_some current.cancel_requested_at then skip else do
        ended ← reconcile_confirmations env (on_task current events)
        if ended then skip else set_waiting_state env (to_judge events)

  -- The row that a tool use asks for, under an id that the task and the event determine.
  add_row : Event → Ask → Action (Unit {0})
  add_row source approval = transact env (
      add_input_request (env.approval_request_id task_id (text_of source.id)) task_id
        (text_of source.id) context_id claim)
  add_row source answer = transact env (
      add_clarification_request (env.approval_request_id task_id (text_of source.id)) task_id
        (text_of source.id) context_id claim)
  add_row source nothing = skip

  add_ask : List Key → Event → Action (Unit {0})
  unfolding add_row
  add_ask ids source = if is_open source.id ids then add_row source (ask_of source.kind) else skip

  end_task : A2aState → Option Key → Action (Unit {0})
  end_task state id = finish env context_id task_id claim state id

  fail_task : Option Key → Action (Unit {0})
  unfolding end_task
  fail_task id = do
    set_context_fields env context_id claim
        (ContextField.lifecycle_state LifecycleState.failed ∷ [])
    end_task A2aState.failed id

  on_stop : Task → List Event → Event → StopReason → Action (Unit {0})
  unfolding judge_and_confirm add_ask end_task fail_task
  on_stop t events status (StopReason.requires_action ids) = do
    for_all events (add_ask ids)
    judge_and_confirm t events
  on_stop t events status StopReason.end_turn = end_task A2aState.completed status.id
  on_stop t events status StopReason.budget_reached = fail_task status.id
  on_stop t events status StopReason.missing = skip
  on_stop t events status StopReason.other = skip

  on_kind : Task → List Event → Event → Kind → Action (Unit {0})
  unfolding on_stop fail_task
  on_kind t events status Kind.finished = fail_task status.id
  on_kind t events status Kind.idle = on_stop t events status (stop_of status.kind)
  on_kind t events status Kind.running =
      set_task_fields env task_id context_id claim
        (TaskField.internal_state InternalState.waiting ∷ TaskField.a2a_state A2aState.working ∷ [])
  on_kind t events status Kind.other = skip

  on_status : Task → List Event → Event → Action (Unit {0})
  unfolding judge_and_confirm on_kind
  on_status t events status = do
    rows ← read env (list_input_requests task_id)
    if any_row (λ r. not (is_resolved (status_of r))) rows && leaves_open status
        then judge_and_confirm t events
        else on_kind t events status (kind_of status.kind)

  follow_bound : Task → List Event → Action (Unit {0})
  unfolding list_session on_status
  follow_bound t events =
      if is_some t.cancel_requested_at then reconcile_cancel env (on_task t events) else do
        ended ← reconcile_confirmations env (on_task t events)
        if ended then skip else do
          refreshed ← list_session
          maybe (latest_status (after_event refreshed (some (text_of t.cma_input_event_id)))) skip
              (on_status t refreshed)

  hold_dispatch : Action (Unit {0})
  hold_dispatch =
      set_task_fields env task_id context_id claim
        (TaskField.held_reason (some HeldReason.ambiguous_dispatch) ∷ [])

  -- The first user message behind the predecessor is the input that was sent.
  rebind : Task → List Event → Action (Unit {0})
  unfolding follow_bound hold_dispatch
  rebind t events =
      maybe (find_row (λ e. is_user_message e.kind) (after_event events t.cma_predecessor_event_id))
        hold_dispatch
        λ candidate. do
          bind_input env t context_id claim (text_of candidate.id)
          found ← read env (task_of task_id)
          follow_bound (coalesce found t) events

  unfoldable pub reconcile_session : Task → Action (Unit {0})
  unfolding list_session follow_bound rebind
  reconcile_session t = do
    events ← list_session
    if is_none (truthy t.cma_input_event_id) then rebind t events else follow_bound t events

module _ (env : Env) where
  in_session : Key → Key → Task → Key → Action (Unit {0})
  unfolding reconcile_session
  in_session context_id claim t session =
      reconcile_session env
        (record {
          context_id = context_id;
          task_id = t.task_id;
          claim = claim;
          session_id = session;
        })
        t

  hold_create : Key → Key → Task → Action (Unit {0})
  hold_create context_id claim t =
      set_task_fields env t.task_id context_id claim
        (TaskField.held_reason (some HeldReason.ambiguous_create) ∷ [])

  -- The session of an interrupted creation is looked up again.
  recover_session : Context → Key → Task → Action (Unit {0})
  unfolding in_session hold_create
  recover_session c claim t = do
    recovered ← call env none (λ turn. env.find_session turn c.context_id c.creation_message_id)
    maybe recovered (hold_create c.context_id claim t) λ session. do
      set_context_fields env c.context_id claim (
          ContextField.cma_session_id (some session)
          ∷ ContextField.lifecycle_state LifecycleState.ready
          ∷ [])
      in_session c.context_id claim t session

  unfoldable pub reconcile_active : Context → Task → Key → Action (Unit {0})
  unfolding in_session recover_session
  reconcile_active c t claim =
      maybe (truthy c.cma_session_id) (recover_session c claim t) (in_session c.context_id claim t)
