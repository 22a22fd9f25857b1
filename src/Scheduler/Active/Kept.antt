-- ===== src/Scheduler/Active/Kept.antt =====
-- The actions of Scheduler/Active keep every stable invariant that the confirmations keep.
use managed_agent_web_slack.Common.{Option, List}
use managed_agent_web_slack.Store.{Key, Db, A2aState, Context, Task}
use managed_agent_web_slack.Scheduler.Events.{Event, StopReason}
use managed_agent_web_slack.Scheduler.World.{Env, Effect}
use managed_agent_web_slack.Scheduler.Finish.Kept.{
  set_task_fields-Keeps, set_context_fields-Keeps, finish-Keeps, bind_input-Keeps,
}
use managed_agent_web_slack.Scheduler.Confirm.{Round, reconcile_confirmations}
use managed_agent_web_slack.Scheduler.Cancel.Kept.{reconcile_cancel-Keeps}
use managed_agent_web_slack.Scheduler.Policy.Kept.{evaluate_policy-Keeps, set_waiting_state-Keeps}
use managed_agent_web_slack.Scheduler.Active.{
  Kind, Ask, approval, answer, nothing, ActiveRound, judge_and_confirm, add_ask, add_row, end_task,
  fail_task, on_stop, on_kind, on_status, follow_bound, hold_dispatch, rebind, reconcile_session,
  in_session, hold_create, recover_session, reconcile_active,
}
use managed_agent_web_slack.Scheduler.Keeps.{Stable, Keeps}
use managed_agent_web_slack.Scheduler.Keeps.Rules.{keeps}
use managed_agent_web_slack.Scheduler.Keeps.Transactions.{
  Keeps-add_input_request, Keeps-add_clarification_request,
}

module _ {P : Db → List Effect → Type 0} (env : Env) (stable : Stable P) (round : ActiveRound) where
  add_row-Keeps : (source : Event) (a : Ask) → Keeps P (add_row env round source a)
  unfolding add_row
  add_row-Keeps source approval = search (keeps, Keeps-add_input_request)
  add_row-Keeps source answer = search (keeps, Keeps-add_clarification_request)
  add_row-Keeps source nothing = search (keeps)

  add_ask-Keeps : (ids : List Key) (source : Event) → Keeps P (add_ask env round ids source)
  unfolding add_ask
  add_ask-Keeps ids source = search (keeps, add_row-Keeps)

  end_task-Keeps : (state : A2aState) (id : Option Key) → Keeps P (end_task env round state id)
  unfolding end_task
  end_task-Keeps state id = search (finish-Keeps)

  fail_task-Keeps : (id : Option Key) → Keeps P (fail_task env round id)
  unfolding fail_task
  fail_task-Keeps id = search (keeps, set_context_fields-Keeps, end_task-Keeps)

  hold_dispatch-Keeps : Keeps P (hold_dispatch env round)
  unfolding hold_dispatch
  hold_dispatch-Keeps = search (keeps, set_task_fields-Keeps)

module _ {P : Db → List Effect → Type 0} (env : Env) (stable : Stable P)
    (confirmed : (r : Round) → Keeps P (reconcile_confirmations env r)) (round : ActiveRound) where
  judge_and_confirm-Keeps :
      (t : Task) (events : List Event) → Keeps P (judge_and_confirm env round t events)
  unfolding judge_and_confirm
  judge_and_confirm-Keeps t events =
      search (keeps, evaluate_policy-Keeps, set_waiting_state-Keeps, confirmed) depth 12

  on_stop-Keeps :
      (t : Task) (events : List Event) (status : Event) (s : StopReason)
      → Keeps P (on_stop env round t events status s)
  unfolding on_stop
  on_stop-Keeps t events status (StopReason.requires_action ids) =
      search (keeps, add_ask-Keeps, judge_and_confirm-Keeps)
  on_stop-Keeps t events status StopReason.end_turn = search (end_task-Keeps)
  on_stop-Keeps t events status StopReason.budget_reached = search (fail_task-Keeps)
  on_stop-Keeps t events status StopReason.missing = search (keeps)
  on_stop-Keeps t events status StopReason.other = search (keeps)

  on_kind-Keeps :
      (t : Task) (events : List Event) (status : Event) (k : Kind)
      → Keeps P (on_kind env round t events status k)
  unfolding on_kind
  on_kind-Keeps t events status Kind.finished = search (fail_task-Keeps)
  on_kind-Keeps t events status Kind.idle = search (on_stop-Keeps)
  on_kind-Keeps t events status Kind.running = search (keeps, set_task_fields-Keeps)
  on_kind-Keeps t events status Kind.other = search (keeps)

  on_status-Keeps :
      (t : Task) (events : List Event) (status : Event)
      → Keeps P (on_status env round t events status)
  unfolding on_status
  on_status-Keeps t events status = search (keeps, judge_and_confirm-Keeps, on_kind-Keeps)

  follow_bound-Keeps : (t : Task) (events : List Event) → Keeps P (follow_bound env round t events)
  unfolding follow_bound
  follow_bound-Keeps t events =
      search (keeps, reconcile_cancel-Keeps, confirmed, on_status-Keeps) depth 12

  rebind-Keeps : (t : Task) (events : List Event) → Keeps P (rebind env round t events)
  unfolding rebind
  rebind-Keeps t events =
      search (keeps, hold_dispatch-Keeps, bind_input-Keeps, follow_bound-Keeps) depth 8

  reconcile_session-Keeps : (t : Task) → Keeps P (reconcile_session env round t)
  unfolding reconcile_session
  reconcile_session-Keeps t = search (keeps, rebind-Keeps, follow_bound-Keeps)

module _ {P : Db → List Effect → Type 0} (env : Env) (stable : Stable P)
    (confirmed : (r : Round) → Keeps P (reconcile_confirmations env r)) where
  in_session-Keeps : (c claim : Key) (t : Task) (s : Key) → Keeps P (in_session env c claim t s)
  unfolding in_session
  in_session-Keeps c claim t s = search (reconcile_session-Keeps)

  hold_create-Keeps : (c claim : Key) (t : Task) → Keeps P (hold_create env c claim t)
  unfolding hold_create
  hold_create-Keeps c claim t = search (keeps, set_task_fields-Keeps)

  recover_session-Keeps :
      (c : Context) (claim : Key) (t : Task) → Keeps P (recover_session env c claim t)
  unfolding recover_session
  recover_session-Keeps c claim t =
      search (keeps, hold_create-Keeps, set_context_fields-Keeps, in_session-Keeps) depth 8

  pub reconcile_active-Keeps :
      (c : Context) (t : Task) (claim : Key) → Keeps P (reconcile_active env c t claim)
  unfolding reconcile_active
  reconcile_active-Keeps c t claim = search (keeps, recover_session-Keeps, in_session-Keeps)
