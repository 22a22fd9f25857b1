-- ===== src/Scheduler/Cancel/Kept.antt =====
-- The actions of Scheduler/Cancel keep every stable invariant that the confirmations keep.
use managed_agent_web_slack.Common.{List}
use managed_agent_web_slack.Store.{Db, Clarification}
use managed_agent_web_slack.Runtime.Transaction.{Error, definitive}
use managed_agent_web_slack.Runtime.Requests.{InputRequest, tool_approval, clarification}
use managed_agent_web_slack.Scheduler.Events.{Event}
use managed_agent_web_slack.Scheduler.World.{Env, Effect}
use managed_agent_web_slack.Scheduler.Finish.Kept.{
  set_task_fields-Keeps, set_context_fields-Keeps, finish-Keeps,
}
use managed_agent_web_slack.Scheduler.Confirm.{Round, reconcile_confirmations}
use managed_agent_web_slack.Scheduler.Cancel.{
  cancel_clarification, cancel_request, cancel_requests, interrupt_failed, start_interrupt,
  interrupt_once, after_status, reconcile_cancel,
}
use managed_agent_web_slack.Scheduler.Keeps.{Stable, Keeps, Keeps-if, Keeps-pure}
use managed_agent_web_slack.Scheduler.Keeps.Rules.{keeps}
use managed_agent_web_slack.Scheduler.Keeps.Transactions.{
  Keeps-decide_clarification, Keeps-deny_cancelled,
}

module _ {P : Db → List Effect → Type 0} (env : Env) (stable : Stable P) (round : Round) where
  cancel_clarification-Keeps : (r : Clarification) → Keeps P (cancel_clarification env round r)
  unfolding cancel_clarification
  cancel_clarification-Keeps r = search (keeps, Keeps-decide_clarification) depth 9

  cancel_request-Keeps : (r : InputRequest) → Keeps P (cancel_request env round r)
  unfolding cancel_request
  cancel_request-Keeps (clarification r) = search (keeps, cancel_clarification-Keeps)
  cancel_request-Keeps (tool_approval r) =
      Keeps-if _ _ _ (Keeps-deny_cancelled env stable r.request_id round.context_id round.claim)
        (Keeps-pure tt)

  interrupt_failed-Keeps : (e : Error) → Keeps P (interrupt_failed env round e)
  unfolding interrupt_failed
  interrupt_failed-Keeps definitive = search (keeps, set_context_fields-Keeps, finish-Keeps)
  interrupt_failed-Keeps _ = search (keeps, set_task_fields-Keeps)

  start_interrupt-Keeps : Keeps P (start_interrupt env round)
  unfolding start_interrupt
  start_interrupt-Keeps = search (keeps, set_task_fields-Keeps, interrupt_failed-Keeps) depth 8

  interrupt_once-Keeps : Keeps P (interrupt_once env round)
  unfolding interrupt_once
  interrupt_once-Keeps = search (keeps, set_task_fields-Keeps, start_interrupt-Keeps)

module _ {P : Db → List Effect → Type 0} (env : Env) (stable : Stable P)
    (confirmed : (round : Round) → Keeps P (reconcile_confirmations env round))
    (round : Round) where
  cancel_requests-Keeps : Keeps P (cancel_requests env round)
  unfolding cancel_requests
  cancel_requests-Keeps = search (keeps, cancel_request-Keeps, confirmed) depth 8

  after_status-Keeps : (idle : Event) → Keeps P (after_status env round idle)
  unfolding after_status
  after_status-Keeps idle =
      search (keeps, finish-Keeps, cancel_requests-Keeps, interrupt_once-Keeps)

  pub reconcile_cancel-Keeps : Keeps P (reconcile_cancel env round)
  unfolding reconcile_cancel
  reconcile_cancel-Keeps = search (keeps, interrupt_once-Keeps, after_status-Keeps)
