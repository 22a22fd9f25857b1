-- ===== src/Scheduler/Confirm/Kept.antt =====
-- The loop of Scheduler/Confirm keeps every stable invariant that the attempt to confirm a decision
-- keeps.
use managed_agent_web_slack.Common.{ℕ, some, Bool, List, ◌∷◌}
use managed_agent_web_slack.Store.{Key, Db, HeldReason, Decision, Request, Clarification}
use managed_agent_web_slack.Runtime.Transaction.{Error, definitive}
use managed_agent_web_slack.Runtime.Requests.{InputRequest, tool_approval, clarification}
use managed_agent_web_slack.Scheduler.World.{Env, Effect, Answer, call}
use managed_agent_web_slack.Scheduler.Finish.Kept.{
  set_task_fields-Keeps, set_context_fields-Keeps, resolve_input-Keeps, finish-Keeps,
}
use managed_agent_web_slack.Scheduler.Confirm.{
  Round, hold, fail_context, refresh, settle_clarification, send_answer, recheck_answer,
  answer_failed, attempt_answer, reconcile_clarification, reason_for, settle_approval,
  recheck_decision, decision_failed, attempt_decision, reconcile_approval, reconcile_request,
  send_decision, send_marked, after_mark, mark_attempt, lift_hold, reconcile_confirmations,
}
use managed_agent_web_slack.Scheduler.Keeps.{Stable, Keeps, keep_moves}
use managed_agent_web_slack.Scheduler.Keeps.Rules.{keeps}
use managed_agent_web_slack.Scheduler.Keeps.Transactions.{
  Keeps-mark_clarification, Keeps-mark_confirmation,
}

module _ {P : Db → List Effect → Type 0} (env : Env) (stable : Stable P) (round : Round) where
  pub hold-Keeps : (reason : HeldReason) → Keeps P (hold env round reason)
  unfolding hold
  hold-Keeps reason = search (keeps, set_task_fields-Keeps)

  pub fail_context-Keeps : Keeps P (fail_context env round)
  unfolding fail_context
  fail_context-Keeps = search (keeps, set_context_fields-Keeps, finish-Keeps)

  refresh-Keeps : Keeps P (refresh env round)
  unfolding refresh
  refresh-Keeps = search (keeps)

  settle_clarification-Keeps : (r : Clarification) → Keeps P (settle_clarification env round r)
  unfolding settle_clarification
  settle_clarification-Keeps r = search (keeps, resolve_input-Keeps)

  send_answer-Keeps : (r : Clarification) → Keeps P (send_answer env round r)
  unfolding send_answer
  send_answer-Keeps r = search (keeps)

  recheck_answer-Keeps : (r : Clarification) → Keeps P (recheck_answer env round r)
  unfolding recheck_answer
  recheck_answer-Keeps r = search (keeps, hold-Keeps, refresh-Keeps, settle_clarification-Keeps)

  answer_failed-Keeps : (r : Clarification) (e : Error) → Keeps P (answer_failed env round r e)
  unfolding answer_failed
  answer_failed-Keeps r definitive = fail_context-Keeps
  answer_failed-Keeps r _ = recheck_answer-Keeps r

  attempt_answer-Keeps : (r : Clarification) → Keeps P (attempt_answer env round r)
  unfolding attempt_answer
  attempt_answer-Keeps r =
      search
        (
          keeps, Keeps-mark_clarification, send_answer-Keeps, settle_clarification-Keeps,
          answer_failed-Keeps,
        )
        depth 8

  pub reconcile_clarification-Keeps :
      (r : Clarification) → Keeps P (reconcile_clarification env round r)
  unfolding reconcile_clarification
  reconcile_clarification-Keeps r =
      search (keeps, hold-Keeps, settle_clarification-Keeps, attempt_answer-Keeps)

  pub reason_for-Keeps : (r : Request) (d : Decision) → Keeps P (reason_for env round r d)
  unfolding reason_for
  reason_for-Keeps r d = search (keeps)

  pub settle_approval-Keeps : (r : Request) → Keeps P (settle_approval env round r)
  unfolding settle_approval
  settle_approval-Keeps r = search (keeps, resolve_input-Keeps)

  recheck_decision-Keeps : (r : Request) (d : Decision) → Keeps P (recheck_decision env round r d)
  unfolding recheck_decision
  recheck_decision-Keeps r d = search (keeps, hold-Keeps, refresh-Keeps, settle_approval-Keeps)

  pub decision_failed-Keeps :
      (r : Request) (d : Decision) (e : Error) → Keeps P (decision_failed env round r d e)
  unfolding decision_failed
  decision_failed-Keeps r d definitive = fail_context-Keeps
  decision_failed-Keeps r d _ = recheck_decision-Keeps r d

  pub reconcile_approval-Keeps :
      (r : Request)
      → ((d : Decision) → Keeps P (attempt_decision env round r d))
      → Keeps P (reconcile_approval env round r)
  unfolding reconcile_approval
  reconcile_approval-Keeps r attempts =
      search (keeps, hold-Keeps, settle_approval-Keeps, attempts) depth 7

  pub lift_hold-Keeps : Keeps P (lift_hold env round)
  unfolding lift_hold
  lift_hold-Keeps = search (keeps, set_task_fields-Keeps) depth 8

-- Where a call that confirms keeps `P` too, the whole function does.
module _ {P : Db → List Effect → Type 0} (env : Env) (stable : Stable P)
    (calls : (s k : Key) (b : Bool) (db : Db) (log : List Effect)
      → P db log
      → P db (Effect.confirm_tool s k b ∷ log))
    (round : Round) where
  confirm-Keeps :
      (s k : Key) (b : Bool) (reply : ℕ → Answer (Unit {0}))
      → Keeps P (call env (some (Effect.confirm_tool s k b)) reply)
  unfolding call
  confirm-Keeps s k b reply = record {
    at = λ w h. calls s k b _ w.log (keep_moves env stable (env.meanwhile w.turn) w.db w.log h);
  }

  send_decision-Keeps : (r : Request) (d : Decision) → Keeps P (send_decision env round r d)
  unfolding send_decision
  send_decision-Keeps r d = search (keeps, reason_for-Keeps, confirm-Keeps)

  send_marked-Keeps : (r : Request) (d : Decision) → Keeps P (send_marked env round r d)
  unfolding send_marked
  send_marked-Keeps r d =
      search (keeps, send_decision-Keeps, settle_approval-Keeps, decision_failed-Keeps)

  after_mark-Keeps : (r : Request) (d : Decision) (b : Bool) → Keeps P (after_mark env round r d b)
  unfolding after_mark
  after_mark-Keeps r d b = search (keeps, send_marked-Keeps)

  mark_attempt-Keeps : (r : Request) → Keeps P (mark_attempt env round r)
  unfolding mark_attempt
  mark_attempt-Keeps r = search (Keeps-mark_confirmation)

  attempt_decision-Keeps : (r : Request) (d : Decision) → Keeps P (attempt_decision env round r d)
  unfolding attempt_decision
  attempt_decision-Keeps r d = search (keeps, mark_attempt-Keeps, after_mark-Keeps)

  reconcile_request-Keeps : (r : InputRequest) → Keeps P (reconcile_request env round r)
  unfolding reconcile_request
  reconcile_request-Keeps (clarification r) = search (keeps, reconcile_clarification-Keeps)
  reconcile_request-Keeps (tool_approval r) =
      search (keeps, reconcile_approval-Keeps, attempt_decision-Keeps)

  pub confirmations-Keeps : Keeps P (reconcile_confirmations env round)
  unfolding reconcile_confirmations
  confirmations-Keeps = search (keeps, reconcile_request-Keeps, lift_hold-Keeps) depth 7
