-- ===== src/Scheduler/Policy/Kept.antt =====
-- The actions of Scheduler/Policy keep every stable invariant.
use managed_agent_web_slack.Common.{Option, some, none, List}
use managed_agent_web_slack.Store.{Db, Context, Decision, PolicyCode, Request}
use managed_agent_web_slack.Runtime.Transaction.{Error, lost_claim}
use managed_agent_web_slack.Runtime.Review.{Offer}
use managed_agent_web_slack.Runtime.Requests.{InputRequest, tool_approval, clarification}
use managed_agent_web_slack.Scheduler.World.{
  Env, Effect, ToolPolicyRequest, ToolPolicyDecision, HumanReview, Ruling, advance,
}
use managed_agent_web_slack.Scheduler.Finish.Kept.{set_task_fields-Keeps}
use managed_agent_web_slack.Scheduler.Policy.{
  PolicyRound, judge_tool, clear_hold, record_review, publish_review, offer_review,
  publication_failed, publish_decision, apply_decision, judge_row, hold_row, row_failed,
  evaluate_row, lease_allows, evaluate_pending, evaluate_request, evaluate_policy,
  set_waiting_state,
}
use managed_agent_web_slack.Scheduler.Keeps.{Stable, Keeps, keep_moves}
use managed_agent_web_slack.Scheduler.Keeps.Rules.{keeps}
use managed_agent_web_slack.Scheduler.Keeps.Transactions.{
  Keeps-record_policy_decision, Keeps-record_human_review,
}

module _ {P : Db → List Effect → Type 0} (env : Env) (stable : Stable P) (round : PolicyRound) where
  judge_tool-Keeps :
      (q : ToolPolicyRequest) (r : Option Ruling) → Keeps P (judge_tool env round q r)
  unfolding judge_tool advance
  judge_tool-Keeps q r = record {
    at = λ w h. keep_moves env stable (env.meanwhile w.turn) w.db w.log h;
  }

  clear_hold-Keeps : Keeps P (clear_hold env round)
  unfolding clear_hold
  clear_hold-Keeps = search (keeps, set_task_fields-Keeps)

  record_review-Keeps : (r : Request) (o : Offer) → Keeps P (record_review env round r o)
  unfolding record_review
  record_review-Keeps r o = search (keeps, Keeps-record_human_review)

  publish_review-Keeps : (r : Request) (v : HumanReview) → Keeps P (publish_review env round r v)
  unfolding publish_review
  publish_review-Keeps r v = search (keeps, record_review-Keeps) depth 8

  offer_review-Keeps : (r : Request) (v : Option HumanReview) → Keeps P (offer_review env round r v)
  unfolding offer_review
  offer_review-Keeps r none = search (keeps)
  offer_review-Keeps r (some v) = search (keeps, publish_review-Keeps, clear_hold-Keeps)

  publication_failed-Keeps : (e : Error) → Keeps P (publication_failed env round e)
  unfolding publication_failed
  publication_failed-Keeps lost_claim = search (keeps)
  publication_failed-Keeps _ = search (keeps)

  publish_decision-Keeps : (r : Request) (d : Decision) → Keeps P (publish_decision env round r d)
  unfolding publish_decision
  publish_decision-Keeps r d =
      search (keeps, Keeps-record_policy_decision, publication_failed-Keeps, clear_hold-Keeps) depth
        8

  apply_decision-Keeps :
      (r : Request) (d : ToolPolicyDecision) → Keeps P (apply_decision env round r d)
  unfolding apply_decision
  apply_decision-Keeps r d =
      search (keeps, offer_review-Keeps, record_review-Keeps, publish_decision-Keeps) depth 7

  judge_row-Keeps : (r : Request) → Keeps P (judge_row env round r)
  unfolding judge_row
  judge_row-Keeps r = search (keeps, judge_tool-Keeps, apply_decision-Keeps) depth 7

  hold_row-Keeps : (r : Request) (c : PolicyCode) → Keeps P (hold_row env round r c)
  unfolding hold_row
  hold_row-Keeps r c = search (keeps, record_review-Keeps, set_task_fields-Keeps) depth 7

  row_failed-Keeps : (r : Request) (e : Error) → Keeps P (row_failed env round r e)
  unfolding row_failed
  row_failed-Keeps r lost_claim = search (keeps)
  row_failed-Keeps r _ = search (hold_row-Keeps)

  evaluate_row-Keeps : (r : Request) → Keeps P (evaluate_row env round r)
  unfolding evaluate_row
  evaluate_row-Keeps r = search (keeps, judge_row-Keeps, row_failed-Keeps)

  lease_allows-Keeps : (c : Context) → Keeps P (lease_allows env round c)
  unfolding lease_allows
  lease_allows-Keeps c = search (keeps)

  evaluate_pending-Keeps : (r : Request) → Keeps P (evaluate_pending env round r)
  unfolding evaluate_pending
  evaluate_pending-Keeps r = search (keeps, evaluate_row-Keeps, lease_allows-Keeps) depth 12

  evaluate_request-Keeps : (r : InputRequest) → Keeps P (evaluate_request env round r)
  unfolding evaluate_request
  evaluate_request-Keeps (clarification r) = search (keeps)
  evaluate_request-Keeps (tool_approval r) = search (keeps, evaluate_pending-Keeps)

  pub evaluate_policy-Keeps : Keeps P (evaluate_policy env round)
  unfolding evaluate_policy
  evaluate_policy-Keeps = search (keeps, evaluate_request-Keeps) depth 7

  pub set_waiting_state-Keeps : Keeps P (set_waiting_state env round)
  unfolding set_waiting_state
  set_waiting_state-Keeps = search (keeps, set_task_fields-Keeps)
