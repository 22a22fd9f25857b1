-- ===== src/Scheduler/Policy.antt =====
-- `_evaluate_policy` and `_set_waiting_state` of scheduler.py: a pending tool call is judged by the
-- policy engine, offered to a person, or held when the engine fails.
pub mod Kept
use Prim.Native.String.{String, ◌++◌}
use text.Mathlib.Text.{starts_with}
use managed_agent_web_slack.Common.{
  ◌+◌, equals, ltb, Option, none, some, List, [], ◌∷◌, Bool, true, false, ◌&&◌, ◌||◌, not, is_some,
  is_none, if◌then◌else◌, any_row, coalesce,
}
use managed_agent_web_slack.Store.{
  Key, A2aState, InternalState, PolicyCode, HeldReason, Decision, Context, Request, is_pending,
  is_resolved, context_of, task_of,
}
use managed_agent_web_slack.Runtime.Transaction.{
  Error, Result, ok, err, lost_claim, timeout, external, policy_failure,
}
use managed_agent_web_slack.Runtime.Lease.{TaskField}
use managed_agent_web_slack.Runtime.Review.{Offer, record_policy_decision, record_human_review}
use managed_agent_web_slack.Runtime.Requests.{
  InputRequest, tool_approval, clarification, event_of, list_input_requests, sorted,
}
use managed_agent_web_slack.Scheduler.Events.{
  Event, EventKind, ToolUse, ToolInput, text_of, truthy, position, lookup_event,
}
use managed_agent_web_slack.Scheduler.World.{
  Env, Effect, Action, ToolKind, ToolPolicyRequest, HumanReview, Verdict, ToolPolicyDecision,
  PolicyAnswer, Ruling, pure, raise, attempt, when, maybe, on_outcome, for_each, transact, read,
  advance, call, new_key, ◌>>=◌, ◌>>◌,
}
use managed_agent_web_slack.Scheduler.Finish.{set_task_fields}

-- A person still has to answer this row.
unfoldable pub awaits_human : InputRequest → Bool
awaits_human (clarification r) = not (is_resolved r.status)
awaits_human (tool_approval r) =
    is_some (truthy r.review_digest) && (is_none r.human_ruling && is_pending r.status)

-- The tool use of a source event, with its kind; `source["type"]` is not looked at beyond 'mcp'.
abbrev tool_of : EventKind → Option (ToolKind × ToolUse)
tool_of (EventKind.agent_mcp_tool_use u) = some (ToolKind.mcp, u)
tool_of (EventKind.agent_tool_use u) = some (ToolKind.builtin, u)
tool_of (EventKind.agent_custom_tool_use u) = some (ToolKind.builtin, u)
tool_of _ = none

-- `f"mcp/{server}/{name}"` for an MCP tool that has not the prefix yet.
abbrev server_name : Option String → String → Option String
server_name none name = none
server_name (some String.[]) name = none
server_name (some server) name = some ("mcp/" ++ server ++ "/" ++ name)

qualified_name : ToolKind → ToolUse → String → Option String
qualified_name ToolKind.builtin u name = some name
qualified_name ToolKind.mcp u name =
    if starts_with name "mcp/" then some name else server_name u.mcp_server_name name

-- `{}` for no input; an input that is no dictionary is refused.
abbrev arguments_of : ToolInput → Option Key
arguments_of ToolInput.absent = some 0
arguments_of (ToolInput.fields k _) = some k
arguments_of ToolInput.malformed = none

-- The request to the engine; `none` is 'policy-invalid-request'.
named_request : Key → Request → ToolKind → ToolUse → String → Option ToolPolicyRequest
unfolding qualified_name
named_request context_id r kind u name = elim (arguments_of u.input) [
  | none ↦ none
  | some arguments ↦ elim (qualified_name kind u name) [
    | none ↦ none
    | some qualified ↦ some (record {
      root_id = context_id;
      invocation_id = r.cma_event_id;
      tool_kind = kind;
      tool_name = qualified;
      arguments = arguments;
    })
  ]
]

tool_request : Key → Request → ToolKind × ToolUse → Option ToolPolicyRequest
unfolding named_request
tool_request context_id r (kind, u) = elim u.name [
  | none ↦ none
  | some name ↦ named_request context_id r kind u name
]

unfoldable pub request_for : Key → Request → Option Event → Option ToolPolicyRequest
unfolding tool_request
request_for context_id r none = none
request_for context_id r (some source) = elim (tool_of source.kind) [
  | none ↦ none
  | some t ↦ tool_request context_id r t
]

-- The ruling that goes with a review, `row.get("human_ruling")`.
abbrev ruling_of : Request → Option Ruling
ruling_of r = elim r.human_ruling [
  | none ↦ none
  | some d ↦ some (record {
    authority = text_of r.review_authority;
    fingerprint = text_of r.review_digest;
    ruling = d;
  })
]

-- A review was offered and no person has ruled on it.
unfoldable pub is_offered : Request → Bool
is_offered r = is_some (truthy r.review_digest) && is_none r.human_ruling

-- The code that is kept as the reason of the hold.
unfoldable pub reason_of : Error → PolicyCode
reason_of (policy_failure code) = code
reason_of timeout = PolicyCode.runtime_timeout
reason_of _ = PolicyCode.unavailable

abbrev is_stale : PolicyCode → Bool
is_stale PolicyCode.stale_review = true
is_stale _ = false

-- What a policy round works with.
pub record PolicyRound : Type 0 where
  pub context_id : Key
  pub task_id : Key
  pub claim : Key
  pub by_id : List (Key × Event)

abbrev withdrawn : Offer
withdrawn = record { digest = none; authority = none; object_key = none }

abbrev verdict_decision : Verdict → Option Decision
verdict_decision Verdict.allow = some Decision.allow
verdict_decision Verdict.deny = some Decision.deny
verdict_decision _ = none

abbrev asks_human : Verdict → Bool
asks_human Verdict.human_review = true
asks_human _ = false

module _ (env : Env) (round : PolicyRound) where
  open round use {context_id, task_id, claim, by_id}

  abbrev judged : PolicyAnswer → Result ToolPolicyDecision
  judged (PolicyAnswer.decision d) = ok d
  judged (PolicyAnswer.policy_error code) = err (policy_failure code)
  judged PolicyAnswer.timed_out = err timeout
  judged PolicyAnswer.broken = err external

  -- `evaluate_tool_call`, or `resolve_tool_call` when a person has ruled.
  judge_tool : ToolPolicyRequest → Option Ruling → Action ToolPolicyDecision
  judge_tool request ruling w = (judged (env.judge w.turn request ruling), advance env w)

  clear_hold : Action (Unit {0})
  clear_hold = set_task_fields env task_id context_id claim (TaskField.held_reason none ∷ [])

  record_review : Request → Offer → Action (Unit {0})
  record_review r offer = do
    fresh ← new_key env
    transact env (record_human_review context_id task_id claim r.request_id offer fresh)

  publish_review : Request → HumanReview → Action (Unit {0})
  unfolding record_review
  publish_review r review = do
    key ← new_key env
    call env (some (Effect.put_input key)) (λ turn. env.put_input turn key review.description)
    record_review r (record {
      digest = some review.fingerprint;
      authority = some review.authority;
      object_key = some key;
    })

  -- A review is offered again only when its fingerprint changed.
  offer_review : Request → Option HumanReview → Action (Unit {0})
  unfolding publish_review clear_hold
  offer_review r none = raise (policy_failure PolicyCode.invalid_response)
  offer_review r (some review) = do
    when (not (equals r.review_digest review.fingerprint)) (publish_review r review)
    clear_hold

  publication_failed : Error → Action (Unit {0})
  publication_failed lost_claim = raise lost_claim
  publication_failed _ = raise (policy_failure PolicyCode.publication_failure)

  publish_decision : Request → Decision → Action (Unit {0})
  unfolding publication_failed clear_hold
  publish_decision r d = do
    written ←
        attempt (transact env (record_policy_decision context_id task_id claim r.request_id d))
    on_outcome written pure publication_failed
    clear_hold

  -- An engine that no longer asks invalidates the offered review first.
  apply_decision : Request → ToolPolicyDecision → Action (Unit {0})
  unfolding offer_review record_review publish_decision
  apply_decision r d =
      if asks_human d.decision
      then offer_review r d.review
      else (if is_offered r
          then record_review r withdrawn
          else maybe (verdict_decision d.decision)
              (raise (policy_failure PolicyCode.invalid_response)) (publish_decision r))

  judge_row : Request → Action (Unit {0})
  unfolding judge_tool apply_decision
  judge_row r =
      if not env.has_policy_engine
      then raise (policy_failure PolicyCode.unavailable)
      else maybe (request_for context_id r (lookup_event r.cma_event_id by_id))
          (raise (policy_failure PolicyCode.invalid_request))
          λ request. judge_tool request (ruling_of r) >>= apply_decision r

  hold_row : Request → PolicyCode → Action (Option Bool)
  unfolding record_review
  hold_row r reason = do
    when (is_stale reason || is_offered r) (record_review r withdrawn)
    set_task_fields env task_id context_id claim
        (TaskField.held_reason (some (HeldReason.policy reason)) ∷ [])
    pure (some false)

  -- Any failure but a lost claim holds the task and ends the evaluation.
  row_failed : Request → Error → Action (Option Bool)
  unfolding hold_row
  row_failed r lost_claim = raise lost_claim
  row_failed r e = hold_row r (reason_of e)

  evaluate_row : Request → Action (Option Bool)
  unfolding judge_row row_failed
  evaluate_row r = do done ← attempt (judge_row r); on_outcome done (λ _. pure none) (row_failed r)

  -- Six seconds of lease must be left; with less the rest waits for the next round.
  lease_allows : Context → Action Bool
  lease_allows c = do
    now ← read env (λ db. db.now)
    maybe c.scheduler_lease_expires_at (raise external) λ expires. pure (ltb (now + 6) expires)

  evaluate_pending : Request → Action (Option Bool)
  unfolding evaluate_row lease_allows
  evaluate_pending r = do
    current ← read env (context_of context_id)
    maybe current (pure (some false)) λ c. do
      found ← read env (task_of task_id)
      maybe found (pure (some false)) λ t.
          if is_some t.cancel_requested_at
          then pure (some false)
          else do enough ← lease_allows c; if enough then evaluate_row r else pure (some true)

  evaluate_request : InputRequest → Action (Option Bool)
  unfolding evaluate_pending
  evaluate_request (clarification r) = pure none
  evaluate_request (tool_approval r) = if is_pending r.status then evaluate_pending r else pure none

  abbrev in_order : InputRequest → InputRequest → Bool
  in_order x y = ltb (position (event_of x) by_id) (position (event_of y) by_id)

  -- False when the round must end here.
  unfoldable pub evaluate_policy : Action Bool
  unfolding evaluate_request
  evaluate_policy = do
    rows ← read env (list_input_requests task_id)
    ended ← for_each (sorted in_order rows) evaluate_request
    pure (coalesce ended true)

  unfoldable pub set_waiting_state : Action (Unit {0})
  unfolding awaits_human
  set_waiting_state = do
    rows ← read env (list_input_requests task_id)
    let human = any_row awaits_human rows
    set_task_fields env task_id context_id claim (
        TaskField.internal_state
          (if human then InternalState.input_required else InternalState.waiting)
        ∷ TaskField.a2a_state (if human then A2aState.input_required else A2aState.working)
        ∷ [])
