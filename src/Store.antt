-- ===== src/Store.antt =====
-- The controller's tables: cma_contexts, cma_tasks, cma_input_requests and
-- cma_clarification_requests, as the queries of
-- backend/src/managed_agents_app/cma_controller/repository.py and runtime_repository.py read and
-- write them. An identifier or object key is a number that stands for its text; 0 is the empty
-- text. A time is a number of seconds, and `now` is the server's CURRENT_TIMESTAMP.
use managed_agent_web_slack.Common.{
  ℕ, Option, some, List, Bool, true, false, ◌==◌, equals, after, ◌&&◌, any_row, find_row,
}

abbrev pub Key : Type 0
Key = ℕ

abbrev pub Time : Type 0
Time = ℕ

pub data LifecycleState : Type 0 where
  initializing ready failed : LifecycleState

pub data A2aState : Type 0 where
  submitted working completed failed canceled input_required rejected : A2aState

pub data InternalState : Type 0 where
  queued dispatching waiting input_required interrupting terminal : InternalState

-- The codes of `PolicyError`; `other` is one that only the policy engine raises.
pub data PolicyCode : Type 0 where
  unavailable invalid_request invalid_response runtime_timeout publication_failure : PolicyCode
  stale_review unpublished_decision : PolicyCode
  other : ℕ → PolicyCode

-- The texts of `held_reason`.
pub data HeldReason : Type 0 where
  context_failed input_required ambiguous_create ambiguous_send ambiguous_dispatch : HeldReason
  ambiguous_confirmation ambiguous_interrupt : HeldReason
  initial_input_not_visible input_event_not_returned : HeldReason
  policy : PolicyCode → HeldReason

pub data Status : Type 0 where
  pending resolving resolved : Status

pub data Decision : Type 0 where
  allow deny : Decision

pub record Context : Type 0 where
  pub context_id : Key
  pub creation_message_id : Key
  pub cma_session_id : Option Key
  pub lifecycle_state : LifecycleState
  pub next_sequence : ℕ
  pub active_task_id : Option Key
  pub scheduler_claim_id : Option Key
  pub scheduler_lease_expires_at : Option Time
  pub updated_at : Time

pub record Task : Type 0 where
  pub task_id : Key
  pub context_id : Key
  pub message_id : Key
  pub sequence : ℕ
  pub a2a_state : A2aState
  pub internal_state : InternalState
  pub cma_input_event_id : Option Key
  pub input_object_key : Option Key
  pub cma_predecessor_event_id : Option Key
  pub cma_terminal_event_id : Option Key
  pub dispatch_attempts : Option ℕ
  pub dispatch_attempted_at : Option Time
  pub next_dispatch_at : Option Time
  pub cancel_requested_at : Option Time
  pub cancel_attempted_at : Option Time
  pub held_reason : Option HeldReason
  pub created_at : Time
  pub updated_at : Time

-- A row of cma_input_requests, whose kind is always 'tool_approval'.
pub record Request : Type 0 where
  pub request_id : Key
  pub task_id : Key
  pub cma_event_id : Key
  pub status : Status
  pub decision : Option Decision
  pub confirmation_attempted_at : Option Time
  pub decision_reason_object_key : Option Key
  pub review_digest : Option Key
  pub review_authority : Option Key
  pub review_object_key : Option Key
  pub human_ruling : Option Decision
  pub created_at : Time
  pub updated_at : Time
  pub resolved_at : Option Time

-- A row of cma_clarification_requests, whose kind is always 'clarification'.
pub record Clarification : Type 0 where
  pub request_id : Key
  pub task_id : Key
  pub cma_event_id : Key
  pub status : Status
  pub answer_object_key : Option Key
  pub response_attempted_at : Option Time
  pub created_at : Time
  pub updated_at : Time
  pub resolved_at : Option Time

pub record Db : Type 0 where
  pub now : Time
  pub contexts : List Context
  pub tasks : List Task
  pub requests : List Request
  pub clarifications : List Clarification

-- Tests on enumerations, for the conditions of the queries.
abbrev pub is_failed : LifecycleState → Bool
is_failed LifecycleState.failed = true
is_failed _ = false

abbrev pub is_queued : InternalState → Bool
is_queued InternalState.queued = true
is_queued _ = false

abbrev pub is_terminal : InternalState → Bool
is_terminal InternalState.terminal = true
is_terminal _ = false

abbrev pub awaits_input : InternalState → Bool
awaits_input InternalState.input_required = true
awaits_input _ = false

abbrev pub is_pending : Status → Bool
is_pending Status.pending = true
is_pending _ = false

abbrev pub is_resolving : Status → Bool
is_resolving Status.resolving = true
is_resolving _ = false

abbrev pub is_resolved : Status → Bool
is_resolved Status.resolved = true
is_resolved _ = false

abbrev pub denies : Option Decision → Bool
denies (some Decision.deny) = true
denies _ = false

-- The lease test of every fenced statement: the context's row carries this claim, unexpired.
unfoldable pub leases : Key → Key → Time → Context → Bool
leases context_id claim_id now c =
    c.context_id == context_id
    && (equals c.scheduler_claim_id claim_id && after c.scheduler_lease_expires_at now)

unfoldable pub holds_lease : Key → Key → Db → Bool
holds_lease context_id claim_id db = any_row (leases context_id claim_id db.now) db.contexts

unfoldable pub context_of : Key → Db → Option Context
context_of context_id db = find_row (λ c. c.context_id == context_id) db.contexts

unfoldable pub task_of : Key → Db → Option Task
task_of task_id db = find_row (λ t. t.task_id == task_id) db.tasks
