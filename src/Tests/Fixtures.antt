-- ===== src/Tests/Fixtures.antt =====
-- A context with one active task whose tool call was allowed, and services that answer.
use managed_agent_web_slack.Common.{none, some, List, [], ◌∷◌, true, false}
use managed_agent_web_slack.Store.{
  LifecycleState, A2aState, InternalState, Status, Decision, Context, Task, Request, Db,
}
use managed_agent_web_slack.Scheduler.Events.{Event, EventKind, StatusKind, StopReason, ToolInput}
use managed_agent_web_slack.Scheduler.World.{
  Env, World, Verdict, PolicyAnswer, ToolPolicyDecision, replied,
}

abbrev pub context : Context
context = record {
  context_id = 10;
  creation_message_id = 11;
  cma_session_id = some 50;
  lifecycle_state = LifecycleState.ready;
  next_sequence = 2;
  active_task_id = some 20;
  scheduler_claim_id = none;
  scheduler_lease_expires_at = none;
  updated_at = 100;
}

abbrev pub task : Task
task = record {
  task_id = 20;
  context_id = 10;
  message_id = 11;
  sequence = 1;
  a2a_state = A2aState.working;
  internal_state = InternalState.waiting;
  cma_input_event_id = some 60;
  input_object_key = none;
  cma_predecessor_event_id = none;
  cma_terminal_event_id = none;
  dispatch_attempts = some 1;
  dispatch_attempted_at = some 100;
  next_dispatch_at = none;
  cancel_requested_at = none;
  cancel_attempted_at = none;
  held_reason = none;
  created_at = 90;
  updated_at = 100;
}

abbrev pub request : Request
request = record {
  request_id = 30;
  task_id = 20;
  cma_event_id = 70;
  status = Status.resolving;
  decision = some Decision.allow;
  confirmation_attempted_at = none;
  decision_reason_object_key = none;
  review_digest = none;
  review_authority = none;
  review_object_key = none;
  human_ruling = none;
  created_at = 95;
  updated_at = 96;
  resolved_at = none;
}

abbrev pub pending_request : Request
pending_request = record request { status = Status.pending; decision = none }

abbrev pub tables : Db
tables = record {
  now = 100;
  contexts = context ∷ [];
  tasks = task ∷ [];
  requests = request ∷ [];
  clarifications = [];
}

abbrev pub history : List Event
history =
    record { id = some 60; kind = EventKind.user_message }
    ∷ record {
      id = some 70;
      kind =
          EventKind.agent_tool_use
            (record { name = some "bash"; mcp_server_name = none; input = ToolInput.absent });
    }
    ∷ record {
      id = some 71;
      kind = EventKind.status false StatusKind.idle (StopReason.requires_action (70 ∷ []));
    }
    ∷ []

abbrev pub allowing : ToolPolicyDecision
allowing = record { decision = Verdict.allow; review = none }

abbrev pub services : Env
services = record {
  meanwhile = λ turn. [];
  database_down = λ turn. false;
  fresh = λ turn. 1000;
  approval_request_id = λ task event. 31;
  find_session = λ turn context message. replied none;
  create_session = λ turn context message text. replied 50;
  list_events = λ turn session. replied history;
  send_message = λ turn session text. replied (some 60);
  confirm_tool = λ turn session event approved reason. replied tt;
  send_custom_tool_result = λ turn session event answer is_error. replied tt;
  interrupt = λ turn session. replied tt;
  get_input = λ turn key. replied 5;
  put_input = λ turn key text. replied tt;
  delete_input = λ turn key. replied tt;
  list_old_keys = λ turn age. replied (40 ∷ []);
  has_policy_engine = true;
  judge = λ turn request ruling. PolicyAnswer.decision allowing;
  schedule = λ turn context delay. replied tt;
  has_push_trigger = true;
  schedule_push = λ turn context. replied tt;
  has_preview_trigger = false;
  start_preview = λ turn hint. replied tt;
}

abbrev pub world : World
world = record { db = tables; log = []; hints = []; turn = 0 }
