-- ===== src/Handlers/Controls.antt =====
-- `_stop` and `_tool_confirmation` of handlers/agent_input.py.
use managed_agent_web_slack.Common.{
  ◌==◌, Option, none, some, Bool, true, false, not, ◌&&◌, ◌||◌, if◌then◌else◌, any_row,
}
use managed_agent_web_slack.Store.{Key}
use managed_agent_web_slack.Handlers.World.{
  slack_failed, service_failed, TaskView, Env, Action, ◌>>=◌, ◌>>◌, pure, or_raise, check,
  meanwhile, query,
}
use managed_agent_web_slack.Handlers.Claims.{
  stop_surface, interaction_surface, Origin, Confirmation, authorize, binding_of, owned_thread,
  complete, attempt, claimed,
}

-- `cancel_active_task`, and the agent's status.
abbrev pub cancel_in : Env → Option Key → Action (Option Key)
cancel_in e none = pure none
cancel_in e (some thread_id) = do
  task_id ← or_raise e.cancelled service_failed
  check (e.slack_answers 0) slack_failed
  pure task_id

-- The `try` of `_stop`.
unfoldable pub stop_body : Env → Origin → Key → Action (Unit {0})
stop_body e o k = do
  meanwhile e 1
  p ← query (authorize e o)
  b ← query (binding_of o)
  thread_id ← query (owned_thread p b)
  task_id ← cancel_in e thread_id
  meanwhile e 2
  complete e stop_surface o.event_id k thread_id task_id

unfoldable pub stop : Env → Origin → Action (Unit {0})
stop e o =
    meanwhile e 0
    >> claimed e stop_surface o.event_id
        (λ k. attempt e stop_surface o.event_id k (stop_body e o k))

abbrev pub still_pending : Confirmation → TaskView → Bool
still_pending c v = v.input_required && any_row (λ r. r == c.input_request_id) v.pending

-- After `continue_human_input` raised: the task is read again.
abbrev pub read_again : Env → Confirmation → Action Bool
read_again e c = do
  v ← or_raise e.current_view service_failed
  check (not (still_pending c v)) service_failed
  pure true

-- Was the request resolved before?
abbrev pub resolved : Env → Confirmation → TaskView → Action Bool
resolved e c v =
    if not (still_pending c v)
    then pure true
    else (if e.continued then pure false else read_again e c)

-- Slack's message and the agent's status.
abbrev pub confirm_in : Env → Confirmation → Bool → Action (Unit {0})
confirm_in e c was_resolved =
    check (not c.has_response_message || e.slack_answers 0) slack_failed
    >> check (was_resolved || e.slack_answers 1) slack_failed

abbrev pub confirm_thread : Env → Confirmation → Key → Option Key → Action (Unit {0})
confirm_thread e c k none = complete e interaction_surface c.origin.event_id k none none
confirm_thread e c k (some thread_id) = do
  v ← or_raise e.task_view service_failed
  was_resolved ← resolved e c v
  confirm_in e c was_resolved
  meanwhile e 2
  complete e interaction_surface c.origin.event_id k (some thread_id) (some c.task_id)

-- The `try` of `_tool_confirmation`.
unfoldable pub confirmation_body : Env → Confirmation → Key → Action (Unit {0})
confirmation_body e c k = do
  meanwhile e 1
  p ← query (authorize e c.origin)
  b ← query (binding_of c.origin)
  thread_id ← query (owned_thread p b)
  confirm_thread e c k thread_id

unfoldable pub tool_confirmation : Env → Confirmation → Action (Unit {0})
tool_confirmation e c =
    meanwhile e 0
    >> claimed e interaction_surface c.origin.event_id
        (λ k. attempt e interaction_surface c.origin.event_id k (confirmation_body e c k))
