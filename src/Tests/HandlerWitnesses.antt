-- ===== src/Tests/HandlerWitnesses.antt =====
-- The theorems on the Slack handlers at concrete inputs.
use managed_agent_web_slack.Common.{none, some, [], ◌∷◌, true, false}
use managed_agent_web_slack.Threads.Moves.Defs
use managed_agent_web_slack.Threads.Moves.Defs.{thread_moves}
use managed_agent_web_slack.Handlers.World.{World, answered, Env}
use managed_agent_web_slack.Handlers.Claims.{SlackMessage, attempt}
use managed_agent_web_slack.Handlers.Settles.{Settles}
use managed_agent_web_slack.Handlers.Released.{message, body_of, attempt-released}
use managed_agent_web_slack.Tests.ThreadWitnesses.{no_threads, lost}
use managed_agent_web_slack.Tests.SlackWitnesses.{claimed_slack_event}
use managed_agent_web_slack.Tests.TurnWitnesses.{turn_host}

abbrev handler_env : Env
handler_env = record {
  allowed = true;
  agent = some 6;
  ingress_id = 30;
  binding_id = 31;
  token = 40;
  publishes = λ n. true;
  slack_answers = λ n. true;
  creators = lost;
  turn = turn_host;
  message_id = λ team event. event;
  cancelled = none;
  task_view = none;
  continued = false;
  current_view = none;
  error_text = λ x. [];
  connects = λ n. true;
  commits = λ n. answered;
  others = λ n. [];
  slack_others = λ n. [];
}

abbrev slack_message : SlackMessage
slack_message = record {
  origin = record { team_id = 2; external_thread_id = 3; user_id = 4; event_id = 2 };
  message_ts = 11;
  is_channel_message = false;
  link = none;
  text = 104 ∷ 105 ∷ [];
}

abbrev handler_world : World
handler_world = record {
  threads = thread_moves (Defs.map_external_identity 90 5 6 2 4 ∷ []) no_threads;
  slack = claimed_slack_event;
  published = [];
}

attempt-released_example :
    Settles answered 6 2 40 (body_of handler_env (message slack_message none) 40 handler_world).1 (
      attempt handler_env 6 2 40
        (body_of handler_env (message slack_message none) 40)
        handler_world)
attempt-released_example =
    attempt-released handler_env (message slack_message none) 40 handler_world
