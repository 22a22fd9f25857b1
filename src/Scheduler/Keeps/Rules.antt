-- ===== src/Scheduler/Keeps/Rules.antt =====
-- The rules of Keeps as one set for `search`.
use managed_agent_web_slack.Scheduler.Keeps.{
  Keeps-pure, Keeps-raise, Keeps-attempt, Keeps-if, Keeps-bind, Keeps-maybe, Keeps-on_outcome,
  Keeps-for_each, Keeps-for_all, Keeps-new_key, Keeps-ask, Keeps-call, Keeps-read,
}

pub ruleset keeps = (
  Keeps-pure, Keeps-raise, Keeps-attempt, Keeps-if, Keeps-bind, Keeps-maybe, Keeps-on_outcome,
  Keeps-for_each, Keeps-for_all, Keeps-new_key, Keeps-ask, Keeps-call, Keeps-read,
)
