-- ===== src/Scheduler/Run/Sends.antt =====
-- What a dispatch into an open session does to its task.
use managed_agent_web_slack.Common.{ℕ, ◌≡◌}
use managed_agent_web_slack.Store.{Key}
use managed_agent_web_slack.Scheduler.World.{Env, World, rejected}
use managed_agent_web_slack.Scheduler.Keeps.{Keeps}
use managed_agent_web_slack.Scheduler.Finish.Holds.{Holds}

-- The provider refuses no message for good.
abbrev pub NoneRejected : Env → Type 0
NoneRejected env =
    (turn : ℕ) (session text : Key) → ¬ (env.send_message turn session text ≡ rejected)
