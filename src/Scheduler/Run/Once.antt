-- ===== src/Scheduler/Run/Once.antt =====
-- A run of the scheduler confirms each tool call at most once per attempt that the table records.
use managed_agent_web_slack.Store.{Key}
use managed_agent_web_slack.Scheduler.World.{Env, World}
use managed_agent_web_slack.Scheduler.Confirm.Once.{OncePerAttempt, OncePerAttempt-Stable}
use managed_agent_web_slack.Scheduler.Confirm.Loop.{reconcile_confirmations-once}
use managed_agent_web_slack.Scheduler.Run.{run_once}
use managed_agent_web_slack.Scheduler.Run.Kept.{run_once-Keeps}

-- For every behaviour of the services and every interleaving with other workers: a scheduler run
-- that starts with distinct request ids, and with no more `confirm_tool` calls logged for any
-- provider event than requests of that event are marked as attempted, ends so, whether it returns
-- or raises.
pub run_once-OncePerAttempt :
    (env : Env) (context_id : Key) (w : World)
    → OncePerAttempt w.db w.log
    → OncePerAttempt (run_once env context_id w).1.db (run_once env context_id w).1.log
run_once-OncePerAttempt env context_id w h =
    (run_once-Keeps env OncePerAttempt-Stable (reconcile_confirmations-once env) context_id).at w h
