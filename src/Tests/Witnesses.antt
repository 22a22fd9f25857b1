-- ===== src/Tests/Witnesses.antt =====
-- The theorems at concrete inputs.
use managed_agent_web_slack.Common.{refl, List, [], ◌∷◌, arith}
use managed_agent_web_slack.Runtime.Moves.Defs.{
  Move, moves, claim_scheduler, mark_confirmation_attempted,
}
use managed_agent_web_slack.Runtime.Moves.Progress.{RequestsProgress, moves-RequestsProgress}
use managed_agent_web_slack.Scheduler.Confirm.Once.{OncePerAttempt, confirm_calls}
use managed_agent_web_slack.Scheduler.Run.{run_once}
use managed_agent_web_slack.Scheduler.Run.Once.{run_once-OncePerAttempt}
use managed_agent_web_slack.Tests.Fixtures.{tables, services, world}

world-OncePerAttempt : OncePerAttempt world.db world.log
unfolding confirm_calls
world-OncePerAttempt = record { unique = (refl, tt); bounded = λ e. omega arith }

run_once-OncePerAttempt_example :
    OncePerAttempt (run_once services 10 world).1.db (run_once services 10 world).1.log
run_once-OncePerAttempt_example = run_once-OncePerAttempt services 10 world world-OncePerAttempt

abbrev two_moves : List Move
two_moves = claim_scheduler 80 10 60 ∷ mark_confirmation_attempted 30 10 80 ∷ []

moves-RequestsProgress_example : RequestsProgress tables (moves two_moves tables)
moves-RequestsProgress_example = moves-RequestsProgress two_moves tables
