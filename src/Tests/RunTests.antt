-- ===== src/Tests/RunTests.antt =====
-- A claimed context: the first attempt at a confirmation is marked, the second is not.
use managed_agent_web_slack.Common.{◌≡◌, refl, true, false}
use managed_agent_web_slack.Store.{Db}
use managed_agent_web_slack.Runtime.Lease.{claim_scheduler}
use managed_agent_web_slack.Runtime.Review.{mark_confirmation_attempted}
use managed_agent_web_slack.Tests.Fixtures.{tables}

abbrev claimed_tables : Db
claimed_tables = (claim_scheduler 80 10 60 tables).1

marks_first : (mark_confirmation_attempted 30 10 80 claimed_tables).0 ≡ true
unfolding mark_confirmation_attempted claim_scheduler
marks_first = refl

marks_once :
    (mark_confirmation_attempted 30 10 80 (mark_confirmation_attempted 30 10 80 claimed_tables).1).0
    ≡ false
unfolding mark_confirmation_attempted claim_scheduler
marks_once = refl
