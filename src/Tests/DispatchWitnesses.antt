-- ===== src/Tests/DispatchWitnesses.antt =====
-- The theorems on a dispatch at concrete inputs.
use managed_agent_web_slack.Runtime.Lease.{claim_scheduler}
use managed_agent_web_slack.Scheduler.World.{Env, World, failed}
use managed_agent_web_slack.Tests.Fixtures.{tables, services, world}

-- The provider's answer to a message is lost.
abbrev lossy : Env
lossy = record services { send_message = λ turn session text. failed }

abbrev claimed_world : World
claimed_world = record world { db = (claim_scheduler 80 10 60 tables).1 }
