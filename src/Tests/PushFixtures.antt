-- ===== src/Tests/PushFixtures.antt =====
-- A push configuration whose delivery is claimed, and a receiver that answers 503.
use managed_agent_web_slack.Common.{none, some, [], ◌∷◌, true, false}
use managed_agent_web_slack.Push.Configs.{PushConfig, PushDb}
use managed_agent_web_slack.Push.Dispatcher.{PushEnv, PushWorld}
use managed_agent_web_slack.Tests.Fixtures.{tables}

abbrev pub config : PushConfig
config = record {
  task_id = 20;
  config_id = 5;
  url = 7;
  last_delivered_fingerprint = none;
  attempt_count = 1;
  next_attempt_at = none;
  last_attempt_at = none;
  last_delivered_at = none;
  delivery_claim_id = none;
  delivery_lease_expires_at = none;
  permanent_failure_at = none;
  deleted_at = none;
  created_at = 90;
  updated_at = 90;
}

abbrev pub push_tables : PushDb
push_tables = record { base = tables; configs = config ∷ [] }

abbrev pub claimed_push_tables : PushDb
claimed_push_tables = record {
  base = tables;
  configs =
      record config { delivery_claim_id = some 90; delivery_lease_expires_at = some 130 } ∷ [];
}

abbrev pub busy_receiver : PushEnv
busy_receiver = record {
  meanwhile = λ turn. [];
  database_down = λ turn. false;
  fresh = λ turn. turn;
  clock = λ turn. 100;
  fingerprint_of = λ turn task_id. some 400;
  post = λ turn url print. some 503;
  schedule = λ turn context_id delay. true;
}

abbrev pub push_world : PushWorld
push_world = record { db = push_tables; log = []; turn = 1 }
