-- ===== src/Push/Claims.antt =====
-- The delivery claims of push_repository.py: `reset_delivery`, `claim`, `claimed`, `finish` and
-- `release`, each one conditional UPDATE of cma_push_configs.
pub mod Moves
pub mod Leases
use managed_agent_web_slack.Common.{
  ℕ, zero, suc, ◌+◌, ◌==◌, equals, after, reached, Option, none, some, List, Bool, true, false,
  ◌&&◌, ◌||◌, not, if◌then◌else◌, any_row, find_row, update_where, is_none, is_some,
}
use managed_agent_web_slack.Store.{Key, Time}
use managed_agent_web_slack.Push.Configs.{PushConfig, PushDb, of_key, live_key}

-- `delivery_claim_id IS NULL OR delivery_lease_expires_at <= CURRENT_TIMESTAMP`
abbrev pub unclaimed : Time → PushConfig → Bool
unclaimed now p = is_none p.delivery_claim_id || reached p.delivery_lease_expires_at now

abbrev pub resettable : Key → Key → Time → PushConfig → Bool
resettable task_id config_id now p = live_key task_id config_id p && unclaimed now p

abbrev pub reset_row : Time → PushConfig → PushConfig
reset_row now p = record p {
  permanent_failure_at = none;
  attempt_count = 0;
  next_attempt_at = none;
  delivery_claim_id = none;
  delivery_lease_expires_at = none;
  updated_at = now;
}

-- A conditional UPDATE: does it find a row, and the tables after it.
abbrev pub update_configs : (PushConfig → Bool) → (PushConfig → PushConfig) → PushDb → Bool × PushDb
update_configs p f db = (any_row p db.configs, record db { configs = update_where p f db.configs })

unfoldable pub reset_delivery : Key → Key → PushDb → Bool × PushDb
reset_delivery task_id config_id db =
    update_configs (resettable task_id config_id db.base.now) (reset_row db.base.now) db

-- The row may be claimed: live, not failed for good, due and unclaimed.
unfoldable pub deliverable : Key → Key → Time → PushConfig → Bool
deliverable task_id config_id now p =
    live_key task_id config_id p
    && (is_none p.permanent_failure_at
        && ((is_none p.next_attempt_at || reached p.next_attempt_at now) && unclaimed now p))

abbrev pub claimed_row : Key → Time → PushConfig → PushConfig
claimed_row claim_id expires p = record p {
  delivery_claim_id = some claim_id;
  delivery_lease_expires_at = some expires;
}

-- `claim_id` is the fresh UUID of the call.
unfoldable pub claim_delivery : Key → Key → Key → ℕ → PushDb → Option Key × PushDb
unfolding deliverable
claim_delivery claim_id task_id config_id lease_seconds db =
    let (found, db') =
      update_configs (deliverable task_id config_id db.base.now)
        (claimed_row claim_id (db.base.now + lease_seconds)) db in
    (if found then some claim_id else none, db')

-- `delivery_claim_id = %s AND delivery_lease_expires_at > CURRENT_TIMESTAMP`
abbrev pub held_by : Key → Time → PushConfig → Bool
held_by claim_id now p =
    equals p.delivery_claim_id claim_id && after p.delivery_lease_expires_at now

unfoldable pub claimed : Key → Key → Key → PushDb → Bool
claimed task_id config_id claim_id db =
    any_row
      (λ p. of_key task_id config_id p && (held_by claim_id db.base.now p && is_none p.deleted_at))
      db.configs

-- How a delivery ended: `fingerprint` given, `permanent`, or a retry after seconds.
pub data Delivery : Type 0 where
  delivered : Key → Delivery
  permanent : Delivery
  retry : Option ℕ → Delivery

-- `retry_seconds or 5`
abbrev pub or_five : Option ℕ → ℕ
or_five none = 5
or_five (some zero) = 5
or_five (some (suc n)) = suc n

abbrev unclaimed_row : Time → PushConfig → PushConfig
unclaimed_row now p = record p {
  delivery_claim_id = none;
  delivery_lease_expires_at = none;
  last_attempt_at = some now;
  updated_at = now;
}

unfoldable pub finished_row : Delivery → Time → PushConfig → PushConfig
finished_row (Delivery.delivered fingerprint) now p = record (unclaimed_row now p) {
  last_delivered_fingerprint = some fingerprint;
  last_delivered_at = some now;
  attempt_count = 0;
  next_attempt_at = none;
}
finished_row Delivery.permanent now p = record (unclaimed_row now p) {
  attempt_count = suc p.attempt_count;
  permanent_failure_at = some now;
}
finished_row (Delivery.retry seconds) now p = record (unclaimed_row now p) {
  attempt_count = suc p.attempt_count;
  next_attempt_at = some (now + or_five seconds);
}

abbrev pub held_row : Key → Key → Key → Time → PushConfig → Bool
held_row task_id config_id claim_id now p = of_key task_id config_id p && held_by claim_id now p

unfoldable pub finish_delivery : Key → Key → Key → Delivery → PushDb → Bool × PushDb
unfolding finished_row
finish_delivery task_id config_id claim_id delivery db =
    update_configs (held_row task_id config_id claim_id db.base.now)
      (finished_row delivery db.base.now) db

abbrev released_row : PushConfig → PushConfig
released_row p = record p { delivery_claim_id = none; delivery_lease_expires_at = none }

abbrev pub claim_row : Key → Key → Key → PushConfig → Bool
claim_row task_id config_id claim_id p =
    of_key task_id config_id p && equals p.delivery_claim_id claim_id

unfoldable pub release_delivery : Key → Key → Key → PushDb → PushDb
release_delivery task_id config_id claim_id db =
    (update_configs (claim_row task_id config_id claim_id) released_row db).1
