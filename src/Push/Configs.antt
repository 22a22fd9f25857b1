-- ===== src/Push/Configs.antt =====
-- The table cma_push_configs and the queries of push_repository.py on it that need no delivery
-- claim. The table is joined with cma_tasks, so the tables are those of the controller and the
-- configurations. Identifiers are numbers in the order of their texts.
use managed_agent_web_slack.Common.{
  ℕ, zero, suc, ◌==◌, ltb, Option, none, some, List, [], ◌∷◌, ◌++◌, Bool, ◌&&◌, ◌||◌, not,
  if◌then◌else◌, any_row, find_row, select, update_where, is_none, is_some,
}
use managed_agent_web_slack.Store.{Key, Time, A2aState, Db, task_of}
use managed_agent_web_slack.Runtime.Transaction.{Result, ok, err, key_error, value_error}
use managed_agent_web_slack.Runtime.Requests.{sorted}

pub record PushConfig : Type 0 where
  pub task_id : Key
  pub config_id : Key
  pub url : Key
  pub last_delivered_fingerprint : Option Key
  pub attempt_count : ℕ
  pub next_attempt_at : Option Time
  pub last_attempt_at : Option Time
  pub last_delivered_at : Option Time
  pub delivery_claim_id : Option Key
  pub delivery_lease_expires_at : Option Time
  pub permanent_failure_at : Option Time
  pub deleted_at : Option Time
  pub created_at : Time
  pub updated_at : Time

pub record PushDb : Type 0 where
  pub base : Db
  pub configs : List PushConfig

abbrev pub of_key : Key → Key → PushConfig → Bool
of_key task_id config_id p = p.task_id == task_id && p.config_id == config_id

-- A configuration that is not deleted.
abbrev pub live_key : Key → Key → PushConfig → Bool
live_key task_id config_id p = of_key task_id config_id p && is_none p.deleted_at

abbrev pub new_config : Key → Key → Key → Time → PushConfig
new_config task_id config_id url now = record {
  task_id = task_id;
  config_id = config_id;
  url = url;
  last_delivered_fingerprint = none;
  attempt_count = 0;
  next_attempt_at = none;
  last_attempt_at = none;
  last_delivered_at = none;
  delivery_claim_id = none;
  delivery_lease_expires_at = none;
  permanent_failure_at = none;
  deleted_at = none;
  created_at = now;
  updated_at = now;
}

abbrev touched : Time → PushConfig → PushConfig
touched now p = record p { updated_at = now }

-- `INSERT … ON CONFLICT (task_id, config_id) DO UPDATE … RETURNING *`: the row and the rows after.
abbrev pub upsert_config : Key → Key → Key → PushDb → PushConfig × List PushConfig
upsert_config task_id config_id url db = elim (find_row (of_key task_id config_id) db.configs) [
  | none ↦ let row = new_config task_id config_id url db.base.now in (row, db.configs ++ row ∷ [])
  | some row ↦ (
    touched db.base.now row,
    update_where (of_key task_id config_id) (touched db.base.now) db.configs,
  )
]

-- PushConfigConflict is a ValueError.
unfoldable pub create_config : Key → Key → Key → PushDb → Result PushConfig × PushDb
create_config task_id config_id url db =
    if is_none (task_of task_id db.base)
    then (err key_error, db)
    else (let (row, rows) = upsert_config task_id config_id url db in
        if not (row.url == url) || is_some row.deleted_at
        then (err value_error, db)
        else (ok row, record db { configs = rows }))

unfoldable pub get_config : Key → Key → PushDb → Option PushConfig
get_config task_id config_id db = find_row (live_key task_id config_id) db.configs

-- `ORDER BY p.task_id, p.config_id`
abbrev by_key : PushConfig → PushConfig → Bool
by_key p q = ltb p.task_id q.task_id || (p.task_id == q.task_id && ltb p.config_id q.config_id)

unfoldable pub list_permanently_failed : PushDb → List PushConfig
unfolding sorted
list_permanently_failed db = sorted by_key (
    select
      (λ p.
        is_some (task_of p.task_id db.base)
        && (is_none p.deleted_at && is_some p.permanent_failure_at))
      db.configs)

-- `LIMIT`
abbrev pub first_configs : ℕ → List PushConfig → List PushConfig
first_configs zero rows = []
first_configs (suc n) [] = []
first_configs (suc n) (p ∷ rows) = p ∷ first_configs n rows

unfoldable pub list_configs : Key → Key → ℕ → PushDb → List PushConfig
unfolding sorted
list_configs task_id after_id limit db = first_configs limit (
    sorted (λ p q. ltb p.config_id q.config_id)
      (select (λ p. p.task_id == task_id && (ltb after_id p.config_id && is_none p.deleted_at))
        db.configs))

abbrev pub deleted : Time → PushConfig → PushConfig
deleted now p = record p { deleted_at = some now; updated_at = now }

unfoldable pub delete_config : Key → Key → PushDb → Bool × PushDb
delete_config task_id config_id db = (
  any_row (live_key task_id config_id) db.configs,
  record db {
    configs = update_where (live_key task_id config_id) (deleted db.base.now) db.configs;
  },
)

-- The state of the task that a configuration is joined with, if it is of the context.
abbrev pub state_in : Key → PushDb → PushConfig → Option A2aState
state_in context_id db p = elim (task_of p.task_id db.base) [
  | none ↦ none
  | some t ↦ if t.context_id == context_id then some t.a2a_state else none
]

-- A row of the join: the configuration and its task's state.
abbrev with_state : Key → PushDb → List PushConfig → List (PushConfig × A2aState)
with_state context_id db [] = []
with_state context_id db (p ∷ rows) =
    let rest = with_state context_id db rows in
    elim (state_in context_id db p) [ none ↦ rest | some s ↦ (p, s) ∷ rest ]

unfoldable pub list_context : Key → PushDb → List (PushConfig × A2aState)
unfolding sorted
list_context context_id db = with_state context_id db (
    sorted by_key (select (λ p. is_none p.deleted_at && is_none p.permanent_failure_at) db.configs))
