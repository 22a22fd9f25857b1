-- ===== src/Runtime/Identity.antt =====
-- CmaControllerRepository of cma_controller/repository.py: context and task identity. `operation`
-- runs under `with_dsql_retry`, whose failed attempts leave no trace.
use managed_agent_web_slack.Common.{
  ℕ, ◌==◌, equals, Option, none, some, [], ◌∷◌, ◌++◌, Bool, true, false, ◌&&◌, ◌||◌, if◌then◌else◌,
  find_row, any_row, update_where, is_none, ltb,
}
use managed_agent_web_slack.Store.{
  Key, LifecycleState, A2aState, InternalState, Context, Task, Db, context_of,
}
use managed_agent_web_slack.Runtime.Transaction.{
  Transaction, ok, err, value_error, key_error, identity_conflict, unique_violation, external, pure,
  raise, atomically, or_raise, query, execute, raise_if, except_unique, ◌>>=◌, ◌>>◌,
}

-- A row as the INSERT of cma_contexts writes it, with the column defaults of the schema.
unfoldable pub new_context : Key → Key → ℕ → Context
new_context id message_id now = record {
  context_id = id;
  creation_message_id = message_id;
  cma_session_id = none;
  lifecycle_state = LifecycleState.initializing;
  next_sequence = 1;
  active_task_id = none;
  scheduler_claim_id = none;
  scheduler_lease_expires_at = none;
  updated_at = now;
}

unfoldable pub find_context_by_creation_message_id : Key → Db → Option Context
find_context_by_creation_message_id message_id db =
    find_row (λ c. c.creation_message_id == message_id) db.contexts

-- `INSERT … ON CONFLICT (creation_message_id) DO UPDATE … RETURNING *`.
unfoldable pub upsert_context : Key → Key → Transaction Context
unfolding find_context_by_creation_message_id new_context context_of
upsert_context id message_id db = elim (find_context_by_creation_message_id message_id db) [
  | some existing ↦ (ok existing, db)
  | none ↦ elim (context_of id db) [
    | some _ ↦ (err unique_violation, db)
    | none ↦
        let row = new_context id message_id db.now in
        (ok row, record db { contexts = db.contexts ++ row ∷ [] })
  ]
]

unfoldable pub create_initializing_context : Key → Key → Transaction Context
unfolding upsert_context
create_initializing_context id message_id =
    raise_if (id == 0 || message_id == 0) value_error
    >> except_unique (atomically (upsert_context id message_id)) (raise identity_conflict)

abbrev is_bound : Key → Context → Bool
is_bound session c =
    equals c.cma_session_id session
    && elim c.lifecycle_state [ LifecycleState.ready ↦ true | _ ↦ false ]

abbrev pub bound_to : Key → ℕ → Context → Context
bound_to session now c = record c {
  cma_session_id = some session;
  lifecycle_state = LifecycleState.ready;
  updated_at = now;
}

-- Another context with the session is a unique violation.
bind_unbound : Key → Key → Context → Transaction Context
bind_unbound id session c = do
  taken ← query (λ db. any_row (λ r. equals r.cma_session_id session) db.contexts)
  raise_if taken unique_violation
  now ← query (λ db. db.now)
  execute (λ db. record db {
    contexts =
        update_where (λ r. r.context_id == id && is_none r.cma_session_id) (bound_to session now)
          db.contexts;
  })
  pure (bound_to session now c)

bind_or_compare : Key → Key → Transaction Context
unfolding context_of bind_unbound
bind_or_compare id session = do
  found ← query (context_of id)
  c ← or_raise found key_error
  if is_none c.cma_session_id
      then bind_unbound id session c
      else (if is_bound session c then pure c else raise identity_conflict)

unfoldable pub bind_cma_session : Key → Key → Transaction Context
unfolding bind_or_compare
bind_cma_session id session =
    raise_if (session == 0) value_error
    >> except_unique (atomically (bind_or_compare id session)) (raise identity_conflict)

unfoldable pub find_task_by_message_id : Key → Key → Db → Option Task
find_task_by_message_id context_id message_id db =
    find_row (λ t. t.context_id == context_id && t.message_id == message_id) db.tasks

-- A row as the INSERT of cma_tasks writes it.
unfoldable pub new_task : Key → Key → Key → ℕ → A2aState → InternalState → ℕ → Task
new_task id context_id message_id sequence a2a_state internal_state now = record {
  task_id = id;
  context_id = context_id;
  message_id = message_id;
  sequence = sequence;
  a2a_state = a2a_state;
  internal_state = internal_state;
  cma_input_event_id = none;
  input_object_key = none;
  cma_predecessor_event_id = none;
  cma_terminal_event_id = none;
  dispatch_attempts = none;
  dispatch_attempted_at = none;
  next_dispatch_at = none;
  cancel_requested_at = none;
  cancel_attempted_at = none;
  held_reason = none;
  created_at = now;
  updated_at = now;
}

-- The two other unique keys of cma_tasks: its id, and its number within the context.
abbrev pub task_conflicts : Key → Key → ℕ → Db → Bool
task_conflicts id context_id sequence db =
    any_row (λ t. t.task_id == id || (t.context_id == context_id && t.sequence == sequence))
      db.tasks

-- `INSERT INTO cma_tasks`; the foreign key to cma_contexts is the last thing that it checks.
unfoldable pub insert_task : Task → Transaction Task
unfolding context_of
insert_task row = do
  conflict ← query (task_conflicts row.task_id row.context_id row.sequence)
  raise_if conflict unique_violation
  parent ← query (context_of row.context_id)
  or_raise parent external
  execute (λ db. record db { tasks = db.tasks ++ row ∷ [] })
  pure row

-- `INSERT … ON CONFLICT (context_id, message_id) DO UPDATE … RETURNING *`.
upsert_task : Key → Key → Key → ℕ → A2aState → InternalState → Transaction Task
unfolding find_task_by_message_id insert_task new_task
upsert_task id context_id message_id sequence a2a_state internal_state = do
  existing ← query (find_task_by_message_id context_id message_id)
  now ← query (λ db. db.now)
  elim existing [
    | some t ↦ pure t
    | none ↦ insert_task (new_task id context_id message_id sequence a2a_state internal_state now)
  ]

unfoldable pub create_task : Key → Key → Key → ℕ → A2aState → InternalState → Transaction Task
unfolding upsert_task
create_task id context_id message_id sequence a2a_state internal_state =
    raise_if (id == 0 || (context_id == 0 || (message_id == 0 || ltb sequence 1))) value_error
    >> except_unique
        (atomically (upsert_task id context_id message_id sequence a2a_state internal_state))
        (raise identity_conflict)

unfoldable pub context_for_session : Key → Db → Option Context
context_for_session session db = find_row (λ c. equals c.cma_session_id session) db.contexts
