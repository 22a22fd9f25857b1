-- ===== src/Threads/Sends.antt =====
-- Logical sends: `record_logical_send`, `bind_task_id` and the reads of agent_tasks of
-- db/thread_repository.py.
use managed_agent_web_slack.Common.{
  ◌==◌, ltb, equals, Option, none, some, List, [], ◌∷◌, ◌++◌, Bool, ◌&&◌, ◌||◌, not, if◌then◌else◌,
  any_row, find_row, select, update_where, is_none, is_some,
}
use managed_agent_web_slack.Store.{Key, Time}
use managed_agent_web_slack.Runtime.Requests.{sorted}
use managed_agent_web_slack.Threads.{
  SubmissionStatus, LogicalSend, ThreadDb, Outcome, ok, err, value_error, key_error,
  binding_conflict, unique_violation, is_pending, is_bound, get_thread,
}
use managed_agent_web_slack.Threads.Creation.{update_threads}

abbrev pub of_message : Key → Key → LogicalSend → Bool
of_message thread_id message_id s = s.thread_id == thread_id && s.client_message_id == message_id

abbrev pub new_send : Key → Key → Key → Key → Time → LogicalSend
new_send id thread_id agent_id message_id now = record {
  task_binding_id = id;
  thread_id = thread_id;
  agent_id = agent_id;
  client_message_id = message_id;
  task_id = none;
  submission_status = SubmissionStatus.pending;
  created_at = now;
  updated_at = now;
}

-- `INSERT INTO agent_tasks … ON CONFLICT (thread_id, client_message_id) DO UPDATE … RETURNING *`.
unfoldable pub upsert_send : LogicalSend → ThreadDb → Outcome LogicalSend × ThreadDb
upsert_send row db = elim (find_row (of_message row.thread_id row.client_message_id) db.sends) [
  | some s ↦ (ok s, db)
  | none ↦
      if any_row (λ s. s.task_binding_id == row.task_binding_id) db.sends
      then (err unique_violation, db)
      else (ok row, record db { sends = db.sends ++ row ∷ [] })
]

abbrev pub touch_thread : Key → ThreadDb → ThreadDb
touch_thread thread_id db =
    (update_threads (λ t. t.thread_id == thread_id) (λ t. record t { updated_at = db.now }) db).1

-- The checks after the INSERT; an exception rolls it back to `before`.
abbrev pub keep_send :
    Key → Key → Outcome LogicalSend × ThreadDb → ThreadDb → Outcome LogicalSend × ThreadDb
keep_send thread_id agent_id (err e, reached) before = (err e, before)
keep_send thread_id agent_id (ok row, reached) before =
    if row.agent_id == agent_id
    then (ok row, touch_thread thread_id reached)
    else (err binding_conflict, before)

unfoldable pub record_logical_send :
    Key → Key → Key → Key → ThreadDb → Outcome LogicalSend × ThreadDb
unfolding upsert_send get_thread
record_logical_send fresh thread_id agent_id message_id db =
    if message_id == 0 then (err value_error, db) else elim (get_thread thread_id db) [
      | none ↦ (err key_error, db)
      | some t ↦
          if t.agent_id == agent_id
          then keep_send thread_id agent_id
              (upsert_send (new_send fresh thread_id agent_id message_id db.now) db) db
          else (err binding_conflict, db)
    ]

unfoldable pub unbound_row : Key → Key → LogicalSend → Bool
unbound_row thread_id message_id s =
    of_message thread_id message_id s && (is_pending s.submission_status && is_none s.task_id)

abbrev pub bound_row : Key → Time → LogicalSend → LogicalSend
bound_row task_id now s = record s {
  task_id = some task_id;
  submission_status = SubmissionStatus.bound;
  updated_at = now;
}

-- `UNIQUE (agent_id, task_id)`: another send of the agent has the task.
abbrev pub task_taken : LogicalSend → Key → ThreadDb → Bool
task_taken row task_id db =
    any_row
      (λ s.
        not (s.task_binding_id == row.task_binding_id)
        && (s.agent_id == row.agent_id && equals s.task_id task_id))
      db.sends

unfoldable pub bind_task_id : Key → Key → Key → ThreadDb → Outcome LogicalSend × ThreadDb
unfolding unbound_row
bind_task_id thread_id message_id task_id db =
    if task_id == 0
    then (err value_error, db)
    else elim (find_row (unbound_row thread_id message_id) db.sends) [
      | some s ↦ if task_taken s task_id db then (err binding_conflict, db) else (
        ok (bound_row task_id db.now s),
        record db {
          sends =
              update_where (unbound_row thread_id message_id) (bound_row task_id db.now) db.sends;
        },
      )
      | none ↦ elim (find_row (of_message thread_id message_id) db.sends) [
        | none ↦ (err key_error, db)
        | some s ↦
            if equals s.task_id task_id && is_bound s.submission_status
            then (ok s, db)
            else (err binding_conflict, db)
      ]
    ]

unfoldable pub get_task_binding : Key → Key → ThreadDb → Option LogicalSend
get_task_binding agent_id task_id db =
    find_row (λ s. s.agent_id == agent_id && equals s.task_id task_id) db.sends

unfoldable pub get_task_binding_by_message : Key → Key → ThreadDb → Option LogicalSend
get_task_binding_by_message thread_id message_id db =
    find_row (of_message thread_id message_id) db.sends

-- `ORDER BY created_at, task_binding_id`
abbrev pub oldest_first : LogicalSend → LogicalSend → Bool
oldest_first x y =
    ltb x.created_at y.created_at
    || (x.created_at == y.created_at && ltb x.task_binding_id y.task_binding_id)

unfoldable pub list_task_bindings : Key → ThreadDb → List LogicalSend
unfolding sorted
list_task_bindings thread_id db =
    sorted oldest_first (select (λ s. s.thread_id == thread_id) db.sends)

-- `ORDER BY created_at DESC, task_binding_id DESC LIMIT 1`
unfoldable pub get_latest_task_binding : Key → ThreadDb → Option LogicalSend
unfolding sorted
get_latest_task_binding thread_id db =
    elim (sorted (λ x y. oldest_first y x)
      (select (λ s. s.thread_id == thread_id && is_some s.task_id) db.sends)) [
        | [] ↦ none
        | s ∷ _ ↦ some s
      ]
