-- ===== src/Runtime/Requests.antt =====
-- Input requests of a task: those that wait for a tool's approval and those that wait for an
-- answer. `add_input_request` to `mark_clarification_attempted` and `resolve_input_request` of
-- runtime_repository.py.
use managed_agent_web_slack.Common.{
  ◌==◌, ltb, Option, none, some, List, [], ◌∷◌, ◌++◌, Bool, ◌&&◌, ◌||◌, not, if◌then◌else◌, any_row,
  find_row, select, update_where, is_none, is_some, map,
}
use managed_agent_web_slack.Store.{
  Key, Time, Status, Request, Clarification, Db, is_pending, is_resolving, is_resolved, is_terminal,
  awaits_input, holds_lease,
}
use managed_agent_web_slack.Runtime.Transaction.{Transaction, ok, err, unique_violation}

unfoldable pub new_request : Key → Key → Key → Time → Request
new_request id task_id event_id now = record {
  request_id = id;
  task_id = task_id;
  cma_event_id = event_id;
  status = Status.pending;
  decision = none;
  confirmation_attempted_at = none;
  decision_reason_object_key = none;
  review_digest = none;
  review_authority = none;
  review_object_key = none;
  human_ruling = none;
  created_at = now;
  updated_at = now;
  resolved_at = none;
}

unfoldable pub new_clarification : Key → Key → Key → Time → Clarification
new_clarification id task_id event_id now = record {
  request_id = id;
  task_id = task_id;
  cma_event_id = event_id;
  status = Status.pending;
  answer_object_key = none;
  response_attempted_at = none;
  created_at = now;
  updated_at = now;
  resolved_at = none;
}

abbrev pub asks_for : Key → Key → Request → Bool
asks_for task_id event_id r = r.task_id == task_id && r.cma_event_id == event_id

-- `INSERT … SELECT … FROM cma_contexts WHERE <lease> ON CONFLICT (task_id, cma_event_id) DO NOTHING`;
-- the id is the primary key.
unfoldable pub add_input_request : Key → Key → Key → Key → Key → Transaction (Unit {0})
unfolding holds_lease new_request
add_input_request id task_id event_id context_id claim_id db =
    if not (holds_lease context_id claim_id db) || any_row (asks_for task_id event_id) db.requests
    then (ok tt, db)
    else (if any_row (λ r. r.request_id == id) db.requests then (err unique_violation, db) else (
      ok tt,
      record db { requests = db.requests ++ new_request id task_id event_id db.now ∷ [] },
    ))

abbrev pub asks_answer : Key → Key → Clarification → Bool
asks_answer task_id event_id r = r.task_id == task_id && r.cma_event_id == event_id

unfoldable pub add_clarification_request : Key → Key → Key → Key → Key → Transaction (Unit {0})
unfolding holds_lease new_clarification
add_clarification_request id task_id event_id context_id claim_id db =
    if not (holds_lease context_id claim_id db)
      || any_row (asks_answer task_id event_id) db.clarifications
    then (ok tt, db)
    else (if any_row (λ r. r.request_id == id) db.clarifications
        then (err unique_violation, db)
        else (
          ok tt,
          record db {
            clarifications = db.clarifications ++ new_clarification id task_id event_id db.now ∷ [];
          },
        ))

-- A row of either table, as the scheduler reads it.
pub data InputRequest : Type 0 where
  tool_approval : Request → InputRequest
  clarification : Clarification → InputRequest

abbrev pub created_of : InputRequest → Time
created_of (tool_approval r) = r.created_at
created_of (clarification r) = r.created_at

abbrev pub id_of : InputRequest → Key
id_of (tool_approval r) = r.request_id
id_of (clarification r) = r.request_id

abbrev pub event_of : InputRequest → Key
event_of (tool_approval r) = r.cma_event_id
event_of (clarification r) = r.cma_event_id

abbrev pub status_of : InputRequest → Status
status_of (tool_approval r) = r.status
status_of (clarification r) = r.status

-- The order of `(created_at, request_id)`.
abbrev pub precedes : InputRequest → InputRequest → Bool
precedes x y =
    ltb (created_of x) (created_of y) || (created_of x == created_of y && ltb (id_of x) (id_of y))

module _ {A : Type 0} (less : A → A → Bool) where
  -- `x` goes before the first row that need not precede it, so equal rows keep their order.
  unfoldable pub insert_sorted : A → List A → List A
  insert_sorted x [] = x ∷ []
  insert_sorted x (y ∷ ys) = if less y x then y ∷ insert_sorted x ys else x ∷ y ∷ ys

  unfoldable pub sorted : List A → List A
  unfolding insert_sorted
  sorted [] = []
  sorted (x ∷ xs) = insert_sorted x (sorted xs)

-- The rows of both tables, by `(created_at, request_id)`.
unfoldable pub list_input_requests : Key → Db → List InputRequest
unfolding sorted
list_input_requests task_id db = sorted precedes (
    map tool_approval (select (λ r. r.task_id == task_id) db.requests)
    ++ map clarification (select (λ r. r.task_id == task_id) db.clarifications))

abbrev clarification_with : Key → Key → Clarification → Bool
clarification_with request_id task_id r = r.request_id == request_id && r.task_id == task_id

unfoldable pub get_input_request : Key → Key → Db → Option InputRequest
get_input_request request_id task_id db =
    elim (find_row (λ r. r.request_id == request_id && r.task_id == task_id) db.requests) [
      | some r ↦ some (tool_approval r)
      | none ↦ elim (find_row (clarification_with request_id task_id) db.clarifications) [
        | some r ↦ some (clarification r)
        | none ↦ none
      ]
    ]

-- A pending clarification takes an answer while its task waits for input or is being cancelled.
unfoldable pub may_answer : Key → Key → Db → Clarification → Bool
may_answer request_id task_id db r =
    r.request_id == request_id
    && (r.task_id == task_id
        && (is_pending r.status
            && any_row
                (λ t.
                  t.task_id == r.task_id
                  && (awaits_input t.internal_state || is_some t.cancel_requested_at))
                db.tasks))

abbrev pub answered : Key → Time → Clarification → Clarification
answered key now r = record r {
  status = Status.resolving;
  answer_object_key = some key;
  updated_at = now;
}

unfoldable pub decide_clarification_request : Key → Key → Key → Db → Option Clarification × Db
unfolding may_answer
decide_clarification_request request_id task_id answer_object_key db =
    elim (find_row (may_answer request_id task_id db) db.clarifications) [
      | some r ↦ (
        some (answered answer_object_key db.now r),
        record db {
          clarifications =
              update_where (may_answer request_id task_id db) (answered answer_object_key db.now)
                db.clarifications;
        },
      )
      | none ↦ (find_row (clarification_with request_id task_id) db.clarifications, db)
    ]

-- The row's task belongs to the context, whose lease is held.
unfoldable pub fenced_task : Key → Key → Key → Db → Bool
unfolding holds_lease
fenced_task task_id context_id claim_id db =
    any_row (λ t. t.task_id == task_id && t.context_id == context_id) db.tasks
    && holds_lease context_id claim_id db

abbrev pub responded_at : Time → Clarification → Clarification
responded_at now r = record r { response_attempted_at = some now }

unfoldable pub may_respond : Key → Key → Key → Db → Clarification → Bool
unfolding fenced_task
may_respond request_id context_id claim_id db r =
    r.request_id == request_id
    && (is_resolving r.status
        && (is_none r.response_attempted_at && fenced_task r.task_id context_id claim_id db))

unfoldable pub mark_clarification_attempted : Key → Key → Key → Db → Bool × Db
unfolding may_respond
mark_clarification_attempted request_id context_id claim_id db = (
  any_row (may_respond request_id context_id claim_id db) db.clarifications,
  record db {
    clarifications =
        update_where (may_respond request_id context_id claim_id db) (responded_at db.now)
          db.clarifications;
  },
)

abbrev pub resolved_request : Time → Request → Request
resolved_request now r = record r {
  status = Status.resolved;
  resolved_at = some now;
  updated_at = now;
}

abbrev pub resolved_clarification : Time → Clarification → Clarification
resolved_clarification now r = record r {
  status = Status.resolved;
  resolved_at = some now;
  updated_at = now;
}

unfoldable pub resolvable : Key → Key → Key → Db → Request → Bool
unfolding fenced_task
resolvable request_id context_id claim_id db r =
    r.request_id == request_id
    && (is_resolving r.status && fenced_task r.task_id context_id claim_id db)

unfoldable pub resolvable_clarification : Key → Key → Key → Db → Clarification → Bool
unfolding fenced_task
resolvable_clarification request_id context_id claim_id db r =
    r.request_id == request_id
    && (is_resolving r.status && fenced_task r.task_id context_id claim_id db)

-- Both tables, in one transaction.
unfoldable pub resolve_input_request : Key → Key → Key → Db → Db
unfolding resolvable resolvable_clarification
resolve_input_request request_id context_id claim_id db = record db {
  requests =
      update_where (resolvable request_id context_id claim_id db) (resolved_request db.now)
        db.requests;
  clarifications =
      update_where (resolvable_clarification request_id context_id claim_id db)
        (resolved_clarification db.now) db.clarifications;
}

abbrev present : Option Key → List Key → List Key
present none rest = rest
present (some k) rest = k ∷ rest

module _ {A : Type 0} (key : A → Option Key) where
  -- The values of a column that are not NULL.
  abbrev pub column_of : List A → List Key
  column_of [] = []
  column_of (r ∷ rows) = present (key r) (column_of rows)

abbrev unfinished : Db → Request → Bool
unfinished db r =
    any_row (λ t. t.task_id == r.task_id && not (is_terminal t.internal_state)) db.tasks

-- The object keys that some row still needs.
unfoldable pub pending_input_keys : Db → List Key
pending_input_keys db =
    column_of (λ t. t.input_object_key) db.tasks
    ++ (column_of (λ r. r.decision_reason_object_key)
          (select (λ r. not (is_resolved r.status)) db.requests)
        ++ (column_of (λ r. r.review_object_key)
              (select (λ r. not (is_resolved r.status) && unfinished db r) db.requests)
            ++ column_of (λ r. r.answer_object_key)
                (select (λ r. not (is_resolved r.status)) db.clarifications)))
