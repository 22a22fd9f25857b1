-- ===== src/Runtime/Lease.antt =====
-- The scheduler's lease on a context, and the updates that it fences: `claim_scheduler`,
-- `release_scheduler`, `_fenced_update`, `update_context` and `update_task` of
-- runtime_repository.py.
use managed_agent_web_slack.Common.{
  ℕ, ◌+◌, ◌==◌, equals, reached, Option, none, some, List, [], ◌∷◌, Bool, true, false, ◌&&◌, ◌||◌,
  not, if◌then◌else◌, any_row, find_row, update_where, is_none, is_some,
}
use managed_agent_web_slack.Store.{
  Key, Time, LifecycleState, A2aState, InternalState, HeldReason, Context, Task, Db, holds_lease,
}
use managed_agent_web_slack.Runtime.Transaction.{
  Transaction, ok, err, value_error, lost_claim, unique_violation, external,
}

-- The row is free to claim: no claim, or one whose lease is over.
unfoldable pub claimable : Key → Time → Context → Bool
claimable context_id now c =
    c.context_id == context_id
    && (is_none c.scheduler_claim_id || reached c.scheduler_lease_expires_at now)

unfoldable pub with_claim : Key → Time → Context → Context
with_claim claim_id expires c = record c {
  scheduler_claim_id = some claim_id;
  scheduler_lease_expires_at = some expires;
}

-- `claim_id` is the fresh UUID of the call.
unfoldable pub claim_scheduler : Key → Key → ℕ → Db → Option Key × Db
unfolding claimable with_claim
claim_scheduler claim_id context_id lease_seconds db =
    if any_row (claimable context_id db.now) db.contexts
    then (
      some claim_id,
      record db {
        contexts =
            update_where (claimable context_id db.now)
              (with_claim claim_id (db.now + lease_seconds)) db.contexts;
      },
    )
    else (none, db)

abbrev pub claimed_by : Key → Key → Context → Bool
claimed_by context_id claim_id c =
    c.context_id == context_id && equals c.scheduler_claim_id claim_id

unfoldable pub without_claim : Context → Context
without_claim c = record c { scheduler_claim_id = none; scheduler_lease_expires_at = none }

unfoldable pub release_scheduler : Key → Key → Db → Bool × Db
unfolding without_claim
release_scheduler context_id claim_id db = (
  any_row (claimed_by context_id claim_id) db.contexts,
  record db { contexts = update_where (claimed_by context_id claim_id) without_claim db.contexts },
)

-- The columns that a fenced update of a context may set; `unsupported` is any other.
pub data ContextField : Type 0 where
  cma_session_id : Option Key → ContextField
  lifecycle_state : LifecycleState → ContextField
  active_task_id : Option Key → ContextField
  unsupported : ContextField

-- The columns that a fenced update of a task may set; `unsupported` is any other.
pub data TaskField : Type 0 where
  a2a_state : A2aState → TaskField
  internal_state : InternalState → TaskField
  cma_input_event_id input_object_key : Option Key → TaskField
  cma_predecessor_event_id cma_terminal_event_id : Option Key → TaskField
  dispatch_attempts : Option ℕ → TaskField
  dispatch_attempted_at next_dispatch_at cancel_requested_at : Option Time → TaskField
  cancel_attempted_at : Option Time → TaskField
  held_reason : Option HeldReason → TaskField
  unsupported : TaskField

abbrev context_allowed : ContextField → Bool
context_allowed ContextField.unsupported = false
context_allowed _ = true

abbrev pub task_allowed : TaskField → Bool
task_allowed TaskField.unsupported = false
task_allowed _ = true

unfoldable pub set_context : ContextField → Context → Context
set_context (ContextField.cma_session_id v) c = record c { cma_session_id = v }
set_context (ContextField.lifecycle_state v) c = record c { lifecycle_state = v }
set_context (ContextField.active_task_id v) c = record c { active_task_id = v }
set_context ContextField.unsupported c = c

unfoldable pub set_task : TaskField → Task → Task
set_task (TaskField.a2a_state v) t = record t { a2a_state = v }
set_task (TaskField.internal_state v) t = record t { internal_state = v }
set_task (TaskField.cma_input_event_id v) t = record t { cma_input_event_id = v }
set_task (TaskField.input_object_key v) t = record t { input_object_key = v }
set_task (TaskField.cma_predecessor_event_id v) t = record t { cma_predecessor_event_id = v }
set_task (TaskField.cma_terminal_event_id v) t = record t { cma_terminal_event_id = v }
set_task (TaskField.dispatch_attempts v) t = record t { dispatch_attempts = v }
set_task (TaskField.dispatch_attempted_at v) t = record t { dispatch_attempted_at = v }
set_task (TaskField.next_dispatch_at v) t = record t { next_dispatch_at = v }
set_task (TaskField.cancel_requested_at v) t = record t { cancel_requested_at = v }
set_task (TaskField.cancel_attempted_at v) t = record t { cancel_attempted_at = v }
set_task (TaskField.held_reason v) t = record t { held_reason = v }
set_task TaskField.unsupported t = t

module _ {A F : Type 0} (set : F → A → A) where
  abbrev pub set_all : List F → A → A
  set_all [] r = r
  set_all (f ∷ fs) r = set_all fs (set f r)

abbrev pub all_allowed : {F : Type 0} → (F → Bool) → List F → Bool
all_allowed allowed [] = true
all_allowed allowed (f ∷ fs) = allowed f && all_allowed allowed fs

-- `if not fields or not set(fields) <= allowed[table]`
abbrev pub refused : {F : Type 0} → (F → Bool) → List F → Bool
refused allowed [] = true
refused allowed (f ∷ fs) = not (all_allowed allowed (f ∷ fs))

-- `RETURNING *` under a fence: no row is a lost claim.
abbrev pub returned : {A : Type 0} → Option A → Transaction A
returned none db = (err lost_claim, db)
returned (some row) db = (ok row, db)

unfoldable pub touch_task : Time → List TaskField → Task → Task
unfolding set_task
touch_task now fields t = record (set_all set_task fields t) { updated_at = now }

unfoldable pub update_task : Key → Key → Key → List TaskField → Transaction Task
unfolding touch_task holds_lease
update_task task_id context_id claim_id fields db =
    if refused task_allowed fields
    then (err value_error, db)
    else (if not (holds_lease context_id claim_id db)
        then (err lost_claim, db)
        else let tasks' =
            update_where (λ t. t.task_id == task_id) (touch_task db.now fields) db.tasks in
          returned (find_row (λ t. t.task_id == task_id) tasks') (record db { tasks = tasks' }))

-- The CHECK of cma_contexts.
unfoldable pub lifecycle_ok : Context → Bool
lifecycle_ok c = elim c.lifecycle_state [
  | LifecycleState.initializing ↦ is_none c.cma_session_id
  | LifecycleState.ready ↦ is_some c.cma_session_id
  | LifecycleState.failed ↦ true
]

abbrev session_used : Key → Option Key → List Context → Bool
session_used context_id none rows = false
session_used context_id (some s) rows =
    any_row (λ c. not (c.context_id == context_id) && equals c.cma_session_id s) rows

unfoldable pub touch_context : Time → List ContextField → Context → Context
unfolding set_context
touch_context now fields c = record (set_all set_context fields c) { updated_at = now }

-- The statement's row meets the schema: the CHECK, and the unique session.
store_context : Key → List ContextField → Transaction Context
unfolding touch_context lifecycle_ok
store_context context_id fields db =
    let rows =
      update_where (λ c. c.context_id == context_id) (touch_context db.now fields) db.contexts in
    elim (find_row (λ c. c.context_id == context_id) rows) [
      | none ↦ (err lost_claim, db)
      | some row ↦
          if not (lifecycle_ok row)
          then (err external, db)
          else (if session_used context_id row.cma_session_id db.contexts
              then (err unique_violation, db)
              else (ok row, record db { contexts = rows }))
    ]

unfoldable pub update_context : Key → Key → List ContextField → Transaction Context
unfolding store_context holds_lease
update_context context_id claim_id fields db =
    if refused context_allowed fields
    then (err value_error, db)
    else (if not (holds_lease context_id claim_id db)
        then (err lost_claim, db)
        else store_context context_id fields db)
