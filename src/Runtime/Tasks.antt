-- ===== src/Runtime/Tasks.antt =====
-- The queue of a context's tasks: `list_tasks` to `cancel_task` of runtime_repository.py.
pub mod Order
use managed_agent_web_slack.Common.{
  ℕ, zero, suc, ◌+◌, ◌==◌, ltb, equals, coalesce, Option, none, some, List, [], ◌∷◌, Bool, true,
  false, ◌&&◌, ◌||◌, not, if◌then◌else◌, any_row, find_row, select, update_where, count_rows,
  is_none, is_some,
}
use managed_agent_web_slack.Store.{
  Key, Time, LifecycleState, A2aState, InternalState, HeldReason, ambiguous_send,
  ambiguous_dispatch, Context, Task, Db, is_queued, is_terminal, leases, holds_lease,
}
use managed_agent_web_slack.Runtime.Transaction.{
  Transaction, value_error, lost_claim, pure, raise_if, query, execute, or_raise, atomically, ◌>>=◌,
  ◌>>◌,
}
use managed_agent_web_slack.Runtime.Requests.{sorted}

abbrev pub by_sequence : Task → Task → Bool
by_sequence x y = ltb x.sequence y.sequence

-- `LIMIT`
abbrev pub take : ℕ → List Task → List Task
take zero rows = []
take (suc n) [] = []
take (suc n) (t ∷ rows) = t ∷ take n rows

unfoldable pub list_tasks : Key → ℕ → ℕ → Db → List Task
unfolding sorted
list_tasks context_id after_sequence limit db = take limit (
    sorted by_sequence
      (select (λ t. t.context_id == context_id && ltb after_sequence t.sequence) db.tasks))

unfoldable pub count_tasks : Key → Db → ℕ
count_tasks context_id db = count_rows (λ t. t.context_id == context_id) db.tasks

abbrev pub one_day : ℕ
one_day = 86400

unfoldable pub stale_pending_input_count : Db → ℕ
stale_pending_input_count db =
    count_rows
      (λ t.
        is_some t.input_object_key
        && (not (is_terminal t.internal_state) && ltb (t.created_at + one_day) db.now))
      db.tasks

unfoldable pub is_held : Task → Bool
is_held t = is_some t.held_reason && not (is_terminal t.internal_state)

abbrev pub by_age : Task → Task → Bool
by_age x y =
    ltb x.created_at y.created_at || (x.created_at == y.created_at && ltb x.task_id y.task_id)

unfoldable pub list_held_tasks : Db → List Task
unfolding sorted is_held
list_held_tasks db = sorted by_age (select is_held db.tasks)

pub data Resolution : Type 0 where
  fail retry : Resolution

abbrev retriable_reason : Option HeldReason → Bool
retriable_reason (some ambiguous_send) = true
retriable_reason (some ambiguous_dispatch) = true
retriable_reason _ = false

-- The held send or dispatch was never bound to an event and was not cancelled.
unfoldable pub retriable : Context → Task → Bool
retriable c t =
    retriable_reason t.held_reason
    && (is_none t.cma_input_event_id && (is_some c.cma_session_id && is_none t.cancel_requested_at))

abbrev pub requeued : Time → Task → Task
requeued now t = record t {
  internal_state = InternalState.queued;
  a2a_state = A2aState.submitted;
  held_reason = none;
  cma_predecessor_event_id = none;
  dispatch_attempted_at = none;
  next_dispatch_at = none;
  updated_at = now;
}

abbrev pub failed_task : Time → Task → Task
failed_task now t = record t {
  internal_state = InternalState.terminal;
  a2a_state = A2aState.failed;
  held_reason = none;
  updated_at = now;
}

abbrev resolved_as : Resolution → Time → Task → Task
resolved_as Resolution.retry = requeued
resolved_as Resolution.fail = failed_task

abbrev pub freed_lifecycle : Resolution → Context → LifecycleState
freed_lifecycle Resolution.fail c =
    if is_none c.cma_session_id then LifecycleState.failed else c.lifecycle_state
freed_lifecycle Resolution.retry c = c.lifecycle_state

abbrev pub freed : Resolution → Time → Context → Context
freed resolution now c = record c {
  active_task_id = none;
  lifecycle_state = freed_lifecycle resolution c;
  updated_at = now;
}

-- The row of the first SELECT: the task and its context, which holds this claim's lease.
abbrev pub leased_context : Key → Task → Db → Option Context
leased_context claim_id t db = find_row (leases t.context_id claim_id db.now) db.contexts

unfoldable pub is_retry : Resolution → Bool
is_retry Resolution.retry = true
is_retry Resolution.fail = false

resolve_row : Task → Context → Key → Resolution → Transaction Key
unfolding is_held retriable is_retry holds_lease leases
resolve_row t c claim_id resolution = do
  raise_if (not (is_held t) || not (equals c.active_task_id t.task_id)) value_error
  raise_if (is_retry resolution && not (retriable c t)) value_error
  now ← query (λ db. db.now)
  execute (λ db. record db {
    tasks = update_where (λ r. r.task_id == t.task_id) (resolved_as resolution now) db.tasks;
  })
  held ← query (holds_lease t.context_id claim_id)
  raise_if (not held) lost_claim
  execute (λ db. record db {
    contexts = update_where (leases t.context_id claim_id now) (freed resolution now) db.contexts;
  })
  pure t.context_id

resolve_held : Key → Key → Resolution → Transaction Key
unfolding resolve_row
resolve_held task_id claim_id resolution = do
  found ← query (λ db. find_row (λ t. t.task_id == task_id) db.tasks)
  t ← or_raise found value_error
  joined ← query (leased_context claim_id t)
  c ← or_raise joined value_error
  resolve_row t c claim_id resolution

unfoldable pub resolve_held_task : Key → Key → Resolution → Transaction Key
unfolding resolve_held
resolve_held_task task_id claim_id resolution =
    atomically (resolve_held task_id claim_id resolution)

-- The queued task of the context with the least sequence.
unfoldable pub next_queued : Key → Db → Option Task
unfolding sorted
next_queued context_id db =
    elim (sorted by_sequence
      (select (λ t. t.context_id == context_id && is_queued t.internal_state) db.tasks)) [
        | [] ↦ none
        | t ∷ _ ↦ some t
      ]

unfoldable pub idle_lease : Key → Key → Time → Context → Bool
unfolding leases
idle_lease context_id claim_id now c = leases context_id claim_id now c && is_none c.active_task_id

abbrev pub activated_context : Key → Time → Context → Context
activated_context task_id now c = record c { active_task_id = some task_id; updated_at = now }

abbrev pub activated : Option Key → Time → Task → Task
activated predecessor now t = record t {
  internal_state = InternalState.dispatching;
  cma_predecessor_event_id = predecessor;
  dispatch_attempts = some (coalesce t.dispatch_attempts 0 + 1);
  dispatch_attempted_at = some now;
  updated_at = now;
}

abbrev pub queued_row : Key → Key → Task → Bool
queued_row task_id context_id t =
    t.task_id == task_id && (t.context_id == context_id && is_queued t.internal_state)

activation : Key → Key → Key → Option Key → Transaction Task
unfolding idle_lease
activation context_id task_id claim_id predecessor = do
  now ← query (λ db. db.now)
  idle ← query (λ db. any_row (idle_lease context_id claim_id now) db.contexts)
  raise_if (not idle) lost_claim
  execute (λ db. record db {
    contexts =
        update_where (idle_lease context_id claim_id now) (activated_context task_id now)
          db.contexts;
  })
  found ← query (λ db. find_row (queued_row task_id context_id) db.tasks)
  t ← or_raise found lost_claim
  execute (λ db. record db {
    tasks = update_where (queued_row task_id context_id) (activated predecessor now) db.tasks;
  })
  pure (activated predecessor now t)

unfoldable pub activate_task : Key → Key → Key → Option Key → Transaction Task
unfolding activation
activate_task context_id task_id claim_id predecessor =
    atomically (activation context_id task_id claim_id predecessor)

abbrev pub queued_with : Key → Task → Bool
queued_with task_id t = t.task_id == task_id && is_queued t.internal_state

abbrev pub live_with : Key → Task → Bool
live_with task_id t = t.task_id == task_id && not (is_terminal t.internal_state)

abbrev pub cancelled : Time → Task → Task
cancelled now t = record t {
  a2a_state = A2aState.canceled;
  internal_state = InternalState.terminal;
  updated_at = now;
}

abbrev pub cancel_requested : Time → Task → Task
cancel_requested now t = record t {
  cancel_requested_at = some (coalesce t.cancel_requested_at now);
  updated_at = now;
}

-- A queued task ends at once; a running one is marked; the row of the task comes back.
unfoldable pub cancel_task : Key → Db → Option Task × Db
cancel_task task_id db = elim (find_row (queued_with task_id) db.tasks) [
  | some t ↦ (
    some (cancelled db.now t),
    record db { tasks = update_where (queued_with task_id) (cancelled db.now) db.tasks },
  )
  | none ↦ elim (find_row (live_with task_id) db.tasks) [
    | some t ↦ (
      some (cancel_requested db.now t),
      record db { tasks = update_where (live_with task_id) (cancel_requested db.now) db.tasks },
    )
    | none ↦ (find_row (λ t. t.task_id == task_id) db.tasks, db)
  ]
]
