-- ===== src/Runtime/Admission.antt =====
-- `admit` of runtime_repository.py: a new turn, or the one that a repeated message already made.
pub mod Kept
pub mod Created
use managed_agent_web_slack.Common.{
  ℕ, ◌+◌, ◌-◌, ◌==◌, Option, none, some, Bool, true, false, ◌||◌, if◌then◌else◌, update_where,
}
use managed_agent_web_slack.Store.{
  Key, A2aState, InternalState, HeldReason, context_failed, Context, Task, Db, is_failed,
  awaits_input, context_of, task_of,
}
use managed_agent_web_slack.Scheduler.Events.{truthy}
use managed_agent_web_slack.Runtime.Transaction.{
  Transaction, value_error, key_error, unique_violation, pure, atomically, or_raise, query, execute,
  raise_if, except_unique, ◌>>=◌, ◌>>◌,
}
use managed_agent_web_slack.Runtime.Identity.{
  find_context_by_creation_message_id, find_task_by_message_id, upsert_context, insert_task,
}

-- The context, the task, and whether the task is new.
abbrev pub Admission : Type 0
Admission = Context × Task × Bool

abbrev pub take_sequence : ℕ → Context → Context
take_sequence now c = record c { next_sequence = c.next_sequence + 1; updated_at = now }

-- Does the context's active task wait for a person?
unfoldable pub active_awaits_input : Context → Db → Bool
unfolding task_of
active_awaits_input c db = elim (truthy c.active_task_id) [
  | none ↦ false
  | some id ↦ elim (task_of id db) [ none ↦ false | some t ↦ awaits_input t.internal_state ]
]

unfoldable pub rejection : Context → Bool → Option HeldReason
rejection c awaits =
    if awaits
    then some HeldReason.input_required
    else (if is_failed c.lifecycle_state then some context_failed else none)

unfoldable pub admitted_task : Key → Context → Key → Key → Option HeldReason → ℕ → Task
admitted_task id c message_id object_key reason now = record {
  task_id = id;
  context_id = c.context_id;
  message_id = message_id;
  sequence = c.next_sequence - 1;
  a2a_state = elim reason [ none ↦ A2aState.submitted | some _ ↦ A2aState.rejected ];
  internal_state = elim reason [ none ↦ InternalState.queued | some _ ↦ InternalState.terminal ];
  cma_input_event_id = none;
  input_object_key = some object_key;
  cma_predecessor_event_id = none;
  cma_terminal_event_id = none;
  dispatch_attempts = some 0;
  dispatch_attempted_at = none;
  next_dispatch_at = none;
  cancel_requested_at = none;
  cancel_attempted_at = none;
  held_reason = reason;
  created_at = now;
  updated_at = now;
}

admit_new : Context → Key → Key → Key → Transaction Admission
unfolding active_awaits_input rejection admitted_task insert_task
admit_new found message_id id object_key = do
  now ← query (λ db. db.now)
  execute (λ db. record db {
    contexts = update_where (λ c. c.context_id == found.context_id) (take_sequence now) db.contexts;
  })
  let c = take_sequence now found
  awaits ← query (active_awaits_input c)
  t ← insert_task (admitted_task id c message_id object_key (rejection c awaits) now)
  pure (c, t, true)

admit_to : Context → Key → Key → Key → Transaction Admission
unfolding admit_new find_task_by_message_id
admit_to found message_id id object_key = do
  existing ← query (find_task_by_message_id found.context_id message_id)
  elim existing [
    | some t ↦ pure (found, t, false)
    | none ↦ admit_new found message_id id object_key
  ]

select_context : Key → Transaction Context
unfolding context_of
select_context requested = do c ← query (context_of requested); or_raise c key_error

-- A NULL request for a context creates one for the message.
admit_context : Key → Option Key → Key → Transaction Context
unfolding select_context upsert_context
admit_context proposed none message_id = upsert_context proposed message_id
admit_context proposed (some requested) message_id = select_context requested

admission : Key → Option Key → Key → Key → Key → Transaction Admission
unfolding admit_context admit_to
admission proposed requested message_id id object_key = do
  found ← admit_context proposed requested message_id
  admit_to found message_id id object_key

-- After a unique violation the rows of the winner are read.
recover_context : Option Key → Key → Db → Option Context
unfolding find_context_by_creation_message_id context_of
recover_context none message_id db = find_context_by_creation_message_id message_id db
recover_context (some requested) message_id db = context_of requested db

recover : Option Key → Key → Transaction Admission
unfolding recover_context find_task_by_message_id
recover requested message_id = do
  found ← query (recover_context requested message_id)
  c ← or_raise found unique_violation
  existing ← query (find_task_by_message_id c.context_id message_id)
  t ← or_raise existing unique_violation
  pure (c, t, false)

unfoldable pub admit : Key → Option Key → Key → Key → Key → Transaction Admission
unfolding admission recover
admit proposed requested message_id id object_key =
    raise_if (proposed == 0 || (message_id == 0 || (id == 0 || object_key == 0))) value_error
    >> except_unique (atomically (admission proposed requested message_id id object_key))
        (recover requested message_id)
