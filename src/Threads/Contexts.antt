-- ===== src/Threads/Contexts.antt =====
-- A thread's controller context: `claim_context_initialization`, `bind_context` and
-- `release_context_initialization` of db/thread_repository.py.
use managed_agent_web_slack.Common.{
  ℕ, ◌+◌, ◌==◌, equals, after, reached, Option, none, some, Bool, ◌&&◌, ◌||◌, not, if◌then◌else◌,
  any_row, find_row, is_none,
}
use managed_agent_web_slack.Store.{Key, Time}
use managed_agent_web_slack.Threads.{
  ContextState, Thread, ThreadDb, Outcome, ok, err, value_error, key_error, binding_conflict,
  is_ready, is_initializing, is_uninitialized, get_thread,
}
use managed_agent_web_slack.Threads.Creation.{update_threads}

pub data ContextClaim : Type 0 where
  acquired : Key → ContextClaim
  busy : ContextClaim
  already : Option Key → ContextClaim

-- Uninitialized, or initializing under a lease that is over.
unfoldable pub initializable : Key → Time → Thread → Bool
initializable thread_id now t =
    t.thread_id == thread_id
    && (is_uninitialized t.context_state
        || (is_initializing t.context_state
            && (is_none t.context_init_lease_expires_at
                || reached t.context_init_lease_expires_at now)))

abbrev pub initializing_row : Key → Time → Time → Thread → Thread
initializing_row claim_id expires now t = record t {
  context_state = ContextState.initializing;
  context_init_claim_id = some claim_id;
  context_init_lease_expires_at = some expires;
  updated_at = now;
}

-- `claim_id` is the fresh UUID of the call; a duration that is not positive is refused.
unfoldable pub claim_context_initialization :
    Key → Key → ℕ → ThreadDb → Outcome ContextClaim × ThreadDb
unfolding initializable get_thread
claim_context_initialization claim_id thread_id seconds db =
    if seconds == 0
    then (err value_error, db)
    else (if any_row (initializable thread_id db.now) db.threads
        then (
          ok (acquired claim_id),
          (update_threads (initializable thread_id db.now)
              (initializing_row claim_id (db.now + seconds) db.now) db).1,
        )
        else elim (get_thread thread_id db) [
          | none ↦ (err key_error, db)
          | some t ↦
              if is_ready t.context_state then (ok (already t.context_id), db) else (ok busy, db)
        ])

-- The row is initializing under this claim, whose lease still runs.
unfoldable pub claimed_row : Key → Key → Time → Thread → Bool
claimed_row thread_id claim_id now t =
    t.thread_id == thread_id
    && (is_initializing t.context_state
        && (equals t.context_init_claim_id claim_id && after t.context_init_lease_expires_at now))

abbrev pub ready_row : Key → Time → Thread → Thread
ready_row context_id now t = record t {
  context_id = some context_id;
  context_state = ContextState.ready;
  context_init_claim_id = none;
  context_init_lease_expires_at = none;
  updated_at = now;
}

-- `UNIQUE (agent_id, context_id)`: another thread of the agent has the context.
abbrev pub context_taken : Thread → Key → ThreadDb → Bool
context_taken row context_id db =
    any_row
      (λ t.
        not (t.thread_id == row.thread_id)
        && (t.agent_id == row.agent_id && equals t.context_id context_id))
      db.threads

unfoldable pub bind_context : Key → Key → Key → ThreadDb → Outcome Thread × ThreadDb
unfolding claimed_row get_thread
bind_context thread_id claim_id context_id db =
    if context_id == 0
    then (err value_error, db)
    else elim (find_row (claimed_row thread_id claim_id db.now) db.threads) [
      | some t ↦ if context_taken t context_id db then (err binding_conflict, db) else (
        ok (ready_row context_id db.now t),
        (update_threads (claimed_row thread_id claim_id db.now) (ready_row context_id db.now) db).1,
      )
      | none ↦ elim (get_thread thread_id db) [
        | none ↦ (err key_error, db)
        | some t ↦
            if is_ready t.context_state && equals t.context_id context_id
            then (ok t, db)
            else (err binding_conflict, db)
      ]
    ]

unfoldable pub releasable : Key → Key → Thread → Bool
releasable thread_id claim_id t =
    t.thread_id == thread_id
    && (is_initializing t.context_state && equals t.context_init_claim_id claim_id)

abbrev pub released_row : Time → Thread → Thread
released_row now t = record t {
  context_state = ContextState.uninitialized;
  context_init_claim_id = none;
  context_init_lease_expires_at = none;
  updated_at = now;
}

unfoldable pub release_context_initialization : Key → Key → ThreadDb → Bool × ThreadDb
unfolding releasable
release_context_initialization thread_id claim_id db = (
  any_row (releasable thread_id claim_id) db.threads,
  (update_threads (releasable thread_id claim_id) (released_row db.now) db).1,
)
