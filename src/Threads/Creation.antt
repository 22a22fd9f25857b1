-- ===== src/Threads/Creation.antt =====
-- Threads: `create_thread` to `restore_thread`, and `owns_thread`, of db/thread_repository.py.
pub mod Idempotent
use managed_agent_web_slack.Common.{
  ℕ, zero, suc, ◌==◌, ltb, equals, Option, none, some, List, [], ◌∷◌, ◌++◌, Bool, true, false, ◌&&◌,
  ◌||◌, not, if◌then◌else◌, any_row, find_row, select, update_where, is_none, is_some,
}
use managed_agent_web_slack.Store.{Key, Time}
use managed_agent_web_slack.Runtime.Requests.{sorted}
use managed_agent_web_slack.Threads.{
  ContextState, Thread, ThreadDb, Outcome, ok, err, value_error, binding_conflict, unique_violation,
  foreign_key, has_principal,
}

-- A row as the INSERT writes it, with the column defaults.
abbrev pub new_thread : Key → Key → Key → Option Key → Option (List ℕ) → Time → Thread
new_thread id principal_id agent_id request_id title now = record {
  thread_id = id;
  principal_id = principal_id;
  agent_id = agent_id;
  context_id = none;
  context_state = ContextState.uninitialized;
  context_init_claim_id = none;
  context_init_lease_expires_at = none;
  creation_request_id = request_id;
  title = title;
  created_at = now;
  updated_at = now;
  archived_at = none;
}

-- `INSERT INTO agent_threads`, whose keys are the thread's id and its principal.
unfoldable pub insert_thread : Thread → ThreadDb → Outcome Thread × ThreadDb
insert_thread row db =
    if any_row (λ t. t.thread_id == row.thread_id) db.threads
    then (err unique_violation, db)
    else (if not (has_principal row.principal_id db)
        then (err foreign_key, db)
        else (ok row, record db { threads = db.threads ++ row ∷ [] }))

unfoldable pub create_thread :
    Key → Key → Key → Option (List ℕ) → ThreadDb → Outcome Thread × ThreadDb
unfolding insert_thread
create_thread fresh principal_id agent_id title db =
    if agent_id == 0
    then (err value_error, db)
    else insert_thread (new_thread fresh principal_id agent_id none title db.now) db

abbrev pub requested_by : Key → Key → Thread → Bool
requested_by principal_id request_id t =
    t.principal_id == principal_id && equals t.creation_request_id request_id

-- `ON CONFLICT (principal_id, creation_request_id) DO UPDATE` writes what is there already.
unfoldable pub create_thread_idempotent :
    Key → Key → Key → Key → Option (List ℕ) → ThreadDb → Outcome Thread × ThreadDb
unfolding insert_thread
create_thread_idempotent fresh principal_id agent_id request_id title db =
    if agent_id == 0 || request_id == 0
    then (err value_error, db)
    else elim (find_row (requested_by principal_id request_id) db.threads) [
      | none ↦
          insert_thread (new_thread fresh principal_id agent_id (some request_id) title db.now) db
      | some t ↦ if t.agent_id == agent_id then (ok t, db) else (err binding_conflict, db)
    ]

abbrev pub owned_row : Key → Key → Thread → Bool
owned_row principal_id thread_id t = t.thread_id == thread_id && t.principal_id == principal_id

unfoldable pub get_owned_thread : Key → Key → ThreadDb → Option Thread
get_owned_thread principal_id thread_id db = find_row (owned_row principal_id thread_id) db.threads

-- `ORDER BY updated_at DESC, thread_id DESC`
abbrev pub newest_first : Thread → Thread → Bool
newest_first x y =
    ltb y.updated_at x.updated_at || (x.updated_at == y.updated_at && ltb y.thread_id x.thread_id)

unfoldable pub list_threads : Key → ThreadDb → List Thread
unfolding sorted
list_threads principal_id db =
    sorted newest_first
      (select (λ t. t.principal_id == principal_id && is_none t.archived_at) db.threads)

-- `title[:60]`
abbrev pub take : ℕ → List ℕ → List ℕ
take zero xs = []
take (suc n) [] = []
take (suc n) (x ∷ xs) = x ∷ take n xs

-- `title IS NULL OR title = ''`
abbrev pub is_untitled : Option (List ℕ) → Bool
is_untitled none = true
is_untitled (some []) = true
is_untitled (some (x ∷ xs)) = false

-- `UPDATE agent_threads … RETURNING *`: the first row as it stands after, and the tables.
abbrev pub update_threads :
    (Thread → Bool) → (Thread → Thread) → ThreadDb → Option Thread × ThreadDb
update_threads p f db = (
  elim (find_row p db.threads) [ none ↦ none | some t ↦ some (f t) ],
  record db { threads = update_where p f db.threads },
)

abbrev pub untitled_row : Key → Thread → Bool
untitled_row thread_id t = t.thread_id == thread_id && is_untitled t.title

abbrev pub titled : List ℕ → Time → Thread → Thread
titled title now t = record t { title = some (take 60 title); updated_at = now }

unfoldable pub update_title_if_empty : Key → List ℕ → ThreadDb → Option Thread × ThreadDb
update_title_if_empty thread_id title db =
    update_threads (untitled_row thread_id) (titled title db.now) db

abbrev pub open_row : Key → Key → Thread → Bool
open_row principal_id thread_id t = owned_row principal_id thread_id t && is_none t.archived_at

abbrev pub archived_row : Key → Key → Thread → Bool
archived_row principal_id thread_id t = owned_row principal_id thread_id t && is_some t.archived_at

abbrev pub archived : Time → Thread → Thread
archived now t = record t { archived_at = some now; updated_at = now }

abbrev pub restored : Time → Thread → Thread
restored now t = record t { archived_at = none; updated_at = now }

unfoldable pub archive_thread : Key → Key → ThreadDb → Option Thread × ThreadDb
archive_thread principal_id thread_id db =
    update_threads (open_row principal_id thread_id) (archived db.now) db

unfoldable pub restore_thread : Key → Key → ThreadDb → Option Thread × ThreadDb
restore_thread principal_id thread_id db =
    update_threads (archived_row principal_id thread_id) (restored db.now) db

unfoldable pub owns_thread : Key → Key → ThreadDb → Bool
owns_thread principal_id thread_id db = any_row (open_row principal_id thread_id) db.threads
