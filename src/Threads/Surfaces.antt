-- ===== src/Threads/Surfaces.antt =====
-- Surface threads: `get_surface_binding`, `get_or_create_surface_thread`, `bind_surface` and
-- `list_surface_bindings` of db/thread_repository.py.
use managed_agent_web_slack.Common.{
  ℕ, zero, suc, ◌==◌, ltb, Option, none, some, List, [], ◌∷◌, ◌++◌, Bool, ◌&&◌, ◌||◌, if◌then◌else◌,
  any_row, find_row, select, is_none,
}
use managed_agent_web_slack.Store.{Key, Time}
use managed_agent_web_slack.Runtime.Requests.{sorted}
use managed_agent_web_slack.Threads.{
  Thread, SurfaceBinding, ThreadDb, Outcome, ok, err, binding_conflict, surface_race, runtime_error,
  unique_violation, foreign_key, get_thread,
}
use managed_agent_web_slack.Threads.Creation.{new_thread, insert_thread}

-- The external thread of a surface: its surface, tenant and id there.
pub record Surface : Type 0 where
  pub surface : Key
  pub tenant_id : Key
  pub external_thread_id : Key

abbrev pub of_surface : Surface → SurfaceBinding → Bool
of_surface s b =
    b.surface == s.surface
    && (b.tenant_id == s.tenant_id && b.external_thread_id == s.external_thread_id)

unfoldable pub get_surface_binding : Surface → ThreadDb → Option SurfaceBinding
get_surface_binding s db = find_row (of_surface s) db.bindings

-- `_check_binding`: may the principal use the thread with this agent?
abbrev pub check_binding : Thread → Key → Key → Bool
check_binding t principal_id agent_id =
    t.principal_id == principal_id && (t.agent_id == agent_id && is_none t.archived_at)

abbrev pub new_binding : Key → Key → Surface → Time → SurfaceBinding
new_binding id thread_id s now = record {
  binding_id = id;
  thread_id = thread_id;
  surface = s.surface;
  tenant_id = s.tenant_id;
  external_thread_id = s.external_thread_id;
  created_at = now;
}

-- The join of the first SELECT.
abbrev pub bound_thread : Surface → ThreadDb → Option (Thread × SurfaceBinding)
bound_thread s db = elim (find_row (of_surface s) db.bindings) [
  | none ↦ none
  | some b ↦ elim (find_row (λ t. t.thread_id == b.thread_id) db.threads) [
    | none ↦ none
    | some t ↦ some (t, b)
  ]
]

abbrev pub checked : Thread → SurfaceBinding → Key → Key → Outcome (Thread × SurfaceBinding)
checked t b principal_id agent_id =
    if check_binding t principal_id agent_id then ok (t, b) else err binding_conflict

-- The INSERT of the binding after that of the thread; both are rolled back to `before`.
abbrev pub insert_binding :
    Key
    → Surface
    → Outcome Thread × ThreadDb
    → ThreadDb
    → Outcome (Thread × SurfaceBinding) × ThreadDb
insert_binding id s (err e, reached) before = (err e, before)
insert_binding id s (ok t, reached) before =
    if any_row (of_surface s) reached.bindings
    then (err surface_race, before)
    else (if any_row (λ b. b.binding_id == id) reached.bindings
        then (err unique_violation, before)
        else (
          ok (t, new_binding id t.thread_id s reached.now),
          record reached {
            bindings = reached.bindings ++ new_binding id t.thread_id s reached.now ∷ [];
          },
        ))

-- What a caller asks for: the owner, the agent and the title of a thread that is missing.
pub record SurfaceRequest : Type 0 where
  pub principal_id : Key
  pub agent_id : Key
  pub surface : Surface
  pub title : Option (List ℕ)

-- `operation`. Others may have committed (`meanwhile`) between its SELECT and its INSERTs, and then
-- the INSERT of the binding finds their row.
unfoldable pub creation :
    Key
    → Key
    → SurfaceRequest
    → (ThreadDb → ThreadDb)
    → ThreadDb
    → Outcome (Thread × SurfaceBinding) × ThreadDb
unfolding insert_thread
creation thread_id binding_id r meanwhile db = elim (bound_thread r.surface db) [
  | some (t, b) ↦ (checked t b r.principal_id r.agent_id, db)
  | none ↦
      let reached = meanwhile db in
      insert_binding binding_id r.surface
        (insert_thread (new_thread thread_id r.principal_id r.agent_id none r.title reached.now)
          reached)
        reached
]

-- The winner's rows, after a race.
unfoldable pub winner :
    SurfaceRequest → SurfaceBinding → ThreadDb → Outcome (Thread × SurfaceBinding)
unfolding get_thread
winner r b db = elim (get_thread b.thread_id db) [
  | none ↦ err runtime_error
  | some t ↦ checked t b r.principal_id r.agent_id
]

-- The two fresh ids of each attempt, and what others commit during it: before its INSERTs, and
-- before the reads that follow a race.
pub record Attempt : Type 0 where
  pub thread_id : Key
  pub binding_id : Key
  pub before_insert : ThreadDb → ThreadDb
  pub before_recovery : ThreadDb → ThreadDb

-- The `try` around an attempt: after a race the winner's rows are read, and if there are none the
-- call starts again.
abbrev pub after_attempt :
    Outcome (Thread × SurfaceBinding) × ThreadDb
    → Attempt
    → SurfaceRequest
    → (ThreadDb → Option (Outcome (Thread × SurfaceBinding)) × ThreadDb)
    → Option (Outcome (Thread × SurfaceBinding)) × ThreadDb
after_attempt (ok found, reached) a r again = (some (ok found), reached)
after_attempt (err surface_race, reached) a r again =
    let seen = a.before_recovery reached in
    elim (get_surface_binding r.surface seen) [
      | none ↦ again seen
      | some b ↦ (some (winner r b seen), seen)
    ]
after_attempt (err e, reached) a r again = (some (err e), reached)

-- `rounds` bounds the recursion, and `none` is a call that is still running.
unfoldable pub get_or_create_surface_thread :
    ℕ
    → (ℕ → Attempt)
    → SurfaceRequest
    → ThreadDb
    → Option (Outcome (Thread × SurfaceBinding)) × ThreadDb
unfolding creation winner get_surface_binding
get_or_create_surface_thread zero attempts r db = (none, db)
get_or_create_surface_thread (suc rounds) attempts r db =
    let a = attempts rounds in
    after_attempt (creation a.thread_id a.binding_id r a.before_insert db) a r
      (get_or_create_surface_thread rounds attempts r)

-- `ON CONFLICT (surface, tenant_id, external_thread_id) DO UPDATE` writes what is there already.
unfoldable pub bind_surface : Key → Key → Surface → ThreadDb → Outcome SurfaceBinding × ThreadDb
unfolding get_thread
bind_surface fresh thread_id s db = elim (find_row (of_surface s) db.bindings) [
  | some b ↦ if b.thread_id == thread_id then (ok b, db) else (err binding_conflict, db)
  | none ↦
      if is_none (get_thread thread_id db)
      then (err foreign_key, db)
      else (if any_row (λ b. b.binding_id == fresh) db.bindings
          then (err unique_violation, db)
          else (
            ok (new_binding fresh thread_id s db.now),
            record db { bindings = db.bindings ++ new_binding fresh thread_id s db.now ∷ [] },
          ))
]

-- `ORDER BY created_at, binding_id`
unfoldable pub list_surface_bindings : Key → ThreadDb → List SurfaceBinding
unfolding sorted
list_surface_bindings thread_id db =
    sorted
      (λ x y.
        ltb x.created_at y.created_at
        || (x.created_at == y.created_at && ltb x.binding_id y.binding_id))
      (select (λ b. b.thread_id == thread_id) db.bindings)
