-- ===== src/Threads/Moves/Checks.antt =====
-- The schema's conditions on threads and surface bindings hold after every transaction.
use managed_agent_web_slack.Common.{
  ℕ, ◌+◌, ◌≡◌, refl, Option, none, some, List, [], ◌∷◌, ◌++◌, ◌==◌, ◌&&◌, Bool, true, false,
  any_row, update_where, is_none, is_some, All, All-update_where, All-append, arith,
}
use managed_agent_web_slack.Store.{Key}
use managed_agent_web_slack.Threads.{ContextState, Thread, SurfaceBinding, ThreadDb}
use managed_agent_web_slack.Threads.Creation.{
  new_thread, create_thread, create_thread_idempotent, update_title_if_empty, untitled_row, titled,
  archive_thread, open_row, archived, restore_thread, archived_row, restored,
}
use managed_agent_web_slack.Threads.Identities.{ensure_principal, map_external_identity}
use managed_agent_web_slack.Threads.Surfaces.{
  Surface, SurfaceRequest, of_surface, creation, bind_surface, new_binding,
}
use managed_agent_web_slack.Threads.Sends.{record_logical_send, bind_task_id}
use managed_agent_web_slack.Threads.Contexts.{
  claim_context_initialization, initializable, initializing_row, bind_context, claimed_row,
  ready_row, release_context_initialization, releasable, released_row,
}
use managed_agent_web_slack.Threads.Moves.Defs.{ThreadMove, thread_move, thread_moves}

-- The CHECK of agent_threads.
unfoldable pub context_ok : Thread → Bool
context_ok t = elim t.context_state [
  | ContextState.uninitialized ↦
      is_none t.context_id
      && (is_none t.context_init_claim_id && is_none t.context_init_lease_expires_at)
  | ContextState.initializing ↦
      is_none t.context_id
      && (is_some t.context_init_claim_id && is_some t.context_init_lease_expires_at)
  | ContextState.ready ↦
      is_some t.context_id
      && (is_none t.context_init_claim_id && is_none t.context_init_lease_expires_at)
]

abbrev pub surface_of : SurfaceBinding → Surface
surface_of b = record {
  surface = b.surface;
  tenant_id = b.tenant_id;
  external_thread_id = b.external_thread_id;
}

-- `UNIQUE (surface, tenant_id, external_thread_id)`
abbrev pub UniqueSurfaces : List SurfaceBinding → Type 0
UniqueSurfaces [] = Unit
UniqueSurfaces (b ∷ rows) = (any_row (of_surface (surface_of b)) rows ≡ false) × UniqueSurfaces rows

pub record IsValid (db : ThreadDb) : Type 0 where
  pub contexts : All (λ t. context_ok t ≡ true) db.threads
  pub surfaces : UniqueSurfaces db.bindings

-- A row that no surface of the table has goes last.
any_row-append :
    (s : Surface) (rows : List SurfaceBinding) (b : SurfaceBinding)
    → any_row (of_surface s) rows ≡ false
    → of_surface s b ≡ false
    → any_row (of_surface s) (rows ++ b ∷ []) ≡ false
any_row-append s [] b h k = ground (arith, k)
any_row-append s (x ∷ rows) b h k = ground (arith, any_row-append s rows b)

UniqueSurfaces-append :
    (rows : List SurfaceBinding) (id thread_id : Key) (s : Surface) (now : ℕ)
    → any_row (of_surface s) rows ≡ false
    → UniqueSurfaces rows
    → UniqueSurfaces (rows ++ new_binding id thread_id s now ∷ [])
UniqueSurfaces-append [] id thread_id s now free h = (refl, tt)
UniqueSurfaces-append (b ∷ rows) id thread_id s now free h = (
  any_row-append (surface_of b) rows (new_binding id thread_id s now) h.0 (ground (arith, free)),
  UniqueSurfaces-append rows id thread_id s now (ground (arith, free)) h.1,
)

module _ (db : ThreadDb) (v : IsValid db) where
  updated-valid :
      (p : Thread → Bool) (f : Thread → Thread)
      → ((t : Thread) → context_ok t ≡ true → p t ≡ true → context_ok (f t) ≡ true)
      → All (λ t. context_ok t ≡ true) (update_where p f db.threads)
  updated-valid p f step =
      All-update_where (λ t. context_ok t ≡ true) p f db.threads step v.contexts

  added-valid :
      (t : Thread) → context_ok t ≡ true → All (λ x. context_ok x ≡ true) (db.threads ++ t ∷ [])
  added-valid t h = All-append (λ x. context_ok x ≡ true) db.threads (t ∷ []) v.contexts (h, tt)

  create_thread-IsValid :
      (f p a : Key) (title : Option (List ℕ)) → IsValid (create_thread f p a title db).1
  unfolding create_thread context_ok
  create_thread-IsValid f p a title =
      ground (arith, v, added-valid (new_thread f p a none title db.now) refl)

  create_idempotent-IsValid :
      (f p a r : Key) (title : Option (List ℕ))
      → IsValid (create_thread_idempotent f p a r title db).1
  unfolding create_thread_idempotent context_ok
  create_idempotent-IsValid f p a r title =
      ground (arith, v, added-valid (new_thread f p a (some r) title db.now) refl)

  update_title-IsValid : (id : Key) (title : List ℕ) → IsValid (update_title_if_empty id title db).1
  unfolding update_title_if_empty context_ok
  update_title-IsValid id title = record {
    contexts = updated-valid (untitled_row id) (titled title db.now) (λ t h k. ground arith);
    surfaces = v.surfaces;
  }

  archive-IsValid : (p id : Key) → IsValid (archive_thread p id db).1
  unfolding archive_thread context_ok
  archive-IsValid p id = record {
    contexts = updated-valid (open_row p id) (archived db.now) (λ t h k. ground arith);
    surfaces = v.surfaces;
  }

  restore-IsValid : (p id : Key) → IsValid (restore_thread p id db).1
  unfolding restore_thread context_ok
  restore-IsValid p id = record {
    contexts = updated-valid (archived_row p id) (restored db.now) (λ t h k. ground arith);
    surfaces = v.surfaces;
  }

  creation-IsValid : (t b : Key) (r : SurfaceRequest) → IsValid (creation t b r (λ x. x) db).1
  unfolding creation context_ok
  creation-IsValid t b r = ground (
    arith,
    v,
    added-valid (new_thread t r.principal_id r.agent_id none r.title db.now) refl,
    UniqueSurfaces-append db.bindings b t r.surface db.now,
  )

  bind_surface-IsValid : (f t : Key) (s : Surface) → IsValid (bind_surface f t s db).1
  unfolding bind_surface
  bind_surface-IsValid f t s = ground (arith, v, UniqueSurfaces-append db.bindings f t s db.now)

  record_send-IsValid : (f t a m : Key) → IsValid (record_logical_send f t a m db).1
  unfolding record_logical_send context_ok
  record_send-IsValid f t a m = ground (
    arith,
    v,
    updated-valid (λ x. x.thread_id == t) (λ x. record x { updated_at = db.now })
        (λ x h k. ground arith),
  )

  bind_task-IsValid : (t m k : Key) → IsValid (bind_task_id t m k db).1
  unfolding bind_task_id
  bind_task-IsValid t m k = ground (arith, v)

  claim_context-IsValid : (k t : Key) (n : ℕ) → IsValid (claim_context_initialization k t n db).1
  unfolding claim_context_initialization context_ok
  claim_context-IsValid k t n = ground (
    arith,
    v,
    updated-valid (initializable t db.now) (initializing_row k (db.now + n) db.now)
        (λ x h g. ground arith),
  )

  bind_context-IsValid : (t k c : Key) → IsValid (bind_context t k c db).1
  unfolding bind_context context_ok
  bind_context-IsValid t k c = ground (
    arith,
    v,
    updated-valid (claimed_row t k db.now) (ready_row c db.now) (λ x h g. ground arith),
  )

  release-IsValid : (t k : Key) → IsValid (release_context_initialization t k db).1
  unfolding release_context_initialization context_ok
  release-IsValid t k = record {
    contexts = updated-valid (releasable t k) (released_row db.now) (λ x h g. ground arith);
    surfaces = v.surfaces;
  }

  ensure-IsValid : (id : Key) → IsValid (ensure_principal id db)
  unfolding ensure_principal
  ensure-IsValid id = ground (arith, v)

  map_identity-IsValid : (f p w t u : Key) → IsValid (map_external_identity f p w t u db).1
  unfolding map_external_identity
  map_identity-IsValid f p w t u = ground (arith, v)

pub thread_move-IsValid : (m : ThreadMove) (db : ThreadDb) → IsValid db → IsValid (thread_move m db)
unfolding thread_move
thread_move-IsValid (ThreadMove.tick n) db v = record {
  contexts = v.contexts;
  surfaces = v.surfaces;
}
thread_move-IsValid (ThreadMove.ensure_principal id) db v = ensure-IsValid db v id
thread_move-IsValid (ThreadMove.map_external_identity f p w t u) db v =
    map_identity-IsValid db v f p w t u
thread_move-IsValid (ThreadMove.create_thread f p a title) db v =
    create_thread-IsValid db v f p a title
thread_move-IsValid (ThreadMove.create_thread_idempotent f p a r title) db v =
    create_idempotent-IsValid db v f p a r title
thread_move-IsValid (ThreadMove.update_title_if_empty id title) db v =
    update_title-IsValid db v id title
thread_move-IsValid (ThreadMove.archive_thread p id) db v = archive-IsValid db v p id
thread_move-IsValid (ThreadMove.restore_thread p id) db v = restore-IsValid db v p id
thread_move-IsValid (ThreadMove.create_surface_thread t b r) db v = creation-IsValid db v t b r
thread_move-IsValid (ThreadMove.bind_surface f t s) db v = bind_surface-IsValid db v f t s
thread_move-IsValid (ThreadMove.record_logical_send f t a m) db v = record_send-IsValid db v f t a m
thread_move-IsValid (ThreadMove.bind_task_id t m k) db v = bind_task-IsValid db v t m k
thread_move-IsValid (ThreadMove.claim_context_initialization k t n) db v =
    claim_context-IsValid db v k t n
thread_move-IsValid (ThreadMove.bind_context t k c) db v = bind_context-IsValid db v t k c
thread_move-IsValid (ThreadMove.release_context_initialization t k) db v = release-IsValid db v t k

-- Over any transactions by any callers in any order, when it holds before: each thread's context,
-- claim and lease columns agree with its context state, and a surface thread has one binding.
pub thread_moves-IsValid :
    (ms : List ThreadMove) (db : ThreadDb) → IsValid db → IsValid (thread_moves ms db)
unfolding thread_moves
thread_moves-IsValid [] db v = v
thread_moves-IsValid (m ∷ ms) db v =
    thread_moves-IsValid ms (thread_move m db) (thread_move-IsValid m db v)
