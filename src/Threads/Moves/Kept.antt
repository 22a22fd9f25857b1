-- ===== src/Threads/Moves/Kept.antt =====
-- What no transaction on threads undoes.
use managed_agent_web_slack.Common.{
  ℕ, ◌≡◌, refl, Option, none, some, List, [], ◌∷◌, ◌==◌, Bool, true, false, ◌+◌, update_where,
  Evolves, Evolves-refl, Evolves-update_where, Evolves-append, arith,
}
use managed_agent_web_slack.Store.{Key}
use managed_agent_web_slack.Threads.{
  Thread, SurfaceBinding, LogicalSend, ThreadDb, is_ready, is_bound,
}
use managed_agent_web_slack.Threads.Creation.{
  new_thread, is_untitled, create_thread, create_thread_idempotent, update_title_if_empty,
  untitled_row, titled, archive_thread, open_row, archived, restore_thread, archived_row, restored,
}
use managed_agent_web_slack.Threads.Identities.{ensure_principal, map_external_identity}
use managed_agent_web_slack.Threads.Surfaces.{
  Surface, SurfaceRequest, creation, bind_surface, new_binding,
}
use managed_agent_web_slack.Threads.Sends.{
  record_logical_send, new_send, bind_task_id, unbound_row, bound_row,
}
use managed_agent_web_slack.Threads.Contexts.{
  claim_context_initialization, initializable, initializing_row, bind_context, claimed_row,
  ready_row, release_context_initialization, releasable, released_row,
}
use managed_agent_web_slack.Threads.Moves.Defs.{ThreadMove, thread_move}

-- From a thread's row to a later one.
pub record ThreadKept (t u : Thread) : Type 0 where
  pub thread_id : u.thread_id ≡ t.thread_id
  pub principal_id : u.principal_id ≡ t.principal_id
  pub agent_id : u.agent_id ≡ t.agent_id
  pub creation_request_id : u.creation_request_id ≡ t.creation_request_id
  pub titled : is_untitled t.title ≡ false → u.title ≡ t.title
  pub context :
      is_ready t.context_state ≡ true
      → (u.context_state ≡ t.context_state) × (u.context_id ≡ t.context_id)

-- From a logical send's row to a later one.
pub record SendKept (s r : LogicalSend) : Type 0 where
  pub thread_id : r.thread_id ≡ s.thread_id
  pub agent_id : r.agent_id ≡ s.agent_id
  pub client_message_id : r.client_message_id ≡ s.client_message_id
  pub task :
      is_bound s.submission_status ≡ true
      → (r.submission_status ≡ s.submission_status) × (r.task_id ≡ s.task_id)

abbrev pub BindingKept : SurfaceBinding → SurfaceBinding → Type 0
BindingKept b c = c ≡ b

pub record Kept (before after : ThreadDb) : Type 0 where
  pub threads : Evolves ThreadKept before.threads after.threads
  pub bindings : Evolves BindingKept before.bindings after.bindings
  pub sends : Evolves SendKept before.sends after.sends

pub ThreadKept-refl : (t : Thread) → ThreadKept t t
ThreadKept-refl t = ground arith

pub ThreadKept-trans : (x y z : Thread) → ThreadKept x y → ThreadKept y z → ThreadKept x z
ThreadKept-trans x y z h k = ground arith

pub SendKept-refl : (s : LogicalSend) → SendKept s s
SendKept-refl s = ground arith

pub SendKept-trans : (x y z : LogicalSend) → SendKept x y → SendKept y z → SendKept x z
SendKept-trans x y z h k = ground arith

module _ (db : ThreadDb) where
  pub same_threads : Evolves ThreadKept db.threads db.threads
  same_threads = Evolves-refl ThreadKept ThreadKept-refl db.threads

  pub same_bindings : Evolves BindingKept db.bindings db.bindings
  same_bindings = Evolves-refl BindingKept (λ b. refl) db.bindings

  pub same_sends : Evolves SendKept db.sends db.sends
  same_sends = Evolves-refl SendKept SendKept-refl db.sends

  pub Kept-refl : Kept db db
  Kept-refl = record { threads = same_threads; bindings = same_bindings; sends = same_sends }

  -- An UPDATE of agent_threads.
  pub updated_threads :
      (p : Thread → Bool) (f : Thread → Thread)
      → ((t : Thread) → p t ≡ true → ThreadKept t (f t))
      → Evolves ThreadKept db.threads (update_where p f db.threads)
  updated_threads p f step = Evolves-update_where ThreadKept ThreadKept-refl p f db.threads step

  create_thread-Kept :
      (f p a : Key) (title : Option (List ℕ)) → Kept db (create_thread f p a title db).1
  unfolding create_thread
  create_thread-Kept f p a title = ground (
    arith,
    Kept-refl,
    same_bindings,
    same_sends,
    Evolves-append ThreadKept ThreadKept-refl db.threads (new_thread f p a none title db.now ∷ []),
  )

  create_idempotent-Kept :
      (f p a r : Key) (title : Option (List ℕ))
      → Kept db (create_thread_idempotent f p a r title db).1
  unfolding create_thread_idempotent
  create_idempotent-Kept f p a r title = ground (
    arith,
    Kept-refl,
    same_bindings,
    same_sends,
    Evolves-append ThreadKept ThreadKept-refl db.threads
        (new_thread f p a (some r) title db.now ∷ []),
  )

  update_title-Kept : (id : Key) (title : List ℕ) → Kept db (update_title_if_empty id title db).1
  unfolding update_title_if_empty
  update_title-Kept id title = record {
    threads = updated_threads (untitled_row id) (titled title db.now) (λ t h. ground arith);
    bindings = same_bindings;
    sends = same_sends;
  }

  archive-Kept : (p id : Key) → Kept db (archive_thread p id db).1
  unfolding archive_thread
  archive-Kept p id = record {
    threads = updated_threads (open_row p id) (archived db.now) (λ t h. ground arith);
    bindings = same_bindings;
    sends = same_sends;
  }

  restore-Kept : (p id : Key) → Kept db (restore_thread p id db).1
  unfolding restore_thread
  restore-Kept p id = record {
    threads = updated_threads (archived_row p id) (restored db.now) (λ t h. ground arith);
    bindings = same_bindings;
    sends = same_sends;
  }

  creation-Kept : (t b : Key) (r : SurfaceRequest) → Kept db (creation t b r (λ x. x) db).1
  unfolding creation
  creation-Kept t b r = ground (
    arith,
    Kept-refl,
    same_sends,
    Evolves-append ThreadKept ThreadKept-refl db.threads
        (new_thread t r.principal_id r.agent_id none r.title db.now ∷ []),
    Evolves-append BindingKept (λ x. refl) db.bindings (new_binding b t r.surface db.now ∷ []),
  )

  bind_surface-Kept : (f t : Key) (s : Surface) → Kept db (bind_surface f t s db).1
  unfolding bind_surface
  bind_surface-Kept f t s = ground (
    arith,
    Kept-refl,
    same_threads,
    same_sends,
    Evolves-append BindingKept (λ x. refl) db.bindings (new_binding f t s db.now ∷ []),
  )

  record_send-Kept : (f t a m : Key) → Kept db (record_logical_send f t a m db).1
  unfolding record_logical_send
  record_send-Kept f t a m = ground (
    arith,
    Kept-refl,
    same_bindings,
    same_sends,
    updated_threads (λ x. x.thread_id == t) (λ x. record x { updated_at = db.now })
        (λ x h. ground arith),
    Evolves-append SendKept SendKept-refl db.sends (new_send f t a m db.now ∷ []),
  )

  bind_task-Kept : (t m k : Key) → Kept db (bind_task_id t m k db).1
  unfolding bind_task_id
  bind_task-Kept t m k = ground (
    arith,
    Kept-refl,
    same_threads,
    same_bindings,
    Evolves-update_where SendKept SendKept-refl (unbound_row t m) (bound_row k db.now) db.sends
        (λ s h. ground arith),
  )

  claim_context-Kept : (k t : Key) (n : ℕ) → Kept db (claim_context_initialization k t n db).1
  unfolding claim_context_initialization
  claim_context-Kept k t n = ground (
    arith,
    Kept-refl,
    same_bindings,
    same_sends,
    updated_threads (initializable t db.now) (initializing_row k (db.now + n) db.now)
        (λ x h. ground arith),
  )

  bind_context-Kept : (t k c : Key) → Kept db (bind_context t k c db).1
  unfolding bind_context
  bind_context-Kept t k c = ground (
    arith,
    Kept-refl,
    same_bindings,
    same_sends,
    updated_threads (claimed_row t k db.now) (ready_row c db.now) (λ x h. ground arith),
  )

  release-Kept : (t k : Key) → Kept db (release_context_initialization t k db).1
  unfolding release_context_initialization
  release-Kept t k = record {
    threads = updated_threads (releasable t k) (released_row db.now) (λ x h. ground arith);
    bindings = same_bindings;
    sends = same_sends;
  }

  ensure-Kept : (id : Key) → Kept db (ensure_principal id db)
  unfolding ensure_principal
  ensure-Kept id = ground (arith, Kept-refl, same_threads, same_bindings, same_sends)

  map_identity-Kept : (f p v t u : Key) → Kept db (map_external_identity f p v t u db).1
  unfolding map_external_identity
  map_identity-Kept f p v t u = ground (arith, Kept-refl, same_threads, same_bindings, same_sends)

pub thread_move-Kept : (m : ThreadMove) (db : ThreadDb) → Kept db (thread_move m db)
unfolding thread_move
thread_move-Kept (ThreadMove.tick n) db = record {
  threads = same_threads db;
  bindings = same_bindings db;
  sends = same_sends db;
}
thread_move-Kept (ThreadMove.ensure_principal id) db = ensure-Kept db id
thread_move-Kept (ThreadMove.map_external_identity f p v t u) db = map_identity-Kept db f p v t u
thread_move-Kept (ThreadMove.create_thread f p a title) db = create_thread-Kept db f p a title
thread_move-Kept (ThreadMove.create_thread_idempotent f p a r title) db =
    create_idempotent-Kept db f p a r title
thread_move-Kept (ThreadMove.update_title_if_empty id title) db = update_title-Kept db id title
thread_move-Kept (ThreadMove.archive_thread p id) db = archive-Kept db p id
thread_move-Kept (ThreadMove.restore_thread p id) db = restore-Kept db p id
thread_move-Kept (ThreadMove.create_surface_thread t b r) db = creation-Kept db t b r
thread_move-Kept (ThreadMove.bind_surface f t s) db = bind_surface-Kept db f t s
thread_move-Kept (ThreadMove.record_logical_send f t a m) db = record_send-Kept db f t a m
thread_move-Kept (ThreadMove.bind_task_id t m k) db = bind_task-Kept db t m k
thread_move-Kept (ThreadMove.claim_context_initialization k t n) db = claim_context-Kept db k t n
thread_move-Kept (ThreadMove.bind_context t k c) db = bind_context-Kept db t k c
thread_move-Kept (ThreadMove.release_context_initialization t k) db = release-Kept db t k
