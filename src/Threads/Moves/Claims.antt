-- ===== src/Threads/Moves/Claims.antt =====
-- The lease on a thread's context initialization is exclusive.
use managed_agent_web_slack.Common.{
  ℕ, ◌+◌, ◌≡◌, refl, Option, none, some, List, [], ◌∷◌, ◌++◌, ◌==◌, ◌&&◌, Bool, true, not, equals,
  after, update_where, Evolves, Evolves-refl, Evolves-update_where, Evolves-append, arith,
}
use managed_agent_web_slack.Store.{Key, Time}
use managed_agent_web_slack.Threads.{Thread, ThreadDb, is_initializing}
use managed_agent_web_slack.Threads.Creation.{
  new_thread, create_thread, create_thread_idempotent, update_title_if_empty, untitled_row, titled,
  archive_thread, open_row, archived, restore_thread, archived_row, restored,
}
use managed_agent_web_slack.Threads.Identities.{ensure_principal, map_external_identity}
use managed_agent_web_slack.Threads.Surfaces.{Surface, SurfaceRequest, creation, bind_surface}
use managed_agent_web_slack.Threads.Sends.{record_logical_send, bind_task_id}
use managed_agent_web_slack.Threads.Contexts.{
  claim_context_initialization, initializable, initializing_row, bind_context, claimed_row,
  ready_row, release_context_initialization, releasable, released_row,
}
use managed_agent_web_slack.Threads.Moves.Defs.{ThreadMove, thread_move}

-- The claim `k` holds an unexpired lease on the initialization of the thread.
abbrev pub is_held : Key → Time → Thread → Bool
is_held k now t =
    is_initializing t.context_state
    && (equals t.context_init_claim_id k && after t.context_init_lease_expires_at now)

abbrev pub HoldKept : Key → Time → Thread → Thread → Type 0
HoldKept k now t u =
    is_held k now t ≡ true
    → (u.thread_id ≡ t.thread_id)
      × (u.context_state ≡ t.context_state)
      × (u.context_init_claim_id ≡ t.context_init_claim_id)
      × (u.context_init_lease_expires_at ≡ t.context_init_lease_expires_at)

-- The move is not the claim's own end.
abbrev pub is_others : Key → ThreadMove → Bool
is_others k (ThreadMove.bind_context t claim c) = not (claim == k)
is_others k (ThreadMove.release_context_initialization t claim) = not (claim == k)
is_others k _ = true

HoldKept-refl : (k : Key) (now : Time) (t : Thread) → HoldKept k now t t
HoldKept-refl k now t held = (refl, refl, refl, refl)

module _ (k : Key) (db : ThreadDb) where
  abbrev HoldsKept : ThreadDb → Type 0
  HoldsKept reached = Evolves (HoldKept k db.now) db.threads reached.threads

  same : HoldsKept db
  same = Evolves-refl (HoldKept k db.now) (HoldKept-refl k db.now) db.threads

  updated :
      (p : Thread → Bool) (f : Thread → Thread)
      → ((t : Thread) → p t ≡ true → HoldKept k db.now t (f t))
      → Evolves (HoldKept k db.now) db.threads (update_where p f db.threads)
  updated p f step =
      Evolves-update_where (HoldKept k db.now) (HoldKept-refl k db.now) p f db.threads step

  added : (rows : List Thread) → Evolves (HoldKept k db.now) db.threads (db.threads ++ rows)
  added rows = Evolves-append (HoldKept k db.now) (HoldKept-refl k db.now) db.threads rows

  create-HoldsKept :
      (f p a : Key) (title : Option (List ℕ)) → HoldsKept (create_thread f p a title db).1
  unfolding create_thread
  create-HoldsKept f p a title =
      ground (arith, same, added (new_thread f p a none title db.now ∷ []))

  idempotent-HoldsKept :
      (f p a r : Key) (title : Option (List ℕ))
      → HoldsKept (create_thread_idempotent f p a r title db).1
  unfolding create_thread_idempotent
  idempotent-HoldsKept f p a r title =
      ground (arith, same, added (new_thread f p a (some r) title db.now ∷ []))

  title-HoldsKept : (id : Key) (title : List ℕ) → HoldsKept (update_title_if_empty id title db).1
  unfolding update_title_if_empty
  title-HoldsKept id title = updated (untitled_row id) (titled title db.now) (λ t h. ground arith)

  archive-HoldsKept : (p id : Key) → HoldsKept (archive_thread p id db).1
  unfolding archive_thread
  archive-HoldsKept p id = updated (open_row p id) (archived db.now) (λ t h. ground arith)

  restore-HoldsKept : (p id : Key) → HoldsKept (restore_thread p id db).1
  unfolding restore_thread
  restore-HoldsKept p id = updated (archived_row p id) (restored db.now) (λ t h. ground arith)

  creation-HoldsKept : (t b : Key) (r : SurfaceRequest) → HoldsKept (creation t b r (λ x. x) db).1
  unfolding creation
  creation-HoldsKept t b r =
      ground (arith, same, added (new_thread t r.principal_id r.agent_id none r.title db.now ∷ []))

  bind_surface-HoldsKept : (f t : Key) (s : Surface) → HoldsKept (bind_surface f t s db).1
  unfolding bind_surface
  bind_surface-HoldsKept f t s = ground (arith, same)

  send-HoldsKept : (f t a m : Key) → HoldsKept (record_logical_send f t a m db).1
  unfolding record_logical_send
  send-HoldsKept f t a m = ground (
    arith,
    same,
    updated (λ x. x.thread_id == t) (λ x. record x { updated_at = db.now }) (λ x h. ground arith),
  )

  bind_task-HoldsKept : (t m c : Key) → HoldsKept (bind_task_id t m c db).1
  unfolding bind_task_id
  bind_task-HoldsKept t m c = ground (arith, same)

  claim-HoldsKept :
      (claim t : Key) (n : ℕ) → HoldsKept (claim_context_initialization claim t n db).1
  unfolding claim_context_initialization
  claim-HoldsKept claim t n = ground (
    arith,
    same,
    updated (initializable t db.now) (initializing_row claim (db.now + n) db.now)
        (λ x h. ground arith),
  )

  bind-HoldsKept :
      (t claim c : Key) → not (claim == k) ≡ true → HoldsKept (bind_context t claim c db).1
  unfolding bind_context
  bind-HoldsKept t claim c other =
      ground (
        arith,
        same,
        updated (claimed_row t claim db.now) (ready_row c db.now) (λ x h. ground arith),
      )

  release-HoldsKept :
      (t claim : Key)
      → not (claim == k) ≡ true
      → HoldsKept (release_context_initialization t claim db).1
  unfolding release_context_initialization
  release-HoldsKept t claim other =
      updated (releasable t claim) (released_row db.now) (λ x h. ground arith)

  ensure-HoldsKept : (id : Key) → HoldsKept (ensure_principal id db)
  unfolding ensure_principal
  ensure-HoldsKept id = ground (arith, same)

  map_identity-HoldsKept : (f p w t u : Key) → HoldsKept (map_external_identity f p w t u db).1
  unfolding map_external_identity
  map_identity-HoldsKept f p w t u = ground (arith, same)

-- While a caller's claim on a thread's context initialization is unexpired, no transaction but its
-- own bind or release ends it or shortens its lease: not another caller's claim, bind or release.
-- The rows keep their places.
pub thread_move-HoldKept :
    (m : ThreadMove) (k : Key) (db : ThreadDb)
    → is_others k m ≡ true
    → Evolves (HoldKept k db.now) db.threads (thread_move m db).threads
unfolding thread_move
thread_move-HoldKept (ThreadMove.tick n) k db h = same k db
thread_move-HoldKept (ThreadMove.ensure_principal id) k db h = ensure-HoldsKept k db id
thread_move-HoldKept (ThreadMove.map_external_identity f p w t u) k db h =
    map_identity-HoldsKept k db f p w t u
thread_move-HoldKept (ThreadMove.create_thread f p a title) k db h =
    create-HoldsKept k db f p a title
thread_move-HoldKept (ThreadMove.create_thread_idempotent f p a r title) k db h =
    idempotent-HoldsKept k db f p a r title
thread_move-HoldKept (ThreadMove.update_title_if_empty id title) k db h =
    title-HoldsKept k db id title
thread_move-HoldKept (ThreadMove.archive_thread p id) k db h = archive-HoldsKept k db p id
thread_move-HoldKept (ThreadMove.restore_thread p id) k db h = restore-HoldsKept k db p id
thread_move-HoldKept (ThreadMove.create_surface_thread t b r) k db h = creation-HoldsKept k db t b r
thread_move-HoldKept (ThreadMove.bind_surface f t s) k db h = bind_surface-HoldsKept k db f t s
thread_move-HoldKept (ThreadMove.record_logical_send f t a m) k db h = send-HoldsKept k db f t a m
thread_move-HoldKept (ThreadMove.bind_task_id t m c) k db h = bind_task-HoldsKept k db t m c
thread_move-HoldKept (ThreadMove.claim_context_initialization claim t n) k db h =
    claim-HoldsKept k db claim t n
thread_move-HoldKept (ThreadMove.bind_context t claim c) k db h = bind-HoldsKept k db t claim c h
thread_move-HoldKept (ThreadMove.release_context_initialization t claim) k db h =
    release-HoldsKept k db t claim h
