-- ===== src/Threads/Moves/Races.antt =====
-- The race of two creators of one surface thread: it ends at the winner's rows.
use managed_agent_web_slack.Common.{
  ℕ, suc, ◌≡◌, Option, none, some, List, [], ◌∷◌, ◌==◌, Bool, true, find_row, any_row, Bool-cases,
  Option-cases, inl, inr, Evolves, arith,
}
use managed_agent_web_slack.Store.{Key}
use managed_agent_web_slack.Threads.{
  Thread, SurfaceBinding, ThreadDb, Outcome, ok, err, surface_race, get_thread,
}
use managed_agent_web_slack.Threads.Creation.{new_thread, insert_thread}
use managed_agent_web_slack.Threads.Surfaces.{
  Surface, SurfaceRequest, Attempt, of_surface, get_surface_binding, creation, winner, checked,
  insert_binding, after_attempt, get_or_create_surface_thread,
}
use managed_agent_web_slack.Threads.Moves.Defs.{ThreadMove, thread_moves}
use managed_agent_web_slack.Threads.Moves.Kept.{BindingKept}
use managed_agent_web_slack.Threads.Moves.Stable.{thread_moves-Kept}

find_row-hit :
    {A : Type 0} (p : A → Bool) (rows : List A) {r : A} → find_row p rows ≡ some r → p r ≡ true
find_row-hit p [] h = cc
find_row-hit p (x ∷ rows) h = elim (Bool-cases (p x)) [
  | inl hit ↦ ground (arith, hit)
  | inr miss ↦ find_row-hit p rows (rw miss at h)
]

-- A binding that is found is found for ever.
find_row-BindingKept :
    (p : SurfaceBinding → Bool) (before after : List SurfaceBinding) {b : SurfaceBinding}
    → Evolves BindingKept before after
    → find_row p before ≡ some b
    → find_row p after ≡ some b
find_row-BindingKept p [] after kept h = cc
find_row-BindingKept p (x ∷ before) [] kept h = absurd kept
find_row-BindingKept p (x ∷ before) (y ∷ after) kept h = elim (Bool-cases (p x)) [
  | inl hit ↦ ground (arith, hit, kept.0)
  | inr miss ↦
      let later = find_row-BindingKept p before after kept.1 (rw miss at h) in
      ground (arith, miss, kept.0, later)
]

-- The thread and the binding that a caller gets.
pub record FoundFor (r : SurfaceRequest) (t : Thread) (b : SurfaceBinding) : Type 0 where
  pub owner : t.principal_id ≡ r.principal_id
  pub agent : t.agent_id ≡ r.agent_id
  pub is_open : t.archived_at ≡ none
  pub surface : of_surface r.surface b ≡ true
  pub joined : b.thread_id ≡ t.thread_id

-- A call returns: a thread for the caller, or an exception that is not the race's.
abbrev pub Ends : SurfaceRequest → Option (Outcome (Thread × SurfaceBinding)) → Type 0
Ends r none = ⊥
Ends r (some (ok (t, b))) = FoundFor r t b
Ends r (some (err surface_race)) = ⊥
Ends r (some (err e)) = Unit

checked-Ends :
    (r : SurfaceRequest) (t : Thread) (b : SurfaceBinding)
    → of_surface r.surface b ≡ true
    → b.thread_id ≡ t.thread_id
    → Ends r (some (checked t b r.principal_id r.agent_id))
checked-Ends r t b s j = ground arith

winner-Ends :
    (r : SurfaceRequest) (b : SurfaceBinding) (db : ThreadDb)
    → of_surface r.surface b ≡ true
    → Ends r (some (winner r b db))
unfolding winner get_thread
winner-Ends r b db s = elim (Option-cases (find_row (λ t. t.thread_id == b.thread_id) db.threads)) [
  | inl missing ↦ rw (missing, Ends) tt
  | inr (t, found) ↦
      let same = find_row-hit (λ (x : Thread). x.thread_id == b.thread_id) db.threads found in
      rw (found, Ends) (checked-Ends r t b s (ground (arith, same)))
]

-- After the transaction: it raised the race's exception only because the binding is there.
abbrev AfterCreation :
    SurfaceRequest
    → (ThreadDb → ThreadDb)
    → ThreadDb
    → Outcome (Thread × SurfaceBinding) × ThreadDb
    → Type 0
AfterCreation r f db (ok (t, b), reached) = FoundFor r t b
AfterCreation r f db (err surface_race, reached) =
    any_row (of_surface r.surface) reached.bindings ≡ true
AfterCreation r f db (err e, reached) = Unit

inserted-AfterCreation :
    (r : SurfaceRequest) (f : ThreadDb → ThreadDb) (id tid : Key) (db reached : ThreadDb)
    → AfterCreation r f db (
        insert_binding id r.surface
          (insert_thread
            (new_thread tid r.principal_id r.agent_id none r.title reached.now)
            reached)
          reached)
unfolding insert_thread
inserted-AfterCreation r f id tid db reached = ground arith

creation-AfterCreation :
    (r : SurfaceRequest) (f : ThreadDb → ThreadDb) (tid id : Key) (db : ThreadDb)
    → AfterCreation r f db (creation tid id r f db)
unfolding creation
creation-AfterCreation r f tid id db =
    elim (Option-cases (find_row (of_surface r.surface) db.bindings)) [
      | inl free ↦ ground (arith, inserted-AfterCreation r f id tid db (f db))
      | inr (b, found) ↦
          elim (Option-cases (find_row (λ (t : Thread). t.thread_id == b.thread_id) db.threads)) [
            | inl missing ↦ ground (arith, inserted-AfterCreation r f id tid db (f db))
            | inr (t, joined) ↦
                let hit = find_row-hit (of_surface r.surface) db.bindings found in
                let same =
                  find_row-hit (λ (x : Thread). x.thread_id == b.thread_id) db.threads joined in
                ground (arith, hit, same)
          ]
    ]

-- A schedule of the other callers: their transactions before the INSERTs of each attempt, and
-- between a lost race and the reads that follow it.
pub record Round : Type 0 where
  pub thread_id : Key
  pub binding_id : Key
  pub before_insert : List ThreadMove
  pub before_recovery : List ThreadMove

abbrev pub attempt_of : Round → Attempt
attempt_of a = record {
  thread_id = a.thread_id;
  binding_id = a.binding_id;
  before_insert = thread_moves a.before_insert;
  before_recovery = thread_moves a.before_recovery;
}

-- The rows of a later table still have the binding.
still_bound :
    (s : Surface) (ms : List ThreadMove) (db : ThreadDb)
    → any_row (of_surface s) db.bindings ≡ true
    → (b : SurfaceBinding) × (get_surface_binding s (thread_moves ms db) ≡ some b)
      × (of_surface s b ≡ true)
unfolding get_surface_binding
still_bound s ms db taken = elim (Option-cases (find_row (of_surface s) db.bindings)) [
  | inl free ↦ absurd (ground (arith, free))
  | inr (b, found) ↦ (
    b,
    find_row-BindingKept (of_surface s) db.bindings (thread_moves ms db).bindings
        (thread_moves-Kept ms db).bindings found,
    find_row-hit (of_surface s) db.bindings found,
  )
]

after_attempt-Ends :
    (r : SurfaceRequest) (a : Round) (f : ThreadDb → ThreadDb) (db : ThreadDb)
    (x : Outcome (Thread × SurfaceBinding) × ThreadDb)
    (again : ThreadDb → Option (Outcome (Thread × SurfaceBinding)) × ThreadDb)
    → AfterCreation r f db x
    → Ends r (after_attempt x (attempt_of a) r again).0
after_attempt-Ends r a f db (ok (t, b), reached) again h = h
after_attempt-Ends r a f db (err surface_race, reached) again h =
    let (b, found, hit) = still_bound r.surface a.before_recovery reached h in
    rw (found, Ends) (winner-Ends r b (thread_moves a.before_recovery reached) hit)
after_attempt-Ends r a f db (err _, reached) again h = tt

module _ (r : SurfaceRequest) (rounds : ℕ) (schedule : ℕ → Round) (db : ThreadDb) where
  abbrev attempts : ℕ → Attempt
  attempts n = attempt_of (schedule n)

  -- However other callers interleave: the call returns after one attempt, with no second one; it
  -- gives a thread of this principal and agent that is not archived, and a binding of this surface
  -- to it, or raises another exception than that of the race.
  pub get_or_create_surface_thread-Ends :
      Ends r (get_or_create_surface_thread (suc rounds) attempts r db).0
  unfolding get_or_create_surface_thread
  get_or_create_surface_thread-Ends =
      let a = schedule rounds in
      let before_insert = thread_moves a.before_insert in
      after_attempt-Ends r a before_insert db (creation a.thread_id a.binding_id r before_insert db)
        (get_or_create_surface_thread rounds attempts r)
        (creation-AfterCreation r before_insert a.thread_id a.binding_id db)
