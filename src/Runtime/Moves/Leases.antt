-- ===== src/Runtime/Moves/Leases.antt =====
-- A scheduler's lease on a context is exclusive.
use managed_agent_web_slack.Common.{
  ℕ, ◌+◌, ◌==◌, ◌≡◌, refl, sym, subst, Option, inl, inr, Option-cases, find_row, List, [], ◌∷◌,
  ◌++◌, Bool, true, ◌&&◌, not, is_none, equals, after, update_where, Evolves, Evolves-refl,
  Evolves-update_where, Evolves-append, arith,
}
use managed_agent_web_slack.Store.{Key, Time, A2aState, InternalState, Context, Task, Db, leases}
use managed_agent_web_slack.Runtime.Identity.{
  create_initializing_context, bind_cma_session, bound_to, new_context, create_task,
}
use managed_agent_web_slack.Runtime.Admission.{admit}
use managed_agent_web_slack.Runtime.Admission.Kept.{admit-kept}
use managed_agent_web_slack.Runtime.Lease.{
  ContextField, claim_scheduler, release_scheduler, claimable, with_claim, claimed_by,
  without_claim, set_context, set_all, touch_context, update_context,
}
use managed_agent_web_slack.Runtime.Tasks.{
  Resolution, resolve_held_task, activate_task, freed, idle_lease, activated_context,
}
use managed_agent_web_slack.Runtime.Moves.Defs.{Move, move}
use managed_agent_web_slack.Runtime.Moves.Contexts.{move-contexts}

-- From the row `c` to the row `d` of a context, while the claim `k` holds an unexpired lease on it.
abbrev pub LeaseKept : Key → Time → Context → Context → Type 0
LeaseKept k now c d =
    equals c.scheduler_claim_id k && after c.scheduler_lease_expires_at now ≡ true
    → (d.context_id ≡ c.context_id)
      × (d.scheduler_claim_id ≡ c.scheduler_claim_id)
      × (d.scheduler_lease_expires_at ≡ c.scheduler_lease_expires_at)

abbrev pub LeasesKept : Key → Db → Db → Type 0
LeasesKept k db reached = Evolves (LeaseKept k db.now) db.contexts reached.contexts

-- The move is not the claim's own release.
abbrev pub is_others : Key → Move → Bool
is_others k (Move.release_scheduler id claim) = not (claim == k)
is_others k _ = true

LeaseKept-refl : (k : Key) (now : Time) (c : Context) → LeaseKept k now c c
LeaseKept-refl k now c held = (refl, refl, refl)

set_all-LeaseKept :
    (fields : List ContextField) (k : Key) (now : Time) (c : Context)
    → LeaseKept k now c (set_all set_context fields c)
unfolding set_context
set_all-LeaseKept [] k now c held = (refl, refl, refl)
set_all-LeaseKept (f ∷ fields) k now c held =
    ground (arith, set_all-LeaseKept fields k now (set_context f c))

module _ (k : Key) (db : Db) where
  updated :
      (p : Context → Bool) (f : Context → Context)
      → ((r : Context) → p r ≡ true → LeaseKept k db.now r (f r))
      → Evolves (LeaseKept k db.now) db.contexts (update_where p f db.contexts)
  updated p f step =
      Evolves-update_where (LeaseKept k db.now) (LeaseKept-refl k db.now) p f db.contexts step

  same : LeasesKept k db db
  same = Evolves-refl (LeaseKept k db.now) (LeaseKept-refl k db.now) db.contexts

  appended : (rows : List Context) → Evolves (LeaseKept k db.now) db.contexts (db.contexts ++ rows)
  appended rows = Evolves-append (LeaseKept k db.now) (LeaseKept-refl k db.now) db.contexts rows

  unchanged :
      (rows : List Context) → rows ≡ db.contexts → Evolves (LeaseKept k db.now) db.contexts rows
  unchanged rows e =
      subst (λ (xs : List Context). Evolves (LeaseKept k db.now) db.contexts xs) (sym e) same

  create_context-LeasesKept : (id m : Key) → LeasesKept k db (create_initializing_context id m db).1
  unfolding create_initializing_context
  create_context-LeasesKept id m = ground (arith, same, appended (new_context id m db.now ∷ []))

  bind_session-LeasesKept : (id s : Key) → LeasesKept k db (bind_cma_session id s db).1
  unfolding bind_cma_session
  bind_session-LeasesKept id s = ground (
    arith,
    same,
    updated (λ r. r.context_id == id && is_none r.cma_session_id) (bound_to s db.now)
        (λ r h. ground arith),
  )

  create_task-LeasesKept :
      (id c m : Key) (n : ℕ) (a : A2aState) (i : InternalState)
      → LeasesKept k db (create_task id c m n a i db).1
  unfolding create_task
  create_task-LeasesKept id c m n a i = ground (arith, same)

  claim-LeasesKept : (claim id : Key) (n : ℕ) → LeasesKept k db (claim_scheduler claim id n db).1
  unfolding claim_scheduler
  claim-LeasesKept claim id n = ground (
    arith,
    same,
    updated (claimable id db.now) (with_claim claim (db.now + n)) (λ r h. ground arith),
  )

  release-LeasesKept :
      (id claim : Key) → not (claim == k) ≡ true → LeasesKept k db (release_scheduler id claim db).1
  unfolding release_scheduler
  release-LeasesKept id claim other =
      updated (claimed_by id claim) without_claim (λ r h. ground arith)

  update_context-LeasesKept :
      (c claim : Key) (fields : List ContextField)
      → LeasesKept k db (update_context c claim fields db).1
  unfolding update_context
  update_context-LeasesKept c claim fields = ground (
    arith,
    same,
    updated (λ r. r.context_id == c) (touch_context db.now fields)
        (λ r h. set_all-LeaseKept fields k db.now r),
  )

  resolve_held-LeasesKept :
      (t claim : Key) (r : Resolution) → LeasesKept k db (resolve_held_task t claim r db).1
  unfolding resolve_held_task
  resolve_held-LeasesKept t claim r =
      elim (Option-cases (find_row (λ (x : Task). x.task_id == t) db.tasks)) [
        | inl missing ↦ ground (arith, same)
        | inr (x, found) ↦ ground (
          arith,
          same,
          updated (leases x.context_id claim db.now) (freed r db.now)
              (λ y h held. (refl, refl, refl)),
        )
      ]

  activate-LeasesKept :
      (c t claim : Key) (p : Option Key) → LeasesKept k db (activate_task c t claim p db).1
  unfolding activate_task
  activate-LeasesKept c t claim p = ground (
    arith,
    same,
    updated (idle_lease c claim db.now) (activated_context t db.now)
        (λ x h held. (refl, refl, refl)),
  )

  admit-LeasesKept :
      (p : Key) (r : Option Key) (m id o : Key) → LeasesKept k db (admit p r m id o db).1
  admit-LeasesKept p r m id o =
      admit-kept (LeaseKept k db.now) (LeaseKept-refl k db.now) (λ x y z h g. ground arith)
        (λ now c held. (refl, refl, refl)) p r m id o db

-- While a scheduler's claim on a context is unexpired, no transaction but its own release takes the
-- claim away or shortens its lease: not another scheduler's claim, release or fenced update, not an
-- admission, a cancellation or an administrator's resolution. The rows keep their places.
pub move-LeasesKept :
    (m : Move) (k : Key) (db : Db) → is_others k m ≡ true → LeasesKept k db (move m db)
unfolding move
move-LeasesKept (Move.create_context id m) k db h = create_context-LeasesKept k db id m
move-LeasesKept (Move.bind_session id s) k db h = bind_session-LeasesKept k db id s
move-LeasesKept (Move.create_task id c m n a i) k db h = create_task-LeasesKept k db id c m n a i
move-LeasesKept (Move.admit p r m id o) k db h = admit-LeasesKept k db p r m id o
move-LeasesKept (Move.claim_scheduler claim id n) k db h = claim-LeasesKept k db claim id n
move-LeasesKept (Move.release_scheduler id claim) k db h = release-LeasesKept k db id claim h
move-LeasesKept (Move.update_context c claim fields) k db h =
    update_context-LeasesKept k db c claim fields
move-LeasesKept (Move.resolve_held_task t claim r) k db h = resolve_held-LeasesKept k db t claim r
move-LeasesKept (Move.activate_task c t claim p) k db h = activate-LeasesKept k db c t claim p
move-LeasesKept m k db h = unchanged k db (move m db).contexts (move-contexts m db refl)
