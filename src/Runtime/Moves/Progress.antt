-- ===== src/Runtime/Moves/Progress.antt =====
-- Input requests only move forward, whoever moves them and in whatever order.
use managed_agent_web_slack.Common.{
  ℕ, ◌≤◌, ◌≡◌, refl, sym, subst, some, List, [], ◌∷◌, Bool, true, false, is_some, ◌==◌, Evolves,
  Evolves-refl, Evolves-update_where, Evolves-append, Evolves-trans, arith,
}
use managed_agent_web_slack.Store.{Key, Status, Decision, Request, Db}
use managed_agent_web_slack.Runtime.Review.{
  Offer, record_policy_decision, record_human_review, record_human_ruling,
  mark_confirmation_attempted, deny_cancelled_input_request, unsettled, decided, offered, ruled,
  attemptable, attempted_at, deniable, denied, update_requests, or_lost,
}
use managed_agent_web_slack.Runtime.Requests.{
  add_input_request, resolve_input_request, new_request, resolvable, resolved_request,
}
use managed_agent_web_slack.Runtime.Moves.Defs.{Move, move, moves}
use managed_agent_web_slack.Runtime.Moves.Untouched.{move-untouched}

abbrev pub rank : Status → ℕ
rank Status.pending = 0
rank Status.resolving = 1
rank Status.resolved = 2

-- From the row `r` to the row `s` of one request.
pub record Progress (r s : Request) : Type 0 where
  pub same_task : s.task_id ≡ r.task_id
  pub same_event : s.cma_event_id ≡ r.cma_event_id
  pub same_age : s.created_at ≡ r.created_at
  pub not_back : rank r.status ≤ rank s.status
  pub frozen :
      is_some r.confirmation_attempted_at ≡ true
      → (s.confirmation_attempted_at ≡ r.confirmation_attempted_at)
        × (s.decision ≡ r.decision)
        × (s.request_id ≡ r.request_id)
  pub named : 1 ≤ rank r.status → s.request_id ≡ r.request_id
  pub denied : r.decision ≡ some Decision.deny → s.decision ≡ some Decision.deny

pub Progress-refl : (r : Request) → Progress r r
Progress-refl r = ground arith

pub Progress-trans : (r s t : Request) → Progress r s → Progress s t → Progress r t
Progress-trans r s t h k = ground arith

abbrev pub RequestsProgress : Db → Db → Type 0
RequestsProgress db after = Evolves Progress db.requests after.requests

-- A conditional UPDATE moves the rows of its condition.
updated-Progress :
    (p : Request → Bool) (f : Request → Request) (db : Db)
    → ((r : Request) → p r ≡ true → Progress r (f r))
    → RequestsProgress db (update_requests p f db).1
updated-Progress p f db step = Evolves-update_where Progress Progress-refl p f db.requests step

or_lost-Progress :
    (u : Bool × Db) (db : Db) → RequestsProgress db u.1 → RequestsProgress db (or_lost u db).1
or_lost-Progress (true, reached) db h = h
or_lost-Progress (false, reached) db h = Evolves-refl Progress Progress-refl db.requests

policy-Progress :
    (c t claim r : Key) (d : Decision) (db : Db)
    → RequestsProgress db (record_policy_decision c t claim r d db).1
unfolding record_policy_decision
policy-Progress c t claim r d db =
    or_lost-Progress _ db
      (updated-Progress (unsettled c t claim r db) (decided d db.now) db (λ row h. ground arith))

review-Progress :
    (c t claim r : Key) (o : Offer) (fresh : Key) (db : Db)
    → RequestsProgress db (record_human_review c t claim r o fresh db).1
unfolding record_human_review
review-Progress c t claim r o fresh db = ground (
  arith,
  Evolves-refl Progress Progress-refl db.requests,
  or_lost-Progress (update_requests (unsettled c t claim r db) (offered fresh o db.now) db) db (
      updated-Progress (unsettled c t claim r db) (offered fresh o db.now) db
        (λ row h. ground arith)),
)

ruling-Progress :
    (r t : Key) (d : Decision) (db : Db) → RequestsProgress db (record_human_ruling r t d db).1
unfolding record_human_ruling
ruling-Progress r t d db = ground (
  arith,
  Evolves-refl Progress Progress-refl db.requests,
  Evolves-update_where Progress Progress-refl (λ x. x.request_id == r) (ruled d db.now) db.requests
      (λ row h. ground arith),
)

attempt-Progress :
    (r c claim : Key) (db : Db) → RequestsProgress db (mark_confirmation_attempted r c claim db).1
unfolding mark_confirmation_attempted
attempt-Progress r c claim db =
    updated-Progress (attemptable r c claim db) (attempted_at db.now) db (λ row h. ground arith)

deny-Progress :
    (r c claim : Key) (db : Db) → RequestsProgress db (deny_cancelled_input_request r c claim db)
unfolding deny_cancelled_input_request
deny-Progress r c claim db =
    updated-Progress (deniable r c claim db) (denied db.now) db (λ row h. ground arith)

resolve-Progress :
    (r c claim : Key) (db : Db) → RequestsProgress db (resolve_input_request r c claim db)
unfolding resolve_input_request
resolve-Progress r c claim db =
    updated-Progress (resolvable r c claim db) (resolved_request db.now) db (λ row h. ground arith)

add-Progress :
    (r t e c claim : Key) (db : Db) → RequestsProgress db (add_input_request r t e c claim db).1
unfolding add_input_request
add-Progress r t e c claim db = ground (
  arith,
  Evolves-refl Progress Progress-refl db.requests,
  Evolves-append Progress Progress-refl db.requests (new_request r t e db.now ∷ []),
)

kept : {old new : List Request} → new ≡ old → Evolves Progress old new
kept {old} e =
    subst (λ (rows : List Request). Evolves Progress old rows) (sym e)
      (Evolves-refl Progress Progress-refl old)

pub move-RequestsProgress : (m : Move) (db : Db) → RequestsProgress db (move m db)
unfolding move
move-RequestsProgress (Move.record_policy_decision c t claim r d) db =
    policy-Progress c t claim r d db
move-RequestsProgress (Move.record_human_review c t claim r o fresh) db =
    review-Progress c t claim r o fresh db
move-RequestsProgress (Move.record_human_ruling r t d) db = ruling-Progress r t d db
move-RequestsProgress (Move.mark_confirmation_attempted r c claim) db =
    attempt-Progress r c claim db
move-RequestsProgress (Move.deny_cancelled_input_request r c claim) db = deny-Progress r c claim db
move-RequestsProgress (Move.add_input_request r t e c claim) db = add-Progress r t e c claim db
move-RequestsProgress (Move.resolve_input_request r c claim) db = resolve-Progress r c claim db
move-RequestsProgress m db = kept (move-untouched m db refl)

-- Over any moves, by any callers in any order: no input request is ever deleted or replaced, each
-- keeps its task, its provider event and its time, its status never goes back (pending, then
-- resolving, then resolved), a denial is final, and from the moment a confirmation was attempted
-- its attempt time, decision and request id are fixed.
pub moves-RequestsProgress : (ms : List Move) (db : Db) → RequestsProgress db (moves ms db)
unfolding moves
moves-RequestsProgress [] db = Evolves-refl Progress Progress-refl db.requests
moves-RequestsProgress (m ∷ ms) db =
    Evolves-trans Progress Progress-trans db.requests (move m db).requests
      (moves ms (move m db)).requests (move-RequestsProgress m db)
      (moves-RequestsProgress ms (move m db))
