-- ===== src/Runtime/Moves/Rulings.antt =====
-- The first human ruling on an offered review wins, over whatever else is committed.
use managed_agent_web_slack.Common.{
  ◌==◌, ◌≡◌, refl, sym, subst, some, none, List, [], ◌∷◌, Bool, true, false, All, All-update_where,
  All-append, find_row, find_row-All, any_row, any_row-Evolves, Bool-cases, Option-cases, inl, inr,
  arith,
}
use managed_agent_web_slack.Store.{Key, Decision, Request, Db}
use managed_agent_web_slack.Runtime.Review.{
  Offer, record_policy_decision, record_human_review, record_human_ruling,
  mark_confirmation_attempted, deny_cancelled_input_request, unsettled, decided, offered, ruled,
  attemptable, attempted_at, deniable, denied, update_requests, or_lost, open_for_ruling,
  same_decision,
}
use managed_agent_web_slack.Runtime.Requests.{
  add_input_request, resolve_input_request, new_request, resolvable, resolved_request, asks_for,
}
use managed_agent_web_slack.Runtime.Moves.Defs.{Move, move, moves}
use managed_agent_web_slack.Runtime.Moves.Untouched.{move-untouched}
use managed_agent_web_slack.Runtime.Moves.UniqueIds.{UniqueIds}
use managed_agent_web_slack.Runtime.Moves.Progress.{Progress, move-RequestsProgress}
use managed_agent_web_slack.Runtime.Moves.Accepted.{Carries, ruled_again, accepted-Carries}

-- The move gives the id `k` to no other request: a review's new id, a UUID, is another one, and a
-- request is asked for under `k` only for the task `t` and the provider's event `e`, whose name-based
-- UUID it is.
abbrev pub Spares : Key → Key → Key → Move → Type 0
Spares k t e (Move.record_human_review c u claim r offer fresh) = (fresh == k) ≡ false
Spares k t e (Move.add_input_request r u v c claim) = (r == k) ≡ true → (u ≡ t) × (v ≡ e)
Spares k t e m = Unit

module _ (k : Key) (d : Decision) where
  abbrev Ruled : Db → Type 0
  Ruled db = All (Carries k d) db.requests

  updated-Ruled :
      (p : Request → Bool) (f : Request → Request) (db : Db)
      → ((r : Request) → Carries k d r → p r ≡ true → Carries k d (f r))
      → Ruled db
      → Ruled (update_requests p f db).1
  updated-Ruled p f db keep h = All-update_where (Carries k d) p f db.requests keep h

  or_lost-Ruled : (u : Bool × Db) (db : Db) → Ruled db → Ruled u.1 → Ruled (or_lost u db).1
  or_lost-Ruled (true, reached) db h g = g
  or_lost-Ruled (false, reached) db h g = h

  policy-Ruled :
      (c t claim r : Key) (x : Decision) (db : Db)
      → Ruled db
      → Ruled (record_policy_decision c t claim r x db).1
  unfolding record_policy_decision
  policy-Ruled c t claim r x db h =
      or_lost-Ruled _ db h
        (updated-Ruled (unsettled c t claim r db) (decided x db.now) db (λ row g hit. g) h)

  review-Ruled :
      (c t claim r : Key) (o : Offer) (fresh : Key) (db : Db)
      → (fresh == k) ≡ false
      → Ruled db
      → Ruled (record_human_review c t claim r o fresh db).1
  unfolding record_human_review
  review-Ruled c t claim r o fresh db new h = ground (
    arith,
    or_lost-Ruled (update_requests (unsettled c t claim r db) (offered fresh o db.now) db) db h (
        updated-Ruled (unsettled c t claim r db) (offered fresh o db.now) db
          (λ row g hit same. ground arith) h),
  )

  -- A request that carries a ruling takes no other.
  ruling-Ruled :
      (r t : Key) (x : Decision) (db : Db) → Ruled db → Ruled (record_human_ruling r t x db).1
  unfolding record_human_ruling open_for_ruling
  ruling-Ruled r t x db h = elim (Option-cases (find_row (open_for_ruling r t db) db.requests)) [
    | inl closed ↦ ground arith
    | inr (row, found) ↦
        let read = find_row-All (Carries k d) (open_for_ruling r t db) db.requests h found in
        let kept = λ (free : row.human_ruling ≡ none).
          updated-Ruled (λ y. y.request_id == r) (ruled x db.now) db (λ y g hit same. ground arith)
            h in
        elim (Option-cases row.human_ruling) [
          | inl free ↦ let stored = kept free in ground arith
          | inr (earlier, held) ↦ ground arith
        ]
  ]

  attempt-Ruled :
      (r c claim : Key) (db : Db) → Ruled db → Ruled (mark_confirmation_attempted r c claim db).1
  unfolding mark_confirmation_attempted
  attempt-Ruled r c claim db h =
      updated-Ruled (attemptable r c claim db) (attempted_at db.now) db (λ row g hit. g) h

  deny-Ruled :
      (r c claim : Key) (db : Db) → Ruled db → Ruled (deny_cancelled_input_request r c claim db)
  unfolding deny_cancelled_input_request
  deny-Ruled r c claim db h =
      updated-Ruled (deniable r c claim db) (denied db.now) db (λ row g hit. g) h

  resolve-Ruled :
      (r c claim : Key) (db : Db) → Ruled db → Ruled (resolve_input_request r c claim db)
  unfolding resolve_input_request
  resolve-Ruled r c claim db h =
      updated-Ruled (resolvable r c claim db) (resolved_request db.now) db (λ row g hit. g) h

  module _ (t e : Key) where
    abbrev Asked : Db → Type 0
    Asked db = any_row (asks_for t e) db.requests ≡ true

    add-Ruled :
        (r u v c claim : Key) (db : Db)
        → ((r == k) ≡ true → (u ≡ t) × (v ≡ e))
        → Asked db
        → Ruled db
        → Ruled (add_input_request r u v c claim db).1
    unfolding add_input_request new_request
    add-Ruled r u v c claim db spared asked h = elim (Bool-cases (r == k)) [
      | inl same ↦ let task = (spared same).0 in let event = (spared same).1 in ground arith
      | inr other ↦ ground (
        arith,
        All-append (Carries k d) db.requests (new_request r u v db.now ∷ []) h
            ((λ same. ground arith), tt),
      )
    ]

    same_requests :
        (m : Move) (db : Db) → (move m db).requests ≡ db.requests → Ruled db → Ruled (move m db)
    same_requests m db kept h = subst (λ (rows : List Request). All (Carries k d) rows) (sym kept) h

    move-Ruled : (m : Move) (db : Db) → Spares k t e m → Asked db → Ruled db → Ruled (move m db)
    unfolding move
    move-Ruled (Move.record_policy_decision c u claim r x) db s a h =
        policy-Ruled c u claim r x db h
    move-Ruled (Move.record_human_review c u claim r o fresh) db s a h =
        review-Ruled c u claim r o fresh db s h
    move-Ruled (Move.record_human_ruling r u x) db s a h = ruling-Ruled r u x db h
    move-Ruled (Move.mark_confirmation_attempted r c claim) db s a h = attempt-Ruled r c claim db h
    move-Ruled (Move.deny_cancelled_input_request r c claim) db s a h = deny-Ruled r c claim db h
    move-Ruled (Move.add_input_request r u v c claim) db s a h = add-Ruled r u v c claim db s a h
    move-Ruled (Move.resolve_input_request r c claim) db s a h = resolve-Ruled r c claim db h
    move-Ruled m db s a h = same_requests m db (move-untouched m db refl) h

    move-Asked : (m : Move) (db : Db) → Asked db → Asked (move m db)
    move-Asked m db a =
        any_row-Evolves Progress (asks_for t e) (λ x y h hit. ground arith) db.requests
          (move m db).requests (move-RequestsProgress m db) a

    moves-Ruled :
        (ms : List Move) (db : Db)
        → All (Spares k t e) ms
        → Asked db
        → Ruled db
        → Ruled (moves ms db)
    unfolding moves
    moves-Ruled [] db s a h = h
    moves-Ruled (m ∷ ms) db s a h =
        moves-Ruled ms (move m db) s.1 (move-Asked m db a) (move-Ruled m db s.0 a h)

  -- A later ruling on such a request.
  later_ruling :
      (t : Key) (again : Decision) (db : Db)
      → Ruled db
      → ((record_human_ruling k t again db).1 ≡ db)
        × ((record_human_ruling k t again db).0 ≡ true → same_decision d again ≡ true)
  unfolding record_human_ruling open_for_ruling
  later_ruling t again db h = elim (Option-cases (find_row (open_for_ruling k t db) db.requests)) [
    | inl closed ↦ rw (closed, record_human_ruling) (refl, (λ accepted. ground arith))
    | inr (row, found) ↦
        let read = find_row-All (Carries k d) (open_for_ruling k t db) db.requests h found in
        let held : row.human_ruling ≡ some d = read.0 (ground arith) in ground (arith, held)
  ]

-- Once a ruling on a request `k` of a task was accepted, it is the one that counts for as long as a
-- request has that id. At once, a second call changes nothing and returns whether its ruling is the
-- same. After any moves, by any callers in any order, that give the id to no other request (`Spares`),
-- a further call changes nothing, and returns true only when its ruling is the same. It may return
-- false also for the same ruling, when a new offer gave the request another id or a cancellation or
-- the task's end came between. Request ids are unique, and `e` is the event that `k` is asked for.
pub record_human_ruling-first :
    (k t e : Key) (d again : Decision) (db : Db) (ms : List Move)
    → UniqueIds db.requests
    → any_row (asks_for t e) db.requests ≡ true
    → (record_human_ruling k t d db).0 ≡ true
    → All (Spares k t e) ms
    → (record_human_ruling k t again (record_human_ruling k t d db).1
        ≡ (same_decision d again, (record_human_ruling k t d db).1))
      × ((record_human_ruling k t again (moves ms (record_human_ruling k t d db).1)).1
          ≡ moves ms (record_human_ruling k t d db).1)
      × ((record_human_ruling k t again (moves ms (record_human_ruling k t d db).1)).0 ≡ true
          → same_decision d again ≡ true)
unfolding move
record_human_ruling-first k t e d again db ms u asked accepted spared =
    let now = (record_human_ruling k t d db).1 in
    let after = later_ruling k d t again (moves ms now) (
      moves-Ruled k d t e ms now spared
        (move-Asked k d t e (Move.record_human_ruling k t d) db asked)
        (accepted-Carries k t d db u accepted)) in
    (ruled_again k t d db again accepted, after.0, after.1)
