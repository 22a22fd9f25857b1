-- ===== src/Scheduler/Confirm/Loop.antt =====
-- The loop over a task's input requests, and the run as a whole: every call that confirms a tool
-- stands behind a mark of its own.
use managed_agent_web_slack.Common.{
  ◌≡◌, ◌==◌, ◌⊎◌, inl, inr, Option, none, some, List, [], ◌∷◌, map, select, Bool, true, false, All,
  All-append, arith, Bool-cases, if◌then◌else◌,
}
use managed_agent_web_slack.Store.{Key, Request, Clarification, Db, is_resolving}
use managed_agent_web_slack.Runtime.Transaction.{Result, ok, err, external}
use managed_agent_web_slack.Runtime.Requests.{
  InputRequest, tool_approval, clarification, insert_sorted, sorted, precedes, list_input_requests,
}
use managed_agent_web_slack.Runtime.Moves.Progress.{Progress-refl}
use managed_agent_web_slack.Scheduler.World.{
  Env, World, Action, advance, commit, transact, reading, read, pure, resume, maybe, for_each,
  ◌>>=◌,
}
use managed_agent_web_slack.Scheduler.Keeps.{Keeps, Keeps-if, Keeps-pure, keep_moves}
use managed_agent_web_slack.Scheduler.Confirm.{
  Round, next, reconcile_approval, reconcile_request, lift_hold, reconcile_confirmations,
}
use managed_agent_web_slack.Scheduler.Confirm.Kept.{
  reconcile_clarification-Keeps, reconcile_approval-Keeps, lift_hold-Keeps,
}
use managed_agent_web_slack.Scheduler.Confirm.Once.{
  OncePerAttempt, OncePerAttempt-Stable, SeenRow, Listed, Listed-Stable, attempt_decision-Keeps,
}

-- Of a row of the list, the loop's body keeps the rows behind it too.
request-Keeps :
    (env : Env) (round : Round) (x : InputRequest) (xs : List InputRequest)
    → Keeps (Listed (x ∷ xs)) (reconcile_request env round x)
unfolding reconcile_request
request-Keeps env round (clarification r) xs =
    Keeps-if (is_resolving r.status) _ _
      (reconcile_clarification-Keeps env (Listed-Stable (clarification r ∷ xs)) round r)
      (Keeps-pure none)
request-Keeps env round (tool_approval r) xs = go (Bool-cases (is_resolving r.status))
  where
    go :
        ((is_resolving r.status ≡ true) ⊎ (is_resolving r.status ≡ false))
        → Keeps
            (Listed (tool_approval r ∷ xs))
            (if is_resolving r.status then reconcile_approval env round r else next)
    go (inl e) = rw e (
        reconcile_approval-Keeps env (Listed-Stable (tool_approval r ∷ xs)) round r
          (attempt_decision-Keeps env round r xs (ground arith)))
    go (inr e) = rw e (Keeps-pure none)

abbrev loop : Env → Round → List InputRequest → Action (Option (Unit {0}))
loop env round xs = for_each xs (reconcile_request env round)

loop_step :
    (env : Env) (round : Round) (x : InputRequest) (xs : List InputRequest)
    → ((w : World)
        → Listed xs w.db w.log
        → let v = (loop env round xs w).1 in OncePerAttempt v.db v.log)
    → (res : Result (Option (Unit {0}))) (v : World) → Listed (x ∷ xs) v.db v.log
    → let v' = (resume res (λ r. maybe r (loop env round xs) (λ b. pure (some b))) v).1 in
      OncePerAttempt v'.db v'.log
unfolding pure
loop_step env round x xs rest (ok none) v k = rest v (record { once = k.once; seen = k.seen.1 })
loop_step env round x xs rest (ok (some b)) v k = k.once
loop_step env round x xs rest (err e) v k = k.once

loop-once :
    (env : Env) (round : Round) (xs : List InputRequest) (w : World)
    → Listed xs w.db w.log
    → let v = (loop env round xs w).1 in OncePerAttempt v.db v.log
unfolding for_each ◌>>=◌ pure
loop-once env round [] w h = h.once
loop-once env round (x ∷ xs) w h =
    loop_step env round x xs (loop-once env round xs) (reconcile_request env round x w).0
      (reconcile_request env round x w).1 ((request-Keeps env round x xs).at w h)

-- The rows that were read are in the table.
module _ {A : Type 0} (P : A → Type 0) (less : A → A → Bool) where
  All-insert_sorted : (x : A) (xs : List A) → P x → All P xs → All P (insert_sorted less x xs)
  unfolding insert_sorted
  All-insert_sorted x [] hx h = (hx, tt)
  All-insert_sorted x (y ∷ ys) hx h = elim (Bool-cases (less y x)) [
    | inl e ↦ rw e (h.0, All-insert_sorted x ys hx h.1)
    | inr e ↦ rw e (hx, h)
  ]

  All-sorted : (xs : List A) → All P xs → All P (sorted less xs)
  unfolding sorted
  All-sorted [] h = tt
  All-sorted (x ∷ xs) h = All-insert_sorted x (sorted less xs) h.0 (All-sorted xs h.1)

SeenRow-weaken :
    (r : Request) (rows : List Request) (xs : List InputRequest)
    → All (SeenRow rows) xs
    → All (SeenRow (r ∷ rows)) xs
SeenRow-weaken r rows [] h = tt
SeenRow-weaken r rows (tool_approval x ∷ xs) h = (inr h.0, SeenRow-weaken r rows xs h.1)
SeenRow-weaken r rows (clarification x ∷ xs) h = (tt, SeenRow-weaken r rows xs h.1)

selected-SeenRow :
    (p : Request → Bool) (rows : List Request)
    → All (SeenRow rows) (map tool_approval (select p rows))
selected-SeenRow p [] = tt
selected-SeenRow p (r ∷ rows) = elim (Bool-cases (p r)) [
  | inl e ↦ rw e (
    inl (Progress-refl r),
    SeenRow-weaken r rows (map tool_approval (select p rows)) (selected-SeenRow p rows),
  )
  | inr e ↦
      rw e (SeenRow-weaken r rows (map tool_approval (select p rows)) (selected-SeenRow p rows))
]

clarifications-SeenRow :
    (rows : List Request) (cs : List Clarification) → All (SeenRow rows) (map clarification cs)
clarifications-SeenRow rows [] = tt
clarifications-SeenRow rows (c ∷ cs) = (tt, clarifications-SeenRow rows cs)

listed-SeenRow : (t : Key) (db : Db) → All (SeenRow db.requests) (list_input_requests t db)
unfolding list_input_requests
listed-SeenRow t db = All-sorted (SeenRow db.requests) precedes _ (
    All-append (SeenRow db.requests) _ _ (selected-SeenRow (λ r. r.task_id == t) db.requests)
      (clarifications-SeenRow db.requests _))

module _ (env : Env) (round : Round) where
  abbrev rest_of : List InputRequest → Action Bool
  rest_of rows = loop env round rows >>= λ ended. maybe ended (lift_hold env round) (λ _. pure true)

  resumed :
      (ended : Result (Option (Unit {0}))) (v : World)
      → OncePerAttempt v.db v.log
      → let v' = (resume ended (λ r. maybe r (lift_hold env round) (λ _. pure true)) v).1 in
        OncePerAttempt v'.db v'.log
  unfolding pure
  resumed (ok none) v h = (lift_hold-Keeps env OncePerAttempt-Stable round).at v h
  resumed (ok (some b)) v h = h
  resumed (err e) v h = h

  rest_of-once :
      (rows : List InputRequest) (w : World)
      → Listed rows w.db w.log
      → let v = (rest_of rows w).1 in OncePerAttempt v.db v.log
  unfolding ◌>>=◌
  rest_of-once rows w h = resumed _ _ (loop-once env round rows w h)

  read_rows : Bool → World → Result (List InputRequest) × World
  read_rows down v =
      if down
      then (err external, v)
      else commit (reading (list_input_requests round.task.task_id) v.db) v

  read_rows-once :
      (down : Bool) (v : World)
      → OncePerAttempt v.db v.log
      → let (res, v') = read_rows down v in
        let v'' = (resume res rest_of v').1 in OncePerAttempt v''.db v''.log
  unfolding read_rows
  read_rows-once true v h = h
  read_rows-once false v h =
      rest_of-once (list_input_requests round.task.task_id v.db) v
        (record { once = h; seen = listed-SeenRow round.task.task_id v.db })

  -- The settling of a task's requests makes no call that was not marked.
  pub reconcile_confirmations-once : Keeps OncePerAttempt (reconcile_confirmations env round)
  unfolding reconcile_confirmations read_rows read transact ◌>>=◌
  reconcile_confirmations-once = record {
    at = λ w h.
        read_rows-once (env.database_down w.turn) (advance env w)
          (keep_moves env OncePerAttempt-Stable (env.meanwhile w.turn) w.db w.log h);
  }
