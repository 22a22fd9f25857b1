-- ===== src/Scheduler/Confirm/Once.antt =====
-- `confirm_tool` is called for a provider event at most as often as the table has attempted requests
-- for it: each call stands behind a mark of its own.
use managed_agent_web_slack.Common.{
  ℕ, ◌+◌, ◌≤◌, ◌≡◌, refl, ◌==◌, Option, some, List, [], ◌∷◌, Bool, true, false, count_rows, any_row,
  All, Evolves, arith, if◌then◌else◌,
}
use managed_agent_web_slack.Store.{Key, Decision, Request, Db}
use managed_agent_web_slack.Runtime.Transaction.{Result, Transaction, ok, err, external}
use managed_agent_web_slack.Runtime.Review.{mark_confirmation_attempted, attemptable, attempted_at}
use managed_agent_web_slack.Runtime.Requests.{InputRequest, tool_approval, clarification}
use managed_agent_web_slack.Runtime.Moves.Defs.{Move, move}
use managed_agent_web_slack.Runtime.Moves.Progress.{Progress, rank, move-RequestsProgress}
use managed_agent_web_slack.Runtime.Moves.UniqueIds.{UniqueIds, move-UniqueIds}
use managed_agent_web_slack.Runtime.Moves.Attempts.{
  attempted, Seen, attempted-Evolves, Seen-Evolves, attempted-mark,
}
use managed_agent_web_slack.Scheduler.World.{
  Env, Effect, World, advance, commit, call, transact, returning, pure, resume, ◌>>=◌,
}
use managed_agent_web_slack.Scheduler.Keeps.{
  Stable, Keeps, Keeps-on_outcome, keep_moves, is_confirm,
}
use managed_agent_web_slack.Scheduler.Confirm.{
  Round, approves, send_decision, attempt_decision, send_marked, after_mark, mark_attempt,
}
use managed_agent_web_slack.Scheduler.Confirm.Kept.{
  reason_for-Keeps, settle_approval-Keeps, decision_failed-Keeps,
}

-- A call that confirms or refuses this event.
abbrev pub confirms_event : Key → Effect → Bool
confirms_event e (Effect.confirm_tool _ k _) = k == e
confirms_event e _ = false

unfoldable pub confirm_calls : Key → List Effect → ℕ
confirm_calls e log = count_rows (confirms_event e) log

-- Request ids are distinct, and no event has more calls than attempted requests.
pub record OncePerAttempt (db : Db) (log : List Effect) : Type 0 where
  pub unique : UniqueIds db.requests
  pub bounded : (e : Key) → confirm_calls e log ≤ attempted e db.requests

-- A row that was read is still continued in the table.
abbrev pub SeenRow : List Request → InputRequest → Type 0
SeenRow rows (tool_approval r) = Seen r rows
SeenRow rows (clarification r) = Unit

-- The same, and the rows read are still there.
pub record Listed (xs : List InputRequest) (db : Db) (log : List Effect) : Type 0 where
  pub once : OncePerAttempt db log
  pub seen : All (SeenRow db.requests) xs

-- The same, and one more call for the event of the first row, `r`, is paid for.
record Paid (r : Request) (xs : List InputRequest) (db : Db) (log : List Effect) : Type 0 where
  listed : Listed (tool_approval r ∷ xs) db log
  paid : confirm_calls r.cma_event_id log + 1 ≤ attempted r.cma_event_id db.requests

quiet_calls :
    (k : Key) (e : Effect) (log : List Effect)
    → is_confirm e ≡ false
    → confirm_calls k (e ∷ log) ≡ confirm_calls k log
unfolding confirm_calls
quiet_calls k (Effect.confirm_tool _ _ _) log h = cc
quiet_calls k _ log h = refl

pub OncePerAttempt-Stable : Stable OncePerAttempt
OncePerAttempt-Stable = record {
  by_move = λ m db log h. record {
    unique = move-UniqueIds m db h.unique;
    bounded = λ e. omega (
      arith,
      h.bounded e,
      attempted-Evolves e db.requests (move m db).requests (move-RequestsProgress m db),
    );
  };
  by_effect = λ e db log quiet h. record {
    unique = h.unique;
    bounded = λ k. omega (arith, h.bounded k, quiet_calls k e log quiet);
  };
}

SeenRow-Evolves :
    (xs : List InputRequest) (rows new : List Request)
    → Evolves Progress rows new
    → All (SeenRow rows) xs
    → All (SeenRow new) xs
SeenRow-Evolves [] rows new h s = tt
SeenRow-Evolves (tool_approval r ∷ xs) rows new h s =
    (Seen-Evolves r rows new h s.0, SeenRow-Evolves xs rows new h s.1)
SeenRow-Evolves (clarification r ∷ xs) rows new h s = (tt, SeenRow-Evolves xs rows new h s.1)

pub Listed-Stable : (xs : List InputRequest) → Stable (Listed xs)
Listed-Stable xs = record {
  by_move = λ m db log h. record {
    once = OncePerAttempt-Stable.by_move m db log h.once;
    seen = SeenRow-Evolves xs db.requests (move m db).requests (move-RequestsProgress m db) h.seen;
  };
  by_effect = λ e db log quiet h. record {
    once = OncePerAttempt-Stable.by_effect e db log quiet h.once;
    seen = h.seen;
  };
}

Paid-Stable : (r : Request) (xs : List InputRequest) → Stable (Paid r xs)
Paid-Stable r xs = record {
  by_move = λ m db log h. record {
    listed = (Listed-Stable (tool_approval r ∷ xs)).by_move m db log h.listed;
    paid = omega (
      arith,
      h.paid,
      attempted-Evolves r.cma_event_id db.requests (move m db).requests
          (move-RequestsProgress m db),
    );
  };
  by_effect = λ e db log quiet h. record {
    listed = (Listed-Stable (tool_approval r ∷ xs)).by_effect e db log quiet h.listed;
    paid = omega (arith, h.paid, quiet_calls r.cma_event_id e log quiet);
  };
}

-- A successful mark pays for one call.
mark_pays :
    (r : Request) (xs : List InputRequest) (c claim : Key) (db : Db) (log : List Effect)
    → 1 ≤ rank r.status
    → Listed (tool_approval r ∷ xs) db log
    → any_row (attemptable r.request_id c claim db) db.requests ≡ true
    → Paid r xs (mark_confirmation_attempted r.request_id c claim db).1 log
unfolding mark_confirmation_attempted move
mark_pays r xs c claim db log settled h hit = record {
  listed =
      (Listed-Stable (tool_approval r ∷ xs)).by_move
        (Move.mark_confirmation_attempted r.request_id c claim) db log h;
  paid = omega (
    arith,
    h.once.bounded r.cma_event_id,
    attempted-mark r (attemptable r.request_id c claim db) (attempted_at db.now) settled
        (λ x hx. ground arith) (λ x. (refl, refl)) db.requests h.once.unique h.seen.0 hit,
  );
}

-- The call itself uses what was paid.
pay :
    (r : Request) (xs : List InputRequest) (db : Db) (log : List Effect) (session : Key) (b : Bool)
    → Paid r xs db log
    → Listed (tool_approval r ∷ xs) db (Effect.confirm_tool session r.cma_event_id b ∷ log)
unfolding confirm_calls
pay r xs db log session b h = record {
  once = record {
    unique = h.listed.once.unique;
    bounded = λ e. ground (arith, h.listed.once.bounded e, h.paid);
  };
  seen = h.listed.seen;
}

module _ (env : Env) (round : Round) (r : Request) (xs : List InputRequest) where
  abbrev pub Before : Db → List Effect → Type 0
  Before = Listed (tool_approval r ∷ xs)

  call_pays :
      (d : Decision) (reason : Result (Option Key)) (w : World)
      → Paid r xs w.db w.log
      → let w' =
          (resume reason
            (λ text.
              call env
                (some (Effect.confirm_tool round.session_id r.cma_event_id (approves env round d)))
                (λ turn.
                  env.confirm_tool turn round.session_id r.cma_event_id
                    (approves env round d)
                    text))
            w).1 in
        Before w'.db w'.log
  unfolding call
  call_pays d (ok text) w h =
      pay r xs _ w.log round.session_id (approves env round d)
        (keep_moves env (Paid-Stable r xs) (env.meanwhile w.turn) w.db w.log h)
  call_pays d (err e) w h = h.listed

  send_pays :
      (d : Decision) (w : World)
      → Paid r xs w.db w.log
      → Before (send_decision env round r d w).1.db (send_decision env round r d w).1.log
  unfolding send_decision ◌>>=◌
  send_pays d w h = call_pays d _ _ ((reason_for-Keeps env (Paid-Stable r xs) round r d).at w h)

  -- What holds when the mark has ended.
  abbrev Marked : Result Bool → Db → List Effect → Type 0
  Marked (ok true) db log = Paid r xs db log
  Marked (ok false) db log = Before db log
  Marked (err e) db log = Before db log

  mark_result :
      (settled : 1 ≤ rank r.status) (v : World)
      → Before v.db v.log
      → (hit : Bool)
      → any_row (attemptable r.request_id round.context_id round.claim v.db) v.db.requests ≡ hit
      → Marked
          (ok hit)
          (mark_confirmation_attempted r.request_id round.context_id round.claim v.db).1
          v.log
  unfolding move
  mark_result settled v k true e =
      mark_pays r xs round.context_id round.claim v.db v.log settled k e
  mark_result settled v k false e =
      (Listed-Stable (tool_approval r ∷ xs)).by_move
        (Move.mark_confirmation_attempted r.request_id round.context_id round.claim) v.db v.log k

  abbrev marking : Transaction Bool
  marking = returning (mark_confirmation_attempted r.request_id round.context_id round.claim)

  transacted : Bool → World → Result Bool × World
  transacted down v = if down then (err external, v) else commit (marking v.db) v

  transacted-Marked :
      (settled : 1 ≤ rank r.status) (down : Bool) (v : World)
      → Before v.db v.log
      → Marked (transacted down v).0 (transacted down v).1.db (transacted down v).1.log
  unfolding transacted mark_confirmation_attempted
  transacted-Marked settled true v k = k
  transacted-Marked settled false v k = mark_result settled v k _ refl

  mark_attempt-Marked :
      (settled : 1 ≤ rank r.status) (w : World)
      → Before w.db w.log
      → let (res, v) = mark_attempt env round r w in Marked res v.db v.log
  unfolding mark_attempt transacted transact
  mark_attempt-Marked settled w h =
      transacted-Marked settled (env.database_down w.turn) (advance env w)
        (keep_moves env (Listed-Stable (tool_approval r ∷ xs)) (env.meanwhile w.turn) w.db w.log h)

  send_marked-pays :
      (d : Decision) (w : World)
      → Paid r xs w.db w.log
      → let v = (send_marked env round r d w).1 in Before v.db v.log
  unfolding send_marked ◌>>=◌
  send_marked-pays d w h =
      (Keeps-on_outcome (send_decision env round r d w).0 _ _
          (λ _. settle_approval-Keeps env (Listed-Stable (tool_approval r ∷ xs)) round r)
          (λ e. decision_failed-Keeps env (Listed-Stable (tool_approval r ∷ xs)) round r d e)).at
        (send_decision env round r d w).1 (send_pays d w h)

  after_mark-pays :
      (d : Decision) (res : Result Bool) (v : World)
      → Marked res v.db v.log
      → let v' = (resume res (after_mark env round r d) v).1 in Before v'.db v'.log
  unfolding after_mark pure
  after_mark-pays d (ok true) v h = send_marked-pays d v h
  after_mark-pays d (ok false) v h = h
  after_mark-pays d (err e) v h = h

  pub attempt_decision-Keeps :
      (settled : 1 ≤ rank r.status) (d : Decision) → Keeps Before (attempt_decision env round r d)
  unfolding attempt_decision ◌>>=◌
  attempt_decision-Keeps settled d = record {
    at = λ w h. after_mark-pays d _ _ (mark_attempt-Marked settled w h);
  }
