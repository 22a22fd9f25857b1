-- ===== src/Scheduler/Finish/Holds.antt =====
-- What the actions of Scheduler/Finish keep of the tasks' rows, while they send no message.
use managed_agent_web_slack.Common.{
  ℕ, ◌≤◌, ◌≡◌, ◌==◌, none, some, List, [], ◌∷◌, Bool, true, false, ◌&&◌, not, any_row, count_rows,
  update_where, Evolves-update_where, any_row-Evolves, if◌then◌else◌, arith,
}
use managed_agent_web_slack.Store.{Key, A2aState, InternalState, Task, Db, is_terminal}
use managed_agent_web_slack.Runtime.Transaction.{Transaction, Result, ok, err, external}
use managed_agent_web_slack.Runtime.Lease.{
  TaskField, ContextField, update_task, update_context, touch_task,
}
use managed_agent_web_slack.Runtime.Moves.Defs.{moves}
use managed_agent_web_slack.Scheduler.Events.{truthy}
use managed_agent_web_slack.Scheduler.World.{
  Env, Effect, World, Answer, PreviewHint, skip, maybe, ◌>>◌, ◌>>=◌, Action, resume, advance,
  transact, read, reading, call, commit,
}
use managed_agent_web_slack.Scheduler.Finish.{
  keep_hint, set_task_fields, set_context_fields, read_hint, preview, delete_handoff, bind_input,
}
use managed_agent_web_slack.Scheduler.Keeps.{
  Keeps, Keeps-pure, Keeps-attempt, Keeps-if, Keeps-bind, Keeps-maybe,
}

-- The task `k`, not ended.
abbrev pub still_open : Key → Task → Bool
still_open k t = t.task_id == k && not (is_terminal t.internal_state)

abbrev pub is_send : Effect → Bool
is_send (Effect.send_message _) = true
is_send _ = false

-- A task's row satisfies `q`, and at most `n` messages were sent.
abbrev pub Holds : (Task → Bool) → ℕ → Db → List Effect → Type 0
Holds q n db log = (any_row q db.tasks ≡ true) × (count_rows is_send log ≤ n)

-- What others commit at any turn leaves a row that satisfies `q`.
abbrev pub OthersKeep : Env → (Task → Bool) → Type 0
OthersKeep env q =
    (turn : ℕ) (db : Db)
    → any_row q db.tasks ≡ true
    → any_row q (moves (env.meanwhile turn) db).tasks ≡ true

-- An update keeps `q`.
abbrev pub Safe : (Task → Bool) → List TaskField → Type 0
Safe q fields = (now : ℕ) (r : Task) → q r ≡ true → q (touch_task now fields r) ≡ true

-- The columns that `bind_input` writes.
abbrev pub bound_fields : Key → List TaskField
bound_fields e =
    TaskField.cma_input_event_id (some e)
    ∷ TaskField.input_object_key none
    ∷ TaskField.internal_state InternalState.waiting
    ∷ TaskField.a2a_state A2aState.working
    ∷ TaskField.held_reason none
    ∷ []

updated-Holds :
    (q : Task → Bool) (p : Task → Bool) (f : Task → Task) (rows : List Task)
    → ((t : Task) → q t ≡ true → q (f t) ≡ true)
    → any_row (q) rows ≡ true
    → any_row (q) (update_where p f rows) ≡ true
updated-Holds q p f rows keep h =
    any_row-Evolves (λ x y. q x ≡ true → q y ≡ true) (q) (λ x y step. step) rows
      (update_where p f rows)
      (Evolves-update_where (λ x y. q x ≡ true → q y ≡ true) (λ r g. g) p f rows (λ r hit. keep r))
      h

update_task-Holds :
    (q : Task → Bool) (t c claim : Key) (fields : List TaskField) (db : Db)
    → Safe q fields
    → any_row (q) db.tasks ≡ true
    → any_row (q) (update_task t c claim fields db).1.tasks ≡ true
unfolding update_task
update_task-Holds q t c claim fields db keep h =
    let after =
      updated-Holds q (λ r. r.task_id == t) (touch_task db.now fields) db.tasks (keep db.now) h in
    ground arith

-- After an action that returned.
resumed-keeps :
    {P : Db → List Effect → Type 0} {B : Type 0} (r : Result (Unit {0})) (f : Unit {0} → Action B)
    (v : World)
    → r ≡ ok tt
    → P v.db v.log
    → Keeps P (f tt)
    → P (resume r f v).1.db (resume r f v).1.log
resumed-keeps (ok u) f v done h k = k.at v h
resumed-keeps (err e) f v done h k = cc

pub then_keeps :
    {P : Db → List Effect → Type 0} {B : Type 0} (m : Action (Unit {0})) (f : Unit {0} → Action B)
    (w : World)
    → (m w).0 ≡ ok tt
    → P (m w).1.db (m w).1.log
    → Keeps P (f tt)
    → P ((m >>= f) w).1.db ((m >>= f) w).1.log
unfolding ◌>>=◌
then_keeps {P} m f w done h k = resumed-keeps {P = P} (m w).0 f (m w).1 done h k

module _ (env : Env) (q : Task → Bool) (n : ℕ) (others : OthersKeep env q) where
  pub transact-Holds :
      {A : Type 0} (t : Transaction A)
      → ((db : Db) → any_row (q) db.tasks ≡ true → any_row (q) (t db).1.tasks ≡ true)
      → Keeps (Holds q n) (transact env t)
  unfolding transact
  transact-Holds t keep = record { at = λ w h. go w h (env.database_down w.turn) }
    where
      go :
          (w : World)
          → Holds q n w.db w.log
          → (down : Bool)
          → Holds q n
              (if down
                then (err external, advance env w)
                else commit (t (advance env w).db) (advance env w)).1.db
              (if down
                then (err external, advance env w)
                else commit (t (advance env w).db) (advance env w)).1.log
      go w h true = (others w.turn w.db h.0, h.1)
      go w h false = (keep _ (others w.turn w.db h.0), h.1)

  pub read-Holds : {A : Type 0} (f : Db → A) → Keeps (Holds q n) (read env f)
  unfolding read
  read-Holds f = transact-Holds (reading f) (λ db h. h)

  pub ask-Holds : {A : Type 0} (reply : ℕ → Answer A) → Keeps (Holds q n) (call env none reply)
  unfolding call
  ask-Holds reply = record { at = λ w h. (others w.turn w.db h.0, h.1) }

  delete-Holds :
      {A : Type 0} (key : Key) (reply : ℕ → Answer A)
      → Keeps (Holds q n) (call env (some (Effect.delete_input key)) reply)
  unfolding call
  delete-Holds key reply = record { at = λ w h. (others w.turn w.db h.0, h.1) }

  keep_hint-Holds : (hint : PreviewHint) → Keeps (Holds q n) (keep_hint hint)
  unfolding keep_hint
  keep_hint-Holds hint = record { at = λ w h. h }

  pub set_task_fields-Holds :
      (t c claim : Key) (fields : List TaskField)
      → ((now : ℕ) (r : Task) → q r ≡ true → q (touch_task now fields r) ≡ true)
      → Keeps (Holds q n) (set_task_fields env t c claim fields)
  unfolding set_task_fields
  set_task_fields-Holds t c claim fields keep =
      Keeps-bind _ _
        (transact-Holds (update_task t c claim fields)
          (λ db h. update_task-Holds q t c claim fields db keep h))
        (λ _. Keeps-pure tt)

  read_hint-Holds : (t c phase : Key) → Keeps (Holds q n) (read_hint env t c phase)
  unfolding read_hint
  read_hint-Holds t c phase =
      search (Keeps-pure, Keeps-bind, Keeps-maybe, read-Holds, keep_hint-Holds) depth 9

  preview-Holds : (t c phase : Key) → Keeps (Holds q n) (preview env t c phase)
  unfolding preview
  preview-Holds t c phase =
      search (Keeps-pure, Keeps-bind, Keeps-if, Keeps-attempt, read_hint-Holds)

  delete_handoff-Holds : (key : Key) → Keeps (Holds q n) (delete_handoff env key)
  unfolding delete_handoff
  delete_handoff-Holds key = search (Keeps-pure, Keeps-bind, Keeps-attempt, delete-Holds)

  pub set_context_fields-Holds :
      (c claim : Key) (fields : List ContextField)
      → Keeps (Holds q n) (set_context_fields env c claim fields)
  unfolding set_context_fields update_context
  set_context_fields-Holds c claim fields =
      Keeps-bind _ _ (transact-Holds (update_context c claim fields) (λ db h. ground arith))
        (λ _. Keeps-pure tt)

  -- What follows the update of `bind_input`.
  bound-Holds :
      (t : Task) (c e : Key)
      → Keeps
          (Holds q n)
          (preview env t.task_id c e >> maybe (truthy t.input_object_key) skip (delete_handoff env))
  bound-Holds t c e =
      search (Keeps-pure, Keeps-bind, Keeps-maybe, preview-Holds, delete_handoff-Holds)

  pub bind_input-Holds :
      (t : Task) (c claim e : Key)
      → Safe q (bound_fields e)
      → Keeps (Holds q n) (bind_input env t c claim e)
  unfolding bind_input
  bind_input-Holds t c claim e keep =
      Keeps-bind _ _ (set_task_fields-Holds t.task_id c claim (bound_fields e) keep)
        (λ _. bound-Holds t c e)

  -- `bind_input` from its update on.
  pub bind_input-written :
      (t : Task) (c claim e : Key) (w : World)
      → (set_task_fields env t.task_id c claim (bound_fields e) w).0 ≡ ok tt
      → Holds q n
          (set_task_fields env t.task_id c claim (bound_fields e) w).1.db
          (set_task_fields env t.task_id c claim (bound_fields e) w).1.log
      → Holds q n (bind_input env t c claim e w).1.db (bind_input env t c claim e w).1.log
  unfolding bind_input
  bind_input-written t c claim e w done h =
      then_keeps (set_task_fields env t.task_id c claim (bound_fields e)) _ w done h
        (bound-Holds t c e)
