-- ===== src/Scheduler/Finish/Written.antt =====
-- An update of a task under the lease is written.
use managed_agent_web_slack.Common.{
  ℕ, ◌≡◌, refl, ◌==◌, none, List, [], ◌∷◌, Bool, true, false, any_row, any_row-update_where,
  find_row, update_where, Option-cases, inl, inr, arith,
}
use managed_agent_web_slack.Store.{Key, Task, Db, holds_lease}
use managed_agent_web_slack.Runtime.Transaction.{Result, ok, err}
use managed_agent_web_slack.Runtime.Lease.{
  TaskField, task_allowed, refused, update_task, touch_task,
}
use managed_agent_web_slack.Scheduler.World.{
  Env, World, advance, transact, ◌>>=◌, pure, resume, skip,
}
use managed_agent_web_slack.Scheduler.Finish.{set_task_fields}

-- The update gives the task's row what `q` says.
abbrev pub Makes : (Task → Bool) → Key → List TaskField → Type 0
Makes q t fields =
    (now : ℕ) (r : Task) → (r.task_id == t) ≡ true → q (touch_task now fields r) ≡ true

-- The lease is held, and the task is in the table.
abbrev pub Ready : Key → Key → Key → Db → Type 0
Ready t c claim db =
    (holds_lease c claim db ≡ true) × (any_row (λ r. r.task_id == t) db.tasks ≡ true)

found-any_row :
    (p : Task → Bool) (rows : List Task) → find_row p rows ≡ none → any_row p rows ≡ false
found-any_row p [] h = refl
found-any_row p (r ∷ rows) h = ground (arith, found-any_row p rows)

abbrev is_ok : Result Task → Bool
is_ok (ok row) = true
is_ok (err e) = false

module _ (q : Task → Bool) (t c claim : Key) (fields : List TaskField) where
  after_update : Db → List Task
  after_update db = update_where (λ r. r.task_id == t) (touch_task db.now fields) db.tasks

  -- The table has a row with the id, before and after.
  update_task-ok :
      (db : Db)
      → refused task_allowed fields ≡ false
      → ((now : ℕ) (r : Task) → (touch_task now fields r).task_id ≡ r.task_id)
      → Ready t c claim db
      → (is_ok (update_task t c claim fields db).0 ≡ true)
        × ((update_task t c claim fields db).1.tasks ≡ after_update db)
  unfolding update_task after_update
  update_task-ok db allowed same ready =
      let still =
        any_row-update_where (λ r. r.task_id == t) (λ r. r.task_id == t) (touch_task db.now fields)
          (λ r hit. rw (same db.now r) hit) db.tasks ready.1 in
      elim (Option-cases (find_row (λ r. r.task_id == t) (after_update db))) [
        | inl missing ↦
            let gone = found-any_row (λ r. r.task_id == t) (after_update db) missing in ground arith
        | inr (row, found) ↦ ground arith
      ]

  pub set_task_fields-written :
      (env : Env) (w : World)
      → refused task_allowed fields ≡ false
      → ((now : ℕ) (r : Task) → (touch_task now fields r).task_id ≡ r.task_id)
      → Makes q t fields
      → env.database_down w.turn ≡ false
      → Ready t c claim (advance env w).db
      → ((set_task_fields env t c claim fields w).0 ≡ ok tt)
        × (any_row q (set_task_fields env t c claim fields w).1.db.tasks ≡ true)
  unfolding set_task_fields transact ◌>>=◌ pure after_update
  set_task_fields-written env w allowed same makes up ready =
      let written = update_task-ok (advance env w).db allowed same ready in
      let made =
        any_row-update_where (λ r. r.task_id == t) q (touch_task (advance env w).db.now fields)
          (λ r hit. makes (advance env w).db.now r hit) (advance env w).db.tasks ready.1 in
      rw up (
        done (update_task t c claim fields (advance env w).db) (advance env w) written.0
          (rw written.1 made))
    where
      done :
          (x : Result Task × Db) (v : World)
          → is_ok x.0 ≡ true
          → any_row q x.1.tasks ≡ true
          → ((resume x.0 (λ u. skip) (record v { db = x.1 })).0 ≡ ok tt)
            × (any_row q (resume x.0 (λ u. skip) (record v { db = x.1 })).1.db.tasks ≡ true)
      done (ok row, db) v fine h = (refl, h)
      done (err e, db) v fine h = cc
