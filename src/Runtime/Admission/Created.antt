-- ===== src/Runtime/Admission/Created.antt =====
-- A new task of an admission has the input that the caller stored.
use managed_agent_web_slack.Common.{
  ℕ, ◌==◌, equals, ◌≡◌, Option, List, [], ◌∷◌, ◌++◌, Bool, true, false, any_row, ◌||◌, arith,
}
use managed_agent_web_slack.Store.{Key, HeldReason, Context, Task, Db}
use managed_agent_web_slack.Runtime.Transaction.{
  Transaction, Result, ok, err, unique_violation, continue, roll_back, atomically, handle_unique,
  except_unique, raise_if, value_error, pure, ◌>>=◌, ◌>>◌,
}
use managed_agent_web_slack.Runtime.Identity.{insert_task}
use managed_agent_web_slack.Runtime.Admission.{
  Admission, take_sequence, admit_new, admitted_task, admit_to, admit_context, admission, recover,
  admit,
}

-- A task of the tables has the stored input.
abbrev pub HasInput : Key → Db → Type 0
HasInput k db = any_row (λ t. equals t.input_object_key k) db.tasks ≡ true

abbrev pub Creates : Key → Result Admission × Db → Type 0
Creates k (ok (c, t, true), db) = HasInput k db
Creates k (ok (c, t, false), db) = Unit
Creates k (err e, db) = Unit

any_row-last :
    (p : Task → Bool) (rows : List Task) (t : Task) → p t ≡ true → any_row p (rows ++ t ∷ []) ≡ true
any_row-last p [] t hit = ground (arith, hit)
any_row-last p (x ∷ rows) t hit = ground (arith, any_row-last p rows t hit)

module _ (k : Key) where
  insert-Creates :
      (c : Context) (id m : Key) (reason : Option HeldReason) (now : ℕ) (db : Db)
      → Creates k ((insert_task (admitted_task id c m k reason now) >>= λ t. pure (c, t, true)) db)
  unfolding insert_task admitted_task
  insert-Creates c id m reason now db = ground (
    arith,
    any_row-last (λ t. equals t.input_object_key k) db.tasks (admitted_task id c m k reason now)
        (ground arith),
  )

  admit_new-Creates : (c : Context) (m id : Key) (db : Db) → Creates k (admit_new c m id k db)
  unfolding admit_new
  admit_new-Creates c m id db = insert-Creates (take_sequence db.now c) id m _ db.now _

  admit_to-Creates : (c : Context) (m id : Key) (db : Db) → Creates k (admit_to c m id k db)
  unfolding admit_to
  admit_to-Creates c m id db = ground (arith, admit_new-Creates c m id db)

  continue-Creates :
      {A : Type 0} (r : Result A) (f : A → Transaction Admission) (db : Db)
      → ((a : A) → Creates k (f a db))
      → Creates k (continue r f db)
  continue-Creates (ok a) f db h = h a
  continue-Creates (err e) f db h = tt

  rolled_back :
      (r : Result Admission) (db reached : Db)
      → Creates k (r, reached)
      → Creates k (roll_back r db reached)
  rolled_back (ok (c, t, true)) db reached h = h
  rolled_back (ok (c, t, false)) db reached h = tt
  rolled_back (err e) db reached h = tt

  handled :
      (r : Result Admission) (handler : Transaction Admission) (db : Db)
      → Creates k (r, db)
      → Creates k (handler db)
      → Creates k (handle_unique r handler db)
  handled (err unique_violation) handler db h g = g
  handled (err e) handler db h g = tt
  handled (ok a) handler db h g = h

  recover-Creates : (r : Option Key) (m : Key) (db : Db) → Creates k (recover r m db)
  unfolding recover
  recover-Creates r m db = ground arith

  guarded :
      (b : Bool) (body : Transaction Admission) (db : Db)
      → Creates k (body db)
      → Creates k ((raise_if b value_error >> body) db)
  guarded true body db h = tt
  guarded false body db h = h

  admission-Creates :
      (p : Key) (r : Option Key) (m id : Key) (db : Db) → Creates k (admission p r m id k db)
  unfolding admission
  admission-Creates p r m id db =
      continue-Creates (admit_context p r m db).0 (λ c. admit_to c m id k)
        (admit_context p r m db).1 (λ c. admit_to-Creates c m id (admit_context p r m db).1)

  pub admit-Creates :
      (p : Key) (r : Option Key) (m id : Key) (db : Db) → Creates k (admit p r m id k db)
  unfolding admit
  admit-Creates p r m id db =
      let body = admission p r m id k in
      guarded (p == 0 || (m == 0 || (id == 0 || k == 0)))
        (except_unique (atomically body) (recover r m)) db
        (handled (atomically body db).0 (recover r m) (atomically body db).1
          (rolled_back (body db).0 db (body db).1 (admission-Creates p r m id db))
          (recover-Creates r m (atomically body db).1))
