-- ===== src/Runtime/Transaction.antt =====
-- One `with connect(...)` block: its statements read and write the tables, and an exception rolls
-- them all back.
use managed_agent_web_slack.Common.{Bool, true, false, Option, none, some}
use managed_agent_web_slack.Store.{PolicyCode, Db}

-- The exceptions of the controller. `lost_claim` is LostSchedulerClaim, `identity_conflict` is
-- ControllerIdentityConflict, `unique_violation` psycopg's, `definitive` DefinitiveProviderError,
-- `policy_failure` PolicyError with its code, and `external` any other failure of a service outside
-- the repository or of the database itself.
pub data Error : Type 0 where
  value_error key_error lost_claim identity_conflict unique_violation : Error
  scheduler_busy definitive timeout external : Error
  policy_failure : PolicyCode → Error

pub data Result {ℓ} (A : Type ℓ) : Type ℓ where
  ok : A → Result A
  err : Error → Result A

abbrev pub Transaction : Type 0 → Type 0
Transaction A = Db → Result A × Db

module _ {A : Type 0} where
  abbrev pub pure : A → Transaction A
  pure a db = (ok a, db)

  abbrev pub raise : Error → Transaction A
  raise e db = (err e, db)

  abbrev pub roll_back : Result A → Db → Db → Result A × Db
  roll_back (ok a) before reached = (ok a, reached)
  roll_back (err e) before reached = (err e, before)

  -- The block commits when it returns.
  abbrev pub atomically : Transaction A → Transaction A
  atomically body db = let (r, reached) = body db in roll_back r db reached

  abbrev pub or_raise : Option A → Error → Transaction A
  or_raise none e = raise e
  or_raise (some a) e = pure a

abbrev pub continue : {A B : Type 0} → Result A → (A → Transaction B) → Transaction B
continue (ok a) f db = f a db
continue (err e) f db = (err e, db)

infixl 5 ◌>>=◌ ◌>>◌
abbrev pub ◌>>=◌ : {A B : Type 0} → Transaction A → (A → Transaction B) → Transaction B
◌>>=◌ m f db = let (r, reached) = m db in continue r f reached

abbrev pub ◌>>◌ : {A B : Type 0} → Transaction A → Transaction B → Transaction B
m >> k = m >>= λ _. k

abbrev pub raise_if : Bool → Error → Transaction (Unit {0})
raise_if true e = raise e
raise_if false e = pure tt

abbrev pub query : {A : Type 0} → (Db → A) → Transaction A
query read db = (ok (read db), db)

abbrev pub execute : (Db → Db) → Transaction (Unit {0})
execute write db = (ok tt, write db)

-- `try: body except UniqueViolation: handler`
abbrev pub handle_unique : {A : Type 0} → Result A → Transaction A → Transaction A
handle_unique (err unique_violation) handler db = handler db
handle_unique r handler db = (r, db)

abbrev pub except_unique : {A : Type 0} → Transaction A → Transaction A → Transaction A
except_unique body handler db = let (r, reached) = body db in handle_unique r handler reached
