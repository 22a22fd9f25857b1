-- ===== src/Runtime/Admission/Kept.antt =====
-- An admission deletes no context, and changes an old one only by taking its next number.
use managed_agent_web_slack.Common.{
  ℕ, ◌==◌, Option, none, some, [], ◌∷◌, Evolves, Evolves-refl, Evolves-update_where, Evolves-append,
  Evolves-trans, arith,
}
use managed_agent_web_slack.Store.{Key, Context, Db}
use managed_agent_web_slack.Runtime.Transaction.{
  Transaction, Result, ok, err, continue, roll_back, atomically, ◌>>=◌,
}
use managed_agent_web_slack.Runtime.Identity.{new_context}
use managed_agent_web_slack.Runtime.Admission.{
  take_sequence, admit_to, admit_context, admission, recover, admit,
}

-- The relation of the contexts before and after any transaction.
abbrev pub ContextsKeep : (Context → Context → Type 0) → {A : Type 0} → Transaction A → Type 0
ContextsKeep R t = (db : Db) → Evolves R db.contexts (t db).1.contexts

module _ (R : Context → Context → Type 0) (same : (c : Context) → R c c)
    (comp : (x y z : Context) → R x y → R y z → R x z)
    (step : (now : ℕ) (c : Context) → R c (take_sequence now c)) where
  continue-kept :
      {A B : Type 0} (r : Result A) (f : A → Transaction B) (db reached : Db)
      → Evolves R db.contexts reached.contexts
      → ((a : A) → ContextsKeep R (f a))
      → Evolves R db.contexts (continue r f reached).1.contexts
  continue-kept (ok a) f db reached h hf =
      Evolves-trans R comp db.contexts reached.contexts (f a reached).1.contexts h (hf a reached)
  continue-kept (err e) f db reached h hf = h

  ContextsKeep->>= :
      {A B : Type 0} (m : Transaction A) (f : A → Transaction B)
      → ContextsKeep R m
      → ((a : A) → ContextsKeep R (f a))
      → ContextsKeep R (m >>= f)
  ContextsKeep->>= m f hm hf db = continue-kept (m db).0 f db (m db).1 (hm db) hf

  roll_back-kept :
      {A : Type 0} (r : Result A) (db reached : Db)
      → Evolves R db.contexts reached.contexts
      → Evolves R db.contexts (roll_back r db reached).1.contexts
  roll_back-kept (ok a) db reached h = h
  roll_back-kept (err e) db reached h = Evolves-refl R same db.contexts

  admit_to-kept : (c : Context) (m id o : Key) → ContextsKeep R (admit_to c m id o)
  unfolding admit_to
  admit_to-kept c m id o db = ground (
    arith,
    Evolves-refl R same db.contexts,
    Evolves-update_where R same (λ x. x.context_id == c.context_id) (take_sequence db.now)
        db.contexts (λ x h. step db.now x),
  )

  admit_context-kept : (p : Key) (r : Option Key) (m : Key) → ContextsKeep R (admit_context p r m)
  unfolding admit_context
  admit_context-kept p none m db = ground (
    arith,
    Evolves-refl R same db.contexts,
    Evolves-append R same db.contexts (new_context p m db.now ∷ []),
  )
  admit_context-kept p (some requested) m db = ground (arith, Evolves-refl R same db.contexts)

  admission-kept :
      (p : Key) (r : Option Key) (m id o : Key) → ContextsKeep R (atomically (admission p r m id o))
  unfolding admission
  admission-kept p r m id o db =
      roll_back-kept (admission p r m id o db).0 db (admission p r m id o db).1 (
        ContextsKeep->>= (admit_context p r m) (λ c. admit_to c m id o) (admit_context-kept p r m)
          (λ c. admit_to-kept c m id o) db)

  pub admit-kept : (p : Key) (r : Option Key) (m id o : Key) → ContextsKeep R (admit p r m id o)
  unfolding admit recover
  admit-kept p r m id o db =
      ground (arith, Evolves-refl R same db.contexts, admission-kept p r m id o db)
