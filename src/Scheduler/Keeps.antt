-- ===== src/Scheduler/Keeps.antt =====
-- Invariants of the scheduler's actions over the tables and the log of calls: one rule for each way
-- to build an action. Any invariant that survives every transaction of the repository and every
-- call outside but `confirm_tool` is carried through the code by these rules.
pub mod Transactions
pub mod Rules
use managed_agent_web_slack.Common.{
  ℕ, ◌≡◌, refl, Option, none, some, List, [], ◌∷◌, Bool, true, false, if◌then◌else◌, Bool-cases,
  inl, inr,
}
use managed_agent_web_slack.Store.{Key, Decision, Db}
use managed_agent_web_slack.Runtime.Transaction.{Error, Result, Transaction, ok, err, external}
use managed_agent_web_slack.Runtime.Moves.Defs.{Move, move, moves}
use managed_agent_web_slack.Scheduler.World.{
  commit, Env, Effect, World, Action, Answer, replied, rejected, failed, pure, raise, attempt,
  resume, maybe, on_outcome, for_each, for_all, advance, transact, reading, read, call, new_key,
  ◌>>=◌,
}

abbrev pub is_confirm : Effect → Bool
is_confirm (Effect.confirm_tool _ _ _) = true
is_confirm _ = false

-- `P` survives every transaction and every other call.
pub record Stable (P : Db → List Effect → Type 0) : Type 0 where
  pub by_move : (m : Move) (db : Db) (log : List Effect) → P db log → P (move m db) log
  pub by_effect :
      (e : Effect) (db : Db) (log : List Effect) → is_confirm e ≡ false → P db log → P db (e ∷ log)

-- The action keeps `P`, whether it returns or raises.
pub record Keeps (P : Db → List Effect → Type 0) {A : Type 0} (m : Action A) : Type 0 where
  pub at : (w : World) → P w.db w.log → P (m w).1.db (m w).1.log

module _ {P : Db → List Effect → Type 0} {A : Type 0} where
  pub Keeps-pure : (a : A) → Keeps P (pure a)
  unfolding pure
  Keeps-pure a = record { at = λ w h. h }

  pub Keeps-raise : (e : Error) → Keeps P (raise {A = A} e)
  unfolding raise
  Keeps-raise e = record { at = λ w h. h }

  pub Keeps-attempt : (m : Action A) → Keeps P m → Keeps P (attempt m)
  unfolding attempt
  Keeps-attempt m k = record { at = λ w h. k.at w h }

  pub Keeps-if : (b : Bool) (m n : Action A) → Keeps P m → Keeps P n → Keeps P (if b then m else n)
  Keeps-if true m n km kn = km
  Keeps-if false m n km kn = kn

module _ {P : Db → List Effect → Type 0} {A B : Type 0} where
  Keeps-resume :
      (r : Result A) (f : A → Action B) → ((a : A) → Keeps P (f a)) → Keeps P (resume r f)
  Keeps-resume (ok a) f k = record { at = λ w h. (k a).at w h }
  Keeps-resume (err e) f k = record { at = λ w h. h }

  pub Keeps-bind :
      (m : Action A) (f : A → Action B) → Keeps P m → ((a : A) → Keeps P (f a)) → Keeps P (m >>= f)
  unfolding ◌>>=◌
  Keeps-bind m f km kf = record { at = λ w h. (Keeps-resume (m w).0 f kf).at (m w).1 (km.at w h) }

  pub Keeps-maybe :
      (o : Option A) (m : Action B) (f : A → Action B)
      → Keeps P m
      → ((a : A) → Keeps P (f a))
      → Keeps P (maybe o m f)
  Keeps-maybe none m f km kf = km
  Keeps-maybe (some a) m f km kf = kf a

  pub Keeps-on_outcome :
      (r : Result A) (f : A → Action B) (h : Error → Action B)
      → ((a : A) → Keeps P (f a))
      → ((e : Error) → Keeps P (h e))
      → Keeps P (on_outcome r f h)
  Keeps-on_outcome (ok a) f h kf kh = kf a
  Keeps-on_outcome (err e) f h kf kh = kh e

module _ {P : Db → List Effect → Type 0} {A B : Type 0} where
  pub Keeps-for_each :
      (xs : List A) (body : A → Action (Option B))
      → ((a : A) → Keeps P (body a))
      → Keeps P (for_each xs body)
  unfolding for_each
  Keeps-for_each [] body k = Keeps-pure none
  Keeps-for_each (x ∷ xs) body k =
      Keeps-bind (body x) _ (k x)
        (λ r. Keeps-maybe r _ _ (Keeps-for_each xs body k) (λ b. Keeps-pure (some b)))

module _ {P : Db → List Effect → Type 0} {A : Type 0} where
  pub Keeps-for_all :
      (xs : List A) (body : A → Action (Unit {0}))
      → ((a : A) → Keeps P (body a))
      → Keeps P (for_all xs body)
  unfolding for_all
  Keeps-for_all [] body k = Keeps-pure tt
  Keeps-for_all (x ∷ xs) body k = Keeps-bind (body x) _ (k x) (λ _. Keeps-for_all xs body k)

module _ {P : Db → List Effect → Type 0} (env : Env) (stable : Stable P) where
  pub keep_moves : (ms : List Move) (db : Db) (log : List Effect) → P db log → P (moves ms db) log
  unfolding moves
  keep_moves [] db log h = h
  keep_moves (m ∷ ms) db log h = keep_moves ms (move m db) log (stable.by_move m db log h)

  pub Keeps-new_key : Keeps P (new_key env)
  unfolding new_key
  Keeps-new_key = record { at = λ w h. keep_moves (env.meanwhile w.turn) w.db w.log h }

  -- A call with no effect, or with one that confirms nothing.
  pub Keeps-ask : {A : Type 0} (reply : ℕ → Answer A) → Keeps P (call env none reply)
  unfolding call
  Keeps-ask reply = record { at = λ w h. keep_moves (env.meanwhile w.turn) w.db w.log h }

  pub Keeps-call :
      {A : Type 0} (e : Effect) (reply : ℕ → Answer A)
      → is_confirm e ≡ false
      → Keeps P (call env (some e) reply)
  unfolding call
  Keeps-call e reply quiet = record {
    at = λ w h. stable.by_effect e _ w.log quiet (keep_moves (env.meanwhile w.turn) w.db w.log h);
  }

  -- A transaction that is a move, or moves nothing.
  pub Keeps-transact :
      {A : Type 0} (t : Transaction A)
      → ((db : Db) (log : List Effect) → P db log → P (t db).1 log)
      → Keeps P (transact env t)
  unfolding transact
  Keeps-transact t k = record { at = λ w h. go w h (env.database_down w.turn) }
    where
      go :
          (w : World)
          → P w.db w.log
          → (down : Bool)
          → P
              (if down
                then (err external, advance env w)
                else commit (t (advance env w).db) (advance env w)).1.db
              (if down
                then (err external, advance env w)
                else commit (t (advance env w).db) (advance env w)).1.log
      go w h true = keep_moves (env.meanwhile w.turn) w.db w.log h
      go w h false = k _ w.log (keep_moves (env.meanwhile w.turn) w.db w.log h)

  pub Keeps-read : {A : Type 0} (q : Db → A) → Keeps P (read env q)
  unfolding read
  Keeps-read q = Keeps-transact (reading q) (λ db log h. h)
