-- ===== src/Runtime/Retry.antt =====
-- `with_dsql_retry` of backend/src/managed_agents_app/db/connection.py. The pauses between the
-- attempts, which are random, have no effect on the outcome.
use managed_agent_web_slack.Common.{
  ℕ, zero, suc, ◌+◌, ◌<◌, ◌≤◌, ◌≡◌, refl, subst, ◌==◌, Bool-cases, inl, inr, arith,
}
use managed_agent_web_slack.Runtime.Transaction.{Error, Result, ok, err, external}

-- How one attempt at an operation ends; `conflict` is psycopg's SerializationFailure.
pub data Attempt {ℓ} (A : Type ℓ) : Type ℓ where
  returned : A → Attempt A
  raised : Error → Attempt A
  conflict : Attempt A

module _ {A : Type 0} where
  -- An attempt ends the loop unless it conflicts and others are left.
  abbrev pub settle : Attempt A → ℕ → Result A → Result A
  settle (returned a) left rest = ok a
  settle (raised e) left rest = err e
  settle conflict zero rest = err external
  settle conflict (suc left) rest = rest

  -- The attempts from number `n` on, of which `left` are left.
  unfoldable pub retry_from : (ℕ → Attempt A) → ℕ → ℕ → Result A
  retry_from fn n zero = err external
  retry_from fn n (suc left) = let rest = retry_from fn (suc n) left in settle (fn n) left rest

  unfoldable pub with_dsql_retry : (ℕ → Attempt A) → ℕ → Result A
  unfolding retry_from
  with_dsql_retry fn attempts = retry_from fn 0 attempts

  -- The outcome of an attempt for the caller.
  abbrev pub outcome_of : Attempt A → Result A
  outcome_of (returned a) = ok a
  outcome_of (raised e) = err e
  outcome_of conflict = err external

  settle-settled :
      (t : Attempt A) (left : ℕ) (rest : Result A)
      → (t ≡ conflict → ⊥)
      → settle t left rest ≡ outcome_of t
  settle-settled (returned a) left rest h = refl
  settle-settled (raised e) left rest h = refl
  settle-settled conflict left rest h = absurd (h refl)

  settle-at :
      (fn : ℕ → Attempt A) (n i left : ℕ) (rest : Result A)
      → n ≡ i
      → (fn i ≡ conflict → ⊥)
      → settle (fn n) left rest ≡ outcome_of (fn i)
  settle-at fn n i left rest e =
      subst (λ (z : ℕ). (fn z ≡ conflict → ⊥) → settle (fn n) left rest ≡ outcome_of (fn z)) e
        (settle-settled (fn n) left rest)

  retry_from-settled :
      (fn : ℕ → Attempt A) (n left i : ℕ)
      → n ≤ i
      → i < n + left
      → ((j : ℕ) → n ≤ j → j < i → fn j ≡ conflict)
      → (fn i ≡ conflict → ⊥)
      → retry_from fn n left ≡ outcome_of (fn i)
  unfolding retry_from
  retry_from-settled fn n zero i above below before h = absurd (omega arith)
  retry_from-settled fn n (suc zero) i above below before h =
      settle-at fn n i zero (err external) (omega arith) h
  retry_from-settled fn n (suc (suc left)) i above below before h = elim (Bool-cases (n == i)) [
    | inl here ↦
        settle-at fn n i (suc left) (retry_from fn (suc n) (suc left)) (ground (arith, here)) h
    | inr later ↦
        let more : n < i = ground (arith, later, above) in
        rw (before n (omega arith) more) (
          retry_from-settled fn (suc n) (suc left) i (omega arith) (omega arith)
            (λ j low high. before j (omega arith) high) h)
  ]

  -- When all attempts before number `i` conflict with other transactions and that one does not, and
  -- it is within the bound, the caller gets exactly its outcome: its result or its exception.
  pub with_dsql_retry-settled :
      (fn : ℕ → Attempt A) (attempts i : ℕ)
      → i < attempts
      → ((j : ℕ) → j < i → fn j ≡ conflict)
      → (fn i ≡ conflict → ⊥)
      → with_dsql_retry fn attempts ≡ outcome_of (fn i)
  unfolding with_dsql_retry
  with_dsql_retry-settled fn attempts i below before h =
      retry_from-settled fn 0 attempts i (omega arith) (omega arith) (λ j low high. before j high) h
