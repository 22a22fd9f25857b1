-- ===== src/Tests/RetryWitnesses.antt =====
-- An operation that conflicts twice and then returns.
use managed_agent_web_slack.Common.{ℕ, zero, suc, ◌≡◌, ◌<◌, refl, arith}
use managed_agent_web_slack.Runtime.Retry.{
  Attempt, conflict, returned, outcome_of, with_dsql_retry, with_dsql_retry-settled,
}

abbrev third_time : ℕ → Attempt ℕ
third_time zero = conflict
third_time (suc zero) = conflict
third_time (suc (suc n)) = returned 7

two_conflicts : (j : ℕ) → j < 2 → third_time j ≡ conflict
two_conflicts zero below = refl
two_conflicts (suc zero) below = refl
two_conflicts (suc (suc j)) below = absurd (omega arith)

no_conflict : third_time 2 ≡ conflict → ⊥
no_conflict e = ground (arith, e)

with_dsql_retry-settled_example : with_dsql_retry third_time 5 ≡ outcome_of (third_time 2)
with_dsql_retry-settled_example =
    with_dsql_retry-settled third_time 5 2 (omega arith) two_conflicts no_conflict
