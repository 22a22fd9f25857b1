-- ===== src/Scheduler/Keeps/Transactions.antt =====
-- The scheduler's transactions are moves, so each keeps what every move keeps.
use managed_agent_web_slack.Common.{ℕ, Option, List}
use managed_agent_web_slack.Store.{Key, Decision, Db}
use managed_agent_web_slack.Runtime.Moves.Defs.{Move, move}
use managed_agent_web_slack.Runtime.Lease.{
  TaskField, ContextField, update_task, update_context, claim_scheduler, release_scheduler,
}
use managed_agent_web_slack.Runtime.Review.{
  Offer, record_policy_decision, record_human_review, mark_confirmation_attempted,
  deny_cancelled_input_request,
}
use managed_agent_web_slack.Runtime.Requests.{
  add_input_request, add_clarification_request, decide_clarification_request,
  mark_clarification_attempted, resolve_input_request,
}
use managed_agent_web_slack.Runtime.Tasks.{activate_task}
use managed_agent_web_slack.Scheduler.World.{Env, Effect, transact, returning}
use managed_agent_web_slack.Scheduler.Keeps.{Stable, Keeps, Keeps-transact}

module _ {P : Db → List Effect → Type 0} (env : Env) (stable : Stable P) where
  pub Keeps-update_task :
      (t c claim : Key) (fields : List TaskField)
      → Keeps P (transact env (update_task t c claim fields))
  unfolding move
  Keeps-update_task t c claim fields =
      Keeps-transact env stable (update_task t c claim fields)
        (stable.by_move (Move.update_task t c claim fields))

  pub Keeps-update_context :
      (c claim : Key) (fields : List ContextField)
      → Keeps P (transact env (update_context c claim fields))
  unfolding move
  Keeps-update_context c claim fields =
      Keeps-transact env stable (update_context c claim fields)
        (stable.by_move (Move.update_context c claim fields))

  pub Keeps-claim :
      (claim c : Key) (n : ℕ) → Keeps P (transact env (returning (claim_scheduler claim c n)))
  unfolding move
  Keeps-claim claim c n =
      Keeps-transact env stable (returning (claim_scheduler claim c n))
        (stable.by_move (Move.claim_scheduler claim c n))

  pub Keeps-release :
      (c claim : Key) → Keeps P (transact env (returning (release_scheduler c claim)))
  unfolding move
  Keeps-release c claim =
      Keeps-transact env stable (returning (release_scheduler c claim))
        (stable.by_move (Move.release_scheduler c claim))

  pub Keeps-record_policy_decision :
      (c t claim r : Key) (d : Decision)
      → Keeps P (transact env (record_policy_decision c t claim r d))
  unfolding move
  Keeps-record_policy_decision c t claim r d =
      Keeps-transact env stable (record_policy_decision c t claim r d)
        (stable.by_move (Move.record_policy_decision c t claim r d))

  pub Keeps-record_human_review :
      (c t claim r : Key) (offer : Offer) (fresh : Key)
      → Keeps P (transact env (record_human_review c t claim r offer fresh))
  unfolding move
  Keeps-record_human_review c t claim r offer fresh =
      Keeps-transact env stable (record_human_review c t claim r offer fresh)
        (stable.by_move (Move.record_human_review c t claim r offer fresh))

  pub Keeps-deny_cancelled :
      (r c claim : Key)
      → Keeps P (transact env (returning (λ db. (tt, deny_cancelled_input_request r c claim db))))
  unfolding move
  Keeps-deny_cancelled r c claim =
      Keeps-transact env stable (returning (λ db. (tt, deny_cancelled_input_request r c claim db)))
        (stable.by_move (Move.deny_cancelled_input_request r c claim))

  pub Keeps-add_input_request :
      (r t e c claim : Key) → Keeps P (transact env (add_input_request r t e c claim))
  unfolding move
  Keeps-add_input_request r t e c claim =
      Keeps-transact env stable (add_input_request r t e c claim)
        (stable.by_move (Move.add_input_request r t e c claim))

  pub Keeps-add_clarification_request :
      (r t e c claim : Key) → Keeps P (transact env (add_clarification_request r t e c claim))
  unfolding move
  Keeps-add_clarification_request r t e c claim =
      Keeps-transact env stable (add_clarification_request r t e c claim)
        (stable.by_move (Move.add_clarification_request r t e c claim))

  pub Keeps-decide_clarification :
      (r t k : Key) → Keeps P (transact env (returning (decide_clarification_request r t k)))
  unfolding move
  Keeps-decide_clarification r t k =
      Keeps-transact env stable (returning (decide_clarification_request r t k))
        (stable.by_move (Move.decide_clarification_request r t k))

  pub Keeps-mark_clarification :
      (r c claim : Key)
      → Keeps P (transact env (returning (mark_clarification_attempted r c claim)))
  unfolding move
  Keeps-mark_clarification r c claim =
      Keeps-transact env stable (returning (mark_clarification_attempted r c claim))
        (stable.by_move (Move.mark_clarification_attempted r c claim))

  pub Keeps-resolve_input_request :
      (r c claim : Key)
      → Keeps P (transact env (returning (λ db. (tt, resolve_input_request r c claim db))))
  unfolding move
  Keeps-resolve_input_request r c claim =
      Keeps-transact env stable (returning (λ db. (tt, resolve_input_request r c claim db)))
        (stable.by_move (Move.resolve_input_request r c claim))

  pub Keeps-activate_task :
      (c t claim : Key) (p : Option Key) → Keeps P (transact env (activate_task c t claim p))
  unfolding move
  Keeps-activate_task c t claim p =
      Keeps-transact env stable (activate_task c t claim p)
        (stable.by_move (Move.activate_task c t claim p))

  pub Keeps-mark_confirmation :
      (r c claim : Key) → Keeps P (transact env (returning (mark_confirmation_attempted r c claim)))
  unfolding move
  Keeps-mark_confirmation r c claim =
      Keeps-transact env stable (returning (mark_confirmation_attempted r c claim))
        (stable.by_move (Move.mark_confirmation_attempted r c claim))
