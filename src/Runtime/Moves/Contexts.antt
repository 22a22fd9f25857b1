-- ===== src/Runtime/Moves/Contexts.antt =====
-- The transactions that leave the contexts as they are.
use managed_agent_web_slack.Common.{◌≡◌, refl, Bool, true, false, arith}
use managed_agent_web_slack.Store.{Db}
use managed_agent_web_slack.Runtime.Lease.{update_task}
use managed_agent_web_slack.Runtime.Review.{
  record_policy_decision, record_human_review, record_human_ruling, mark_confirmation_attempted,
  deny_cancelled_input_request,
}
use managed_agent_web_slack.Runtime.Requests.{
  add_input_request, add_clarification_request, decide_clarification_request,
  mark_clarification_attempted, resolve_input_request,
}
use managed_agent_web_slack.Runtime.Tasks.{cancel_task}
use managed_agent_web_slack.Runtime.Moves.Defs.{Move, move}

-- The moves that write cma_contexts.
abbrev pub writes_contexts : Move → Bool
writes_contexts (Move.create_context _ _) = true
writes_contexts (Move.bind_session _ _) = true
writes_contexts (Move.create_task _ _ _ _ _ _) = true
writes_contexts (Move.admit _ _ _ _ _) = true
writes_contexts (Move.claim_scheduler _ _ _) = true
writes_contexts (Move.release_scheduler _ _) = true
writes_contexts (Move.update_context _ _ _) = true
writes_contexts (Move.resolve_held_task _ _ _) = true
writes_contexts (Move.activate_task _ _ _ _) = true
writes_contexts _ = false

pub move-contexts :
    (m : Move) (db : Db) → writes_contexts m ≡ false → (move m db).contexts ≡ db.contexts
unfolding move update_task record_policy_decision record_human_review record_human_ruling
    mark_confirmation_attempted deny_cancelled_input_request add_input_request
    add_clarification_request decide_clarification_request mark_clarification_attempted
    resolve_input_request cancel_task
move-contexts (Move.tick n) db h = refl
move-contexts (Move.update_task t c claim fields) db h = ground arith
move-contexts (Move.record_policy_decision c t claim r d) db h = ground arith
move-contexts (Move.record_human_review c t claim r o fresh) db h = ground arith
move-contexts (Move.record_human_ruling r t d) db h = ground arith
move-contexts (Move.mark_confirmation_attempted r c claim) db h = refl
move-contexts (Move.deny_cancelled_input_request r c claim) db h = refl
move-contexts (Move.add_input_request r t e c claim) db h = ground arith
move-contexts (Move.add_clarification_request r t e c claim) db h = ground arith
move-contexts (Move.decide_clarification_request r t k) db h = ground arith
move-contexts (Move.mark_clarification_attempted r c claim) db h = refl
move-contexts (Move.resolve_input_request r c claim) db h = refl
move-contexts (Move.cancel_task t) db h = ground arith
move-contexts _ db h = cc
