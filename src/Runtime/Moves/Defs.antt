-- ===== src/Runtime/Moves/Defs.antt =====
-- Interleavings: every transaction of the controller as one move on the tables, by whoever commits
-- it (schedulers, the A2A service, the administrator), and time that passes between two of them. A
-- transaction that raises is rolled back and moves nothing.
use managed_agent_web_slack.Common.{ℕ, ◌+◌, Option, List, [], ◌∷◌}
use managed_agent_web_slack.Store.{Key, A2aState, InternalState, Decision, Db}
use managed_agent_web_slack.Runtime.Identity
use managed_agent_web_slack.Runtime.Admission
use managed_agent_web_slack.Runtime.Lease
use managed_agent_web_slack.Runtime.Lease.{ContextField, TaskField}
use managed_agent_web_slack.Runtime.Review
use managed_agent_web_slack.Runtime.Review.{Offer}
use managed_agent_web_slack.Runtime.Requests
use managed_agent_web_slack.Runtime.Tasks
use managed_agent_web_slack.Runtime.Tasks.{Resolution}

pub data Move : Type 0 where
  tick : ℕ → Move
  create_context : Key → Key → Move
  bind_session : Key → Key → Move
  create_task : Key → Key → Key → ℕ → A2aState → InternalState → Move
  admit : Key → Option Key → Key → Key → Key → Move
  claim_scheduler : Key → Key → ℕ → Move
  release_scheduler : Key → Key → Move
  update_task : Key → Key → Key → List TaskField → Move
  update_context : Key → Key → List ContextField → Move
  record_policy_decision : Key → Key → Key → Key → Decision → Move
  record_human_review : Key → Key → Key → Key → Offer → Key → Move
  record_human_ruling : Key → Key → Decision → Move
  mark_confirmation_attempted : Key → Key → Key → Move
  deny_cancelled_input_request : Key → Key → Key → Move
  add_input_request : Key → Key → Key → Key → Key → Move
  add_clarification_request : Key → Key → Key → Key → Key → Move
  decide_clarification_request : Key → Key → Key → Move
  mark_clarification_attempted : Key → Key → Key → Move
  resolve_input_request : Key → Key → Key → Move
  resolve_held_task : Key → Key → Resolution → Move
  activate_task : Key → Key → Key → Option Key → Move
  cancel_task : Key → Move

abbrev pub pass_time : ℕ → Db → Db
pass_time n db = record db { now = db.now + n }

unfoldable pub move : Move → Db → Db
move (Move.tick n) db = pass_time n db
move (Move.create_context id m) db = (Identity.create_initializing_context id m db).1
move (Move.bind_session id s) db = (Identity.bind_cma_session id s db).1
move (Move.create_task id c m n a i) db = (Identity.create_task id c m n a i db).1
move (Move.admit p r m id k) db = (Admission.admit p r m id k db).1
move (Move.claim_scheduler claim id n) db = (Lease.claim_scheduler claim id n db).1
move (Move.release_scheduler id claim) db = (Lease.release_scheduler id claim db).1
move (Move.update_task t c claim fields) db = (Lease.update_task t c claim fields db).1
move (Move.update_context c claim fields) db = (Lease.update_context c claim fields db).1
move (Move.record_policy_decision c t claim r d) db =
    (Review.record_policy_decision c t claim r d db).1
move (Move.record_human_review c t claim r offer fresh) db =
    (Review.record_human_review c t claim r offer fresh db).1
move (Move.record_human_ruling r t d) db = (Review.record_human_ruling r t d db).1
move (Move.mark_confirmation_attempted r c claim) db =
    (Review.mark_confirmation_attempted r c claim db).1
move (Move.deny_cancelled_input_request r c claim) db =
    Review.deny_cancelled_input_request r c claim db
move (Move.add_input_request r t e c claim) db = (Requests.add_input_request r t e c claim db).1
move (Move.add_clarification_request r t e c claim) db =
    (Requests.add_clarification_request r t e c claim db).1
move (Move.decide_clarification_request r t k) db =
    (Requests.decide_clarification_request r t k db).1
move (Move.mark_clarification_attempted r c claim) db =
    (Requests.mark_clarification_attempted r c claim db).1
move (Move.resolve_input_request r c claim) db = Requests.resolve_input_request r c claim db
move (Move.resolve_held_task t claim r) db = (Tasks.resolve_held_task t claim r db).1
move (Move.activate_task c t claim p) db = (Tasks.activate_task c t claim p db).1
move (Move.cancel_task t) db = (Tasks.cancel_task t db).1

-- Moves one after another.
unfoldable pub moves : List Move → Db → Db
unfolding move
moves [] db = db
moves (m ∷ ms) db = moves ms (move m db)
