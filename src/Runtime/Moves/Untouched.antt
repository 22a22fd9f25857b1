-- ===== src/Runtime/Moves/Untouched.antt =====
-- The transactions on contexts and tasks that leave the input requests as they are.
use managed_agent_web_slack.Common.{ℕ, ◌≡◌, refl, Option, List, Bool, true, false, arith}
use managed_agent_web_slack.Store.{Key, A2aState, InternalState, Db}
use managed_agent_web_slack.Runtime.Identity.{
  create_initializing_context, bind_cma_session, create_task,
}
use managed_agent_web_slack.Runtime.Admission.{admit}
use managed_agent_web_slack.Runtime.Lease.{
  ContextField, TaskField, claim_scheduler, release_scheduler, update_task, update_context,
}
use managed_agent_web_slack.Runtime.Tasks.{
  Resolution, resolve_held_task, activate_task, cancel_task,
}
use managed_agent_web_slack.Runtime.Requests.{
  add_clarification_request, decide_clarification_request, mark_clarification_attempted,
}
use managed_agent_web_slack.Runtime.Moves.Defs.{Move, move}

abbrev pub KeepsRequests : Db → Db → Type 0
KeepsRequests db after = after.requests ≡ db.requests

create_context-keeps :
    (id m : Key) (db : Db) → KeepsRequests db (create_initializing_context id m db).1
unfolding create_initializing_context
create_context-keeps id m db = ground arith

bind_session-keeps : (id s : Key) (db : Db) → KeepsRequests db (bind_cma_session id s db).1
unfolding bind_cma_session
bind_session-keeps id s db = ground arith

create_task-keeps :
    (id c m : Key) (n : ℕ) (a : A2aState) (i : InternalState) (db : Db)
    → KeepsRequests db (create_task id c m n a i db).1
unfolding create_task
create_task-keeps id c m n a i db = ground arith

admit-keeps :
    (p : Key) (r : Option Key) (m id k : Key) (db : Db) → KeepsRequests db (admit p r m id k db).1
unfolding admit
admit-keeps p r m id k db = ground arith

claim-keeps :
    (claim id : Key) (n : ℕ) (db : Db) → KeepsRequests db (claim_scheduler claim id n db).1
unfolding claim_scheduler
claim-keeps claim id n db = ground arith

release-keeps : (id claim : Key) (db : Db) → KeepsRequests db (release_scheduler id claim db).1
unfolding release_scheduler
release-keeps id claim db = ground arith

update_task-keeps :
    (t c claim : Key) (fields : List TaskField) (db : Db)
    → KeepsRequests db (update_task t c claim fields db).1
unfolding update_task
update_task-keeps t c claim fields db = ground arith

update_context-keeps :
    (c claim : Key) (fields : List ContextField) (db : Db)
    → KeepsRequests db (update_context c claim fields db).1
unfolding update_context
update_context-keeps c claim fields db = ground arith

resolve_held-keeps :
    (t claim : Key) (r : Resolution) (db : Db) → KeepsRequests db (resolve_held_task t claim r db).1
unfolding resolve_held_task
resolve_held-keeps t claim r db = ground arith

activate-keeps :
    (c t claim : Key) (p : Option Key) (db : Db) → KeepsRequests db (activate_task c t claim p db).1
unfolding activate_task
activate-keeps c t claim p db = ground arith

cancel-keeps : (t : Key) (db : Db) → KeepsRequests db (cancel_task t db).1
unfolding cancel_task
cancel-keeps t db = ground arith

clarify-keeps :
    (r t e c claim : Key) (db : Db)
    → KeepsRequests db (add_clarification_request r t e c claim db).1
unfolding add_clarification_request
clarify-keeps r t e c claim db = ground arith

decide-keeps : (r t k : Key) (db : Db) → KeepsRequests db (decide_clarification_request r t k db).1
unfolding decide_clarification_request
decide-keeps r t k db = ground arith

respond-keeps :
    (r c claim : Key) (db : Db) → KeepsRequests db (mark_clarification_attempted r c claim db).1
unfolding mark_clarification_attempted
respond-keeps r c claim db = refl

-- The moves that write cma_input_requests.
abbrev pub touches : Move → Bool
touches (Move.record_policy_decision _ _ _ _ _) = true
touches (Move.record_human_review _ _ _ _ _ _) = true
touches (Move.record_human_ruling _ _ _) = true
touches (Move.mark_confirmation_attempted _ _ _) = true
touches (Move.deny_cancelled_input_request _ _ _) = true
touches (Move.add_input_request _ _ _ _ _) = true
touches (Move.resolve_input_request _ _ _) = true
touches _ = false

pub move-untouched : (m : Move) (db : Db) → touches m ≡ false → KeepsRequests db (move m db)
unfolding move
move-untouched (Move.tick n) db h = refl
move-untouched (Move.create_context id m) db h = create_context-keeps id m db
move-untouched (Move.bind_session id s) db h = bind_session-keeps id s db
move-untouched (Move.create_task id c m n a i) db h = create_task-keeps id c m n a i db
move-untouched (Move.admit p r m id k) db h = admit-keeps p r m id k db
move-untouched (Move.claim_scheduler claim id n) db h = claim-keeps claim id n db
move-untouched (Move.release_scheduler id claim) db h = release-keeps id claim db
move-untouched (Move.update_task t c claim fields) db h = update_task-keeps t c claim fields db
move-untouched (Move.update_context c claim fields) db h = update_context-keeps c claim fields db
move-untouched (Move.add_clarification_request r t e c claim) db h = clarify-keeps r t e c claim db
move-untouched (Move.decide_clarification_request r t k) db h = decide-keeps r t k db
move-untouched (Move.mark_clarification_attempted r c claim) db h = respond-keeps r c claim db
move-untouched (Move.resolve_held_task t claim r) db h = resolve_held-keeps t claim r db
move-untouched (Move.activate_task c t claim p) db h = activate-keeps c t claim p db
move-untouched (Move.cancel_task t) db h = cancel-keeps t db
move-untouched _ db h = cc
