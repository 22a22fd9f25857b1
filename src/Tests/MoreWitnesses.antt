-- ===== src/Tests/MoreWitnesses.antt =====
-- The theorems on leases, fences and push notifications at concrete inputs.
use managed_agent_web_slack.Common.{List, ◌≡◌, refl, some, [], ◌∷◌, true, false, Evolves}
use managed_agent_web_slack.Store.{InternalState, Decision, Db, holds_lease, leases}
use managed_agent_web_slack.Runtime.Lease.{claim_scheduler}
use managed_agent_web_slack.Runtime.Moves.Defs
use managed_agent_web_slack.Runtime.Moves.Defs.{Move, move, moves}
use managed_agent_web_slack.Runtime.Moves.Leases.{LeasesKept, move-LeasesKept}
use managed_agent_web_slack.Runtime.Moves.Fence.{move-stale}
use managed_agent_web_slack.Runtime.Review.{record_human_ruling, open_for_ruling, same_decision}
use managed_agent_web_slack.Runtime.Moves.Rulings.{record_human_ruling-first}
use managed_agent_web_slack.Runtime.Tasks.{next_queued}
use managed_agent_web_slack.Runtime.Tasks.Order.{IsNext, next_queued-IsNext}
use managed_agent_web_slack.Push.Claims.Moves
use managed_agent_web_slack.Push.Claims.Moves.{push_move}
use managed_agent_web_slack.Push.Claims.Leases.{ClaimKept, push_move-ClaimKept}
use managed_agent_web_slack.Push.Dispatcher.{run_context}
use managed_agent_web_slack.Push.Dispatcher.Bounds.{SentOne, wakes_of, run_context-bounds}
use managed_agent_web_slack.Tests.Fixtures.{task, pending_request, tables}
use managed_agent_web_slack.Tests.PushFixtures.{claimed_push_tables, busy_receiver, push_world}

abbrev claimed_tables : Db
claimed_tables = (claim_scheduler 80 10 60 tables).1

move-LeasesKept_example :
    LeasesKept 80 claimed_tables (move (Defs.claim_scheduler 81 10 60) claimed_tables)
move-LeasesKept_example = move-LeasesKept (Defs.claim_scheduler 81 10 60) 80 claimed_tables refl

unclaimed_tables : holds_lease 10 80 tables ≡ false
unfolding holds_lease leases
unclaimed_tables = refl

move-stale_example : move (Defs.mark_confirmation_attempted 30 10 80) tables ≡ tables
move-stale_example = move-stale (Defs.mark_confirmation_attempted 30 10 80) tables unclaimed_tables

push_move-ClaimKept_example :
    Evolves
      (ClaimKept 90 100)
      claimed_push_tables.configs
      (push_move (Moves.claim 91 20 5 30) claimed_push_tables).configs
push_move-ClaimKept_example =
    push_move-ClaimKept (Moves.claim 91 20 5 30) 90 claimed_push_tables refl

run_context-bounds_example :
    SentOne (wakes_of push_world.log) (wakes_of (run_context busy_receiver 10 push_world).1.log)
run_context-bounds_example = run_context-bounds busy_receiver 10 push_world

abbrev reviewed_tables : Db
reviewed_tables = record tables {
  requests = record pending_request { review_digest = some 1; review_object_key = some 2 } ∷ [];
}

ruling_accepted : (record_human_ruling 30 20 Decision.deny reviewed_tables).0 ≡ true
unfolding record_human_ruling open_for_ruling
ruling_accepted = refl

abbrev ruled_tables : Db
ruled_tables = (record_human_ruling 30 20 Decision.deny reviewed_tables).1

-- Time passes, and another ruling is tried.
abbrev tries : List Move
tries = Defs.tick 5 ∷ Defs.record_human_ruling 30 20 Decision.allow ∷ []

record_human_ruling-first_example :
    (record_human_ruling 30 20 Decision.allow ruled_tables
      ≡ (same_decision Decision.deny Decision.allow, ruled_tables))
    × ((record_human_ruling 30 20 Decision.allow (moves tries ruled_tables)).1
        ≡ moves tries ruled_tables)
    × ((record_human_ruling 30 20 Decision.allow (moves tries ruled_tables)).0 ≡ true
        → same_decision Decision.deny Decision.allow ≡ true)
record_human_ruling-first_example =
    record_human_ruling-first 30 20 70 Decision.deny Decision.allow reviewed_tables tries (refl, tt)
      refl ruling_accepted (tt, (tt, tt))

abbrev queued_tables : Db
queued_tables = record tables {
  tasks =
      record task {
        task_id = 22;
        message_id = 13;
        sequence = 3;
        internal_state = InternalState.queued;
      }
      ∷ record task {
        task_id = 21;
        message_id = 12;
        sequence = 2;
        internal_state = InternalState.queued;
      }
      ∷ task
      ∷ [];
}

next_queued-IsNext_example : IsNext 10 queued_tables.tasks (next_queued 10 queued_tables)
next_queued-IsNext_example = next_queued-IsNext 10 queued_tables
