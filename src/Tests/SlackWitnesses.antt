-- ===== src/Tests/SlackWitnesses.antt =====
-- The theorems on the Slack side's tables at concrete inputs.
use managed_agent_web_slack.Common.{
  ℕ, false, any_row, ◌==◌, ◌≡◌, refl, none, some, [], ◌∷◌, count_rows, ◌≤◌, Evolves, arith,
}
use managed_agent_web_slack.Store.{A2aState}
use managed_agent_web_slack.Threads.{ok}
use managed_agent_web_slack.Slack.{ProjectionStatus, SlackDb}
use managed_agent_web_slack.Slack.Ingress.{
  of_event, claimable, claimed_row, claim_ingress, complete_ingress,
}
use managed_agent_web_slack.Slack.Moves.Defs
use managed_agent_web_slack.Slack.Moves.Defs.{SlackMove, slack_move, slack_moves}
use managed_agent_web_slack.Slack.Moves.Settled.{Kept, slack_moves-Kept}
use managed_agent_web_slack.Slack.Moves.Streams.{HoldKept, slack_move-HoldKept}
use managed_agent_web_slack.Slack.Moves.Leased.{AllLeased}
use managed_agent_web_slack.Slack.Moves.Unstuck.{Answered, claim_ingress-unstuck}
use managed_agent_web_slack.Slack.Moves.Once.{Handled, complete_ingress-once}

abbrev pub empty_slack : SlackDb
empty_slack = record {
  now = 100;
  threads = 7 ∷ [];
  bindings = 8 ∷ [];
  events = [];
  projections = [];
  items = [];
}

-- The event 2 of the surface 1, claimed under 40.
abbrev claimed_event : SlackDb
claimed_event = (claim_ingress 30 40 1 2 60 empty_slack).1

-- The event 2 of Slack's messages, claimed under 40.
abbrev pub claimed_slack_event : SlackDb
claimed_slack_event = (claim_ingress 30 40 6 2 60 empty_slack).1

one_event : count_rows (of_event 1 2) claimed_event.events ≤ 1
unfolding claim_ingress claimable
one_event = omega arith

completes : (complete_ingress 1 2 40 (some 7) (some 9) claimed_event).0 ≡ ok tt
unfolding claim_ingress claimable complete_ingress claimed_row
completes = refl

complete_ingress-once_example : Handled 32 42 60 1 2 (some 7) (some 9) (
    slack_moves
      (Defs.fail_ingress 1 2 40 [] ∷ Defs.tick 500 ∷ Defs.claim_ingress 31 41 1 3 60 ∷ [])
      (complete_ingress 1 2 40 (some 7) (some 9) claimed_event).1)
complete_ingress-once_example =
    complete_ingress-once 1 2 40 (some 7) (some 9) claimed_event
      (Defs.fail_ingress 1 2 40 [] ∷ Defs.tick 500 ∷ Defs.claim_ingress 31 41 1 3 60 ∷ []) one_event
      completes 32 42 60

abbrev streamed : SlackDb
streamed =
    slack_moves
      (Defs.ensure_projection 8 9 (record {
        request_event_id = some 2;
        source_message_ts = none;
        initiator_user_id = some 5;
      })
        ∷ Defs.claim_task_stream 50 8 9 90
        ∷ [])
      empty_slack

slack_move-HoldKept_example :
    Evolves
      (HoldKept 50 streamed.now)
      streamed.projections
      (slack_move
        (Defs.mark_projection 8 9 A2aState.working ProjectionStatus.pending)
        streamed).projections
slack_move-HoldKept_example =
    slack_move-HoldKept (Defs.mark_projection 8 9 A2aState.working ProjectionStatus.pending) 50
      streamed refl

slack_moves-Kept_example :
    Kept claimed_event (slack_moves (Defs.complete_ingress 1 2 40 none none ∷ []) claimed_event)
slack_moves-Kept_example =
    slack_moves-Kept (Defs.complete_ingress 1 2 40 none none ∷ []) claimed_event

-- The worker that claimed the event under 40 died.
claimed_event-AllLeased : AllLeased claimed_event
unfolding claim_ingress claimable
claimed_event-AllLeased = ((λ sending. refl), tt)

another_id :
    any_row (λ r. r.ingress_id == 31) (slack_moves (Defs.tick 5 ∷ []) claimed_event).events ≡ false
unfolding slack_moves claim_ingress claimable
another_id = refl

claim_ingress-unstuck_example :
    (n : ℕ) × ((m : ℕ)
      → n ≤ m
      → Answered
          (claim_ingress 31 41 1 2 60
            (slack_move (Defs.tick m) (slack_moves (Defs.tick 5 ∷ []) claimed_event))).0)
claim_ingress-unstuck_example =
    claim_ingress-unstuck (Defs.tick 5 ∷ []) claimed_event 31 41 1 2 60 claimed_event-AllLeased
      another_id
