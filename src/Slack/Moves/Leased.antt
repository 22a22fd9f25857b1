-- ===== src/Slack/Moves/Leased.antt =====
-- An event that is being sent has a lease, whatever is committed.
use managed_agent_web_slack.Common.{
  ℕ, ◌+◌, ◌≡◌, refl, ◌==◌, ◌++◌, Option, List, [], ◌∷◌, Bool, true, false, is_some, if◌then◌else◌,
  any_row, All, All-update_where, All-append, arith,
}
use managed_agent_web_slack.Store.{Key}
use managed_agent_web_slack.Slack.{IngressEvent, SlackDb}
use managed_agent_web_slack.Slack.Ingress
use managed_agent_web_slack.Slack.Ingress.{
  is_open, is_sending, is_sent, of_event, new_event, sending_row, sent_row, failed_row, take_event,
  unclaimed, claim_ingress, complete_ingress, fail_ingress,
}
use managed_agent_web_slack.Slack.Projections.{
  ensure_projection, claim_task_stream, update_stream_message, finish_stream, mark_projection,
}
use managed_agent_web_slack.Slack.Items.{close_human_input, claim_item, finish_item}
use managed_agent_web_slack.Slack.Moves.Defs.{SlackMove, slack_move, slack_moves}

-- An event that is being sent has a lease.
abbrev pub Leased : IngressEvent → Type 0
Leased r = is_sending r.status ≡ true → is_some r.lease_expires_at ≡ true

abbrev pub AllLeased : SlackDb → Type 0
AllLeased db = All Leased db.events

either-Leased {ℓ} :
    {R : Type ℓ} (b : Bool) (x y : R × SlackDb)
    → AllLeased x.1
    → AllLeased y.1
    → AllLeased (if b then x else y).1
either-Leased true x y h k = h
either-Leased false x y h k = k

take_event-Leased :
    (k s e : Key) (n : ℕ) (db : SlackDb) → AllLeased db → AllLeased (take_event k s e n db).1
take_event-Leased k s e n db h = ground (
  arith,
  h,
  All-update_where Leased (Ingress.claimable s e db.now) (sending_row k (db.now + n) db.now)
      db.events (λ r g hit. λ sending. refl) h,
)

claim-Leased :
    (f k s e : Key) (n : ℕ) (db : SlackDb) → AllLeased db → AllLeased (claim_ingress f k s e n db).1
unfolding claim_ingress
claim-Leased f k s e n db h =
    either-Leased (any_row (of_event s e) db.events) _ _ (take_event-Leased k s e n db h) (
      either-Leased (any_row (λ r. r.ingress_id == f) db.events) _ _ h (
        take_event-Leased k s e n (record db { events = db.events ++ new_event f s e db.now ∷ [] })
          (All-append Leased db.events (new_event f s e db.now ∷ []) h ((λ sending. cc), tt))))

complete-Leased :
    (s e k : Key) (t u : Option Key) (db : SlackDb)
    → AllLeased db
    → AllLeased (complete_ingress s e k t u db).1
unfolding complete_ingress
complete-Leased s e k t u db h = ground (
  arith,
  h,
  All-update_where Leased (Ingress.claimed_row s e k) (sent_row t u db.now) db.events
      (λ r g hit. λ sending. cc) h,
)

fail-Leased :
    (s e k : Key) (error : List ℕ) (db : SlackDb)
    → AllLeased db
    → AllLeased (fail_ingress s e k error db)
unfolding fail_ingress
fail-Leased s e k error db h =
    All-update_where Leased (Ingress.claimed_row s e k) (failed_row error db.now) db.events
      (λ r g hit. λ sending. cc) h

move-Leased : (m : SlackMove) (db : SlackDb) → AllLeased db → AllLeased (slack_move m db)
unfolding slack_move update_stream_message finish_stream mark_projection close_human_input
    finish_item ensure_projection claim_task_stream claim_item
move-Leased (SlackMove.claim_ingress f k s e n) db h = claim-Leased f k s e n db h
move-Leased (SlackMove.complete_ingress s e k t u) db h = complete-Leased s e k t u db h
move-Leased (SlackMove.fail_ingress s e k error) db h = fail-Leased s e k error db h
move-Leased (SlackMove.tick n) db h = h
move-Leased (SlackMove.add_thread id) db h = h
move-Leased (SlackMove.add_binding id) db h = h
move-Leased (SlackMove.ensure_projection b t s) db h = ground arith
move-Leased (SlackMove.claim_task_stream k b t n) db h = ground arith
move-Leased (SlackMove.update_stream_message b t k ts) db h = h
move-Leased (SlackMove.finish_stream b t k fallback state error) db h = h
move-Leased (SlackMove.mark_projection b t state status) db h = h
move-Leased (SlackMove.close_human_input b t i) db h = h
move-Leased (SlackMove.claim_item k key n) db h = ground arith
move-Leased (SlackMove.finish_item key k ts error) db h = h

pub moves-Leased :
    (ms : List SlackMove) (db : SlackDb) → AllLeased db → AllLeased (slack_moves ms db)
unfolding slack_moves
moves-Leased [] db h = h
moves-Leased (m ∷ ms) db h = moves-Leased ms (slack_move m db) (move-Leased m db h)
