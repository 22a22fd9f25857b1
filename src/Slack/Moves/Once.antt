-- ===== src/Slack/Moves/Once.antt =====
-- An ingress event that was completed is never handled again.
use managed_agent_web_slack.Common.{
  ℕ, ◌+◌, ◌≤◌, any_row-weaken, ◌≡◌, refl, Option, none, some, List, [], ◌∷◌, ◌++◌, true, equals,
  any_row, find_row, find_row-All, count_rows, All, All-update_where, All-append, All-lone,
  All-updated, any_row-Evolves, Option-cases, inl, inr, arith,
}
use managed_agent_web_slack.Store.{Key, Time}
use managed_agent_web_slack.Threads.{ok}
use managed_agent_web_slack.Slack.{IngressEvent, SlackDb, completed}
use managed_agent_web_slack.Slack.Ingress
use managed_agent_web_slack.Slack.Ingress.{
  of_event, is_sent, new_event, claimable, sending_row, sent_row, failed_row, unclaimed, take_event,
  claim_ingress, complete_ingress, fail_ingress,
}
use managed_agent_web_slack.Slack.Projections.{
  ensure_projection, claim_task_stream, update_stream_message, finish_stream, mark_projection,
}
use managed_agent_web_slack.Slack.Items.{close_human_input, claim_item, finish_item}
use managed_agent_web_slack.Slack.Moves.Defs.{SlackMove, slack_move, slack_moves}
use managed_agent_web_slack.Slack.Moves.Settled.{is_done, EventKept, slack_move-Kept}

-- The event's row, if it is one, is sent, for this thread and this task.
abbrev SentRow : Key → Key → Option Key → Option Key → IngressEvent → Type 0
SentRow s e t u r = of_event s e r ≡ true → (is_done r ≡ true) × (r.thread_id ≡ t) × (r.task_id ≡ u)

record Settled (s e : Key) (t u : Option Key) (db : SlackDb) : Type 0 where
  found : any_row (of_event s e) db.events ≡ true
  sent : All (SentRow s e t u) db.events

module _ (s e : Key) (t u : Option Key) where
  complete-Settled :
      (k : Key) (db : SlackDb)
      → count_rows (of_event s e) db.events ≤ 1
      → (complete_ingress s e k t u db).0 ≡ ok tt
      → Settled s e t u (complete_ingress s e k t u db).1
  unfolding complete_ingress Ingress.claimed_row slack_move
  complete-Settled k db lone done =
      let hit : any_row (Ingress.claimed_row s e k) db.events ≡ true = ground (arith, done) in
      let m = SlackMove.complete_ingress s e k t u in
      record {
        found =
            any_row-Evolves EventKept (of_event s e) (λ x y h same. ground arith) db.events _
              (slack_move-Kept m db).events
              (any_row-weaken (of_event s e) (λ r. equals r.claim_id k) db.events hit);
        sent = ground (
          arith,
          done,
          All-updated (SentRow s e t u) (of_event s e) (λ r. equals r.claim_id k)
              (sent_row t u db.now) (λ r same. (refl, refl, refl)) (λ r miss same. cc) db.events
              (All-lone (of_event s e) (λ r. equals r.claim_id k) db.events lone hit),
        );
      }

  take-sent :
      (db : SlackDb) (k s' e' : Key) (n : ℕ)
      → All (SentRow s e t u) db.events
      → All (SentRow s e t u) (take_event k s' e' n db).1.events
  unfolding claimable
  take-sent db k s' e' n h = ground (
    arith,
    h,
    All-update_where (SentRow s e t u) (claimable s' e' db.now) (sending_row k (db.now + n) db.now)
        db.events (λ r hr hit. ground arith),
  )

  not_claimable :
      (now : Time) (rows : List IngressEvent)
      → All (SentRow s e t u) rows
      → find_row (claimable s e now) rows ≡ none
  unfolding claimable
  not_claimable now [] h = refl
  not_claimable now (r ∷ rows) h = let rest = not_claimable now rows h.1 in ground (arith, rest)

  sent_found :
      (db : SlackDb)
      → Settled s e t u db
      → (f k : Key) (n : ℕ)
      → (r : IngressEvent) × (claim_ingress f k s e n db ≡ (ok (completed (some r)), db))
        × (r.thread_id ≡ t)
        × (r.task_id ≡ u)
  unfolding claim_ingress
  sent_found db h f k n = elim (Option-cases (find_row (of_event s e) db.events)) [
    | inl missing ↦ ground (arith, missing, h.found)
    | inr (r, found) ↦
        let row = find_row-All (SentRow s e t u) (of_event s e) db.events h.sent found in
        (
          r,
          ground (arith, found, h.found, row, row.0 row.1, not_claimable db.now db.events h.sent),
          (row.0 row.1).1,
          (row.0 row.1).2,
        )
  ]

  -- An event that has no row is another one.
  other-sent :
      (f s' e' : Key) (db : SlackDb)
      → Settled s e t u db
      → find_row (of_event s' e') db.events ≡ none
      → SentRow s e t u (new_event f s' e' db.now)
  other-sent f s' e' db h missing hit =
      let same : (s' ≡ s) × (e' ≡ e) = ground (arith, hit) in
      let found : any_row (of_event s' e') db.events ≡ true = rw (same.0, same.1) h.found in
      ground (arith, missing, found)

  claim-sent :
      (f k s' e' : Key) (n : ℕ) (db : SlackDb)
      → Settled s e t u db
      → All (SentRow s e t u) (claim_ingress f k s' e' n db).1.events
  unfolding claim_ingress
  claim-sent f k s' e' n db h = elim (Option-cases (find_row (of_event s' e') db.events)) [
    | inl missing ↦ rw missing (
        ground (
          arith,
          h.sent,
          take-sent (record db { events = db.events ++ new_event f s' e' db.now ∷ [] }) k s' e' n
              (All-append (SentRow s e t u) db.events (new_event f s' e' db.now ∷ []) h.sent
                (other-sent f s' e' db h missing, tt)),
        ))
    | inr (r, found) ↦ rw found (take-sent db k s' e' n h.sent)
  ]

  slack_move-sent :
      (m : SlackMove) (db : SlackDb)
      → Settled s e t u db
      → All (SentRow s e t u) (slack_move m db).events
  unfolding slack_move update_stream_message finish_stream mark_projection ensure_projection
      claim_task_stream close_human_input claim_item finish_item complete_ingress fail_ingress
  slack_move-sent (SlackMove.claim_ingress f k s' e' n) db h = claim-sent f k s' e' n db h
  slack_move-sent (SlackMove.complete_ingress s' e' k t' u') db h = ground (
    arith,
    h.sent,
    All-update_where (SentRow s e t u) (Ingress.claimed_row s' e' k) (sent_row t' u' db.now)
        db.events (λ r hr hit. ground arith) h.sent,
  )
  slack_move-sent (SlackMove.fail_ingress s' e' k error) db h =
      All-update_where (SentRow s e t u) (Ingress.claimed_row s' e' k) (failed_row error db.now)
        db.events (λ r hr hit. ground arith) h.sent
  slack_move-sent (SlackMove.tick n) db h = h.sent
  slack_move-sent (SlackMove.add_thread id) db h = h.sent
  slack_move-sent (SlackMove.add_binding id) db h = h.sent
  slack_move-sent (SlackMove.ensure_projection b c x) db h = ground (arith, h.sent)
  slack_move-sent (SlackMove.claim_task_stream k b c n) db h = ground (arith, h.sent)
  slack_move-sent (SlackMove.update_stream_message b c k ts) db h = h.sent
  slack_move-sent (SlackMove.finish_stream b c k fallback state error) db h = h.sent
  slack_move-sent (SlackMove.mark_projection b c state status) db h = h.sent
  slack_move-sent (SlackMove.close_human_input b c i) db h = h.sent
  slack_move-sent (SlackMove.claim_item k key n) db h = ground (arith, h.sent)
  slack_move-sent (SlackMove.finish_item key k ts error) db h = h.sent

  slack_moves-Settled :
      (ms : List SlackMove) (db : SlackDb)
      → Settled s e t u db
      → Settled s e t u (slack_moves ms db)
  unfolding slack_moves
  slack_moves-Settled [] db h = h
  slack_moves-Settled (m ∷ ms) db h = slack_moves-Settled ms (slack_move m db) (record {
    found =
        any_row-Evolves EventKept (of_event s e) (λ x y g same. ground arith) db.events _
          (slack_move-Kept m db).events h.found;
    sent = slack_move-sent m db h;
  })

-- The claim `k` of the event finds it completed, with this thread and this task, and changes nothing.
abbrev pub Handled : Key → Key → ℕ → Key → Key → Option Key → Option Key → SlackDb → Type 0
Handled f k n s e t u db =
    (r : IngressEvent) × (claim_ingress f k s e n db ≡ (ok (completed (some r)), db))
    × (r.thread_id ≡ t)
    × (r.task_id ≡ u)

-- When `complete_ingress` records a Slack event as sent for a thread and a task, and the event has
-- one row, then after any transactions by any handlers in any order, and any time between them, a
-- delivery of the same event is never acquired again: every claim answers that the event is
-- completed, with that thread and task, and changes nothing.
pub complete_ingress-once :
    (s e k : Key) (t u : Option Key) (db : SlackDb) (ms : List SlackMove)
    → count_rows (of_event s e) db.events ≤ 1
    → (complete_ingress s e k t u db).0 ≡ ok tt
    → (fresh token : Key) (seconds : ℕ)
    → Handled fresh token seconds s e t u (slack_moves ms (complete_ingress s e k t u db).1)
complete_ingress-once s e k t u db ms lone done fresh token seconds =
    sent_found s e t u (slack_moves ms (complete_ingress s e k t u db).1)
      (slack_moves-Settled s e t u ms (complete_ingress s e k t u db).1
        (complete-Settled s e t u k db lone done))
      fresh token seconds
