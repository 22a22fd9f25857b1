-- ===== src/Slack/Moves/Streams.antt =====
-- The lease on a projection's stream is exclusive.
use managed_agent_web_slack.Common.{
  ℕ, ◌+◌, ◌≡◌, refl, Option, List, [], ◌∷◌, ◌++◌, ◌==◌, ◌&&◌, Bool, true, not, equals, after,
  update_where, Evolves, Evolves-refl, Evolves-update_where, Evolves-append, arith,
}
use managed_agent_web_slack.Store.{Key, Time, A2aState}
use managed_agent_web_slack.Slack.{ProjectionStatus, Projection, SlackDb}
use managed_agent_web_slack.Slack.Ingress.{claim_ingress, complete_ingress, fail_ingress}
use managed_agent_web_slack.Slack.Projections.{
  Source, of_task, new_projection, filled, is_streaming, ensure_projection, streamable,
  streaming_row, claim_task_stream, stream_row, with_message, update_stream_message, finished_row,
  finish_stream, markable, marked_row, mark_projection,
}
use managed_agent_web_slack.Slack.Items.{ItemKey, close_human_input, claim_item, finish_item}
use managed_agent_web_slack.Slack.Moves.Defs.{SlackMove, slack_move}

-- The claim `k` holds an unexpired lease on the projection's stream.
abbrev pub is_held : Key → Time → Projection → Bool
is_held k now p = is_streaming p.status && (equals p.claim_id k && after p.lease_expires_at now)

abbrev pub HoldKept : Key → Time → Projection → Projection → Type 0
HoldKept k now p q =
    is_held k now p ≡ true
    → (q.task_id ≡ p.task_id)
      × (q.status ≡ p.status)
      × (q.claim_id ≡ p.claim_id)
      × (q.lease_expires_at ≡ p.lease_expires_at)
      × (q.last_task_state ≡ p.last_task_state)

-- The move does not use the claim itself.
abbrev pub is_others : Key → SlackMove → Bool
is_others k (SlackMove.finish_stream b t claim fallback state error) = not (claim == k)
is_others k _ = true

HoldKept-refl : (k : Key) (now : Time) (p : Projection) → HoldKept k now p p
HoldKept-refl k now p held = (refl, refl, refl, refl, refl)

module _ (k : Key) (db : SlackDb) where
  abbrev HoldsKept : SlackDb → Type 0
  HoldsKept reached = Evolves (HoldKept k db.now) db.projections reached.projections

  same : HoldsKept db
  same = Evolves-refl (HoldKept k db.now) (HoldKept-refl k db.now) db.projections

  updated :
      (p : Projection → Bool) (f : Projection → Projection)
      → ((x : Projection) → p x ≡ true → HoldKept k db.now x (f x))
      → Evolves (HoldKept k db.now) db.projections (update_where p f db.projections)
  updated p f step =
      Evolves-update_where (HoldKept k db.now) (HoldKept-refl k db.now) p f db.projections step

  added :
      (rows : List Projection) → Evolves (HoldKept k db.now) db.projections (db.projections ++ rows)
  added rows = Evolves-append (HoldKept k db.now) (HoldKept-refl k db.now) db.projections rows

  claim_ingress-HoldsKept : (f c s e : Key) (n : ℕ) → HoldsKept (claim_ingress f c s e n db).1
  unfolding claim_ingress
  claim_ingress-HoldsKept f c s e n = ground (arith, same)

  complete-HoldsKept :
      (s e c : Key) (t u : Option Key) → HoldsKept (complete_ingress s e c t u db).1
  unfolding complete_ingress
  complete-HoldsKept s e c t u = ground (arith, same)

  ensure-HoldsKept : (b t : Key) (s : Source) → HoldsKept (ensure_projection b t s db).1
  unfolding ensure_projection
  ensure-HoldsKept b t s = ground (
    arith,
    same,
    updated (of_task b t) (filled s) (λ x h. ground arith),
    added (new_projection b t s db.now ∷ []),
  )

  claim-HoldsKept : (c b t : Key) (n : ℕ) → HoldsKept (claim_task_stream c b t n db).1
  unfolding claim_task_stream
  claim-HoldsKept c b t n = ground (
    arith,
    same,
    updated (streamable b t db.now) (streaming_row c (db.now + n) db.now) (λ x h. ground arith),
  )

  finish-HoldsKept :
      (b t c : Key) (fallback : Bool) (state : Option A2aState) (error : Option (List ℕ))
      → not (c == k) ≡ true
      → HoldsKept (finish_stream b t c fallback state error db)
  unfolding finish_stream
  finish-HoldsKept b t c fallback state error other =
      updated (stream_row b t c) (finished_row fallback state error db.now) (λ x h. ground arith)

  update-HoldsKept : (b t c ts : Key) → HoldsKept (update_stream_message b t c ts db)
  unfolding update_stream_message
  update-HoldsKept b t c ts =
      updated (stream_row b t c) (with_message ts db.now) (λ x h. ground arith)

  mark-HoldsKept :
      (b t : Key) (state : A2aState) (status : ProjectionStatus)
      → HoldsKept (mark_projection b t state status db)
  unfolding mark_projection
  mark-HoldsKept b t state status =
      updated (markable b t db.now) (marked_row state status db.now) (λ x h. ground arith)

  claim_item-HoldsKept : (c : Key) (key : ItemKey) (n : ℕ) → HoldsKept (claim_item c key n db).1
  unfolding claim_item
  claim_item-HoldsKept c key n = ground (arith, same)

-- While a handler holds an unexpired claim on a projection's stream, no transaction of another
-- handler takes the stream over, ends it or records a state of the task in it: not a claim, a finish
-- under another token or a mark.
pub slack_move-HoldKept :
    (m : SlackMove) (k : Key) (db : SlackDb)
    → is_others k m ≡ true
    → Evolves (HoldKept k db.now) db.projections (slack_move m db).projections
unfolding slack_move fail_ingress close_human_input finish_item
slack_move-HoldKept (SlackMove.tick n) k db h = same k db
slack_move-HoldKept (SlackMove.add_thread id) k db h = same k db
slack_move-HoldKept (SlackMove.add_binding id) k db h = same k db
slack_move-HoldKept (SlackMove.claim_ingress f c s e n) k db h =
    claim_ingress-HoldsKept k db f c s e n
slack_move-HoldKept (SlackMove.complete_ingress s e c t u) k db h =
    complete-HoldsKept k db s e c t u
slack_move-HoldKept (SlackMove.fail_ingress s e c error) k db h = same k db
slack_move-HoldKept (SlackMove.ensure_projection b t s) k db h = ensure-HoldsKept k db b t s
slack_move-HoldKept (SlackMove.claim_task_stream c b t n) k db h = claim-HoldsKept k db c b t n
slack_move-HoldKept (SlackMove.update_stream_message b t c ts) k db h =
    update-HoldsKept k db b t c ts
slack_move-HoldKept (SlackMove.finish_stream b t c fallback state error) k db h =
    finish-HoldsKept k db b t c fallback state error h
slack_move-HoldKept (SlackMove.mark_projection b t state status) k db h =
    mark-HoldsKept k db b t state status
slack_move-HoldKept (SlackMove.close_human_input b t i) k db h = same k db
slack_move-HoldKept (SlackMove.claim_item c key n) k db h = claim_item-HoldsKept k db c key n
slack_move-HoldKept (SlackMove.finish_item key c ts error) k db h = same k db
