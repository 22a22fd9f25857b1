-- ===== src/Slack/Moves/Settled.antt =====
-- What is sent stays sent, and what is posted stays posted.
use managed_agent_web_slack.Common.{
  ℕ, ◌+◌, ◌≤◌, ◌==◌, ◌≡◌, ◌++◌, Option, List, [], ◌∷◌, ◌&&◌, Bool, true, false, is_none,
  if◌then◌else◌, any_row, Evolves, Evolves-refl, Evolves-update_where, Evolves-append,
  Evolves-trans, arith,
}
use managed_agent_web_slack.Store.{Key}
use managed_agent_web_slack.Slack.{IngressEvent, Item, SlackDb}
use managed_agent_web_slack.Slack.Ingress
use managed_agent_web_slack.Slack.Ingress.{
  is_sent, new_event, sending_row, sent_row, failed_row, claim_ingress, complete_ingress,
  fail_ingress,
}
use managed_agent_web_slack.Slack.Projections.{
  Source, ensure_projection, claim_task_stream, update_stream_message, finish_stream,
  mark_projection,
}
use managed_agent_web_slack.Slack.Items
use managed_agent_web_slack.Slack.Items.{
  ItemKey, is_posted, of_key, input_key, new_item, posting_row, finished_row, closed_row,
  close_human_input, claim_item, finish_item,
}
use managed_agent_web_slack.Slack.Moves.Defs.{SlackMove, slack_move, slack_moves}

-- Sent, and no longer claimed.
abbrev pub is_done : IngressEvent → Bool
is_done e = is_sent e.status && is_none e.claim_id

-- Posted, and no longer claimed.
abbrev pub is_delivered : Item → Bool
is_delivered i = is_posted i.status && is_none i.claim_id

pub record EventKept (e f : IngressEvent) : Type 0 where
  pub surface : f.surface ≡ e.surface
  pub external_event_id : f.external_event_id ≡ e.external_event_id
  pub attempts : e.attempts ≤ f.attempts
  pub sent :
      is_done e ≡ true → (is_done f ≡ true) × (f.thread_id ≡ e.thread_id) × (f.task_id ≡ e.task_id)

pub record ItemKept (i j : Item) : Type 0 where
  pub key : (j.binding_id ≡ i.binding_id) × (j.task_id ≡ i.task_id) × (j.item_id ≡ i.item_id)
  pub kind : j.item_kind ≡ i.item_kind
  pub attempts : i.attempts ≤ j.attempts
  pub posted : is_delivered i ≡ true → (is_delivered j ≡ true) × (j.attempts ≡ i.attempts)

pub record Kept (before after : SlackDb) : Type 0 where
  pub events : Evolves EventKept before.events after.events
  pub items : Evolves ItemKept before.items after.items

EventKept-refl : (e : IngressEvent) → EventKept e e
EventKept-refl e = ground arith

EventKept-trans : (x y z : IngressEvent) → EventKept x y → EventKept y z → EventKept x z
EventKept-trans x y z h k = ground arith

ItemKept-refl : (i : Item) → ItemKept i i
ItemKept-refl i = ground arith

ItemKept-trans : (x y z : Item) → ItemKept x y → ItemKept y z → ItemKept x z
ItemKept-trans x y z h k = ground arith

module _ (db : SlackDb) where
  same_events : Evolves EventKept db.events db.events
  same_events = Evolves-refl EventKept EventKept-refl db.events

  same_items : Evolves ItemKept db.items db.items
  same_items = Evolves-refl ItemKept ItemKept-refl db.items

  Kept-refl : Kept db db
  Kept-refl = record { events = same_events; items = same_items }

  take_event-Kept : (k s e : Key) (n : ℕ) → Kept db (Ingress.take_event k s e n db).1
  unfolding Ingress.claimable
  take_event-Kept k s e n = ground (
    arith,
    Kept-refl,
    same_items,
    Evolves-update_where EventKept EventKept-refl (Ingress.claimable s e db.now)
        (sending_row k (db.now + n) db.now) db.events (λ x h. ground arith),
  )

  complete-Kept : (s e k : Key) (t u : Option Key) → Kept db (complete_ingress s e k t u db).1
  unfolding complete_ingress
  complete-Kept s e k t u = ground (
    arith,
    Kept-refl,
    same_items,
    Evolves-update_where EventKept EventKept-refl (Ingress.claimed_row s e k) (sent_row t u db.now)
        db.events (λ x h. ground arith),
  )

  fail-Kept : (s e k : Key) (error : List ℕ) → Kept db (fail_ingress s e k error db)
  unfolding fail_ingress
  fail-Kept s e k error = record {
    events =
        Evolves-update_where EventKept EventKept-refl (Ingress.claimed_row s e k)
          (failed_row error db.now) db.events (λ x h. ground arith);
    items = same_items;
  }

  ensure-Kept : (b t : Key) (s : Source) → Kept db (ensure_projection b t s db).1
  unfolding ensure_projection
  ensure-Kept b t s = ground (arith, Kept-refl, same_events, same_items)

  stream-Kept : (k b t : Key) (n : ℕ) → Kept db (claim_task_stream k b t n db).1
  unfolding claim_task_stream
  stream-Kept k b t n = ground (arith, Kept-refl, same_events, same_items)

  close-Kept : (b t i : Key) → Kept db (close_human_input b t i db)
  unfolding close_human_input
  close-Kept b t i = record {
    events = same_events;
    items =
        Evolves-update_where ItemKept ItemKept-refl (of_key (input_key b t i)) closed_row db.items
          (λ x h. ground arith);
  }

  take_item-Kept : (k : Key) (key : ItemKey) (n : ℕ) → Kept db (Items.take_item k key n db).1
  unfolding Items.claimable
  take_item-Kept k key n = ground (
    arith,
    Kept-refl,
    same_events,
    Evolves-update_where ItemKept ItemKept-refl (Items.claimable key db.now)
        (posting_row k (db.now + n)) db.items (λ x h. ground arith),
  )

  finish_item-Kept :
      (key : ItemKey) (k : Key) (ts : Option Key) (error : Option (List ℕ))
      → Kept db (finish_item key k ts error db)
  unfolding finish_item
  finish_item-Kept key k ts error = record {
    events = same_events;
    items =
        Evolves-update_where ItemKept ItemKept-refl (Items.claimed_row key k)
          (finished_row ts error db.now) db.items (λ x h. ground arith);
  }

pub Kept-trans : (x y z : SlackDb) → Kept x y → Kept y z → Kept x z
Kept-trans x y z h k = record {
  events = Evolves-trans EventKept EventKept-trans x.events y.events z.events h.events k.events;
  items = Evolves-trans ItemKept ItemKept-trans x.items y.items z.items h.items k.items;
}

-- The INSERT before a claim.
abbrev with_event : Key → Key → Key → SlackDb → SlackDb
with_event f s e db = record db { events = db.events ++ new_event f s e db.now ∷ [] }

with_event-Kept : (f s e : Key) (db : SlackDb) → Kept db (with_event f s e db)
with_event-Kept f s e db = record {
  events = Evolves-append EventKept EventKept-refl db.events (new_event f s e db.now ∷ []);
  items = same_items db;
}

abbrev with_item : ItemKey → SlackDb → SlackDb
with_item key db = record db { items = db.items ++ new_item key ∷ [] }

with_item-Kept : (key : ItemKey) (db : SlackDb) → Kept db (with_item key db)
with_item-Kept key db = record {
  events = same_events db;
  items = Evolves-append ItemKept ItemKept-refl db.items (new_item key ∷ []);
}

either-Kept {ℓ} :
    {R : Type ℓ} (db : SlackDb) (b : Bool) (x y : R × SlackDb)
    → Kept db x.1
    → Kept db y.1
    → Kept db (if b then x else y).1
either-Kept db true x y h k = h
either-Kept db false x y h k = k

claim_ingress-Kept : (db : SlackDb) (f k s e : Key) (n : ℕ) → Kept db (claim_ingress f k s e n db).1
unfolding claim_ingress
claim_ingress-Kept db f k s e n =
    either-Kept db (any_row (Ingress.of_event s e) db.events) _ _ (take_event-Kept db k s e n) (
      either-Kept db (any_row (λ r. r.ingress_id == f) db.events) _ _ (Kept-refl db) (
        Kept-trans db (with_event f s e db) _ (with_event-Kept f s e db)
          (take_event-Kept (with_event f s e db) k s e n)))

claim_item-Kept :
    (db : SlackDb) (k : Key) (key : ItemKey) (n : ℕ) → Kept db (claim_item k key n db).1
unfolding claim_item
claim_item-Kept db k key n =
    either-Kept db (any_row (of_key key) db.items) _ _ (take_item-Kept db k key n) (
      Kept-trans db (with_item key db) _ (with_item-Kept key db)
        (take_item-Kept (with_item key db) k key n))

pub slack_move-Kept : (m : SlackMove) (db : SlackDb) → Kept db (slack_move m db)
unfolding slack_move update_stream_message finish_stream mark_projection
slack_move-Kept (SlackMove.tick n) db = record { events = same_events db; items = same_items db }
slack_move-Kept (SlackMove.add_thread id) db = record {
  events = same_events db;
  items = same_items db;
}
slack_move-Kept (SlackMove.add_binding id) db = record {
  events = same_events db;
  items = same_items db;
}
slack_move-Kept (SlackMove.claim_ingress f k s e n) db = claim_ingress-Kept db f k s e n
slack_move-Kept (SlackMove.complete_ingress s e k t u) db = complete-Kept db s e k t u
slack_move-Kept (SlackMove.fail_ingress s e k error) db = fail-Kept db s e k error
slack_move-Kept (SlackMove.ensure_projection b t s) db = ensure-Kept db b t s
slack_move-Kept (SlackMove.claim_task_stream k b t n) db = stream-Kept db k b t n
slack_move-Kept (SlackMove.update_stream_message b t k ts) db = record {
  events = same_events db;
  items = same_items db;
}
slack_move-Kept (SlackMove.finish_stream b t k fallback state error) db = record {
  events = same_events db;
  items = same_items db;
}
slack_move-Kept (SlackMove.mark_projection b t state status) db = record {
  events = same_events db;
  items = same_items db;
}
slack_move-Kept (SlackMove.close_human_input b t i) db = close-Kept db b t i
slack_move-Kept (SlackMove.claim_item k key n) db = claim_item-Kept db k key n
slack_move-Kept (SlackMove.finish_item key k ts error) db = finish_item-Kept db key k ts error

-- Over any transactions by any handlers in any order, and any time between them: no ingress event
-- and no projected message is ever deleted or changes its key, and its attempts never fall. An event
-- that is sent and no longer claimed stays so, for the same thread and task, and a message that is
-- posted and no longer claimed stays so and is not attempted again.
pub slack_moves-Kept : (ms : List SlackMove) (db : SlackDb) → Kept db (slack_moves ms db)
unfolding slack_moves
slack_moves-Kept [] db = Kept-refl db
slack_moves-Kept (m ∷ ms) db =
    Kept-trans db (slack_move m db) (slack_moves ms (slack_move m db)) (slack_move-Kept m db)
      (slack_moves-Kept ms (slack_move m db))
