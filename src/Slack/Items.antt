-- ===== src/Slack/Items.antt =====
-- The messages of a projection: `human_input_messages` to `finish_item` of
-- db/slack_a2a_repository.py.
use managed_agent_web_slack.Common.{
  ℕ, ◌+◌, ◌==◌, equals, reached, Option, none, some, List, [], ◌∷◌, ◌++◌, Bool, true, false, ◌&&◌,
  ◌||◌, if◌then◌else◌, any_row, find_row, select, update_where, is_some, map,
}
use managed_agent_web_slack.Store.{Key, Time}
use managed_agent_web_slack.Slack.{
  ItemKind, agent_message, human_input, ItemStatus, Item, SlackDb, Claim, acquired, busy, completed,
}
use managed_agent_web_slack.Slack.Projections.{kept_error}

abbrev pub same_kind : ItemKind → ItemKind → Bool
same_kind agent_message agent_message = true
same_kind human_input human_input = true
same_kind _ _ = false

-- The four columns of the primary key.
pub record ItemKey : Type 0 where
  pub binding_id : Key
  pub task_id : Key
  pub kind : ItemKind
  pub item_id : Key

abbrev pub of_key : ItemKey → Item → Bool
of_key k i =
    i.binding_id == k.binding_id
    && (i.task_id == k.task_id && (same_kind i.item_kind k.kind && i.item_id == k.item_id))

abbrev pub is_failed : ItemStatus → Bool
is_failed ItemStatus.failed = true
is_failed _ = false

abbrev pub is_posting : ItemStatus → Bool
is_posting ItemStatus.posting = true
is_posting _ = false

abbrev pub is_posted : ItemStatus → Bool
is_posted ItemStatus.posted = true
is_posted _ = false

abbrev pub posted_input : Key → Key → Item → Bool
posted_input binding_id task_id i =
    i.binding_id == binding_id
    && (i.task_id == task_id && (same_kind i.item_kind human_input && is_posted i.status))

unfoldable pub human_input_messages : Key → Key → SlackDb → List (Key × Option Key)
human_input_messages binding_id task_id db =
    map (λ i. (i.item_id, i.slack_message_ts))
      (select (λ i. posted_input binding_id task_id i && is_some i.slack_message_ts) db.items)

unfoldable pub has_human_input_receipt : Key → Key → SlackDb → Bool
has_human_input_receipt binding_id task_id db = any_row (posted_input binding_id task_id) db.items

abbrev pub input_key : Key → Key → Key → ItemKey
input_key binding_id task_id item_id = record {
  binding_id = binding_id;
  task_id = task_id;
  kind = human_input;
  item_id = item_id;
}

abbrev pub closed_row : Item → Item
closed_row i = record i { slack_message_ts = none }

unfoldable pub close_human_input : Key → Key → Key → SlackDb → SlackDb
close_human_input binding_id task_id item_id db = record db {
  items = update_where (of_key (input_key binding_id task_id item_id)) closed_row db.items;
}

abbrev pub new_item : ItemKey → Item
new_item k = record {
  binding_id = k.binding_id;
  task_id = k.task_id;
  item_kind = k.kind;
  item_id = k.item_id;
  status = ItemStatus.failed;
  attempts = 0;
  claim_id = none;
  lease_expires_at = none;
  last_error = none;
  slack_message_ts = none;
  projected_at = none;
}

-- Failed, or posting under a lease that is over.
unfoldable pub claimable : ItemKey → Time → Item → Bool
claimable k now i =
    of_key k i && (is_failed i.status || (is_posting i.status && reached i.lease_expires_at now))

abbrev pub posting_row : Key → Time → Item → Item
posting_row token expires i = record i {
  status = ItemStatus.posting;
  claim_id = some token;
  lease_expires_at = some expires;
  attempts = i.attempts + 1;
}

abbrev pub unclaimed : Option Item → Claim Item
unclaimed none = busy none
unclaimed (some i) = if is_posted i.status then completed (some i) else busy (some i)

-- The UPDATE and the SELECT after the INSERT.
abbrev pub take_item : Key → ItemKey → ℕ → SlackDb → Claim Item × SlackDb
take_item token k seconds db = elim (find_row (claimable k db.now) db.items) [
  | some i ↦ (
    acquired token (posting_row token (db.now + seconds) i),
    record db {
      items = update_where (claimable k db.now) (posting_row token (db.now + seconds)) db.items;
    },
  )
  | none ↦ (unclaimed (find_row (of_key k) db.items), db)
]

unfoldable pub claim_item : Key → ItemKey → ℕ → SlackDb → Claim Item × SlackDb
unfolding claimable
claim_item token k seconds db =
    if any_row (of_key k) db.items
    then take_item token k seconds db
    else take_item token k seconds (record db { items = db.items ++ new_item k ∷ [] })

unfoldable pub claimed_row : ItemKey → Key → Item → Bool
claimed_row k token i = of_key k i && equals i.claim_id token

abbrev pub has_error : Option (List ℕ) → Bool
has_error none = false
has_error (some []) = false
has_error (some (c ∷ cs)) = true

abbrev pub finished_row : Option Key → Option (List ℕ) → Time → Item → Item
finished_row message_ts error now i = record i {
  status = if has_error error then ItemStatus.failed else ItemStatus.posted;
  slack_message_ts = message_ts;
  last_error = kept_error error;
  projected_at = if has_error error then none else some now;
  claim_id = none;
  lease_expires_at = none;
}

unfoldable pub finish_item : ItemKey → Key → Option Key → Option (List ℕ) → SlackDb → SlackDb
unfolding claimed_row
finish_item k token message_ts error db = record db {
  items = update_where (claimed_row k token) (finished_row message_ts error db.now) db.items;
}
