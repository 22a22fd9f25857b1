-- ===== src/Scheduler/Events.antt =====
-- The provider's events as scheduler.py reads them, `_after` and `_latest_status`. The `type` text of
-- an event is a constructor, with `session.status_…` and `session.thread_status_…` as one
-- constructor that says which; a text is a number as in Store, but for tool names.
use Prim.Native.String.{String}
use managed_agent_web_slack.Common.{
  ℕ, suc, ◌==◌, equals, Option, none, some, List, [], ◌∷◌, Bool, true, false, if◌then◌else◌,
  coalesce,
}
use managed_agent_web_slack.Store.{Key, Decision}

-- Texts that the scheduler writes itself: `str(None)`, and two fixed messages.
abbrev pub none_text : Key
none_text = 1

abbrev pub denied_by_policy : Key
denied_by_policy = 2

abbrev pub cancelled_by_user : Key
cancelled_by_user = 3

-- `str(value)` of an optional text.
abbrev pub text_of : Option Key → Key
text_of k = coalesce k none_text

-- `value or None`: the empty text is false.
abbrev pub truthy : Option Key → Option Key
truthy none = none
truthy (some k) = if k == 0 then none else some k

-- `event.get("input")`: not there, a dictionary with its `prompt` if that is a text, or no dictionary.
pub data ToolInput : Type 0 where
  absent : ToolInput
  fields : Key → Option Key → ToolInput
  malformed : ToolInput

-- `name` and `mcp_server_name` where they are texts.
pub record ToolUse : Type 0 where
  pub name : Option String
  pub mcp_server_name : Option String
  pub input : ToolInput

pub data StatusKind : Type 0 where
  running idle terminated other : StatusKind

pub data StopReason : Type 0 where
  missing end_turn budget_reached other : StopReason
  requires_action : List Key → StopReason

pub data EventKind : Type 0 where
  user_message user_interrupt agent_message : EventKind
  user_tool_confirmation : Option Key → Option Decision → EventKind
  user_custom_tool_result : Option Key → EventKind
  agent_tool_use agent_mcp_tool_use agent_custom_tool_use : ToolUse → EventKind
  status : Bool → StatusKind → StopReason → EventKind
  budget_reached : StopReason → EventKind
  other : EventKind

pub record Event : Type 0 where
  pub id : Option Key
  pub kind : EventKind

-- The events behind the first one with this id; all of them for no id or the empty one.
unfoldable pub after_id : Key → List Event → List Event
after_id event_id [] = []
after_id event_id (e ∷ events) = if equals e.id event_id then events else after_id event_id events

unfoldable pub after_event : List Event → Option Key → List Event
unfolding after_id
after_event events event_id = elim (truthy event_id) [ none ↦ events | some k ↦ after_id k events ]

abbrev pub is_status : EventKind → Bool
is_status (EventKind.status _ _ _) = true
is_status (EventKind.budget_reached _) = true
is_status _ = false

-- The last event of the list that tells a status.
unfoldable pub latest_status : List Event → Option Event
latest_status [] = none
latest_status (e ∷ events) = elim (latest_status events) [
  | some later ↦ some later
  | none ↦ if is_status e.kind then some e else none
]

abbrev pub is_user_message : EventKind → Bool
is_user_message EventKind.user_message = true
is_user_message _ = false

abbrev pub is_interrupt : EventKind → Bool
is_interrupt EventKind.user_interrupt = true
is_interrupt _ = false

-- The events behind the first interrupt.
unfoldable pub after_interrupt : List Event → Option (List Event)
after_interrupt [] = none
after_interrupt (e ∷ events) = if is_interrupt e.kind then some events else after_interrupt events

abbrev pub confirms : Key → Decision → EventKind → Bool
confirms event_id Decision.allow (EventKind.user_tool_confirmation tool (some Decision.allow)) =
    text_of tool == event_id
confirms event_id Decision.deny (EventKind.user_tool_confirmation tool (some Decision.deny)) =
    text_of tool == event_id
confirms event_id _ _ = false

-- A confirmation without a result.
abbrev pub confirms_nothing : Key → EventKind → Bool
confirms_nothing event_id (EventKind.user_tool_confirmation tool none) = text_of tool == event_id
confirms_nothing event_id _ = false

-- The test after a failed attempt, which compares the event's own id.
abbrev pub confirms_exactly : Key → Decision → EventKind → Bool
confirms_exactly event_id Decision.allow
      (EventKind.user_tool_confirmation tool (some Decision.allow)) =
    equals tool event_id
confirms_exactly event_id Decision.deny
      (EventKind.user_tool_confirmation tool (some Decision.deny)) =
    equals tool event_id
confirms_exactly event_id _ _ = false

abbrev pub answers : Key → EventKind → Bool
answers event_id (EventKind.user_custom_tool_result tool) = equals tool event_id
answers event_id _ = false

-- `{str(event.get("id")): event for event in events}`: an id keeps its first place and its last event.
unfoldable pub put_event : Key → Event → List (Key × Event) → List (Key × Event)
put_event k e [] = (k, e) ∷ []
put_event k e ((j, d) ∷ rest) = if j == k then (k, e) ∷ rest else (j, d) ∷ put_event k e rest

unfoldable pub index_events : List (Key × Event) → List Event → List (Key × Event)
unfolding put_event
index_events acc [] = acc
index_events acc (e ∷ events) = index_events (put_event (text_of e.id) e acc) events

unfoldable pub by_id : List Event → List (Key × Event)
unfolding index_events
by_id events = index_events [] events

unfoldable pub lookup_event : Key → List (Key × Event) → Option Event
lookup_event k [] = none
lookup_event k ((j, e) ∷ rest) = if j == k then some e else lookup_event k rest

-- `order.get(key, len(order))`
unfoldable pub position : Key → List (Key × Event) → ℕ
position k [] = 0
position k ((j, e) ∷ rest) = let later = suc (position k rest) in if j == k then 0 else later
