-- ===== src/Service/History.antt =====
-- The history of a task's view: the messages of the task's slice of the provider's events, as
-- cma_controller/task_view.py builds them.
pub mod Window
use managed_agent_web_slack.Common.{
  ℕ, zero, suc, ◌-◌, ◌==◌, equals, length, Option, none, some, List, [], ◌∷◌, ◌++◌, Bool, true,
  false, ◌&&◌, ◌||◌, not, if◌then◌else◌, is_none, is_some,
}
use managed_agent_web_slack.Store.{Key, Task, A2aState}
use managed_agent_web_slack.Scheduler.Events.{Event, EventKind, truthy}

-- A part of an event's content: a text, or `none` for another type.
pub record Entry : Type 0 where
  pub event : Event
  pub content : List (Option (List ℕ))

-- `_message`'s id: the task's own message, or `cma-{id}`.
pub data MessageId : Type 0 where
  own cma : Key → MessageId

pub record Message : Type 0 where
  pub message_id : MessageId
  pub context_id : Key
  pub task_id : Key
  pub from_user : Bool
  pub text : List ℕ

-- `text_from_event`
unfoldable pub text_from_event : List (Option (List ℕ)) → List ℕ
text_from_event [] = []
text_from_event (none ∷ parts) = text_from_event parts
text_from_event (some text ∷ parts) = text ++ text_from_event parts

-- `type in {"user.message", "agent.message"}`, and whether it is the first.
abbrev pub speaker : EventKind → Option Bool
speaker EventKind.user_message = some true
speaker EventKind.agent_message = some false
speaker _ = none

abbrev pub message_of : Task → Key → Bool → List (Option (List ℕ)) → Message
message_of t id from_user content = record {
  message_id = if from_user then MessageId.own t.message_id else MessageId.cma id;
  context_id = t.context_id;
  task_id = t.task_id;
  from_user = from_user;
  text = text_from_event content;
}

-- The message of an event in the slice, when it has an id that is not empty.
abbrev pub messages_of : Task → Entry → List Message
messages_of t e = elim (truthy e.event.id) [
  | none ↦ []
  | some id ↦ elim (speaker e.event.kind) [
    | none ↦ []
    | some from_user ↦ message_of t id from_user e.content ∷ []
  ]
]

-- `id and event.get("id") == id`
abbrev pub is_event : Option Key → Entry → Bool
is_event id e = elim (truthy id) [ none ↦ false | some k ↦ equals e.event.id k ]

-- The events from the start's on, up to the end's.
abbrev pub in_slice : Task → List Entry → List Message
in_slice t [] = []
in_slice t (e ∷ events) =
    let rest = in_slice t events in
    messages_of t e ++ (if is_event t.cma_terminal_event_id e then [] else rest)

unfoldable pub slice : Task → List Entry → List Message
slice t [] = []
slice t (e ∷ events) =
    let rest = slice t events in
    if is_event t.cma_input_event_id e then in_slice t (e ∷ events) else rest

abbrev pub pending_message : Task → Option (List ℕ) → List Message
pending_message t none = []
pending_message t (some text) =
    if is_some (truthy t.cma_input_event_id)
    then []
    else record {
      message_id = MessageId.own t.message_id;
      context_id = t.context_id;
      task_id = t.task_id;
      from_user = true;
      text = text;
    }
      ∷ []

unfoldable pub full_history : Task → List Entry → Option (List ℕ) → List Message
unfolding slice
full_history t events pending = pending_message t pending ++ slice t events

abbrev pub drop : ℕ → List Message → List Message
drop zero messages = messages
drop (suc n) [] = []
drop (suc n) (m ∷ messages) = drop n messages

-- `messages[-n:]`, which is all of them for 0.
abbrev pub from_end : ℕ → List Message → List Message
from_end n messages = if n == 0 then messages else drop (length messages - n) messages

-- `full_history[-n:] if n > 0 else []`; no length asks for all of it.
unfoldable pub last_messages : Option ℕ → List Message → List Message
last_messages none messages = messages
last_messages (some n) messages = if n == 0 then [] else from_end n messages

unfoldable pub history : Task → List Entry → Option (List ℕ) → Option ℕ → List Message
unfolding full_history last_messages
history t events pending history_length =
    last_messages history_length (full_history t events pending)
