-- ===== src/Sink/Receive.antt =====
-- `receive` of a2a_event_sink/app.py: from a request to an answer and the update that is published.
use managed_agent_web_slack.Common.{
  ℕ, ◌==◌, leb, equals, length, Option, none, some, List, [], ◌∷◌, Bool, false, ◌&&◌, ◌||◌, not,
  if◌then◌else◌, any_row, is_none,
}
use managed_agent_web_slack.Store.{Key}
use managed_agent_web_slack.Threads.{Thread, LogicalSend, ThreadDb, get_thread}
use managed_agent_web_slack.Threads.Sends.{get_task_binding}
use managed_agent_web_slack.Sink.Texts.{
  same_text, strip, lower, before_semicolon, is_empty, all_hex,
}
use managed_agent_web_slack.Sink.Bodies.{read_body, max_body_bytes}

-- `task_id` and `context_id` of a payload.
pub record Identity : Type 0 where
  pub task_id : List ℕ
  pub context_id : List ℕ

pub data EventKind : Type 0 where
  task message status_update artifact_update : EventKind

-- `a2a.StreamResponse`: its payload's identity and, of two of them, the number of its state.
pub data Envelope : Type 0 where
  task status_update : Identity → ℕ → Envelope
  message artifact_update : Identity → Envelope
  no_payload : Envelope

pub record Request : Type 0 where
  pub content_type : List ℕ
  pub delivery_id : List ℕ
  pub chunks : List (List ℕ)

-- `A2ATaskUpdated`
pub record Update : Type 0 where
  pub delivery_id : List ℕ
  pub agent_id : Key
  pub task_id : List ℕ
  pub thread_id : Key
  pub context_id : List ℕ
  pub event_kind : EventKind
  pub task_state : Option (List ℕ)

-- An `HTTPException` by its status, or `{"ok": True}`.
pub data Answer : Type 0 where
  unsupported_media_type bad_request too_large not_ready conflict : Answer
  publication_failed received : Answer

-- `application/a2a+json`
abbrev pub media_type : List ℕ
media_type =
    97 ∷ 112 ∷ 112 ∷ 108 ∷ 105 ∷ 99 ∷ 97 ∷ 116 ∷ 105 ∷ 111 ∷ 110 ∷ 47 ∷ 97 ∷ 50 ∷ 97 ∷ 43 ∷ 106
    ∷ 115 ∷ 111 ∷ 110 ∷ []

unfoldable pub is_push : Request → Bool
is_push r = same_text (lower (strip (before_semicolon r.content_type))) media_type

-- `delivery_id and not _DELIVERY_ID.fullmatch(delivery_id)`
unfoldable pub is_malformed : List ℕ → Bool
is_malformed id = not (is_empty id) && not (length id == 64 && all_hex id)

-- `value.strip() and len(value) <= 512`
unfoldable pub is_identity : List ℕ → Bool
is_identity value = not (is_empty (strip value)) && leb (length value) 512

-- What the receiver calls: the protobuf parser, the names of TaskState, SHA-256 in hexadecimal, the
-- number that stands for an identifier, the registered agents, and whether the bus publishes.
-- `between` is what others commit between the two reads of the tables.
pub record Host : Type 0 where
  pub parse : List ℕ → Option Envelope
  pub state_name : ℕ → Option (List ℕ)
  pub sha256 : List ℕ → List ℕ
  pub key_of : List ℕ → Key
  pub agents : List Key
  pub publishes : Bool
  pub between : ThreadDb → ThreadDb

-- `state is not None and state not in a2a.TaskState.values()`
abbrev pub unknown_state : Host → Option ℕ → Bool
unknown_state h none = false
unknown_state h (some n) = is_none (h.state_name n)

-- `TaskState.Name(state).removeprefix(…) if state else None`
abbrev pub named_state : Host → Option ℕ → Option (List ℕ)
named_state h none = none
named_state h (some n) = if n == 0 then none else h.state_name n

-- An answer, and what was handed to the bus, whether or not that raised.
abbrev pub published : Host → Update → Answer × List Update
published h u = (if h.publishes then received else publication_failed, u ∷ [])

abbrev pub update_of :
    Host → Key → List ℕ → List ℕ → EventKind → Identity → Option ℕ → Thread → Update
update_of h agent_id delivery_id body kind id state t = record {
  delivery_id = if is_empty delivery_id then h.sha256 body else delivery_id;
  agent_id = agent_id;
  task_id = id.task_id;
  thread_id = t.thread_id;
  context_id = id.context_id;
  event_kind = kind;
  task_state = named_state h state;
}

-- From the thread's row on.
abbrev pub publish_to :
    Host
    → Key
    → List ℕ
    → List ℕ
    → EventKind
    → Identity
    → Option ℕ
    → Option Thread
    → Answer × List Update
publish_to h agent_id delivery_id body kind id state none = (not_ready, [])
publish_to h agent_id delivery_id body kind id state (some t) =
    if not (t.agent_id == agent_id) || not (equals t.context_id (h.key_of id.context_id))
    then (conflict, [])
    else published h (update_of h agent_id delivery_id body kind id state t)

abbrev pub bound_thread : Host → Key → ThreadDb → Option LogicalSend → Option Thread
bound_thread h agent_id db none = none
bound_thread h agent_id db (some b) = get_thread b.thread_id (h.between db)

-- From the identity on.
unfoldable pub identified :
    Host → Key → List ℕ → List ℕ → ThreadDb → EventKind → Identity → Option ℕ → Answer × List Update
unfolding is_identity
identified h agent_id delivery_id body db kind id state =
    if not (is_identity id.task_id && is_identity id.context_id)
      || not (any_row (λ a. a == agent_id) h.agents)
    then (bad_request, [])
    else (if unknown_state h state
        then (bad_request, [])
        else publish_to h agent_id delivery_id body kind id state
            (bound_thread h agent_id db (get_task_binding agent_id (h.key_of id.task_id) db)))

-- From the parsed envelope on.
unfoldable pub correlate : Host → Key → List ℕ → List ℕ → ThreadDb → Envelope → Answer × List Update
unfolding identified
correlate h agent_id delivery_id body db (Envelope.task id state) =
    identified h agent_id delivery_id body db EventKind.task id (some state)
correlate h agent_id delivery_id body db (Envelope.message id) =
    identified h agent_id delivery_id body db EventKind.message id none
correlate h agent_id delivery_id body db (Envelope.status_update id state) =
    identified h agent_id delivery_id body db EventKind.status_update id (some state)
correlate h agent_id delivery_id body db (Envelope.artifact_update id) =
    identified h agent_id delivery_id body db EventKind.artifact_update id none
correlate h agent_id delivery_id body db Envelope.no_payload = (bad_request, [])

abbrev pub parsed : Host → Key → List ℕ → List ℕ → ThreadDb → Answer × List Update
parsed h agent_id delivery_id body db = elim (h.parse body) [
  | none ↦ (bad_request, [])
  | some e ↦ correlate h agent_id delivery_id body db e
]

unfoldable pub receive : Host → Key → Request → ThreadDb → Answer × List Update
unfolding is_push is_malformed correlate
receive h agent_id r db =
    if not (is_push r)
    then (unsupported_media_type, [])
    else (if is_malformed r.delivery_id
        then (bad_request, [])
        else elim (read_body max_body_bytes [] r.chunks) [
          | none ↦ (too_large, [])
          | some body ↦ parsed h agent_id r.delivery_id body db
        ])
