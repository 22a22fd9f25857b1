-- ===== src/Slack/Projections.antt =====
-- The projection of a task into a Slack thread: `ensure_projection` to `mark_projection` of
-- db/slack_a2a_repository.py.
use managed_agent_web_slack.Common.{
  ℕ, ◌+◌, ◌==◌, equals, after, reached, Option, none, some, List, [], ◌∷◌, ◌++◌, Bool, true, false,
  ◌&&◌, ◌||◌, not, if◌then◌else◌, any_row, find_row, update_where,
}
use managed_agent_web_slack.Store.{Key, Time, A2aState, submitted, working}
use managed_agent_web_slack.Threads.{Outcome, ok, err, foreign_key}
use managed_agent_web_slack.Slack.{
  ProjectionStatus, Projection, SlackDb, Claim, acquired, busy, completed, take,
}

abbrev pub of_task : Key → Key → Projection → Bool
of_task binding_id task_id p = p.binding_id == binding_id && p.task_id == task_id

-- The texts that a request brings: its event, its message and its user.
pub record Source : Type 0 where
  pub request_event_id : Option Key
  pub source_message_ts : Option Key
  pub initiator_user_id : Option Key

abbrev pub new_projection : Key → Key → Source → Time → Projection
new_projection binding_id task_id s now = record {
  binding_id = binding_id;
  task_id = task_id;
  request_event_id = s.request_event_id;
  source_message_ts = s.source_message_ts;
  initiator_user_id = s.initiator_user_id;
  status = ProjectionStatus.pending;
  slack_message_ts = none;
  last_task_state = none;
  attempts = 0;
  claim_id = none;
  lease_expires_at = none;
  last_error = none;
  updated_at = now;
}

-- `COALESCE(stored, EXCLUDED)`
abbrev pub or_else : Option Key → Option Key → Option Key
or_else none new = new
or_else (some k) new = some k

abbrev pub filled : Source → Projection → Projection
filled s p = record p {
  request_event_id = or_else p.request_event_id s.request_event_id;
  source_message_ts = or_else p.source_message_ts s.source_message_ts;
  initiator_user_id = or_else p.initiator_user_id s.initiator_user_id;
}

unfoldable pub ensure_projection : Key → Key → Source → SlackDb → Outcome Projection × SlackDb
ensure_projection binding_id task_id s db =
    elim (find_row (of_task binding_id task_id) db.projections) [
      | some p ↦ (
        ok (filled s p),
        record db {
          projections = update_where (of_task binding_id task_id) (filled s) db.projections;
        },
      )
      | none ↦
          if any_row (λ b. b == binding_id) db.bindings
          then (
            ok (new_projection binding_id task_id s db.now),
            record db {
              projections = db.projections ++ new_projection binding_id task_id s db.now ∷ [];
            },
          )
          else (err foreign_key, db)
    ]

unfoldable pub get_projection : Key → Key → SlackDb → Option Projection
get_projection binding_id task_id db = find_row (of_task binding_id task_id) db.projections

abbrev pub is_streaming : ProjectionStatus → Bool
is_streaming ProjectionStatus.streaming = true
is_streaming _ = false

-- Not streaming, or streaming under a lease that is over.
unfoldable pub streamable : Key → Key → Time → Projection → Bool
streamable binding_id task_id now p =
    of_task binding_id task_id p
    && (not (is_streaming p.status) || (is_streaming p.status && reached p.lease_expires_at now))

abbrev pub streaming_row : Key → Time → Time → Projection → Projection
streaming_row token expires now p = record p {
  status = ProjectionStatus.streaming;
  claim_id = some token;
  lease_expires_at = some expires;
  attempts = p.attempts + 1;
  updated_at = now;
}

-- `Claim("busy" if row and row["status"] == "streaming" else "completed", row=row)`
abbrev pub not_streamed : Option Projection → Claim Projection
not_streamed none = completed none
not_streamed (some p) = if is_streaming p.status then busy (some p) else completed (some p)

unfoldable pub claim_task_stream : Key → Key → Key → ℕ → SlackDb → Claim Projection × SlackDb
unfolding streamable
claim_task_stream token binding_id task_id seconds db =
    elim (find_row (streamable binding_id task_id db.now) db.projections) [
      | some p ↦ (
        acquired token (streaming_row token (db.now + seconds) db.now p),
        record db {
          projections =
              update_where (streamable binding_id task_id db.now)
                (streaming_row token (db.now + seconds) db.now) db.projections;
        },
      )
      | none ↦ (not_streamed (find_row (of_task binding_id task_id) db.projections), db)
    ]

unfoldable pub stream_row : Key → Key → Key → Projection → Bool
stream_row binding_id task_id token p = of_task binding_id task_id p && equals p.claim_id token

abbrev pub with_message : Key → Time → Projection → Projection
with_message message_ts now p = record p { slack_message_ts = some message_ts; updated_at = now }

unfoldable pub update_stream_message : Key → Key → Key → Key → SlackDb → SlackDb
unfolding stream_row
update_stream_message binding_id task_id token message_ts db = record db {
  projections =
      update_where (stream_row binding_id task_id token) (with_message message_ts db.now)
        db.projections;
}

-- `state in {"INPUT_REQUIRED", "COMPLETED", "CANCELED", "FAILED", "REJECTED"}`
abbrev pub settles : Option A2aState → Bool
settles none = false
settles (some submitted) = false
settles (some working) = false
settles (some _) = true

abbrev pub finished_status : Bool → Option A2aState → ProjectionStatus
finished_status true state = ProjectionStatus.fallback
finished_status false state =
    if settles state then ProjectionStatus.completed else ProjectionStatus.pending

-- `error[:1000] if error else None`
abbrev pub kept_error : Option (List ℕ) → Option (List ℕ)
kept_error none = none
kept_error (some []) = none
kept_error (some (c ∷ cs)) = some (take 1000 (c ∷ cs))

abbrev pub finished_row : Bool → Option A2aState → Option (List ℕ) → Time → Projection → Projection
finished_row fallback state error now p = record p {
  status = finished_status fallback state;
  last_task_state = state;
  slack_message_ts = if not fallback && settles state then none else p.slack_message_ts;
  last_error = kept_error error;
  claim_id = none;
  lease_expires_at = none;
  updated_at = now;
}

unfoldable pub finish_stream :
    Key → Key → Key → Bool → Option A2aState → Option (List ℕ) → SlackDb → SlackDb
unfolding stream_row
finish_stream binding_id task_id token fallback state error db = record db {
  projections =
      update_where (stream_row binding_id task_id token) (finished_row fallback state error db.now)
        db.projections;
}

unfoldable pub active_stream : Key → Key → SlackDb → Bool
active_stream binding_id task_id db =
    any_row
      (λ p.
        of_task binding_id task_id p && (is_streaming p.status && after p.lease_expires_at db.now))
      db.projections

unfoldable pub markable : Key → Key → Time → Projection → Bool
markable binding_id task_id now p =
    of_task binding_id task_id p && (not (is_streaming p.status) || reached p.lease_expires_at now)

abbrev is_completed : ProjectionStatus → Bool
is_completed ProjectionStatus.completed = true
is_completed _ = false

abbrev pub marked_row : A2aState → ProjectionStatus → Time → Projection → Projection
marked_row state status now p = record p {
  last_task_state = some state;
  status = status;
  slack_message_ts = if is_completed status then none else p.slack_message_ts;
  updated_at = now;
}

unfoldable pub mark_projection : Key → Key → A2aState → ProjectionStatus → SlackDb → SlackDb
unfolding markable
mark_projection binding_id task_id state status db = record db {
  projections =
      update_where (markable binding_id task_id db.now) (marked_row state status db.now)
        db.projections;
}
