-- ===== src/Slack/Ingress.antt =====
-- `claim_ingress`, `complete_ingress` and `fail_ingress` of db/slack_a2a_repository.py.
use managed_agent_web_slack.Common.{
  ℕ, ◌+◌, ◌==◌, equals, reached, Option, none, some, List, [], ◌∷◌, ◌++◌, Bool, true, false, ◌&&◌,
  ◌||◌, not, if◌then◌else◌, any_row, find_row, update_where,
}
use managed_agent_web_slack.Store.{Key, Time}
use managed_agent_web_slack.Threads.{Outcome, ok, err, runtime_error, unique_violation, foreign_key}
use managed_agent_web_slack.Slack.{
  IngressStatus, IngressEvent, SlackDb, Claim, acquired, busy, completed, take,
}

abbrev pub of_event : Key → Key → IngressEvent → Bool
of_event surface event_id e = e.surface == surface && e.external_event_id == event_id

abbrev pub is_open : IngressStatus → Bool
is_open IngressStatus.received = true
is_open IngressStatus.failed = true
is_open _ = false

abbrev pub is_sending : IngressStatus → Bool
is_sending IngressStatus.sending = true
is_sending _ = false

abbrev pub is_sent : IngressStatus → Bool
is_sent IngressStatus.sent = true
is_sent _ = false

abbrev pub new_event : Key → Key → Key → Time → IngressEvent
new_event id surface event_id now = record {
  ingress_id = id;
  surface = surface;
  external_event_id = event_id;
  status = IngressStatus.received;
  thread_id = none;
  task_id = none;
  attempts = 0;
  claim_id = none;
  lease_expires_at = none;
  last_error = none;
  updated_at = now;
}

-- Received or failed, or sending under a lease that is over.
unfoldable pub claimable : Key → Key → Time → IngressEvent → Bool
claimable surface event_id now e =
    of_event surface event_id e
    && (is_open e.status || (is_sending e.status && reached e.lease_expires_at now))

abbrev pub sending_row : Key → Time → Time → IngressEvent → IngressEvent
sending_row token expires now e = record e {
  status = IngressStatus.sending;
  claim_id = some token;
  lease_expires_at = some expires;
  attempts = e.attempts + 1;
  updated_at = now;
}

-- `Claim("completed" if row and row["status"] == "sent" else "busy", row=row)`
abbrev pub unclaimed : Option IngressEvent → Claim IngressEvent
unclaimed none = busy none
unclaimed (some e) = if is_sent e.status then completed (some e) else busy (some e)

-- The UPDATE and the SELECT after the INSERT.
abbrev pub take_event : Key → Key → Key → ℕ → SlackDb → Outcome (Claim IngressEvent) × SlackDb
take_event token surface event_id seconds db =
    elim (find_row (claimable surface event_id db.now) db.events) [
      | some e ↦ (
        ok (acquired token (sending_row token (db.now + seconds) db.now e)),
        record db {
          events =
              update_where (claimable surface event_id db.now)
                (sending_row token (db.now + seconds) db.now) db.events;
        },
      )
      | none ↦ (ok (unclaimed (find_row (of_event surface event_id) db.events)), db)
    ]

-- `fresh` and `token` are the UUIDs of the row and of the claim.
unfoldable pub claim_ingress :
    Key → Key → Key → Key → ℕ → SlackDb → Outcome (Claim IngressEvent) × SlackDb
unfolding claimable
claim_ingress fresh token surface event_id seconds db =
    if any_row (of_event surface event_id) db.events
    then take_event token surface event_id seconds db
    else (if any_row (λ e. e.ingress_id == fresh) db.events
        then (err unique_violation, db)
        else take_event token surface event_id seconds
            (record db { events = db.events ++ new_event fresh surface event_id db.now ∷ [] }))

unfoldable pub claimed_row : Key → Key → Key → IngressEvent → Bool
claimed_row surface event_id token e = of_event surface event_id e && equals e.claim_id token

abbrev pub sent_row : Option Key → Option Key → Time → IngressEvent → IngressEvent
sent_row thread_id task_id now e = record e {
  status = IngressStatus.sent;
  thread_id = thread_id;
  task_id = task_id;
  claim_id = none;
  lease_expires_at = none;
  last_error = none;
  updated_at = now;
}

-- The thread that the row refers to exists.
abbrev pub known_thread : Option Key → SlackDb → Bool
known_thread none db = true
known_thread (some id) db = any_row (λ t. t == id) db.threads

unfoldable pub complete_ingress :
    Key → Key → Key → Option Key → Option Key → SlackDb → Outcome (Unit {0}) × SlackDb
unfolding claimed_row
complete_ingress surface event_id token thread_id task_id db =
    if not (any_row (claimed_row surface event_id token) db.events)
    then (err runtime_error, db)
    else (if not (known_thread thread_id db) then (err foreign_key, db) else (
      ok tt,
      record db {
        events =
            update_where (claimed_row surface event_id token) (sent_row thread_id task_id db.now)
              db.events;
      },
    ))

abbrev pub failed_row : List ℕ → Time → IngressEvent → IngressEvent
failed_row error now e = record e {
  status = IngressStatus.failed;
  claim_id = none;
  lease_expires_at = none;
  last_error = some (take 1000 error);
  updated_at = now;
}

unfoldable pub fail_ingress : Key → Key → Key → List ℕ → SlackDb → SlackDb
unfolding claimed_row
fail_ingress surface event_id token error db = record db {
  events = update_where (claimed_row surface event_id token) (failed_row error db.now) db.events;
}
