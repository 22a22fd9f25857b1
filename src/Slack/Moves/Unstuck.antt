-- ===== src/Slack/Moves/Unstuck.antt =====
-- No Slack event is stuck: whatever became of its claims, a later delivery gets an answer.
use managed_agent_web_slack.Common.{
  ℕ, ◌+◌, ◌≤◌, ◌≡◌, refl, sym, subst, ◌⊎◌, ◌==◌, ◌++◌, Option, none, some, List, [], ◌∷◌, Bool,
  true, false, is_some, reached, any_row, find_row, find_row-All, All, All-append, Option-cases,
  Bool-cases, inl, inr, arith,
}
use managed_agent_web_slack.Store.{Key, Time}
use managed_agent_web_slack.Threads.{Outcome, ok, err}
use managed_agent_web_slack.Slack.{
  IngressStatus, IngressEvent, SlackDb, Claim, acquired, busy, completed,
}
use managed_agent_web_slack.Slack.Ingress
use managed_agent_web_slack.Slack.Ingress.{
  is_open, is_sending, is_sent, of_event, new_event, sending_row, sent_row, failed_row, take_event,
  unclaimed, claim_ingress, complete_ingress, fail_ingress,
}
use managed_agent_web_slack.Slack.Moves.Defs.{SlackMove, slack_move, slack_moves}
use managed_agent_web_slack.Slack.Moves.Leased.{Leased, AllLeased, moves-Leased}

-- A time by which every lease of the rows is over.
abbrev lease_of : Option Time → ℕ
lease_of none = 0
lease_of (some t) = t

abbrev leases_over : List IngressEvent → ℕ
leases_over [] = 0
leases_over (r ∷ rows) = lease_of r.lease_expires_at + leases_over rows

abbrev Over : Time → IngressEvent → Type 0
Over now r = is_sending r.status ≡ true → reached r.lease_expires_at now ≡ true

row-Over :
    (o : Option Time) (now : Time) → is_some o ≡ true → lease_of o ≤ now → reached o now ≡ true
row-Over none now h k = cc
row-Over (some t) now h k = ground arith

all-Over :
    (rows : List IngressEvent) (now : Time)
    → All Leased rows
    → leases_over rows ≤ now
    → All (Over now) rows
all-Over [] now h k = tt
all-Over (r ∷ rows) now h k = (
  (λ sending. row-Over r.lease_expires_at now (h.0 sending) (omega (arith, k))),
  all-Over rows now h.1 (omega (arith, k)),
)

-- The event is acquired or completed.
abbrev pub Answered : Outcome (Claim IngressEvent) → Type 0
Answered (ok (acquired k r)) = Unit
Answered (ok (completed r)) = Unit
Answered (ok (busy r)) = ⊥
Answered (err x) = ⊥

none-any_row :
    (p : IngressEvent → Bool) (rows : List IngressEvent)
    → find_row p rows ≡ none
    → any_row p rows ≡ false
none-any_row p [] h = refl
none-any_row p (r ∷ rows) h = ground (arith, none-any_row p rows)

none-All :
    (p : IngressEvent → Bool) (rows : List IngressEvent)
    → find_row p rows ≡ none
    → All (λ r. p r ≡ false) rows
none-All p [] h = tt
none-All p (r ∷ rows) h = elim (Bool-cases (p r)) [
  | inl hit ↦ ground arith
  | inr miss ↦ (miss, none-All p rows (rw miss at h))
]

sent_left :
    (status : IngressStatus)
    → is_open status ≡ false
    → is_sending status ≡ false
    → is_sent status ≡ true
sent_left IngressStatus.received h k = cc
sent_left IngressStatus.sending h k = cc
sent_left IngressStatus.sent h k = refl
sent_left IngressStatus.failed h k = cc

-- A row that cannot be claimed although its lease is over is sent.
unclaimable-sent :
    (s e : Key) (now : Time) (r : IngressEvent)
    → Over now r
    → Ingress.claimable s e now r ≡ false
    → of_event s e r ≡ true
    → is_sent r.status ≡ true
unfolding Ingress.claimable
unclaimable-sent s e now r over closed mine = elim (Bool-cases (is_sending r.status)) [
  | inl sending ↦ let expired = over sending in ground arith
  | inr other ↦ sent_left r.status (ground arith) other
]

any_row-last :
    (p : IngressEvent → Bool) (rows : List IngressEvent) (r : IngressEvent)
    → p r ≡ true
    → any_row p (rows ++ r ∷ []) ≡ true
any_row-last p [] r h = ground arith
any_row-last p (x ∷ rows) r h = ground (arith, any_row-last p rows r h)

take_event-Answered :
    (k s e : Key) (n : ℕ) (db : SlackDb)
    → ((row : IngressEvent) × (find_row (Ingress.claimable s e db.now) db.events ≡ some row))
      ⊎ ((row : IngressEvent) × (find_row (Ingress.claimable s e db.now) db.events ≡ none)
          × (find_row (of_event s e) db.events ≡ some row)
          × (is_sent row.status ≡ true))
    → Answered (take_event k s e n db).0
take_event-Answered k s e n db (inl (row, found)) =
    let answer : (take_event k s e n db).0
        ≡ ok (acquired k (sending_row k (db.now + n) db.now row)) =
      ground arith in
    subst Answered (sym answer) tt
take_event-Answered k s e n db (inr (row, closed, found, sent)) =
    let answer : (take_event k s e n db).0 ≡ ok (completed (some row)) = ground arith in
    subst Answered (sym answer) tt

taken-Answered :
    (k s e : Key) (n : ℕ) (db : SlackDb)
    → All (Over db.now) db.events
    → any_row (of_event s e) db.events ≡ true
    → Answered (take_event k s e n db).0
taken-Answered k s e n db over there =
    elim (Option-cases (find_row (Ingress.claimable s e db.now) db.events)) [
      | inr (row, found) ↦ take_event-Answered k s e n db (inl (row, found))
      | inl none_left ↦ elim (Option-cases (find_row (of_event s e) db.events)) [
        | inl missing ↦ let gone = none-any_row (of_event s e) db.events missing in ground arith
        | inr (row, found) ↦
            let first = find_row-All (Over db.now) (of_event s e) db.events over found in
            let closed =
              find_row-All (λ r. Ingress.claimable s e db.now r ≡ false) (of_event s e) db.events
                (none-All (Ingress.claimable s e db.now) db.events none_left) found in
            let sent = unclaimable-sent s e db.now row first.0 closed.0 first.1 in
            take_event-Answered k s e n db (inr (row, none_left, found, sent))
      ]
    ]

claimed-Answered :
    (f k s e : Key) (n : ℕ) (db : SlackDb)
    → All (Over db.now) db.events
    → any_row (λ r. r.ingress_id == f) db.events ≡ false
    → Answered (claim_ingress f k s e n db).0
unfolding claim_ingress
claimed-Answered f k s e n db over fresh = elim (Bool-cases (any_row (of_event s e) db.events)) [
  | inl there ↦ rw there (taken-Answered k s e n db over there)
  | inr new ↦
      rw (new, fresh)
        (taken-Answered k s e n (record db { events = db.events ++ new_event f s e db.now ∷ [] })
          (All-append (Over db.now) db.events (new_event f s e db.now ∷ []) over
            ((λ sending. cc), tt))
          (any_row-last (of_event s e) db.events (new_event f s e db.now) (ground arith)))
]

-- After any transactions by any handlers in any order, handlers that died under their claim
-- included: from some time on, a delivery of an event is acquired, or answered as completed, and
-- never turned away as busy. Before, each event that is being sent has a lease, and the fresh id of
-- the delivery's row is new.
pub claim_ingress-unstuck :
    (ms : List SlackMove) (db : SlackDb) (fresh token surface event_id seconds : ℕ)
    → AllLeased db
    → any_row (λ r. r.ingress_id == fresh) (slack_moves ms db).events ≡ false
    → (n : ℕ) × ((m : ℕ)
        → n ≤ m
        → Answered
            (claim_ingress fresh token surface event_id seconds
              (slack_move (SlackMove.tick m) (slack_moves ms db))).0)
unfolding slack_move
claim_ingress-unstuck ms db fresh token surface event_id seconds leased new = (
  leases_over (slack_moves ms db).events,
  λ m late.
      claimed-Answered fresh token surface event_id seconds
        (slack_move (SlackMove.tick m) (slack_moves ms db))
        (all-Over (slack_moves ms db).events _ (moves-Leased ms db leased) (omega (arith, late)))
        new,
)
