-- ===== src/Runtime/Review.antt =====
-- The authorization of a tool call: `record_policy_decision`, `record_human_review`,
-- `record_human_ruling`, `mark_confirmation_attempted` and `deny_cancelled_input_request` of
-- runtime_repository.py, each one conditional UPDATE of cma_input_requests. The source's test that
-- a decision or ruling is 'allow' or 'deny' is the type `Decision`.
use managed_agent_web_slack.Common.{
  ◌==◌, equals, Option, none, some, Bool, true, false, ◌&&◌, ◌||◌, not, if◌then◌else◌, any_row,
  find_row, update_where, is_none, is_some,
}
use managed_agent_web_slack.Store.{
  Key, Time, Status, Decision, Context, Task, Request, Db, is_pending, is_resolving, is_terminal,
  denies, leases,
}
use managed_agent_web_slack.Scheduler.Events.{truthy}
use managed_agent_web_slack.Runtime.Transaction.{
  Result, Transaction, ok, err, lost_claim, unique_violation,
}

-- The task's context, when it is `context_id`, holds the lease and a row satisfies both conditions.
abbrev pub guarded : (Task → Bool) → (Context → Bool) → Key → Key → Key → Db → Bool
guarded of_task of_context task_id context_id claim_id db =
    any_row (λ t. t.task_id == task_id && (t.context_id == context_id && of_task t)) db.tasks
    && any_row (λ c. leases context_id claim_id db.now c && of_context c) db.contexts

-- `c.active_task_id = t.task_id AND t.internal_state <> 'terminal' AND t.cancel_requested_at IS NULL`
unfoldable pub live_uncancelled : Key → Key → Key → Db → Bool
unfolding leases
live_uncancelled task_id context_id claim_id db =
    guarded (λ t. not (is_terminal t.internal_state) && is_none t.cancel_requested_at)
      (λ c. equals c.active_task_id task_id) task_id context_id claim_id db

-- The row that a decision or an offered review is written to: unsettled, of a live task.
unfoldable pub unsettled : Key → Key → Key → Key → Db → Request → Bool
unfolding live_uncancelled
unsettled context_id task_id claim_id request_id db r =
    r.request_id == request_id
    && (r.task_id == task_id
        && (is_pending r.status
            && (is_none r.decision
                && (is_none r.confirmation_attempted_at
                    && live_uncancelled task_id context_id claim_id db))))

-- An UPDATE of cma_input_requests: does it find a row, and the tables after it.
abbrev pub update_requests : (Request → Bool) → (Request → Request) → Db → Bool × Db
update_requests p f db =
    (any_row p db.requests, record db { requests = update_where p f db.requests })

-- `if cur.fetchone() is None: raise LostSchedulerClaim`
abbrev pub or_lost : Bool × Db → Db → Result (Unit {0}) × Db
or_lost (true, reached) before = (ok tt, reached)
or_lost (false, reached) before = (err lost_claim, before)

abbrev pub decided : Decision → Time → Request → Request
decided decision now r = record r {
  decision = some decision;
  status = Status.resolving;
  updated_at = now;
}

unfoldable pub record_policy_decision : Key → Key → Key → Key → Decision → Transaction (Unit {0})
unfolding unsettled
record_policy_decision context_id task_id claim_id request_id decision db =
    or_lost
      (update_requests (unsettled context_id task_id claim_id request_id db)
        (decided decision db.now) db)
      db

-- The optional parts of an offered review: its digest, authority and object key.
pub record Offer : Type 0 where
  pub digest : Option Key
  pub authority : Option Key
  pub object_key : Option Key

abbrev pub offered : Key → Offer → Time → Request → Request
offered fresh offer now r = record r {
  request_id = fresh;
  review_digest = offer.digest;
  review_authority = offer.authority;
  review_object_key = offer.object_key;
  human_ruling = none;
  updated_at = now;
}

-- Another request has this id.
abbrev pub id_taken : Key → Key → Db → Bool
id_taken fresh request_id db =
    not (fresh == request_id) && any_row (λ r. r.request_id == fresh) db.requests

-- `fresh` is the UUID that replaces the request's id, which is the table's primary key.
unfoldable pub record_human_review : Key → Key → Key → Key → Offer → Key → Transaction (Unit {0})
unfolding unsettled
record_human_review context_id task_id claim_id request_id offer fresh db =
    if any_row (unsettled context_id task_id claim_id request_id db) db.requests
      && id_taken fresh request_id db
    then (err unique_violation, db)
    else or_lost
        (update_requests (unsettled context_id task_id claim_id request_id db)
          (offered fresh offer db.now) db)
        db

abbrev pub same_decision : Decision → Decision → Bool
same_decision Decision.allow Decision.allow = true
same_decision Decision.deny Decision.deny = true
same_decision _ _ = false

-- The row that `record_human_ruling` reads: an offered review of the context's active task.
unfoldable pub open_for_ruling : Key → Key → Db → Request → Bool
open_for_ruling request_id task_id db r =
    r.request_id == request_id
    && (r.task_id == task_id
        && (is_some r.review_digest
            && any_row
                (λ t.
                  t.task_id == task_id
                  && (is_none t.cancel_requested_at
                      && (not (is_terminal t.internal_state)
                          && any_row
                              (λ c. c.context_id == t.context_id && equals c.active_task_id task_id)
                              db.contexts)))
                db.tasks))

abbrev pub ruled : Decision → Time → Request → Request
ruled ruling now r = record r { human_ruling = some ruling; updated_at = now }

abbrev store_ruling : Key → Decision → Db → Bool × Db
store_ruling request_id ruling db = (
  true,
  record db {
    requests = update_where (λ r. r.request_id == request_id) (ruled ruling db.now) db.requests;
  },
)

unfoldable pub record_human_ruling : Key → Key → Decision → Db → Bool × Db
unfolding open_for_ruling
record_human_ruling request_id task_id ruling db =
    elim (find_row (open_for_ruling request_id task_id db) db.requests) [
      | none ↦ (false, db)
      | some row ↦ elim row.human_ruling [
        | some earlier ↦ (same_decision earlier ruling, db)
        | none ↦
            if not (is_pending row.status) || is_none (truthy row.review_object_key)
            then (false, db)
            else store_ruling request_id ruling db
      ]
    ]

-- A confirmation is attempted for a decision under the lease; after a cancellation only for 'deny'.
unfoldable pub may_confirm : Key → Key → Db → Request → Bool
unfolding leases
may_confirm context_id claim_id db r =
    guarded
      (λ t.
        not (is_terminal t.internal_state) && (denies r.decision || is_none t.cancel_requested_at))
      (λ c. equals c.active_task_id r.task_id) r.task_id context_id claim_id db
    && is_some r.decision

abbrev pub attempted_at : Time → Request → Request
attempted_at now r = record r { confirmation_attempted_at = some now }

unfoldable pub attemptable : Key → Key → Key → Db → Request → Bool
unfolding may_confirm
attemptable request_id context_id claim_id db r =
    r.request_id == request_id
    && (is_resolving r.status
        && (is_none r.confirmation_attempted_at && may_confirm context_id claim_id db r))

unfoldable pub mark_confirmation_attempted : Key → Key → Key → Db → Bool × Db
unfolding attemptable
mark_confirmation_attempted request_id context_id claim_id db =
    update_requests (attemptable request_id context_id claim_id db) (attempted_at db.now) db

abbrev open_status : Status → Bool
open_status s = is_pending s || is_resolving s

abbrev pub denied : Time → Request → Request
denied now r = record r {
  status = Status.resolving;
  decision = some Decision.deny;
  updated_at = now;
}

-- The request's task is the context's active task, was asked to cancel, and the lease is held.
unfoldable pub cancelled_live : Key → Key → Db → Request → Bool
unfolding leases
cancelled_live context_id claim_id db r =
    guarded (λ t. is_some t.cancel_requested_at && not (is_terminal t.internal_state))
      (λ c. equals c.active_task_id r.task_id) r.task_id context_id claim_id db

unfoldable pub deniable : Key → Key → Key → Db → Request → Bool
unfolding cancelled_live
deniable request_id context_id claim_id db r =
    r.request_id == request_id
    && (open_status r.status
        && (is_none r.confirmation_attempted_at && cancelled_live context_id claim_id db r))

unfoldable pub deny_cancelled_input_request : Key → Key → Key → Db → Db
unfolding deniable
deny_cancelled_input_request request_id context_id claim_id db =
    (update_requests (deniable request_id context_id claim_id db) (denied db.now) db).1
