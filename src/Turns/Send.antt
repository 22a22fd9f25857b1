-- ===== src/Turns/Send.antt =====
-- `ThreadAgentService.send_turn` and `_bound`. `others n` is what other callers commit before the
-- turn's n-th transaction; a sleep is time that passes there.
use managed_agent_web_slack.Common.{
  ℕ, zero, suc, ◌==◌, Option, none, some, List, Bool, ◌||◌, if◌then◌else◌, coalesce,
}
use managed_agent_web_slack.Store.{Key}
use managed_agent_web_slack.Scheduler.Events.{text_of}
use managed_agent_web_slack.Threads.{
  Thread, LogicalSend, ThreadDb, ThreadError, key_error, value_error, Outcome, ok, err, get_thread,
}
use managed_agent_web_slack.Threads.Sends.{record_logical_send, bind_task_id, get_task_binding}
use managed_agent_web_slack.Threads.Contexts.{
  ContextClaim, acquired, busy, already, claim_context_initialization, bind_context,
  release_context_initialization,
}
use managed_agent_web_slack.Threads.Moves.Defs.{ThreadMove, thread_moves}
use managed_agent_web_slack.Sink.Texts.{strip, is_empty}

-- What `send_message` does: a task and its context, DefinitiveA2ARequestError, or another exception.
pub data Reply : Type 0 where
  accepted : Key → Key → Reply
  refused lost : Reply

-- The calls outside, the fresh ids, and what others do. `reply` takes the context of the message.
pub record Host : Type 0 where
  pub card : Bool
  pub reply : Key → Reply
  pub pushes : Bool
  pub send_id : Key
  pub claim_ids : ℕ → Key
  pub claim_seconds : ℕ
  pub others : ℕ → List ThreadMove

-- `raised` is an exception of the repository; `unready` RetryableControlPlaneError,
-- `push_setup` RetryablePushSetupError, `no_card` and `undelivered` those of the client.
pub data Turn : Type 0 where
  sent : Key → Key → Turn
  raised : ThreadError → Turn
  no_card unready rejected undelivered changed_context : Turn
  push_setup : Key → Key → Turn

-- `context_id` and `claim_id` after the loop; an empty text is 0.
pub data Start : Type 0 where
  holds knows : Key → Start
  gave_up : Start
  failed : ThreadError → Start

abbrev pub seen : Host → ℕ → ThreadDb → ThreadDb
seen h n db = thread_moves (h.others n) db

-- One claim, and the next one when it is busy.
abbrev pub after_claim :
    Outcome ContextClaim × ThreadDb → (ThreadDb → Start × ThreadDb) → Start × ThreadDb
after_claim (err e, db) again = (failed e, db)
after_claim (ok (acquired k), db) again = (holds k, db)
after_claim (ok (already c), db) again = (knows (text_of c), db)
after_claim (ok busy, db) again = again db

-- `for attempt in range(11)`, whose last rounds are the first numbers.
unfoldable pub claim_context : ℕ → Host → Key → ThreadDb → Start × ThreadDb
claim_context zero h thread_id db = (gave_up, db)
claim_context (suc n) h thread_id db =
    after_claim
      (claim_context_initialization (h.claim_ids n) thread_id h.claim_seconds (seen h (suc n) db))
      (claim_context n h thread_id)

abbrev pub start : Host → Key → Option Key → ThreadDb → Start × ThreadDb
start h thread_id context_id db =
    if coalesce context_id 0 == 0
    then claim_context 11 h thread_id db
    else (knows (coalesce context_id 0), db)

-- After the task is bound: the push configuration.
abbrev pub set_up_push : Host → Key → Key → Outcome LogicalSend × ThreadDb → Turn × ThreadDb
set_up_push h task_id context_id (err e, db) = (raised e, db)
set_up_push h task_id context_id (ok s, db) =
    (if h.pushes then sent task_id context_id else push_setup task_id context_id, db)

abbrev pub bind_task : Host → Key → Key → Key → Key → ThreadDb → Turn × ThreadDb
bind_task h thread_id message_id task_id context_id db =
    set_up_push h task_id context_id (bind_task_id thread_id message_id task_id (seen h 13 db))

abbrev pub after_bind : Host → Key → Key → Key → Key → Outcome Thread × ThreadDb → Turn × ThreadDb
after_bind h thread_id message_id task_id context_id (err e, db) = (raised e, db)
after_bind h thread_id message_id task_id context_id (ok t, db) =
    bind_task h thread_id message_id task_id context_id db

-- With a claim.
abbrev pub first_turn : Host → Key → Key → Key → Reply → ThreadDb → Turn × ThreadDb
first_turn h thread_id message_id k Reply.refused db =
    (rejected, (release_context_initialization thread_id k (seen h 12 db)).1)
first_turn h thread_id message_id k Reply.lost db = (undelivered, db)
first_turn h thread_id message_id k (accepted task_id context_id) db =
    after_bind h thread_id message_id task_id context_id
      (bind_context thread_id k context_id (seen h 12 db))

-- With a context.
abbrev pub later_turn : Host → Key → Key → Key → Reply → ThreadDb → Turn × ThreadDb
later_turn h thread_id message_id known Reply.refused db = (rejected, db)
later_turn h thread_id message_id known Reply.lost db = (undelivered, db)
later_turn h thread_id message_id known (accepted task_id context_id) db =
    if context_id == known
    then bind_task h thread_id message_id task_id context_id db
    else (changed_context, db)

abbrev pub started : Host → Key → Key → Start × ThreadDb → Turn × ThreadDb
started h thread_id message_id (failed e, db) = (raised e, db)
started h thread_id message_id (gave_up, db) = (unready, db)
started h thread_id message_id (holds k, db) = first_turn h thread_id message_id k (h.reply 0) db
started h thread_id message_id (knows c, db) =
    if c == 0 then (unready, db) else later_turn h thread_id message_id c (h.reply c) db

abbrev pub recorded : Host → Key → Key → Thread → Outcome LogicalSend × ThreadDb → Turn × ThreadDb
recorded h thread_id message_id t (err e, db) = (raised e, db)
recorded h thread_id message_id t (ok s, db) =
    started h thread_id message_id (start h thread_id t.context_id db)

abbrev pub with_thread : Host → Key → Key → ThreadDb → Option Thread → Turn × ThreadDb
with_thread h thread_id message_id db none = (raised key_error, db)
with_thread h thread_id message_id db (some t) =
    if h.card
    then recorded h thread_id message_id t
        (record_logical_send h.send_id thread_id t.agent_id message_id (seen h 0 db))
    else (no_card, db)

unfoldable pub send_turn : Host → Key → Key → List ℕ → ThreadDb → Turn × ThreadDb
unfolding claim_context
send_turn h thread_id message_id text db =
    if is_empty (strip text) || message_id == 0
    then (raised value_error, db)
    else with_thread h thread_id message_id db (get_thread thread_id db)

-- `_bound`: the thread, when the task is bound to it.
unfoldable pub bound : Key → Key → (ThreadDb → ThreadDb) → ThreadDb → Outcome (Thread × LogicalSend)
bound thread_id task_id between db = elim (get_thread thread_id db) [
  | none ↦ err key_error
  | some t ↦ elim (get_task_binding t.agent_id task_id (between db)) [
    | none ↦ err key_error
    | some s ↦ if s.thread_id == thread_id then ok (t, s) else err key_error
  ]
]
