-- ===== src/Turns/Bound.antt =====
-- What the transactions of a turn leave: the send's task and the thread's context.
use managed_agent_web_slack.Common.{
  ℕ, zero, suc, ◌≡◌, refl, ◌==◌, equals, Bool, true, ◌&&◌, find_row, any_row, any_row-Evolves,
  any_row-update_where, any_row-found, find_row-All, Option-cases, inl, inr, arith,
}
use managed_agent_web_slack.Store.{Key}
use managed_agent_web_slack.Scheduler.Events.{text_of}
use managed_agent_web_slack.Threads.{
  Thread, LogicalSend, ThreadDb, Outcome, ok, err, is_ready, is_bound,
}
use managed_agent_web_slack.Threads.Sends.{of_message, bind_task_id, unbound_row, bound_row}
use managed_agent_web_slack.Threads.Contexts.{
  ContextClaim, acquired, already, busy, claim_context_initialization, bind_context, claimed_row,
  ready_row,
}
use managed_agent_web_slack.Threads.Moves.Defs.{ThreadMove, thread_move}
use managed_agent_web_slack.Threads.Moves.Kept.{Kept, ThreadKept}
use managed_agent_web_slack.Threads.Moves.Checks.{
  IsValid, context_ok, thread_move-IsValid, thread_moves-IsValid,
}
use managed_agent_web_slack.Turns.Send.{Host, Start, knows, seen, claim_context, after_claim}

-- The logical send of the message is bound to the task.
abbrev pub is_sent_as : Key → Key → Key → LogicalSend → Bool
is_sent_as thread_id message_id task_id s =
    of_message thread_id message_id s && (equals s.task_id task_id && is_bound s.submission_status)

-- The thread is ready with the context.
abbrev pub is_ready_with : Key → Key → Thread → Bool
is_ready_with thread_id context_id t =
    t.thread_id == thread_id && (is_ready t.context_state && equals t.context_id context_id)

abbrev pub Sent : Key → Key → Key → ThreadDb → Type 0
Sent id m k db = any_row (is_sent_as id m k) db.sends ≡ true

abbrev pub Ready : Key → Key → ThreadDb → Type 0
Ready id c db = any_row (is_ready_with id c) db.threads ≡ true

pub Ready-Kept : (id c : Key) (x y : ThreadDb) → Kept x y → Ready id c x → Ready id c y
Ready-Kept id c x y kept h =
    any_row-Evolves ThreadKept (is_ready_with id c) (λ t u same hit. ground arith) x.threads
      y.threads kept.threads h

pub bind_context-Ready :
    (id k c : Key) (db : ThreadDb) {t : Thread}
    → (bind_context id k c db).0 ≡ ok t
    → Ready id c (bind_context id k c db).1
unfolding bind_context
bind_context-Ready id k c db done =
    elim (Option-cases (find_row (claimed_row id k db.now) db.threads)) [
      | inr (r, claimed) ↦
          let hit : any_row (claimed_row id k db.now) db.threads ≡ true = rw claimed refl in
          let after =
            any_row-update_where (claimed_row id k db.now) (is_ready_with id c) (ready_row c db.now)
              (λ x same. ground arith) db.threads hit in
          ground (arith, done, claimed, after)
      | inl free ↦ elim (Option-cases (find_row (λ (x : Thread). x.thread_id == id) db.threads)) [
        | inl missing ↦ ground (arith, done, free, missing)
        | inr (r, found) ↦
            let there =
              any_row-found (λ x. x.thread_id == id)
                (λ x. is_ready x.context_state && equals x.context_id c) db.threads found in
            ground (arith, done, free, found, there)
      ]
    ]

pub bind_task_id-Sent :
    (id m k : Key) (db : ThreadDb) {s : LogicalSend}
    → (bind_task_id id m k db).0 ≡ ok s
    → Sent id m k (bind_task_id id m k db).1
unfolding bind_task_id
bind_task_id-Sent id m k db done = elim (Option-cases (find_row (unbound_row id m) db.sends)) [
  | inr (r, unbound) ↦
      let hit : any_row (unbound_row id m) db.sends ≡ true = rw unbound refl in
      let after =
        any_row-update_where (unbound_row id m) (is_sent_as id m k) (bound_row k db.now)
          (λ x same. ground arith) db.sends hit in
      ground (arith, done, unbound, after)
  | inl free ↦ elim (Option-cases (find_row (of_message id m) db.sends)) [
    | inl missing ↦ ground (arith, done, free, missing)
    | inr (r, found) ↦
        let there =
          any_row-found (of_message id m) (λ x. equals x.task_id k && is_bound x.submission_status)
            db.sends found in
        ground (arith, done, free, found, there)
  ]
]

-- After the reads and claims: a context that the turn knows is the one that the thread is ready with.
abbrev pub Knows : Key → Start × ThreadDb → Type 0
Knows id (knows c, db) = Ready id c db
Knows id (s, db) = Unit

abbrev Claimed : Key → Outcome ContextClaim × ThreadDb → Type 0
Claimed id (ok (already c), db) = Ready id (text_of c) db
Claimed id (r, db) = Unit

claim-Claimed :
    (k id : Key) (n : ℕ) (db : ThreadDb)
    → IsValid db
    → Claimed id (claim_context_initialization k id n db)
unfolding claim_context_initialization context_ok
claim-Claimed k id n db v =
    elim (Option-cases (find_row (λ (x : Thread). x.thread_id == id) db.threads)) [
      | inl missing ↦ ground (arith, missing)
      | inr (r, found) ↦
          let valid =
            find_row-All (λ x. context_ok x ≡ true) (λ x. x.thread_id == id) db.threads v.contexts
              found in
          let there =
            any_row-found (λ x. x.thread_id == id)
              (λ x. is_ready x.context_state && equals x.context_id (text_of r.context_id))
              db.threads found in
          ground (arith, found, valid, there)
    ]

after_claim-Knows :
    (id : Key) (x : Outcome ContextClaim × ThreadDb) (again : ThreadDb → Start × ThreadDb)
    → Claimed id x
    → Knows id (again x.1)
    → Knows id (after_claim x again)
after_claim-Knows id (err e, db) again h rest = tt
after_claim-Knows id (ok (acquired k), db) again h rest = tt
after_claim-Knows id (ok (already c), db) again h rest = h
after_claim-Knows id (ok busy, db) again h rest = rest

pub claim_context-Knows :
    (n : ℕ) (h : Host) (id : Key) (db : ThreadDb) → IsValid db → Knows id (claim_context n h id db)
unfolding claim_context thread_move
claim_context-Knows zero h id db v = tt
claim_context-Knows (suc n) h id db v =
    let now = thread_moves-IsValid (h.others (suc n)) db v in
    after_claim-Knows id
      (claim_context_initialization (h.claim_ids n) id h.claim_seconds (seen h (suc n) db))
      (claim_context n h id)
      (claim-Claimed (h.claim_ids n) id h.claim_seconds (seen h (suc n) db) now)
      (claim_context-Knows n h id _ (
        thread_move-IsValid
          (ThreadMove.claim_context_initialization (h.claim_ids n) id h.claim_seconds)
          (seen h (suc n) db) now))
