-- ===== src/Runtime/Moves/Fence.antt =====
-- A stale claim writes nothing.
use managed_agent_web_slack.Common.{
  equals, is_none, is_some, not, ◌||◌, ◌≡◌, refl, ap, Option, none, some, List, [], ◌∷◌, Bool, true,
  false, ◌&&◌, any_row, update_where, arith,
}
use managed_agent_web_slack.Store.{
  Key, Context, Task, Request, Clarification, Db, leases, holds_lease, Decision, denies,
  is_terminal,
}
use managed_agent_web_slack.Runtime.Lease.{ContextField, TaskField, update_task, update_context}
use managed_agent_web_slack.Runtime.Review.{
  Offer, guarded, unsettled, attemptable, deniable, update_requests, record_policy_decision,
  record_human_review, mark_confirmation_attempted, deny_cancelled_input_request, attempted_at,
  denied,
}
use managed_agent_web_slack.Runtime.Requests.{
  fenced_task, may_respond, responded_at, resolved_request, resolved_clarification, resolvable,
  resolvable_clarification, add_input_request, add_clarification_request,
  mark_clarification_attempted, resolve_input_request,
}
use managed_agent_web_slack.Runtime.Tasks.{activate_task}
use managed_agent_web_slack.Runtime.Moves.Defs.{Move, move}

-- The context and the claim that fence a move.
abbrev pub fence : Move → Option (Key × Key)
fence (Move.update_task t c claim fields) = some (c, claim)
fence (Move.update_context c claim fields) = some (c, claim)
fence (Move.record_policy_decision c t claim r d) = some (c, claim)
fence (Move.record_human_review c t claim r offer fresh) = some (c, claim)
fence (Move.mark_confirmation_attempted r c claim) = some (c, claim)
fence (Move.deny_cancelled_input_request r c claim) = some (c, claim)
fence (Move.add_input_request r t e c claim) = some (c, claim)
fence (Move.add_clarification_request r t e c claim) = some (c, claim)
fence (Move.mark_clarification_attempted r c claim) = some (c, claim)
fence (Move.resolve_input_request r c claim) = some (c, claim)
fence (Move.activate_task c t claim p) = some (c, claim)
fence _ = none

abbrev pub IsStale : Option (Key × Key) → Db → Type 0
IsStale none db = ⊥
IsStale (some (c, claim)) db = holds_lease c claim db ≡ false

update_where-none :
    {A : Type 0} (p : A → Bool) (f : A → A) (rows : List A)
    → ((r : A) → p r ≡ false)
    → update_where p f rows ≡ rows
update_where-none p f [] h = refl
update_where-none p f (r ∷ rows) h = rw (h r) (ap (λ xs. r ∷ xs) (update_where-none p f rows h))

any_row-none :
    {A : Type 0} (p : A → Bool) (rows : List A) → ((r : A) → p r ≡ false) → any_row p rows ≡ false
any_row-none p [] h = refl
any_row-none p (r ∷ rows) h = rw (h r) (any_row-none p rows h)

any_row-narrow :
    {A : Type 0} (p q : A → Bool) (rows : List A)
    → any_row p rows ≡ false
    → any_row (λ r. p r && q r) rows ≡ false
any_row-narrow p q [] h = refl
any_row-narrow p q (r ∷ rows) h = ground (arith, any_row-narrow p q rows)

and_false : (b : Bool) → b && false ≡ false
and_false true = refl
and_false false = refl

module _ (c claim : Key) (db : Db) (stale : holds_lease c claim db ≡ false) where
  guarded-stale :
      (of_task : Task → Bool) (of_context : Context → Bool) (t : Key)
      → guarded of_task of_context t c claim db ≡ false
  unfolding holds_lease
  guarded-stale of_task of_context t =
      rw (any_row-narrow (leases c claim db.now) of_context db.contexts stale) (and_false _)

  same_requests :
      (p : Request → Bool) (f : Request → Request)
      → ((r : Request) → p r ≡ false)
      → (update_requests p f db).1 ≡ db
  same_requests p f h =
      ap (λ (rows : List Request). record db { requests = rows })
        (update_where-none p f db.requests h)

  attempt-stale : (r : Key) → (mark_confirmation_attempted r c claim db).1 ≡ db
  unfolding mark_confirmation_attempted
  attempt-stale r = same_requests (attemptable r c claim db) (attempted_at db.now) (λ x. ground (
    arith,
    guarded-stale
        (λ t.
          not (is_terminal t.internal_state)
          && (denies x.decision || is_none t.cancel_requested_at))
        (λ y. equals y.active_task_id x.task_id) x.task_id,
  ))

  deny-stale : (r : Key) → deny_cancelled_input_request r c claim db ≡ db
  unfolding deny_cancelled_input_request
  deny-stale r = same_requests (deniable r c claim db) (denied db.now) (λ x. ground (
    arith,
    guarded-stale (λ t. is_some t.cancel_requested_at && not (is_terminal t.internal_state))
        (λ y. equals y.active_task_id x.task_id) x.task_id,
  ))

  unsettled-stale : (t r : Key) (x : Request) → unsettled c t claim r db x ≡ false
  unfolding unsettled
  unsettled-stale t r x = ground (
    arith,
    guarded-stale (λ y. not (is_terminal y.internal_state) && is_none y.cancel_requested_at)
        (λ y. equals y.active_task_id t) t,
  )

  policy-stale : (t r : Key) (d : Decision) → (record_policy_decision c t claim r d db).1 ≡ db
  unfolding record_policy_decision
  policy-stale t r d =
      ground (arith, any_row-none (unsettled c t claim r db) db.requests (unsettled-stale t r))

  review-stale :
      (t r : Key) (o : Offer) (fresh : Key) → (record_human_review c t claim r o fresh db).1 ≡ db
  unfolding record_human_review
  review-stale t r o fresh =
      ground (arith, any_row-none (unsettled c t claim r db) db.requests (unsettled-stale t r))

  add-stale : (r t e : Key) → (add_input_request r t e c claim db).1 ≡ db
  unfolding add_input_request
  add-stale r t e = ground (arith, stale)

  ask-stale : (r t e : Key) → (add_clarification_request r t e c claim db).1 ≡ db
  unfolding add_clarification_request
  ask-stale r t e = ground (arith, stale)

  fenced_task-stale : (t : Key) → fenced_task t c claim db ≡ false
  unfolding fenced_task
  fenced_task-stale t = rw stale (and_false _)

  respond-stale : (r : Key) → (mark_clarification_attempted r c claim db).1 ≡ db
  unfolding mark_clarification_attempted
  respond-stale r =
      ap (λ (rows : List Clarification). record db { clarifications = rows })
        (update_where-none (may_respond r c claim db) (responded_at db.now) db.clarifications
          (λ x. ground (arith, fenced_task-stale x.task_id)))

  resolve-stale : (r : Key) → resolve_input_request r c claim db ≡ db
  unfolding resolve_input_request
  resolve-stale r =
      let requests' =
        update_where-none (resolvable r c claim db) (resolved_request db.now) db.requests
          (λ x. ground (arith, fenced_task-stale x.task_id)) in
      let answers' =
        update_where-none (resolvable_clarification r c claim db) (resolved_clarification db.now)
          db.clarifications (λ x. ground (arith, fenced_task-stale x.task_id)) in
      rw requests' (rw answers' refl)

  update_task-stale : (t : Key) (fields : List TaskField) → (update_task t c claim fields db).1 ≡ db
  unfolding update_task
  update_task-stale t fields = ground (arith, stale)

  update_context-stale : (fields : List ContextField) → (update_context c claim fields db).1 ≡ db
  unfolding update_context
  update_context-stale fields = ground (arith, stale)

  activate-stale : (t : Key) (p : Option Key) → (activate_task c t claim p db).1 ≡ db
  unfolding activate_task holds_lease
  activate-stale t p = ground (
    arith,
    any_row-narrow (leases c claim db.now) (λ x. is_none x.active_task_id) db.contexts stale,
  )

-- A fenced transaction of the scheduler, under a claim on the context that was lost or has expired,
-- changes no table, whichever of them it is and whatever its arguments.
pub move-stale : (m : Move) (db : Db) → IsStale (fence m) db → move m db ≡ db
unfolding move
move-stale (Move.update_task t c claim fields) db h = update_task-stale c claim db h t fields
move-stale (Move.update_context c claim fields) db h = update_context-stale c claim db h fields
move-stale (Move.record_policy_decision c t claim r d) db h = policy-stale c claim db h t r d
move-stale (Move.record_human_review c t claim r o fresh) db h =
    review-stale c claim db h t r o fresh
move-stale (Move.mark_confirmation_attempted r c claim) db h = attempt-stale c claim db h r
move-stale (Move.deny_cancelled_input_request r c claim) db h = deny-stale c claim db h r
move-stale (Move.add_input_request r t e c claim) db h = add-stale c claim db h r t e
move-stale (Move.add_clarification_request r t e c claim) db h = ask-stale c claim db h r t e
move-stale (Move.mark_clarification_attempted r c claim) db h = respond-stale c claim db h r
move-stale (Move.resolve_input_request r c claim) db h = resolve-stale c claim db h r
move-stale (Move.activate_task c t claim p) db h = activate-stale c claim db h t p
move-stale _ db h = absurd h
