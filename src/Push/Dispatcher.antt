-- ===== src/Push/Dispatcher.antt =====
-- `PushDispatcher` of push_dispatcher.py: one wake-up of a context, as actions on the tables and a
-- log of the callbacks. `PushEnv` says, at each turn, which transactions of others have committed,
-- whether the database answers, and how the service, the receiver and the queue behave.
pub mod Bounds
use managed_agent_web_slack.Common.{
  ℕ, zero, suc, ◌-◌, ◌==◌, leb, ltb, equals, Option, none, some, List, [], ◌∷◌, Bool, true, false,
  ◌&&◌, ◌||◌, not, if◌then◌else◌, is_some,
}
use managed_agent_web_slack.Store.{Key, Time, A2aState}
use managed_agent_web_slack.Runtime.Transaction.{Error, Result, ok, err, external}
use managed_agent_web_slack.Push.Configs.{PushConfig, PushDb, get_config, list_context}
use managed_agent_web_slack.Push.Claims.{
  Delivery, claim_delivery, claimed, finish_delivery, release_delivery,
}
use managed_agent_web_slack.Push.Claims.Moves.{PushMove, push_moves}

pub record PushEnv : Type 0 where
  pub meanwhile : ℕ → List PushMove
  pub database_down : ℕ → Bool
  pub fresh : ℕ → Key
  -- `datetime.now(UTC)`
  pub clock : ℕ → Time
  -- the fingerprint of `service.get_task`'s answer; `none` when it raises
  pub fingerprint_of : ℕ → Key → Option Key
  -- the status code of the receiver's answer; `none` when the request raises
  pub post : ℕ → Key → Key → Option ℕ
  -- does `schedule_context` return
  pub schedule : ℕ → Key → ℕ → Bool

-- What is sent: a callback for a task's configuration, a wake-up of a context with its delay.
pub data PushEffect : Type 0 where
  callback : Key → Key → Key → PushEffect
  wake : Key → ℕ → PushEffect

pub record PushWorld : Type 0 where
  pub db : PushDb
  pub log : List PushEffect
  pub turn : ℕ

abbrev pub Job : Type 0 → Type 0
Job A = PushWorld → Result A × PushWorld

abbrev done : {A : Type 0} → A → Job A
done a w = (ok a, w)

abbrev then_job : {A B : Type 0} → Result A → (A → Job B) → Job B
then_job (ok a) f w = f a w
then_job (err e) f w = (err e, w)

infixl 5 ◌>>=◌
abbrev ◌>>=◌ : {A B : Type 0} → Job A → (A → Job B) → Job B
◌>>=◌ m f w = let (r, w') = m w in then_job r f w'

-- `try: … except Exception`: the outcome as an optional value.
abbrev caught : {A : Type 0} → Result A → Option A
caught (ok a) = some a
caught (err e) = none

abbrev tried : {A : Type 0} → Job A → Job (Option A)
tried m w = let (r, w') = m w in (ok (caught r), w')

-- `try: body finally: last`: an exception of `last` replaces the body's outcome.
abbrev after_last : {A B : Type 0} → Result A → Result B → Result A
after_last r (ok b) = r
after_last r (err e) = err e

abbrev finally_job : {A B : Type 0} → Job A → Job B → Job A
finally_job body last w = let (r, w') = body w in let (s, w'') = last w' in (after_last r s, w'')

-- `_BACKOFF`, by the number of failed attempts.
abbrev backoff_table : List ℕ
backoff_table = 5 ∷ 15 ∷ 30 ∷ 60 ∷ 120 ∷ 300 ∷ []

abbrev get_elem? : List ℕ → ℕ → Option ℕ
get_elem? [] n = none
get_elem? (x ∷ xs) zero = some x
get_elem? (x ∷ xs) (suc n) = get_elem? xs n

-- `_BACKOFF[attempts] if transient and attempts < len(_BACKOFF) else None`
unfoldable pub backoff : Bool → ℕ → Option ℕ
backoff transient attempts = if transient then get_elem? backoff_table attempts else none

abbrev max : ℕ → ℕ → ℕ
max a b = if leb a b then b else a

abbrev min : ℕ → ℕ → ℕ
min a b = if leb a b then a else b

-- The later of the times that are set.
abbrev latest : Option Time → Option Time → Option Time
latest none b = b
latest (some a) none = some a
latest (some a) (some b) = some (max a b)

-- `min(900, max(1, ceil((max(due) - now).total_seconds()))) if due else 1`; a time in the past has
-- a negative difference, whose maximum with 1 is 1.
unfoldable pub remaining : PushConfig → Time → ℕ
remaining p now = elim (latest p.next_attempt_at p.delivery_lease_expires_at) [
  | none ↦ 1
  | some due ↦ min 900 (max 1 (due - now))
]

-- `200 <= status_code < 300`
abbrev is_success : ℕ → Bool
is_success code = leb 200 code && ltb code 300

-- `status_code in {408, 429} or status_code >= 500`
abbrev is_transient : ℕ → Bool
is_transient code = code == 408 || code == 429 || leb 500 code

-- `retry_seconds=delay, permanent=delay is None`
abbrev failure_of : Option ℕ → Delivery
failure_of none = Delivery.permanent
failure_of (some seconds) = Delivery.retry (some seconds)

abbrev is_final : A2aState → Bool
is_final A2aState.completed = true
is_final A2aState.canceled = true
is_final A2aState.failed = true
is_final A2aState.rejected = true
is_final _ = false

-- What the `try` of a delivery comes to: an early return, or the receiver's answer to a
-- fingerprint.
pub data Sent : Type 0 where
  unchanged lost_claim : Sent
  answered : Key → ℕ → Sent

abbrev add_delay : Option ℕ → List ℕ → List ℕ
add_delay none delays = delays
add_delay (some n) delays = n ∷ delays

-- `min(delays)`
abbrev pub least : ℕ → List ℕ → ℕ
least n [] = n
least n (m ∷ delays) = min n (least m delays)

module _ (env : PushEnv) where
  abbrev begin : PushWorld → PushWorld
  begin w = record w { db = push_moves (env.meanwhile w.turn) w.db; turn = suc w.turn }

  -- A statement of the repository.
  abbrev commit_push : {A : Type 0} → A × PushDb → PushWorld → Result A × PushWorld
  commit_push (a, db) w = (ok a, record w { db = db })

  unfoldable pub statement : {A : Type 0} → (PushDb → A × PushDb) → Job A
  statement t w =
      let w' = begin w in
      if env.database_down w.turn then (err external, w') else commit_push (t w'.db) w'

  abbrev of_option : {A : Type 0} → Option A → PushWorld → Result A × PushWorld
  of_option none w = (err external, w)
  of_option (some a) w = (ok a, w)

  unfoldable pub fingerprint : Key → Job Key
  fingerprint task_id w = of_option (env.fingerprint_of w.turn task_id) (begin w)

  unfoldable pub post_callback : PushConfig → Key → Job ℕ
  post_callback p sent w =
      of_option (env.post w.turn p.url sent)
        (record (begin w) { log = callback p.task_id p.config_id sent ∷ w.log })

  unfoldable pub schedule_wake : Key → ℕ → Job (Unit {0})
  schedule_wake context_id delay w =
      let w' = record (begin w) { log = wake context_id delay ∷ w.log } in
      if env.schedule w.turn context_id delay then (ok tt, w') else (err external, w')

  unfoldable pub now_utc : Job Time
  now_utc w = (ok (env.clock w.turn), begin w)

  unfoldable pub new_claim : Job Key
  new_claim w = (ok (env.fresh w.turn), begin w)

  -- Recheck the claim once after the provider read, then send.
  send_claimed : PushConfig → Key → Key → Bool → Job Sent
  unfolding post_callback
  send_claimed p claim_id print holds =
      if not holds
      then done lost_claim
      else post_callback p print >>= λ code. done (answered print code)

  unfoldable pub send_once : Key → Key → PushConfig → Key → Job Sent
  unfolding statement fingerprint send_claimed
  send_once task_id config_id p claim_id = fingerprint task_id >>= λ print.
      if equals p.last_delivered_fingerprint print
      then done unchanged
      else statement (λ db. (claimed task_id config_id claim_id db, db)) >>= λ holds.
          send_claimed p claim_id print holds

  -- A failed attempt: the next one, or none.
  unfoldable pub record_failure : Key → Key → Key → PushConfig → Bool → Job (Option ℕ)
  unfolding statement backoff
  record_failure task_id config_id claim_id p transient =
      let delay = backoff transient p.attempt_count in
      statement (finish_delivery task_id config_id claim_id (failure_of delay)) >>= λ finished.
      done (if finished then delay else some 1)

  unfoldable pub record_success : Key → Key → Key → Key → Job (Option ℕ)
  unfolding statement
  record_success task_id config_id claim_id print =
      statement (finish_delivery task_id config_id claim_id (Delivery.delivered print))
      >>= λ finished. done (if finished then none else some 1)

  unfoldable pub after_send : Key → Key → Key → PushConfig → Option Sent → Job (Option ℕ)
  unfolding record_failure record_success
  after_send t c claim_id p none = record_failure t c claim_id p true
  after_send t c claim_id p (some unchanged) = done none
  after_send t c claim_id p (some lost_claim) = done (some 1)
  after_send t c claim_id p (some (answered print code)) =
      if is_success code
      then record_success t c claim_id print
      else record_failure t c claim_id p (is_transient code)

  unfoldable pub deliver_row : Key → Key → Key → Option PushConfig → Job (Option ℕ)
  unfolding send_once after_send
  deliver_row t c claim_id none = done none
  deliver_row t c claim_id (some p) = tried (send_once t c p claim_id) >>= after_send t c claim_id p

  deliver_claimed : Key → Key → Key → Job (Option ℕ)
  unfolding statement deliver_row
  deliver_claimed t c claim_id =
      statement (λ db. (get_config t c db, db)) >>= deliver_row t c claim_id

  -- The configuration of a refused claim.
  unfoldable pub wait_for : Option PushConfig → Job (Option ℕ)
  unfolding now_utc remaining
  wait_for none = done none
  wait_for (some p) =
      if is_some p.permanent_failure_at
      then done none
      else now_utc >>= λ now. done (some (remaining p now))

  unfoldable pub with_delivery_claim : Key → Key → Option Key → Job (Option ℕ)
  unfolding statement wait_for deliver_claimed
  with_delivery_claim t c none = statement (λ db. (get_config t c db, db)) >>= wait_for
  with_delivery_claim t c (some claim_id) =
      finally_job (deliver_claimed t c claim_id)
        (statement (λ db. (tt {0}, release_delivery t c claim_id db)))

  -- A claim's lease is 30 seconds.
  unfoldable pub deliver : Key → Key → Job (Option ℕ)
  unfolding statement new_claim with_delivery_claim
  deliver t c = new_claim >>= λ id. statement (claim_delivery id t c 30) >>= with_delivery_claim t c

  abbrev same_print : PushConfig → Option Key → Bool
  same_print p none = false
  same_print p (some print) = equals p.last_delivered_fingerprint print

  -- A final task whose last snapshot was delivered needs no claim.
  unfoldable pub is_delivered : PushConfig → A2aState → Job Bool
  unfolding fingerprint
  is_delivered p state =
      if is_final state && is_some p.last_delivered_fingerprint
      then (tried (fingerprint p.task_id) >>= λ print. done (same_print p print))
      else done false

  deliver_unless : PushConfig → Bool → Job (Option ℕ)
  unfolding deliver
  deliver_unless p delivered = if delivered then done none else deliver p.task_id p.config_id

  unfoldable pub deliver_all : List (PushConfig × A2aState) → Job (List ℕ)
  unfolding is_delivered deliver_unless
  deliver_all [] = done []
  deliver_all ((p, state) ∷ rows) =
      let rest = deliver_all rows in
      is_delivered p state >>= deliver_unless p >>= λ delay.
      rest >>= λ delays. done (add_delay delay delays)

  unfoldable pub wake_again : Key → List ℕ → Job (Unit {0})
  unfolding schedule_wake
  wake_again context_id [] = done tt
  wake_again context_id (n ∷ delays) = schedule_wake context_id (least n delays)

  unfoldable pub run_context : Key → Job (Unit {0})
  unfolding statement deliver_all wake_again
  run_context context_id =
      statement (λ db. (list_context context_id db, db)) >>= deliver_all >>= wake_again context_id
