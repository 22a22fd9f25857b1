-- ===== src/Push/Dispatcher/Bounds.antt =====
-- The delays of the dispatcher.
use managed_agent_web_slack.Common.{
  ℕ, ◌≤◌, ◌≡◌, ◌∙◌, refl, subst, if◌then◌else◌, equals, true, false, Option, none, some, List, [],
  ◌∷◌, Bool, All, ◌⊎◌, inl, inr, arith,
}
use managed_agent_web_slack.Store.{Key, A2aState}
use managed_agent_web_slack.Runtime.Transaction.{Result, ok, err, external}
use managed_agent_web_slack.Push.Configs.{PushConfig, PushDb, get_config, list_context}
use managed_agent_web_slack.Push.Claims.{
  Delivery, claimed, claim_delivery, finish_delivery, release_delivery,
}
use managed_agent_web_slack.Push.Dispatcher.{
  PushEnv, PushWorld, PushEffect, Job, Sent, backoff, remaining, least, statement, fingerprint,
  post_callback, send_once, record_failure, record_success, after_send, wait_for, deliver,
  failure_of, same_print, deliver_unless, add_delay, with_delivery_claim, deliver_claimed,
  deliver_row, is_transient, lost_claim, schedule_wake, then_job, tried, after_last, finally_job,
  done, ◌>>=◌, begin, commit_push, now_utc, new_claim, send_claimed, answered, unchanged,
  is_delivered, deliver_all, wake_again, run_context, callback, wake,
}

abbrev pub IsDelay : ℕ → Type 0
IsDelay n = (1 ≤ n) × (n ≤ 900)

backoff-IsDelay : (b : Bool) (n : ℕ) {d : ℕ} → backoff b n ≡ some d → IsDelay d
unfolding backoff
backoff-IsDelay b n h = ground arith

remaining-IsDelay : (p : PushConfig) (now : ℕ) → IsDelay (remaining p now)
unfolding remaining
remaining-IsDelay p now = ground arith

-- The delays of the wake-ups that were sent, the last one first.
abbrev pub wakes_of : List PushEffect → List ℕ
wakes_of [] = []
wakes_of (callback t c print ∷ log) = wakes_of log
wakes_of (wake context_id delay ∷ log) = delay ∷ wakes_of log

abbrev OkIs : {A : Type 0} → (A → Type 0) → Result A → Type 0
OkIs Q (ok a) = Q a
OkIs Q (err e) = Unit

abbrev Any : {A : Type 0} → A → Type 0
Any a = Unit

abbrev IsDelayed : Option ℕ → Type 0
IsDelayed none = Unit
IsDelayed (some n) = IsDelay n

-- At most one more wake-up, with a bounded delay.
abbrev pub SentOne : List ℕ → List ℕ → Type 0
SentOne before reached = (reached ≡ before) ⊎ ((n : ℕ) × (reached ≡ n ∷ before) × IsDelay n)

-- The job sends no wake-up, and what it returns satisfies `Q`.
abbrev Quiet : {A : Type 0} → (A → Type 0) → Job A → Type 0
Quiet Q m = (w : PushWorld) → (wakes_of (m w).1.log ≡ wakes_of w.log) × OkIs Q (m w).0

then_job-Quiet :
    {A B : Type 0} (Q : A → Type 0) (S : B → Type 0) (r : Result A) (f : A → Job B) (w : PushWorld)
    → OkIs Q r
    → ((a : A) → Q a → Quiet S (f a))
    → (wakes_of (then_job r f w).1.log ≡ wakes_of w.log) × OkIs S (then_job r f w).0
then_job-Quiet Q S (ok a) f w h hf = hf a h w
then_job-Quiet Q S (err e) f w h hf = (refl, tt)

Quiet->>= :
    {A B : Type 0} (Q : A → Type 0) (S : B → Type 0) (m : Job A) (f : A → Job B)
    → Quiet Q m
    → ((a : A) → Q a → Quiet S (f a))
    → Quiet S (m >>= f)
Quiet->>= Q S m f hm hf w =
    let after_first = then_job-Quiet Q S (m w).0 f (m w).1 (hm w).1 hf in
    (after_first.0 ∙ (hm w).0, after_first.1)

Quiet-tried : {A : Type 0} (m : Job A) → Quiet Any m → Quiet Any (tried m)
Quiet-tried m hm w = ((hm w).0, tt)

after_last-OkIs :
    {A B : Type 0} (Q : A → Type 0) (r : Result A) (s : Result B)
    → OkIs Q r
    → OkIs Q (after_last r s)
after_last-OkIs Q r (ok b) h = h
after_last-OkIs Q r (err e) h = tt

Quiet-finally :
    {A B : Type 0} (Q : A → Type 0) (m : Job A) (last : Job B)
    → Quiet Q m
    → Quiet Any last
    → Quiet Q (finally_job m last)
Quiet-finally Q m last hm hl w =
    ((hl (m w).1).0 ∙ (hm w).0, after_last-OkIs Q (m w).0 (last (m w).1).0 (hm w).1)

failure-IsDelayed :
    (finished b : Bool) (n : ℕ) → IsDelayed (if finished then backoff b n else some 1)
unfolding backoff
failure-IsDelayed finished b n = ground arith

success-IsDelayed : (finished : Bool) → IsDelayed (if finished then none else some 1)
success-IsDelayed finished = ground arith

add_delay-All :
    (delay : Option ℕ) (delays : List ℕ)
    → IsDelayed delay
    → All IsDelay delays
    → All IsDelay (add_delay delay delays)
add_delay-All none delays h g = g
add_delay-All (some n) delays h g = (h, g)

least-IsDelay :
    (n : ℕ) (delays : List ℕ) → IsDelay n → All IsDelay delays → IsDelay (least n delays)
least-IsDelay n [] h g = h
least-IsDelay n (m ∷ delays) h g = ground (arith, least-IsDelay m delays g.0 g.1)

module _ (env : PushEnv) where
  statement-Quiet : {A : Type 0} (t : PushDb → A × PushDb) → Quiet Any (statement env t)
  unfolding statement
  statement-Quiet t w =
      elim (env.database_down w.turn)
        as (λ b.
          (wakes_of
              (if b
                then (err external, begin env w)
                else commit_push env (t (begin env w).db) (begin env w)).1.log
            ≡ wakes_of w.log)
          × OkIs Any
              (if b
                then (err external, begin env w)
                else commit_push env (t (begin env w).db) (begin env w)).0) [
                  | true ↦ (refl, tt)
                  | false ↦ (refl, tt)
                ]

  statement->>= :
      {A B : Type 0} (Q : B → Type 0) (t : PushDb → A × PushDb) (f : A → Job B)
      → ((a : A) → Quiet Q (f a))
      → Quiet Q (statement env t >>= f)
  statement->>= Q t f hf = Quiet->>= Any Q (statement env t) f (statement-Quiet t) (λ a h. hf a)

  fingerprint-Quiet : (t : Key) → Quiet Any (fingerprint env t)
  unfolding fingerprint
  fingerprint-Quiet t w = ground arith

  post-Quiet : (p : PushConfig) (print : Key) → Quiet Any (post_callback env p print)
  unfolding post_callback
  post-Quiet p print w = ground arith

  now_utc-Quiet : Quiet Any (now_utc env)
  unfolding now_utc
  now_utc-Quiet w = (refl, tt)

  new_claim-Quiet : Quiet Any (new_claim env)
  unfolding new_claim
  new_claim-Quiet w = (refl, tt)

  send_claimed-Quiet :
      (p : PushConfig) (id print : Key) (b : Bool) → Quiet Any (send_claimed env p id print b)
  unfolding send_claimed
  send_claimed-Quiet p id print false w = (refl, tt)
  send_claimed-Quiet p id print true w =
      Quiet->>= Any Any (post_callback env p print) (λ code. done (answered print code))
        (post-Quiet p print) (λ code h v. (refl, tt)) w

  send_once-Quiet : (t c : Key) (p : PushConfig) (id : Key) → Quiet Any (send_once env t c p id)
  unfolding send_once
  send_once-Quiet t c p id =
      Quiet->>= Any Any (fingerprint env t) _ (fingerprint-Quiet t) (λ print h.
        elim (equals p.last_delivered_fingerprint print)
          as (λ b. Quiet Any (
            if b
            then done unchanged
            else (statement env (λ db. (claimed t c id db, db)) >>= send_claimed env p id print))) [
              | true ↦ λ w. (refl, tt)
              | false ↦
                  Quiet->>= Any Any (statement env (λ db. (claimed t c id db, db)))
                    (send_claimed env p id print) (statement-Quiet (λ db. (claimed t c id db, db)))
                    (λ holds g. send_claimed-Quiet p id print holds)
            ])

  record_failure-Quiet :
      (t c id : Key) (p : PushConfig) (b : Bool) → Quiet IsDelayed (record_failure env t c id p b)
  unfolding record_failure
  record_failure-Quiet t c id p b =
      let delay = backoff b p.attempt_count in
      statement->>= IsDelayed (finish_delivery t c id (failure_of delay))
        (λ finished. done (if finished then delay else some 1))
        (λ finished w. (refl, failure-IsDelayed finished b p.attempt_count))

  record_success-Quiet : (t c id print : Key) → Quiet IsDelayed (record_success env t c id print)
  unfolding record_success
  record_success-Quiet t c id print =
      statement->>= IsDelayed (finish_delivery t c id (Delivery.delivered print))
        (λ finished. done (if finished then none else some 1))
        (λ finished w. (refl, success-IsDelayed finished))

  after_send-Quiet :
      (t c id : Key) (p : PushConfig) (o : Option Sent)
      → Quiet IsDelayed (after_send env t c id p o)
  unfolding after_send
  after_send-Quiet t c id p none w = record_failure-Quiet t c id p true w
  after_send-Quiet t c id p (some unchanged) w = (refl, tt)
  after_send-Quiet t c id p (some lost_claim) w = (refl, omega arith)
  after_send-Quiet t c id p (some (answered print code)) w = ground (
    arith,
    record_success-Quiet t c id print w,
    record_failure-Quiet t c id p (is_transient code) w,
  )

  deliver_row-Quiet :
      (t c id : Key) (o : Option PushConfig) → Quiet IsDelayed (deliver_row env t c id o)
  unfolding deliver_row
  deliver_row-Quiet t c id none w = (refl, tt)
  deliver_row-Quiet t c id (some p) w =
      Quiet->>= Any IsDelayed (tried (send_once env t c p id)) (after_send env t c id p)
        (Quiet-tried (send_once env t c p id) (send_once-Quiet t c p id))
        (λ o h. after_send-Quiet t c id p o) w

  deliver_claimed-Quiet : (t c id : Key) → Quiet IsDelayed (deliver_claimed env t c id)
  unfolding deliver_claimed
  deliver_claimed-Quiet t c id =
      statement->>= IsDelayed (λ db. (get_config t c db, db)) (deliver_row env t c id)
        (deliver_row-Quiet t c id)

  wait_for-Quiet : (o : Option PushConfig) → Quiet IsDelayed (wait_for env o)
  unfolding wait_for
  wait_for-Quiet none w = (refl, tt)
  wait_for-Quiet (some p) w = ground (
    arith,
    Quiet->>= Any IsDelayed (now_utc env) (λ now. done (some (remaining p now))) now_utc-Quiet
        (λ now h v. (refl, remaining-IsDelay p now)) w,
  )

  with_claim-Quiet : (t c : Key) (o : Option Key) → Quiet IsDelayed (with_delivery_claim env t c o)
  unfolding with_delivery_claim
  with_claim-Quiet t c none =
      statement->>= IsDelayed (λ db. (get_config t c db, db)) (wait_for env) wait_for-Quiet
  with_claim-Quiet t c (some id) =
      let release : PushDb → Unit {0} × PushDb = λ db. (tt, release_delivery t c id db) in
      Quiet-finally IsDelayed (deliver_claimed env t c id) (statement env release)
        (deliver_claimed-Quiet t c id) (statement-Quiet release)

  deliver-Quiet : (t c : Key) → Quiet IsDelayed (deliver env t c)
  unfolding deliver
  deliver-Quiet t c =
      Quiet->>= Any IsDelayed (new_claim env)
        (λ id. statement env (claim_delivery id t c 30) >>= with_delivery_claim env t c)
        new_claim-Quiet
        (λ id h.
          statement->>= IsDelayed (claim_delivery id t c 30) (with_delivery_claim env t c)
            (with_claim-Quiet t c))

  is_delivered-Quiet : (p : PushConfig) (s : A2aState) → Quiet Any (is_delivered env p s)
  unfolding is_delivered
  is_delivered-Quiet p s w = ground (
    arith,
    Quiet->>= Any Any (tried (fingerprint env p.task_id)) (λ print. done (same_print env p print))
        (Quiet-tried (fingerprint env p.task_id) (fingerprint-Quiet p.task_id))
        (λ print h v. (refl, tt)) w,
  )

  deliver_unless-Quiet : (p : PushConfig) (b : Bool) → Quiet IsDelayed (deliver_unless env p b)
  unfolding deliver_unless
  deliver_unless-Quiet p true w = (refl, tt)
  deliver_unless-Quiet p false w = deliver-Quiet p.task_id p.config_id w

  deliver_all-Quiet :
      (rows : List (PushConfig × A2aState)) → Quiet (All IsDelay) (deliver_all env rows)
  unfolding deliver_all
  deliver_all-Quiet [] w = (refl, tt)
  deliver_all-Quiet ((p, s) ∷ rows) w =
      Quiet->>= IsDelayed (All IsDelay) (is_delivered env p s >>= deliver_unless env p)
        (λ delay. deliver_all env rows >>= λ delays. done (add_delay delay delays))
        (Quiet->>= Any IsDelayed (is_delivered env p s) (deliver_unless env p)
          (is_delivered-Quiet p s) (λ b h. deliver_unless-Quiet p b))
        (λ delay h.
          Quiet->>= (All IsDelay) (All IsDelay) (deliver_all env rows)
            (λ delays. done (add_delay delay delays)) (deliver_all-Quiet rows)
            (λ delays g v. (refl, add_delay-All delay delays h g)))
        w

  scheduled :
      (id : Key) (n : ℕ) (w : PushWorld)
      → wakes_of (schedule_wake env id n w).1.log ≡ n ∷ wakes_of w.log
  unfolding schedule_wake
  scheduled id n w = ground arith

  wake_again-bounds :
      (id : Key) (delays : List ℕ) (w : PushWorld)
      → All IsDelay delays
      → SentOne (wakes_of w.log) (wakes_of (wake_again env id delays w).1.log)
  unfolding wake_again
  wake_again-bounds id [] w h = inl refl
  wake_again-bounds id (n ∷ delays) w h =
      inr (least n delays, scheduled id (least n delays) w, least-IsDelay n delays h.0 h.1)

  then_wake-bounds :
      (id : Key) (r : Result (List ℕ)) (v w : PushWorld)
      → wakes_of v.log ≡ wakes_of w.log
      → OkIs (All IsDelay) r
      → SentOne (wakes_of w.log) (wakes_of (then_job r (wake_again env id) v).1.log)
  then_wake-bounds id (ok delays) v w e h =
      subst (λ (before : List ℕ). SentOne before (wakes_of (wake_again env id delays v).1.log)) e
        (wake_again-bounds id delays v h)
  then_wake-bounds id (err x) v w e h = inl e

  -- For every behaviour of the receivers, the service, the queue and the other workers, and whether
  -- it returns or raises: one wake-up of a context sends at most one further wake-up, whose delay is
  -- between 1 and 900 seconds.
  pub run_context-bounds :
      (id : Key) (w : PushWorld) → SentOne (wakes_of w.log) (wakes_of (run_context env id w).1.log)
  unfolding run_context
  run_context-bounds id w =
      let gathered : Job (List ℕ) =
        statement env (λ db. (list_context id db, db)) >>= deliver_all env in
      let quiet =
        statement->>= (All IsDelay) (λ db. (list_context id db, db)) (deliver_all env)
          deliver_all-Quiet w in
      then_wake-bounds id (gathered w).0 (gathered w).1 w quiet.0 quiet.1
