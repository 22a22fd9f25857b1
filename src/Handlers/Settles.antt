-- ===== src/Handlers/Settles.antt =====
-- What the steps of a handler leave of the event that it claimed.
use managed_agent_web_slack.Common.{
  ℕ, ◌≡◌, refl, List, Option, true, false, ◌&&◌, any_row, any_row-cleared, any_row-update_where,
  arith,
}
use managed_agent_web_slack.Store.{Key}
use managed_agent_web_slack.Slack.Ingress
use managed_agent_web_slack.Slack.Ingress.{
  of_event, is_sent, sent_row, failed_row, complete_ingress, fail_ingress,
}
use managed_agent_web_slack.Handlers.World.{
  World, Failure, Commit, answered, unanswered, unavailable, committing, slack_result, Env, Handled,
  done, raised, Action, then_do, ◌>>=◌,
}
use managed_agent_web_slack.Handlers.Claims.{complete, or_fail, attempt}

-- No row of the event is under the claim.
abbrev pub IsReleased : Key → Key → Key → World → Type 0
IsReleased s ev k w = any_row (Ingress.claimed_row s ev k) w.slack.events ≡ false

abbrev pub IsSent : Key → Key → World → Type 0
IsSent s ev w = any_row (λ r. of_event s ev r && is_sent r.status) w.slack.events ≡ true

abbrev pub Completes : Key → Key → Key → Handled (Unit {0}) × World → Type 0
Completes s ev k (done u, w) = IsReleased s ev k w × IsSent s ev w
Completes s ev k (raised x, w) = Unit

-- A handler that returns leaves the event sent. One that raises leaves it to the next delivery, or,
-- where `fail_ingress` itself could not commit, leaves the world as its body left it.
abbrev pub Settles : Commit → Key → Key → Key → World → Handled (Unit {0}) × World → Type 0
Settles c s ev k left (done u, w) = IsReleased s ev k w × IsSent s ev w
Settles answered s ev k left (raised x, w) = IsReleased s ev k w
Settles unanswered s ev k left (raised x, w) = IsReleased s ev k w
Settles unavailable s ev k left (raised x, w) = w ≡ left

module _ (s ev k : Key) where
  committed-Completes :
      (c : Commit) (x : Handled (Unit {0}) × World) (w : World)
      → Completes s ev k x
      → Completes s ev k (committing c x w)
  committed-Completes answered x w h = h
  committed-Completes unanswered (r, v) w h = tt
  committed-Completes unavailable x w h = tt

  written-Completes :
      (t u : Option Key) (w : World)
      → Completes s ev k (slack_result (complete_ingress s ev k t u w.slack) w)
  unfolding complete_ingress Ingress.claimed_row
  written-Completes t u w =
      let cleared =
        any_row-cleared (Ingress.claimed_row s ev k) (sent_row t u w.slack.now)
          (λ r hit. ground arith) w.slack.events in
      let made =
        any_row-update_where (Ingress.claimed_row s ev k) (λ r. of_event s ev r && is_sent r.status)
          (sent_row t u w.slack.now) (λ r hit. ground arith) w.slack.events in
      ground (arith, cleared, made)

  pub complete-Completes :
      (e : Env) (t u : Option Key) (w : World) → Completes s ev k (complete e s ev k t u w)
  complete-Completes e t u w = committed-Completes (e.commits 1) _ w (written-Completes t u w)

  continued :
      {A : Type 0} (r : Handled A) (f : A → Action (Unit {0})) (w : World)
      → ((a : A) (v : World) → Completes s ev k (f a v))
      → Completes s ev k (then_do r f w)
  continued (done a) f w h = h a w
  continued (raised x) f w h = tt

  pub bound :
      {A : Type 0} (m : Action A) (f : A → Action (Unit {0}))
      → ((a : A) (v : World) → Completes s ev k (f a v))
      → (w : World) → Completes s ev k ((m >>= f) w)
  bound m f h w = continued (m w).0 f (m w).1 h

  failed-IsReleased :
      (text : List ℕ) (v : World)
      → IsReleased s ev k (record v { slack = fail_ingress s ev k text v.slack })
  unfolding fail_ingress Ingress.claimed_row
  failed-IsReleased text v =
      any_row-cleared (Ingress.claimed_row s ev k) (failed_row text v.slack.now)
        (λ r hit. ground arith) v.slack.events

  raised-Settles :
      (c : Commit) (x : Failure) (v w : World)
      → IsReleased s ev k w
      → Settles c s ev k v (committing c (raised x, w) v)
  raised-Settles answered x v w h = h
  raised-Settles unanswered x v w h = h
  raised-Settles unavailable x v w h = refl

  fails :
      (e : Env) (x : Handled (Unit {0}) × World)
      → Completes s ev k x
      → Settles (e.commits 2) s ev k x.1 (or_fail e s ev k x)
  fails e (done u, v) h = h
  fails e (raised x, v) h =
      raised-Settles (e.commits 2) x v _ (failed-IsReleased (e.error_text x) v)

  pub attempt-Settles :
      (e : Env) (body : Action (Unit {0})) (w : World)
      → Completes s ev k (body w)
      → Settles (e.commits 2) s ev k (body w).1 (attempt e s ev k body w)
  attempt-Settles e body w h = fails e (body w) h
