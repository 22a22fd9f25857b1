-- ===== src/Handlers/World.antt =====
-- What a handler works on, and actions that may raise. `others n` and `slack_others n` are what other
-- callers commit before the handler's n-th step, `connects n` whether the database can be reached
-- there, and `commits n` what becomes of a transaction of the handler.
use managed_agent_web_slack.Common.{
  ℕ, Option, none, some, List, [], ◌∷◌, ◌++◌, Bool, true, false, if◌then◌else◌,
}
use managed_agent_web_slack.Store.{Key}
use managed_agent_web_slack.Threads.{ThreadDb, ThreadError, Outcome, ok, err}
use managed_agent_web_slack.Threads.Moves.Defs.{ThreadMove, thread_moves}
use managed_agent_web_slack.Threads.Moves.Races.{Round}
use managed_agent_web_slack.Slack.{SlackDb}
use managed_agent_web_slack.Slack.Moves.Defs.{SlackMove, slack_moves}
use managed_agent_web_slack.Turns.Send.{Turn, Host}

-- The domain events that are published; the reply's text is one of four.
pub data Text : Type 0 where
  unlinked unauthorized unknown_thread already_linked : Text
  linked : Key → Text

pub data Notice : Type 0 where
  reply : Text → Notice
  work_started : Key → Notice
  projection_requested : Key → Key → Key → Notice

pub record World : Type 0 where
  pub threads : ThreadDb
  pub slack : SlackDb
  pub published : List Notice

pub data Failure : Type 0 where
  delivery_busy empty_text unregistered running : Failure
  unpublished slack_failed service_failed database_failed : Failure
  of_thread : ThreadError → Failure
  of_turn : Turn → Failure

-- A transaction commits and its caller is told; commits and its caller sees an exception; or
-- raises with nothing written.
pub data Commit : Type 0 where
  answered unanswered unavailable : Commit

-- What `get_task` answers: whether input is required, and the requests that are pending.
pub record TaskView : Type 0 where
  pub input_required : Bool
  pub pending : List Key

-- The answers of the configuration, the bus, Slack and the control plane; `none` is an exception.
pub record Env : Type 0 where
  pub allowed : Bool
  pub agent : Option Key
  pub ingress_id : Key
  pub binding_id : Key
  pub token : Key
  pub publishes : ℕ → Bool
  pub slack_answers : ℕ → Bool
  pub creators : ℕ → Round
  pub turn : Host
  pub message_id : Key → Key → Key
  pub cancelled : Option (Option Key)
  pub task_view : Option TaskView
  pub continued : Bool
  pub current_view : Option TaskView
  pub error_text : Failure → List ℕ
  pub connects : ℕ → Bool
  pub commits : ℕ → Commit
  pub others : ℕ → List ThreadMove
  pub slack_others : ℕ → List SlackMove

pub data Handled {ℓ} (A : Type ℓ) : Type ℓ where
  done : A → Handled A
  raised : Failure → Handled A

abbrev pub Action : Type 0 → Type 0
Action A = World → Handled A × World

abbrev pub then_do : {A B : Type 0} → Handled A → (A → Action B) → Action B
then_do (done a) f w = f a w
then_do (raised x) f w = (raised x, w)

infixl 5 ◌>>=◌ ◌>>◌
abbrev pub ◌>>=◌ : {A B : Type 0} → Action A → (A → Action B) → Action B
◌>>=◌ m f w = let (r, reached) = m w in then_do r f reached

abbrev pub ◌>>◌ : {A B : Type 0} → Action A → Action B → Action B
m >> k = m >>= λ _. k

abbrev pub pure : {A : Type 0} → A → Action A
pure a w = (done a, w)

abbrev pub raise : {A : Type 0} → Failure → Action A
raise x w = (raised x, w)

abbrev pub or_raise : {A : Type 0} → Option A → Failure → Action A
or_raise none x w = (raised x, w)
or_raise (some a) x w = (done a, w)

abbrev pub check : Bool → Failure → Action (Unit {0})
check true x w = (done tt, w)
check false x w = (raised x, w)

abbrev pub meanwhile : Env → ℕ → Action (Unit {0})
meanwhile e n w = (
  (if e.connects n then done tt else raised database_failed),
  record w {
    threads = thread_moves (e.others n) w.threads;
    slack = slack_moves (e.slack_others n) w.slack;
  },
)

abbrev pub query : {A : Type 0} → (World → A) → Action A
query read w = (done (read w), w)

abbrev pub outcome : {A : Type 0} → Outcome A → Handled A
outcome (ok a) = done a
outcome (err x) = raised (of_thread x)

-- A transaction's result and tables, and the world before it.
abbrev pub committing : {A : Type 0} → Commit → Handled A × World → World → Handled A × World
committing answered x w = x
committing unanswered (r, reached) w = (raised database_failed, reached)
committing unavailable x w = (raised database_failed, w)

abbrev pub slack_result : {A : Type 0} → Outcome A × SlackDb → World → Handled A × World
slack_result (r, db) w = (outcome r, record w { slack = db })

abbrev pub on_slack : {A : Type 0} → Commit → (SlackDb → Outcome A × SlackDb) → Action A
on_slack c f w = committing c (slack_result (f w.slack) w) w

abbrev pub publish : Env → ℕ → Notice → Action (Unit {0})
publish e n notice w =
    if e.publishes n
    then (done tt, record w { published = w.published ++ notice ∷ [] })
    else (raised unpublished, w)
