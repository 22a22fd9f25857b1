-- ===== src/Service/World.antt =====
-- What the A2A service works on and what answers it: the controller's tables, the store of pending
-- inputs, and the triggers. `none` of a field that a message may leave out is its empty text.
use managed_agent_web_slack.Common.{
  ℕ, ◌==◌, Option, List, [], ◌∷◌, ◌++◌, Bool, not, ◌||◌, if◌then◌else◌, select,
}
use managed_agent_web_slack.Store.{Key, Decision, Db}
use managed_agent_web_slack.Runtime.Transaction.{Error}
use managed_agent_web_slack.Runtime.Moves.Defs.{Move, moves}

pub record StoredInput : Type 0 where
  pub key : Key
  pub body : List ℕ

-- `woken` are the contexts that the scheduler's queue was given, `pushed` those of the push queue.
pub record World : Type 0 where
  pub db : Db
  pub inputs : List StoredInput
  pub woken : List Key
  pub pushed : List Key

pub data Response : Type 0 where
  approval : Key → Decision → Response
  clarification : Key → List ℕ → Response

-- A part is a text, or `none` for any other content; `response` is the validated envelope.
pub record Message : Type 0 where
  pub from_user : Bool
  pub message_id : Key
  pub task_id : Key
  pub context_id : Key
  pub extensions : List Key
  pub parts : List (Option (List ℕ))
  pub response : Option Response

-- Whether each service answers, and whether a `put` that raises has stored its object. `others n` is
-- what others commit before the call's n-th transaction; the keys are fresh UUIDs.
pub record Env : Type 0 where
  pub human_input_enabled : Bool
  pub puts : Bool
  pub stores : Bool
  pub deletes : Bool
  pub schedules : Bool
  pub pushes : Option Bool
  pub decides : Bool
  pub proposed_context_id : Key
  pub proposed_task_id : Key
  pub object_key : Key
  pub others : ℕ → List Move

pub data Failure : Type 0 where
  invalid_params task_not_found assertion_failed : Failure
  store_failed trigger_failed database_failed : Failure
  raised : Error → Failure

-- `viewed` is the task that `get_task` is asked for at the end.
pub data Reply : Type 0 where
  viewed : Key → Reply
  failed : Failure → Reply

abbrev pub meanwhile : Env → ℕ → World → World
meanwhile e n w = record w { db = moves (e.others n) w.db }

abbrev pub put : Env → Key → List ℕ → World → World
put e key body w =
    if e.puts || e.stores
    then record w { inputs = w.inputs ++ record { key = key; body = body } ∷ [] }
    else w

abbrev pub removed : Key → World → World
removed key w = record w { inputs = select (λ o. not (o.key == key)) w.inputs }

-- `pending_input.delete`, and then the reply.
abbrev pub delete_then : Env → Key → Reply × World → Reply × World
delete_then e key (reply, w) =
    if e.deletes then (reply, removed key w) else (failed Failure.store_failed, w)

-- `trigger.schedule`, and then the reply.
abbrev pub wake_then : Env → Key → Reply → World → Reply × World
wake_then e context_id reply w =
    if e.schedules
    then (reply, record w { woken = w.woken ++ context_id ∷ [] })
    else (failed Failure.trigger_failed, w)
