-- ===== src/Scheduler/Run/Settled.antt =====
-- What a dispatch into an open session records of each answer of the provider.
use managed_agent_web_slack.Common.{
  ℕ, ◌≡◌, ◌==◌, equals, Option, none, some, Bool, true, false, ◌&&◌, any_row,
}
use managed_agent_web_slack.Store.{Key, A2aState, InternalState, HeldReason, Context, Task, Db}
use managed_agent_web_slack.Runtime.Moves.Defs.{moves}
use managed_agent_web_slack.Scheduler.Events.{truthy}
use managed_agent_web_slack.Scheduler.World.{Env, World, Answer, replied, rejected, failed}
use managed_agent_web_slack.Scheduler.Finish.Holds.{Holds}
use managed_agent_web_slack.Scheduler.Finish.Written.{Ready}

abbrev pub ended_as_failed : InternalState → A2aState → Bool
ended_as_failed InternalState.terminal A2aState.failed = true
ended_as_failed _ _ = false

abbrev pub waits_working : InternalState → A2aState → Bool
waits_working InternalState.waiting A2aState.working = true
waits_working _ _ = false

abbrev pub held_ambiguous : Option HeldReason → Bool
held_ambiguous (some HeldReason.ambiguous_send) = true
held_ambiguous _ = false

abbrev pub held_without_event : Option HeldReason → Bool
held_without_event (some HeldReason.input_event_not_returned) = true
held_without_event _ = false

-- The task follows the provider's event, or is held when none came back.
abbrev pub follows : Option Key → Task → Bool
follows none r = held_without_event r.held_reason
follows (some e) r = waits_working r.internal_state r.a2a_state && equals r.cma_input_event_id e

-- What the answer to a message means for its task.
abbrev pub settled : Answer (Option Key) → Task → Bool
settled (replied id) r = follows (truthy id) r
settled rejected r = ended_as_failed r.internal_state r.a2a_state
settled failed r = held_ambiguous r.held_reason

abbrev pub settles : Key → Answer (Option Key) → Task → Bool
settles k a r = r.task_id == k && settled a r

-- What others commit at any turn leaves the lease and the task's row.
abbrev pub OthersLeave : Env → Key → Key → Key → Type 0
OthersLeave env k c claim =
    (turn : ℕ) (db : Db) → Ready k c claim db → Ready k c claim (moves (env.meanwhile turn) db)

module _ (env : Env) (c : Context) (t : Task) (claim : Key) where
  abbrev Row : (Task → Bool) → World → Type 0
  Row q v = any_row q v.db.tasks ≡ true
