-- ===== src/Admin.antt =====
-- `ControllerAdmin.resolve` of backend/src/managed_agents_app/cma_controller/admin.py.
use managed_agent_web_slack.Common.{some, Bool, ◌&&◌, not}
use managed_agent_web_slack.Store.{Key, Task, task_of}
use managed_agent_web_slack.Runtime.Transaction.{external, value_error}
use managed_agent_web_slack.Runtime.Lease.{claim_scheduler, release_scheduler}
use managed_agent_web_slack.Runtime.Tasks.{Resolution, resolve_held_task, is_retry}
use managed_agent_web_slack.Scheduler.World.{
  Env, Effect, Action, raise, attempt, skip, when, maybe, on_outcome, transact, read, returning,
  call, new_key, ◌>>=◌, ◌>>◌,
}

module _ (env : Env) where
  -- The `try` and its `finally`, then the wake-ups.
  resolve_claimed : Key → Key → Resolution → Key → Action (Unit {0})
  resolve_claimed context_id task_id resolution claim = do
    done ← attempt (transact env (resolve_held_task task_id claim resolution))
    transact env (returning (release_scheduler context_id claim))
    on_outcome done (λ _. skip) raise
    call env (some (Effect.schedule context_id 0)) (λ turn. env.schedule turn context_id 0)
    when env.has_push_trigger (
        call env (some (Effect.schedule_push context_id))
          (λ turn. env.schedule_push turn context_id))

  -- A busy lease and an unknown task are errors of the command.
  resolve_task : Task → Resolution → Action (Unit {0})
  unfolding resolve_claimed
  resolve_task t resolution = do
    id ← new_key env
    claim ← transact env (returning (claim_scheduler id t.context_id 60))
    maybe claim (raise external) (resolve_claimed t.context_id t.task_id resolution)

  unfoldable pub resolve : Key → Resolution → Bool → Action (Unit {0})
  unfolding resolve_task is_retry
  resolve task_id resolution verified_no_side_effect = do
    when (is_retry resolution && not verified_no_side_effect) (raise value_error)
    found ← read env (task_of task_id)
    maybe found (raise value_error) (λ t. resolve_task t resolution)
