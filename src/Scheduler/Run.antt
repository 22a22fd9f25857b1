-- ===== src/Scheduler/Run.antt =====
-- `_dispatch`, `_reconcile`, `run_once` and `sweep_orphans` of scheduler.py.
pub mod Kept
pub mod Once
pub mod Sends
pub mod Settled
use managed_agent_web_slack.Common.{
  ℕ, suc, ◌==◌, Option, none, some, List, [], ◌∷◌, Bool, if◌then◌else◌, any_row, find_row, coalesce,
}
use managed_agent_web_slack.Store.{
  Key, A2aState, LifecycleState, HeldReason, Context, Task, is_failed, context_of, task_of,
}
use managed_agent_web_slack.Runtime.Transaction.{Error, ok, definitive, scheduler_busy}
use managed_agent_web_slack.Runtime.Lease.{
  TaskField, ContextField, claim_scheduler, release_scheduler,
}
use managed_agent_web_slack.Runtime.Requests.{pending_input_keys}
use managed_agent_web_slack.Runtime.Tasks.{next_queued, activate_task, stale_pending_input_count}
use managed_agent_web_slack.Scheduler.Events.{Event, text_of, truthy, is_user_message}
use managed_agent_web_slack.Scheduler.World.{
  Env, Effect, Action, PreviewHint, pure, raise, attempt, skip, when, maybe, on_outcome, for_all,
  transact, read, returning, call, new_key, ◌>>=◌, ◌>>◌,
}
use managed_agent_web_slack.Scheduler.Finish.{
  set_task_fields, set_context_fields, finish, bind_input,
}
use managed_agent_web_slack.Scheduler.Active.{reconcile_active}

-- `str(events[-1]["id"]) if events and events[-1].get("id") else None`
unfoldable pub last_id : List Event → Option Key
last_id [] = none
last_id (e ∷ []) = truthy e.id
last_id (e ∷ d ∷ events) = last_id (d ∷ events)

module _ (env : Env) where
  hold_task : Context → Task → Key → HeldReason → Action (Unit {0})
  hold_task c t claim reason =
      set_task_fields env t.task_id c.context_id claim (TaskField.held_reason (some reason) ∷ [])

  -- `bind_input` and the first reconciliation, in the new session.
  follow_creation : Context → Task → Key → Key → Action (Unit {0})
  follow_creation c t claim id = do
    bind_input env t c.context_id claim id
    found_context ← read env (context_of c.context_id)
    found_task ← read env (task_of t.task_id)
    reconcile_active env (coalesce found_context c) (coalesce found_task t) claim

  abbrev input_id : Option Event → Option Key
  input_id none = none
  input_id (some e) = truthy e.id

  open_session : Context → Task → Key → Key → Action (Unit {0})
  unfolding hold_task follow_creation
  open_session c t claim session = do
    set_context_fields env c.context_id claim (
        ContextField.cma_session_id (some session)
        ∷ ContextField.lifecycle_state LifecycleState.ready
        ∷ [])
    events ← call env none (λ turn. env.list_events turn session)
    maybe (input_id (find_row (λ e. is_user_message e.kind) events))
        (hold_task c t claim HeldReason.initial_input_not_visible) (follow_creation c t claim)

  create_failed : Context → Task → Key → Error → Action (Unit {0})
  unfolding hold_task
  create_failed c t claim definitive = do
    set_context_fields env c.context_id claim
        (ContextField.lifecycle_state LifecycleState.failed ∷ [])
    finish env c.context_id t.task_id claim A2aState.failed none
  create_failed c t claim _ = hold_task c t claim HeldReason.ambiguous_create

  make_session : Context → Key → Action Key
  make_session c text =
      call env (some (Effect.create_session c.context_id))
        (λ turn. env.create_session turn c.context_id c.creation_message_id text)

  -- A session that an earlier attempt made is found instead of made again.
  dispatch_first : Context → Task → Key → Key → Action (Unit {0})
  unfolding open_session create_failed make_session
  dispatch_first c t claim text = do
    recovered ← call env none (λ turn. env.find_session turn c.context_id c.creation_message_id)
    made ← attempt (maybe recovered (make_session c text) pure)
    on_outcome made (open_session c t claim) (create_failed c t claim)

  send_failed : Context → Task → Key → Error → Action (Unit {0})
  unfolding hold_task
  send_failed c t claim definitive = finish env c.context_id t.task_id claim A2aState.failed none
  send_failed c t claim _ = hold_task c t claim HeldReason.ambiguous_send

  sent_message : Context → Task → Key → Option Key → Action (Unit {0})
  unfolding hold_task
  sent_message c t claim id =
      maybe (truthy id) (hold_task c t claim HeldReason.input_event_not_returned)
        (bind_input env t c.context_id claim)

  dispatch_next : Context → Task → Key → Key → Key → Action (Unit {0})
  unfolding send_failed sent_message
  dispatch_next c t claim text session = do
    sent ←
        attempt (
          call env (some (Effect.send_message session))
            (λ turn. env.send_message turn session text))
    on_outcome sent (sent_message c t claim) (send_failed c t claim)

  unfoldable pub dispatch : Context → Task → Key → Action (Unit {0})
  unfolding dispatch_first dispatch_next
  dispatch c t claim = do
    text ← call env none (λ turn. env.get_input turn (text_of t.input_object_key))
    maybe (truthy c.cma_session_id) (dispatch_first c t claim text) (dispatch_next c t claim text)

  known_events : Context → Action (List Event)
  known_events c =
      maybe (truthy c.cma_session_id) (pure [])
        λ session. call env none (λ turn. env.list_events turn session)

  start_task : Context → Task → Key → Action (Unit {0})
  unfolding dispatch known_events last_id
  start_task c t claim =
      if is_failed c.lifecycle_state
      then finish env c.context_id t.task_id claim A2aState.failed none
      else do
        events ← known_events c
        active ← transact env (activate_task c.context_id t.task_id claim (last_id events))
        dispatch c active claim

  start_next : Context → Key → Action (Unit {0})
  unfolding start_task
  start_next c claim = do
    found ← read env (next_queued c.context_id)
    maybe found skip λ t. start_task c t claim

  continue_task : Context → Key → Key → Action (Unit {0})
  continue_task c claim id = do
    found ← read env (task_of id)
    maybe found skip λ t. reconcile_active env c t claim

  wake : Key → ℕ → Action (Unit {0})
  wake context_id delay =
      call env (some (Effect.schedule context_id delay))
        (λ turn. env.schedule turn context_id delay)

  abbrev active_of : Option Context → Option Key
  active_of none = none
  active_of (some c) = truthy c.active_task_id

  -- A context with an active task is looked at again in 30 seconds; a queued one at once.
  wake_later : Key → Action (Unit {0})
  unfolding wake
  wake_later context_id = do
    refreshed ← read env (context_of context_id)
    maybe (active_of refreshed)
        (read env (next_queued context_id) >>= λ queued. maybe queued skip λ _. wake context_id 0)
        λ _. wake context_id 30

  unfoldable pub reconcile : Key → Key → Action (Unit {0})
  unfolding start_next continue_task wake_later
  reconcile context_id claim = do
    found ← read env (context_of context_id)
    maybe found skip λ c. do
      maybe (truthy c.active_task_id) (start_next c claim) (continue_task c claim)
      wake_later context_id

  start_hints : List PreviewHint → Action (Unit {0})
  start_hints hints = for_all hints λ h.
      attempt (call env (some (Effect.start_preview h)) (λ turn. env.start_preview turn h)) >> skip

  take_hints : Action (List PreviewHint)
  take_hints w = (ok w.hints, record w { hints = [] })

  -- The `finally` block: release, then the wake-ups, whose failures are swallowed.
  close : Key → Key → Action (Unit {0})
  unfolding start_hints take_hints
  close context_id claim = do
    transact env (returning (release_scheduler context_id claim))
    hints ← take_hints
    when env.has_push_trigger (
        attempt (
          call env (some (Effect.schedule_push context_id))
            (λ turn. env.schedule_push turn context_id))
        >> skip)
    when env.has_preview_trigger (start_hints hints)

  unfoldable pub lease_seconds : ℕ
  lease_seconds = 60

  under_claim : Key → Key → Action (Unit {0})
  unfolding reconcile close
  under_claim context_id claim = do
    done ← attempt (reconcile context_id claim)
    close context_id claim
    on_outcome done pure raise

  unfoldable pub run_once : Key → Action (Unit {0})
  unfolding under_claim lease_seconds
  run_once context_id = do
    id ← new_key env
    claim ← transact env (returning (claim_scheduler id context_id lease_seconds))
    maybe claim (raise scheduler_busy) (under_claim context_id)

  abbrev mem : Key → List Key → Bool
  mem k ks = any_row (λ j. j == k) ks

  -- Deletes the unreferenced keys, and counts them.
  unfoldable pub delete_orphans : List Key → List Key → Action ℕ
  delete_orphans referenced [] = pure 0
  delete_orphans referenced (k ∷ ks) =
      let rest = delete_orphans referenced ks in
      if mem k referenced
      then rest
      else call env (some (Effect.delete_input k)) (λ turn. env.delete_input turn k)
        >> (rest >>= λ n. pure (suc n))

  unfoldable pub sweep_orphans : Action (ℕ × ℕ)
  unfolding delete_orphans
  sweep_orphans = do
    referenced ← read env pending_input_keys
    old ← call env none (λ turn. env.list_old_keys turn 86400)
    deleted ← delete_orphans referenced old
    stale ← read env stale_pending_input_count
    pure (deleted, stale)
