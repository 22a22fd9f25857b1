-- ===== src/Scheduler/Run/Kept.antt =====
-- A whole scheduler run keeps every stable invariant that the confirmations keep.
use managed_agent_web_slack.Common.{ℕ, suc, refl, Option, List, [], ◌∷◌}
use managed_agent_web_slack.Store.{Key, Db, HeldReason, Context, Task}
use managed_agent_web_slack.Runtime.Transaction.{Error, definitive}
use managed_agent_web_slack.Scheduler.World.{Env, Effect, PreviewHint}
use managed_agent_web_slack.Scheduler.Finish.Kept.{
  set_task_fields-Keeps, set_context_fields-Keeps, finish-Keeps, bind_input-Keeps,
}
use managed_agent_web_slack.Scheduler.Confirm.{Round, reconcile_confirmations}
use managed_agent_web_slack.Scheduler.Active.Kept.{reconcile_active-Keeps}
use managed_agent_web_slack.Scheduler.Run.{
  hold_task, follow_creation, open_session, create_failed, make_session, dispatch_first,
  send_failed, sent_message, dispatch_next, dispatch, known_events, start_task, start_next,
  continue_task, wake, wake_later, reconcile, start_hints, take_hints, close, under_claim, run_once,
  delete_orphans, sweep_orphans,
}
use managed_agent_web_slack.Scheduler.Keeps.{
  Stable, Keeps, Keeps-bind, Keeps-if, Keeps-call, Keeps-pure,
}
use managed_agent_web_slack.Scheduler.Keeps.Rules.{keeps}
use managed_agent_web_slack.Scheduler.Keeps.Transactions.{
  Keeps-claim, Keeps-release, Keeps-activate_task,
}

module _ {P : Db → List Effect → Type 0} (env : Env) (stable : Stable P) where
  hold_task-Keeps :
      (c : Context) (t : Task) (claim : Key) (h : HeldReason) → Keeps P (hold_task env c t claim h)
  unfolding hold_task
  hold_task-Keeps c t claim h = search (keeps, set_task_fields-Keeps)

  create_failed-Keeps :
      (c : Context) (t : Task) (claim : Key) (e : Error) → Keeps P (create_failed env c t claim e)
  unfolding create_failed
  create_failed-Keeps c t claim definitive = search (keeps, set_context_fields-Keeps, finish-Keeps)
  create_failed-Keeps c t claim _ = search (hold_task-Keeps)

  make_session-Keeps : (c : Context) (text : Key) → Keeps P (make_session env c text)
  unfolding make_session
  make_session-Keeps c text = search (keeps)

  send_failed-Keeps :
      (c : Context) (t : Task) (claim : Key) (e : Error) → Keeps P (send_failed env c t claim e)
  unfolding send_failed
  send_failed-Keeps c t claim definitive = search (finish-Keeps)
  send_failed-Keeps c t claim _ = search (hold_task-Keeps)

  sent_message-Keeps :
      (c : Context) (t : Task) (claim : Key) (id : Option Key)
      → Keeps P (sent_message env c t claim id)
  unfolding sent_message
  sent_message-Keeps c t claim id = search (keeps, hold_task-Keeps, bind_input-Keeps)

  dispatch_next-Keeps :
      (c : Context) (t : Task) (claim text session : Key)
      → Keeps P (dispatch_next env c t claim text session)
  unfolding dispatch_next
  dispatch_next-Keeps c t claim text session =
      search (keeps, sent_message-Keeps, send_failed-Keeps) depth 7

  wake-Keeps : (c : Key) (n : ℕ) → Keeps P (wake env c n)
  unfolding wake
  wake-Keeps c n = search (keeps)

  wake_later-Keeps : (c : Key) → Keeps P (wake_later env c)
  unfolding wake_later
  wake_later-Keeps c = search (keeps, wake-Keeps) depth 8

  known_events-Keeps : (c : Context) → Keeps P (known_events env c)
  unfolding known_events
  known_events-Keeps c = search (keeps)

  start_hints-Keeps : (hints : List PreviewHint) → Keeps P (start_hints env hints)
  unfolding start_hints
  start_hints-Keeps hints = search (keeps) depth 7

  take_hints-Keeps : Keeps P (take_hints env)
  unfolding take_hints
  take_hints-Keeps = record { at = λ w h. h }

  close-Keeps : (c claim : Key) → Keeps P (close env c claim)
  unfolding close
  close-Keeps c claim = search (keeps, Keeps-release, take_hints-Keeps, start_hints-Keeps) depth 12

  delete_orphans-Keeps : (used old : List Key) → Keeps P (delete_orphans env used old)
  unfolding delete_orphans
  delete_orphans-Keeps used [] = search (keeps)
  delete_orphans-Keeps used (k ∷ old) =
      let rest = delete_orphans-Keeps used old in
      Keeps-if _ _ _ rest (
        Keeps-bind _ _ (Keeps-call env stable _ _ refl)
          (λ _. Keeps-bind _ _ rest (λ n. Keeps-pure (suc n))))

  -- The sweep of orphaned objects keeps every stable invariant.
  pub sweep_orphans-Keeps : Keeps P (sweep_orphans env)
  unfolding sweep_orphans
  sweep_orphans-Keeps = search (keeps, delete_orphans-Keeps) depth 8

module _ {P : Db → List Effect → Type 0} (env : Env) (stable : Stable P)
    (confirmed : (r : Round) → Keeps P (reconcile_confirmations env r)) where
  follow_creation-Keeps :
      (c : Context) (t : Task) (claim id : Key) → Keeps P (follow_creation env c t claim id)
  unfolding follow_creation
  follow_creation-Keeps c t claim id =
      search (keeps, bind_input-Keeps, reconcile_active-Keeps) depth 8

  open_session-Keeps :
      (c : Context) (t : Task) (claim s : Key) → Keeps P (open_session env c t claim s)
  unfolding open_session
  open_session-Keeps c t claim s =
      search (keeps, set_context_fields-Keeps, hold_task-Keeps, follow_creation-Keeps) depth 8

  dispatch_first-Keeps :
      (c : Context) (t : Task) (claim text : Key) → Keeps P (dispatch_first env c t claim text)
  unfolding dispatch_first
  dispatch_first-Keeps c t claim text =
      search (keeps, make_session-Keeps, open_session-Keeps, create_failed-Keeps) depth 8

  dispatch-Keeps : (c : Context) (t : Task) (claim : Key) → Keeps P (dispatch env c t claim)
  unfolding dispatch
  dispatch-Keeps c t claim = search (keeps, dispatch_first-Keeps, dispatch_next-Keeps)

  start_task-Keeps : (c : Context) (t : Task) (claim : Key) → Keeps P (start_task env c t claim)
  unfolding start_task
  start_task-Keeps c t claim =
      search (keeps, finish-Keeps, known_events-Keeps, Keeps-activate_task, dispatch-Keeps) depth 8

  start_next-Keeps : (c : Context) (claim : Key) → Keeps P (start_next env c claim)
  unfolding start_next
  start_next-Keeps c claim = search (keeps, start_task-Keeps)

  continue_task-Keeps : (c : Context) (claim id : Key) → Keeps P (continue_task env c claim id)
  unfolding continue_task
  continue_task-Keeps c claim id = search (keeps, reconcile_active-Keeps)

  reconcile-Keeps : (c claim : Key) → Keeps P (reconcile env c claim)
  unfolding reconcile
  reconcile-Keeps c claim =
      search (keeps, start_next-Keeps, continue_task-Keeps, wake_later-Keeps) depth 8

  under_claim-Keeps : (c claim : Key) → Keeps P (under_claim env c claim)
  unfolding under_claim
  under_claim-Keeps c claim = search (keeps, reconcile-Keeps, close-Keeps) depth 8

  -- A run of the scheduler keeps every stable invariant.
  pub run_once-Keeps : (c : Key) → Keeps P (run_once env c)
  unfolding run_once
  run_once-Keeps c = search (keeps, Keeps-claim, under_claim-Keeps) depth 8
