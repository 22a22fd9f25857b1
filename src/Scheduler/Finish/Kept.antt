-- ===== src/Scheduler/Finish/Kept.antt =====
-- The actions of Scheduler/Finish keep every stable invariant.
use managed_agent_web_slack.Common.{Option, List}
use managed_agent_web_slack.Store.{Key, A2aState, Task, Db}
use managed_agent_web_slack.Runtime.Lease.{TaskField, ContextField}
use managed_agent_web_slack.Scheduler.World.{Env, Effect, PreviewHint}
use managed_agent_web_slack.Scheduler.Finish.{
  keep_hint, set_task_fields, set_context_fields, read_hint, preview, preview_resolved,
  resolve_input, finish, delete_handoff, bind_input,
}
use managed_agent_web_slack.Scheduler.Keeps.{Stable, Keeps, Keeps-bind}
use managed_agent_web_slack.Scheduler.Keeps.Rules.{keeps}
use managed_agent_web_slack.Scheduler.Keeps.Transactions.{
  Keeps-update_task, Keeps-update_context, Keeps-resolve_input_request,
}

module _ {P : Db → List Effect → Type 0} where
  keep_hint-Keeps : (h : PreviewHint) → Keeps P (keep_hint h)
  unfolding keep_hint
  keep_hint-Keeps h = record { at = λ w k. k }

module _ {P : Db → List Effect → Type 0} (env : Env) (stable : Stable P) where
  pub set_task_fields-Keeps :
      (t c claim : Key) (fields : List TaskField) → Keeps P (set_task_fields env t c claim fields)
  unfolding set_task_fields
  set_task_fields-Keeps t c claim fields = search (keeps, Keeps-update_task)

  pub set_context_fields-Keeps :
      (c claim : Key) (fields : List ContextField) → Keeps P (set_context_fields env c claim fields)
  unfolding set_context_fields
  set_context_fields-Keeps c claim fields = search (keeps, Keeps-update_context)

  read_hint-Keeps : (t c phase : Key) → Keeps P (read_hint env t c phase)
  unfolding read_hint
  read_hint-Keeps t c phase = search (keeps, keep_hint-Keeps) depth 9

  pub preview-Keeps : (t c phase : Key) → Keeps P (preview env t c phase)
  unfolding preview
  preview-Keeps t c phase = search (keeps, read_hint-Keeps)

  preview_resolved-Keeps : (r t c : Key) → Keeps P (preview_resolved env r t c)
  unfolding preview_resolved
  preview_resolved-Keeps r t c = search (keeps, preview-Keeps)

  pub resolve_input-Keeps : (r t c claim : Key) → Keeps P (resolve_input env r t c claim)
  unfolding resolve_input
  resolve_input-Keeps r t c claim =
      Keeps-bind _ _ (Keeps-resolve_input_request env stable r c claim)
        (λ _. search (keeps, preview_resolved-Keeps))

  pub finish-Keeps :
      (c t claim : Key) (state : A2aState) (id : Option Key)
      → Keeps P (finish env c t claim state id)
  unfolding finish
  finish-Keeps c t claim state id = search (keeps, set_task_fields-Keeps, set_context_fields-Keeps)

  delete_handoff-Keeps : (k : Key) → Keeps P (delete_handoff env k)
  unfolding delete_handoff
  delete_handoff-Keeps k = search (keeps)

  pub bind_input-Keeps : (t : Task) (c claim e : Key) → Keeps P (bind_input env t c claim e)
  unfolding bind_input
  bind_input-Keeps t c claim e =
      search (keeps, set_task_fields-Keeps, preview-Keeps, delete_handoff-Keeps)
