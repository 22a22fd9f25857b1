-- ===== src/Service/Send.antt =====
-- `ControllerService.send`: a new turn of a context, whose text is stored before it is admitted.
use managed_agent_web_slack.Common.{
  ◌==◌, ℕ, Option, none, some, List, [], ◌∷◌, ◌++◌, Bool, true, false, not, ◌||◌, if◌then◌else◌,
}
use managed_agent_web_slack.Store.{Key, Context, Task, Db, is_terminal}
use managed_agent_web_slack.Runtime.Transaction.{key_error, Result, ok, err}
use managed_agent_web_slack.Runtime.Admission.{Admission, admit}
use managed_agent_web_slack.Sink.Texts.{strip, is_empty}
use managed_agent_web_slack.Service.World.{
  World, Message, Env, Failure, Reply, viewed, failed, meanwhile, put, removed, delete_then,
  wake_then,
}
use managed_agent_web_slack.Service.Continue.{continue_task}

-- The texts of the parts, joined; `none` when one is not a text.
abbrev pub body_of : List (Option (List ℕ)) → Option (List ℕ)
body_of [] = some []
body_of (none ∷ parts) = none
body_of (some text ∷ parts) = elim (body_of parts) [ none ↦ none | some rest ↦ some (text ++ rest) ]

-- `message.context_id or None`
abbrev pub requested : Key → Option Key
requested context_id = if context_id == 0 then none else some context_id

-- Also an idempotent retry wakes the scheduler.
abbrev pub admitted : Env → Context → Task → World → Reply × World
admitted e c t w =
    if is_terminal t.internal_state
    then (viewed t.task_id, w)
    else wake_then e c.context_id (viewed t.task_id) w

abbrev pub after_admission : Env → Key → Result Admission → World → Reply × World
after_admission e key (err key_error) w = delete_then e key (failed Failure.invalid_params, w)
after_admission e key (err x) w = delete_then e key (failed (Failure.raised x), w)
after_admission e key (ok (c, t, true)) w = admitted e c t w
after_admission e key (ok (c, t, false)) w =
    if e.deletes then admitted e c t (removed key w) else (failed Failure.store_failed, w)

abbrev pub with_db : World → Result Admission × Db → Result Admission × World
with_db w (r, db) = (r, record w { db = db })

unfoldable pub admit_stored : Env → Message → World → Reply × World
admit_stored e m w =
    let (r, reached) = with_db w (
      admit e.proposed_context_id (requested m.context_id) m.message_id e.proposed_task_id
        e.object_key w.db) in
    after_admission e e.object_key r reached

unfoldable pub store_and_admit : Env → Message → List ℕ → World → Reply × World
unfolding admit_stored
store_and_admit e m body w =
    if is_empty (strip body)
    then (failed Failure.invalid_params, w)
    else (if e.puts
        then admit_stored e m (meanwhile e 0 (put e e.object_key body w))
        else (failed Failure.store_failed, put e e.object_key body w))

abbrev pub is_none_given : {A : Type 0} → List A → Bool
is_none_given [] = true
is_none_given (x ∷ xs) = false

unfoldable pub send : Env → Message → World → Reply × World
unfolding store_and_admit
send e m w =
    if not m.from_user || m.message_id == 0
    then (failed Failure.invalid_params, w)
    else (if not (m.task_id == 0)
        then continue_task e m w
        else (if not (is_none_given m.extensions) || is_none_given m.parts
            then (failed Failure.invalid_params, w)
            else elim (body_of m.parts) [
              | none ↦ (failed Failure.invalid_params, w)
              | some body ↦ store_and_admit e m body w
            ]))
