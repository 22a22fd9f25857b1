-- ===== src/Service/Continue.antt =====
-- `ControllerService._continue` and `cancel`: a person's answer to an open task, and its end.
use managed_agent_web_slack.Common.{
  ◌==◌, ℕ, equals, Option, none, some, List, [], ◌∷◌, Bool, true, false, not, ◌&&◌, ◌||◌, ◌++◌,
  if◌then◌else◌, any_row,
}
use managed_agent_web_slack.Store.{
  Key, Task, Clarification, Db, is_terminal, awaits_input, is_pending, task_of,
}
use managed_agent_web_slack.Runtime.Review.{record_human_ruling}
use managed_agent_web_slack.Runtime.Requests.{
  InputRequest, get_input_request, decide_clarification_request,
}
use managed_agent_web_slack.Runtime.Tasks.{cancel_task}
use managed_agent_web_slack.Service.World.{
  World, Message, Response, approval, clarification, Env, Failure, Reply, viewed, failed, meanwhile,
  put, removed, delete_then, wake_then,
}

-- HUMAN_INPUT_EXTENSION_URI
abbrev pub human_input_extension : Key
human_input_extension = 5

abbrev pub no_parts : List (Option (List ℕ)) → Bool
no_parts [] = true
no_parts (p ∷ parts) = false

abbrev pub only_human_input : Env → Message → Bool
only_human_input e m =
    e.human_input_enabled && any_row (λ x. x == human_input_extension) m.extensions

-- `message.parts or set(message.extensions) != {HUMAN_INPUT_EXTENSION_URI}`
abbrev pub has_more : Message → Bool
has_more m = not (no_parts m.parts) || any_row (λ x. not (x == human_input_extension)) m.extensions

-- The row that the answer's key was written to, or a row with an older answer.
abbrev pub after_decision : Env → Message → Option Clarification × Db → World → Reply × World
after_decision e m (none, db) w =
    delete_then e e.object_key (failed Failure.invalid_params, record w { db = db })
after_decision e m (some row, db) w =
    let reached = record w { db = db } in
    if equals row.answer_object_key e.object_key
    then wake_then e m.context_id (viewed m.task_id) reached
    else (if e.deletes
        then wake_then e m.context_id (viewed m.task_id) (removed e.object_key reached)
        else (failed Failure.store_failed, reached))

unfoldable pub answer : Env → Message → Key → List ℕ → World → Reply × World
answer e m request_id text w =
    if not e.puts
    then (failed Failure.store_failed, put e e.object_key text w)
    else (let stored = meanwhile e 2 (put e e.object_key text w) in
        if e.decides
        then after_decision e m
            (decide_clarification_request request_id m.task_id e.object_key stored.db) stored
        else delete_then e e.object_key (failed Failure.database_failed, stored))

-- The task was read before, and so was the request.
unfoldable pub clarify :
    Env → Message → Task → Key → List ℕ → Option InputRequest → World → Reply × World
unfolding answer
clarify e m t request_id text none w = (failed Failure.invalid_params, w)
clarify e m t request_id text (some (InputRequest.tool_approval r)) w =
    (failed Failure.invalid_params, w)
clarify e m t request_id text (some (InputRequest.clarification r)) w =
    if not (is_pending r.status)
    then (viewed m.task_id, w)
    else (if not (awaits_input t.internal_state)
        then (failed Failure.invalid_params, w)
        else answer e m request_id text w)

abbrev pub after_ruling : Env → Message → Bool × Db → World → Reply × World
after_ruling e m (accepted, db) w =
    if accepted
    then wake_then e m.context_id (viewed m.task_id) (record w { db = db })
    else (failed Failure.invalid_params, record w { db = db })

unfoldable pub respond : Env → Message → Task → Response → World → Reply × World
unfolding clarify
respond e m t (approval request_id ruling) w =
    let reached = meanwhile e 1 w in
    after_ruling e m (record_human_ruling request_id m.task_id ruling reached.db) reached
respond e m t (clarification request_id text) w =
    let reached = meanwhile e 1 w in
    clarify e m t request_id text (get_input_request request_id m.task_id reached.db) reached

abbrev pub respond_to : Env → Message → Task → Option Response → World → Reply × World
respond_to e m t none w = (failed Failure.invalid_params, w)
respond_to e m t (some r) w = respond e m t r w

unfoldable pub continue_task : Env → Message → World → Reply × World
unfolding respond
continue_task e m w =
    if not (only_human_input e m) || has_more m
    then (failed Failure.invalid_params, w)
    else elim (task_of m.task_id w.db) [
      | none ↦ (failed Failure.task_not_found, w)
      | some t ↦
          if t.context_id == m.context_id
          then respond_to e m t m.response w
          else (failed Failure.task_not_found, w)
    ]

-- An error of the push trigger is suppressed.
abbrev pub push_context : Env → Key → World → World
push_context e context_id w = elim e.pushes [
  | none ↦ w
  | some published ↦ if published then record w { pushed = w.pushed ++ context_id ∷ [] } else w
]

abbrev pub after_cancel : Env → Key → Option Task × Db → World → Reply × World
after_cancel e task_id (none, db) w = (failed Failure.assertion_failed, record w { db = db })
after_cancel e task_id (some t, db) w =
    if is_terminal t.internal_state
    then (viewed task_id, push_context e t.context_id (record w { db = db }))
    else wake_then e t.context_id (viewed task_id) (record w { db = db })

unfoldable pub cancel : Env → Key → World → Reply × World
cancel e task_id w = elim (task_of task_id w.db) [
  | none ↦ (failed Failure.task_not_found, w)
  | some before ↦
      let reached = meanwhile e 0 w in
      after_cancel e task_id (cancel_task task_id reached.db) reached
]
