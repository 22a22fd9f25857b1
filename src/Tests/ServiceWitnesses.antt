-- ===== src/Tests/ServiceWitnesses.antt =====
-- The theorems on the A2A service at concrete inputs.
use managed_agent_web_slack.Common.{
  ℕ, length, List, leb, if◌then◌else◌, ◌≡◌, refl, none, some, [], ◌∷◌, ◌++◌, true,
}
use managed_agent_web_slack.Store.{Key, Task, task_of, context_of}
use managed_agent_web_slack.Runtime.Admission.{admit, active_awaits_input, rejection, admitted_task}
use managed_agent_web_slack.Runtime.Admission.Created.{HasInput}
use managed_agent_web_slack.Runtime.Identity.{find_task_by_message_id, insert_task}
use managed_agent_web_slack.Runtime.Moves.Defs.{moves}
use managed_agent_web_slack.Sink.Texts.{is_space}
use managed_agent_web_slack.Service.World.{World, Message, Env}
use managed_agent_web_slack.Service.Send.{send, store_and_admit, admit_stored}
use managed_agent_web_slack.Service.Orphans.{is_stored, send-NotOrphan}
use managed_agent_web_slack.Scheduler.Events.{EventKind}
use managed_agent_web_slack.Service.History.{Entry, history}
use managed_agent_web_slack.Service.History.Window.{Turn, EndsWith, messages_in, history-OfTurn}
use managed_agent_web_slack.Tests.Fixtures.{task, tables}

abbrev service_env : Env
service_env = record {
  human_input_enabled = true;
  puts = true;
  stores = true;
  deletes = true;
  schedules = true;
  pushes = none;
  decides = true;
  proposed_context_id = 13;
  proposed_task_id = 24;
  object_key = 90;
  others = λ n. [];
}

abbrev hello : Message
hello = record {
  from_user = true;
  message_id = 14;
  task_id = 0;
  context_id = 10;
  extensions = [];
  parts = some (104 ∷ 105 ∷ []) ∷ [];
  response = none;
}

abbrev service_world : World
service_world = record { db = tables; inputs = []; woken = []; pushed = [] }

stores_hello : is_stored 90 (send service_env hello service_world).1 ≡ true
unfolding send store_and_admit admit_stored admit is_space moves context_of active_awaits_input
    rejection admitted_task find_task_by_message_id insert_task task_of
stores_hello = refl

send-NotOrphan_example : HasInput 90 (send service_env hello service_world).1.db
send-NotOrphan_example =
    send-NotOrphan service_env hello service_world refl refl refl refl stores_hello

-- Another turn's message, the task's own, the agent's answer, and a later turn.
abbrev said : Key → EventKind → List ℕ → Entry
said id kind text = record {
  event = record { id = some id; kind = kind };
  content = none ∷ some text ∷ [];
}

abbrev ended_task : Task
ended_task = record task { cma_terminal_event_id = some 61 }

abbrev earlier : List Entry
earlier = said 59 EventKind.agent_message (111 ∷ []) ∷ []

abbrev opening : Entry
opening = said 60 EventKind.user_message (104 ∷ 105 ∷ [])

abbrev answered : List Entry
answered = said 61 EventKind.agent_message (111 ∷ 107 ∷ []) ∷ []

abbrev later : List Entry
later = said 62 EventKind.user_message (120 ∷ []) ∷ []

abbrev all_told : List Entry
all_told = earlier ++ (opening ∷ answered ++ later)

history-OfTurn_example :
    (history ended_task all_told none none ≡ messages_in ended_task (opening ∷ answered))
    × EndsWith
        (messages_in ended_task (opening ∷ answered))
        (history ended_task all_told none (some 1))
    × (length (history ended_task all_told none (some 1)) ≡ (
        if leb 1 (length (messages_in ended_task (opening ∷ answered)))
        then 1
        else length (messages_in ended_task (opening ∷ answered))))
history-OfTurn_example =
    history-OfTurn ended_task earlier opening answered later none 1 refl refl
      (Turn.step refl (Turn.terminal refl))
