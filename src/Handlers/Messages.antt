-- ===== src/Handlers/Messages.antt =====
-- `_message` and `_link_existing` of handlers/agent_input.py.
use managed_agent_web_slack.Common.{
  ◌==◌, Option, none, some, Bool, true, false, not, ◌&&◌, if◌then◌else◌, is_none,
}
use managed_agent_web_slack.Store.{Key}
use managed_agent_web_slack.Threads.{
  Thread, SurfaceBinding, ThreadDb, binding_conflict, Outcome, ok, err, get_thread,
}
use managed_agent_web_slack.Threads.Creation.{take, owns_thread}
use managed_agent_web_slack.Threads.Surfaces.{get_or_create_surface_thread, bind_surface}
use managed_agent_web_slack.Threads.Moves.Races.{attempt_of}
use managed_agent_web_slack.Slack.Projections.{ensure_projection}
use managed_agent_web_slack.Sink.Texts.{strip, is_empty}
use managed_agent_web_slack.Turns.Send.{Turn, sent, send_turn}
use managed_agent_web_slack.Handlers.World.{
  Text, unlinked, unauthorized, unknown_thread, already_linked, linked, reply, work_started,
  projection_requested, World, of_thread, of_turn, empty_text, unregistered, running, Env, Handled,
  done, raised, Action, ◌>>=◌, ◌>>◌, pure, raise, or_raise, check, meanwhile, query, outcome,
  committing, on_slack, publish,
}
use managed_agent_web_slack.Handlers.Claims.{
  slack_surface, Origin, SlackMessage, surface_of, authorize, binding_of, complete, attempt,
  claimed,
}

-- `bind_surface` under `except BindingConflict`
abbrev pub linked_or : Env → Key → Outcome SurfaceBinding → Action (Option Key)
linked_or e id (ok b) = do publish e 1 (reply (linked id)); pure (some id)
linked_or e id (err binding_conflict) = do publish e 1 (reply already_linked); pure none
linked_or e id (err x) = raise (of_thread x)

abbrev pub threads_result : {A : Type 0} → A × ThreadDb → World → Handled A × World
threads_result (r, db) w = (done r, record w { threads = db })

abbrev pub bind_to : Env → Key → Origin → Action (Option Key)
bind_to e id o =
    (λ w.
      committing (e.commits 4)
        (threads_result (bind_surface e.binding_id id (surface_of o) w.threads) w) w)
    >>= linked_or e id

abbrev pub not_linked : Env → Text → Action (Option Key)
not_linked e text = do publish e 0 (reply text); pure none

abbrev pub link_bound : Env → Origin → Key → Option SurfaceBinding → Action (Option Key)
link_bound e o id none = bind_to e id o
link_bound e o id (some row) =
    if row.thread_id == id then bind_to e id o else not_linked e already_linked

abbrev pub link_owned : Env → Origin → Key → Bool → Action (Option Key)
link_owned e o id false = not_linked e unknown_thread
link_owned e o id true = do b ← query (binding_of o); link_bound e o id b

abbrev pub link_target : Env → Key → Origin → Key → Option Thread → Action (Option Key)
link_target e p o id none = not_linked e unknown_thread
link_target e p o id (some t) = do
  owned ← query (λ w. owns_thread p t.thread_id w.threads)
  link_owned e o id owned

-- `_link_existing`
unfoldable pub link_existing : Env → Key → Origin → Option Key → Action (Option Key)
link_existing e p o none = not_linked e unknown_thread
link_existing e p o (some id) = do
  target ← query (λ w. get_thread id w.threads)
  link_target e p o id target

abbrev pub surface_thread : Env → Key → Key → SlackMessage → Action (Thread × SurfaceBinding)
surface_thread e p agent m w =
    let (r, db) =
      get_or_create_surface_thread 1 (λ n. attempt_of (e.creators n))
        (record {
          principal_id = p;
          agent_id = agent;
          surface = surface_of m.origin;
          title = some (take 60 m.text);
        })
        w.threads in
    let reached = record w { threads = db } in
    committing (e.commits 5)
      (elim r [ none ↦ (raised running, reached) | some x ↦ (outcome x, reached) ]) w

abbrev pub task_of_turn : Turn × ThreadDb → World → Handled Key × World
task_of_turn (sent task_id context_id, db) w = (done task_id, record w { threads = db })
task_of_turn (turn, db) w = (raised (of_turn turn), record w { threads = db })

abbrev pub take_turn : Env → Key → SlackMessage → Action Key
take_turn e thread_id m w =
    task_of_turn
      (send_turn e.turn thread_id (e.message_id m.origin.team_id m.origin.event_id) m.text
        w.threads)
      w

-- `_projection`
abbrev pub projection : Env → SlackMessage → Thread × SurfaceBinding → Key → Action (Unit {0})
projection e m (t, b) task_id =
    meanwhile e 3
    >> on_slack (e.commits 3) (
        ensure_projection b.binding_id task_id (record {
          request_event_id = some m.origin.event_id;
          source_message_ts = some m.message_ts;
          initiator_user_id = some m.origin.user_id;
        }))
    >> publish e 2 (projection_requested t.thread_id task_id b.binding_id)

-- `_work_started`, and the turn.
abbrev pub run_turn : Env → SlackMessage → Thread → Action Key
run_turn e m t =
    publish e 1 (work_started m.origin.event_id) >> meanwhile e 2 >> take_turn e t.thread_id m

abbrev pub submit_on : Env → SlackMessage → Key → Thread × SurfaceBinding → Action (Unit {0})
submit_on e m k (t, b) = do
  task_id ← run_turn e m t
  projection e m (t, b) task_id
  complete e slack_surface m.origin.event_id k (some t.thread_id) (some task_id)

-- From the surface's thread on.
unfoldable pub submit : Env → Key → SlackMessage → Key → Action (Unit {0})
submit e p m k = do
  agent ← or_raise e.agent unregistered
  found ← surface_thread e p agent m
  submit_on e m k found

-- May the principal use the thread that the surface is bound to?
abbrev pub may_use : Key → Option SurfaceBinding → World → Bool
may_use p none w = true
may_use p (some b) w = owns_thread p b.thread_id w.threads

abbrev pub refuse : Env → Origin → Text → Key → Action (Unit {0})
refuse e o text k = do publish e 0 (reply text); complete e slack_surface o.event_id k none none

abbrev pub submit_if : Env → Key → SlackMessage → Key → Bool → Action (Unit {0})
submit_if e p m k true = submit e p m k
submit_if e p m k false = refuse e m.origin unauthorized k

-- A link command, or a turn.
abbrev pub act :
    Env → Key → SlackMessage → Option SurfaceBinding → Key → Option (Option Key) → Action (Unit {0})
act e p m b k (some target) = do
  thread_id ← link_existing e p m.origin target
  complete e slack_surface m.origin.event_id k thread_id none
act e p m b k none = do
  check (not (is_empty (strip m.text))) empty_text
  owned ← query (may_use p b)
  submit_if e p m k owned

abbrev pub as_principal :
    Env → SlackMessage → Option SurfaceBinding → Key → Option Key → Action (Unit {0})
as_principal e m b k none = refuse e m.origin unlinked k
as_principal e m b k (some p) =
    if p == 0 then refuse e m.origin unlinked k else act e p m b k m.link

-- The `try` of `_message`.
unfoldable pub message_body : Env → SlackMessage → Option SurfaceBinding → Key → Action (Unit {0})
unfolding submit link_existing
message_body e m b k = do meanwhile e 1; p ← query (authorize e m.origin); as_principal e m b k p

abbrev pub message_claimed : Env → SlackMessage → Option SurfaceBinding → Action (Unit {0})
message_claimed e m b =
    if m.is_channel_message && is_none b
    then pure tt
    else claimed e slack_surface m.origin.event_id
        (λ k. attempt e slack_surface m.origin.event_id k (message_body e m b k))

unfoldable pub message : Env → SlackMessage → Action (Unit {0})
message e m = do b ← query (binding_of m.origin); meanwhile e 0; message_claimed e m b
