-- ===== src/Handlers/Claims.antt =====
-- handlers/agent_input.py: whose event it is, its claim, and the end of the claim.
use managed_agent_web_slack.Common.{ℕ, Option, none, some, List, Bool, if◌then◌else◌}
use managed_agent_web_slack.Store.{Key}
use managed_agent_web_slack.Threads.{SurfaceBinding}
use managed_agent_web_slack.Threads.Identities.{resolve_external_identity}
use managed_agent_web_slack.Threads.Creation.{owns_thread}
use managed_agent_web_slack.Threads.Surfaces.{Surface, get_surface_binding}
use managed_agent_web_slack.Slack.{IngressEvent, Claim, acquired, busy, completed}
use managed_agent_web_slack.Slack.Ingress.{claim_ingress, complete_ingress, fail_ingress}
use managed_agent_web_slack.Handlers.World.{
  World, delivery_busy, Env, Handled, done, raised, Action, ◌>>=◌, pure, raise, committing,
  on_slack,
}

-- "slack", "slack-stop" and "slack-interaction"
abbrev pub slack_surface : Key
slack_surface = 6

abbrev pub stop_surface : Key
stop_surface = 7

abbrev pub interaction_surface : Key
interaction_surface = 8

-- Where an event comes from: `external_thread_id` writes the channel and the thread.
pub record Origin : Type 0 where
  pub team_id : Key
  pub external_thread_id : Key
  pub user_id : Key
  pub event_id : Key

-- `link` is the target of a link command.
pub record SlackMessage : Type 0 where
  pub origin : Origin
  pub message_ts : Key
  pub is_channel_message : Bool
  pub link : Option (Option Key)
  pub text : List ℕ

pub record Confirmation : Type 0 where
  pub origin : Origin
  pub task_id : Key
  pub input_request_id : Key
  pub has_response_message : Bool

abbrev pub surface_of : Origin → Surface
surface_of o = record {
  surface = slack_surface;
  tenant_id = o.team_id;
  external_thread_id = o.external_thread_id;
}

-- `_authorize`
abbrev pub authorize : Env → Origin → World → Option Key
authorize e o w =
    if e.allowed
    then resolve_external_identity slack_surface o.team_id o.user_id w.threads
    else none

abbrev pub binding_of : Origin → World → Option SurfaceBinding
binding_of o w = get_surface_binding (surface_of o) w.threads

-- `_owned_thread`
abbrev pub owned_thread : Option Key → Option SurfaceBinding → World → Option Key
owned_thread none b w = none
owned_thread (some p) none w = none
owned_thread (some p) (some b) w =
    if owns_thread p b.thread_id w.threads then some b.thread_id else none

abbrev pub complete : Env → Key → Key → Key → Option Key → Option Key → Action (Unit {0})
complete e surface event_id k thread_id task_id =
    on_slack (e.commits 1) (complete_ingress surface event_id k thread_id task_id)

-- `except Exception`, where `fail_ingress` may raise in its turn.
abbrev pub or_fail : Env → Key → Key → Key → Handled (Unit {0}) × World → Handled (Unit {0}) × World
or_fail e surface event_id k (done u, w) = (done u, w)
or_fail e surface event_id k (raised x, w) =
    committing (e.commits 2)
      (raised x, record w { slack = fail_ingress surface event_id k (e.error_text x) w.slack }) w

abbrev pub attempt : Env → Key → Key → Key → Action (Unit {0}) → Action (Unit {0})
attempt e surface event_id k body w = or_fail e surface event_id k (body w)

-- `_claim`, and the rest under the claim.
abbrev pub under_claim : Claim IngressEvent → (Key → Action (Unit {0})) → Action (Unit {0})
under_claim (acquired k row) body = body k
under_claim (busy row) body = raise delivery_busy
under_claim (completed row) body = pure tt

abbrev pub claimed : Env → Key → Key → (Key → Action (Unit {0})) → Action (Unit {0})
claimed e surface event_id body = do
  c ← on_slack (e.commits 0) (claim_ingress e.ingress_id e.token surface event_id 60)
  under_claim c body
