-- ===== src/Slack.antt =====
-- The Slack side's tables surface_ingress_events, slack_task_projections and slack_projection_items,
-- which db/slack_a2a_repository.py of backend/src/managed_agents_app keeps. Errors are kept as lists
-- of code points.
pub mod Ingress
pub mod Projections
pub mod Items
pub mod Moves
use managed_agent_web_slack.Common.{ℕ, zero, suc, Option, List, [], ◌∷◌}
use managed_agent_web_slack.Store.{Key, Time, A2aState}

pub data IngressStatus : Type 0 where
  received sending sent failed : IngressStatus

pub record IngressEvent : Type 0 where
  pub ingress_id : Key
  pub surface : Key
  pub external_event_id : Key
  pub status : IngressStatus
  pub thread_id : Option Key
  pub task_id : Option Key
  pub attempts : ℕ
  pub claim_id : Option Key
  pub lease_expires_at : Option Time
  pub last_error : Option (List ℕ)
  pub updated_at : Time

pub data ProjectionStatus : Type 0 where
  pending streaming completed fallback : ProjectionStatus

pub record Projection : Type 0 where
  pub binding_id : Key
  pub task_id : Key
  pub request_event_id : Option Key
  pub source_message_ts : Option Key
  pub initiator_user_id : Option Key
  pub status : ProjectionStatus
  pub slack_message_ts : Option Key
  pub last_task_state : Option A2aState
  pub attempts : ℕ
  pub claim_id : Option Key
  pub lease_expires_at : Option Time
  pub last_error : Option (List ℕ)
  pub updated_at : Time

pub data ItemKind : Type 0 where
  agent_message human_input : ItemKind

pub data ItemStatus : Type 0 where
  posting posted failed : ItemStatus

pub record Item : Type 0 where
  pub binding_id : Key
  pub task_id : Key
  pub item_kind : ItemKind
  pub item_id : Key
  pub status : ItemStatus
  pub attempts : ℕ
  pub claim_id : Option Key
  pub lease_expires_at : Option Time
  pub last_error : Option (List ℕ)
  pub slack_message_ts : Option Key
  pub projected_at : Option Time

-- `threads` and `bindings` are the ids that the tables refer to.
pub record SlackDb : Type 0 where
  pub now : Time
  pub threads : List Key
  pub bindings : List Key
  pub events : List IngressEvent
  pub projections : List Projection
  pub items : List Item

-- `busy` and `completed` carry the row, if there is one.
pub data Claim (R : Type 0) : Type 0 where
  acquired : Key → R → Claim R
  busy completed : Option R → Claim R

-- `error[:1000]`
abbrev pub take : ℕ → List ℕ → List ℕ
take zero xs = []
take (suc n) [] = []
take (suc n) (x ∷ xs) = x ∷ take n xs
