-- ===== src/Threads.antt =====
-- The application's threads: the tables agent_threads, thread_surface_bindings, agent_tasks,
-- principals and external_identities, which db/thread_repository.py and db/repositories.py of
-- backend/src/managed_agents_app keep. A title is the list of its code points.
pub mod Identities
pub mod Creation
pub mod Surfaces
pub mod Sends
pub mod Contexts
pub mod Moves
use managed_agent_web_slack.Common.{
  ℕ, zero, suc, Option, none, some, List, [], ◌∷◌, Bool, true, false, ◌==◌, any_row, find_row,
}
use managed_agent_web_slack.Store.{Key, Time}

pub data ContextState : Type 0 where
  uninitialized initializing ready : ContextState

pub record Thread : Type 0 where
  pub thread_id : Key
  pub principal_id : Key
  pub agent_id : Key
  pub context_id : Option Key
  pub context_state : ContextState
  pub context_init_claim_id : Option Key
  pub context_init_lease_expires_at : Option Time
  pub creation_request_id : Option Key
  pub title : Option (List ℕ)
  pub created_at : Time
  pub updated_at : Time
  pub archived_at : Option Time

pub record SurfaceBinding : Type 0 where
  pub binding_id : Key
  pub thread_id : Key
  pub surface : Key
  pub tenant_id : Key
  pub external_thread_id : Key
  pub created_at : Time

pub data SubmissionStatus : Type 0 where
  pending bound failed : SubmissionStatus

-- A row of agent_tasks: one logical send, and the task that it made.
pub record LogicalSend : Type 0 where
  pub task_binding_id : Key
  pub thread_id : Key
  pub agent_id : Key
  pub client_message_id : Key
  pub task_id : Option Key
  pub submission_status : SubmissionStatus
  pub created_at : Time
  pub updated_at : Time

pub record ExternalIdentity : Type 0 where
  pub identity_id : Key
  pub principal_id : Key
  pub provider : Key
  pub tenant_id : Key
  pub external_user_id : Key

pub record ThreadDb : Type 0 where
  pub now : Time
  pub principals : List Key
  pub identities : List ExternalIdentity
  pub threads : List Thread
  pub bindings : List SurfaceBinding
  pub sends : List LogicalSend

-- The exceptions: `binding_conflict` is BindingConflict, `surface_race` is _SurfaceCreationRace,
-- `runtime_error` a RuntimeError, and the last two are psycopg's.
pub data ThreadError : Type 0 where
  value_error key_error binding_conflict surface_race runtime_error : ThreadError
  unique_violation foreign_key : ThreadError

pub data Outcome {ℓ} (A : Type ℓ) : Type ℓ where
  ok : A → Outcome A
  err : ThreadError → Outcome A

abbrev pub is_ready : ContextState → Bool
is_ready ContextState.ready = true
is_ready _ = false

abbrev pub is_initializing : ContextState → Bool
is_initializing ContextState.initializing = true
is_initializing _ = false

abbrev pub is_uninitialized : ContextState → Bool
is_uninitialized ContextState.uninitialized = true
is_uninitialized _ = false

abbrev pub is_bound : SubmissionStatus → Bool
is_bound SubmissionStatus.bound = true
is_bound _ = false

abbrev pub is_pending : SubmissionStatus → Bool
is_pending SubmissionStatus.pending = true
is_pending _ = false

abbrev pub has_principal : Key → ThreadDb → Bool
has_principal id db = any_row (λ p. p == id) db.principals

unfoldable pub get_thread : Key → ThreadDb → Option Thread
get_thread thread_id db = find_row (λ t. t.thread_id == thread_id) db.threads
