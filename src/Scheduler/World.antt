-- ===== src/Scheduler/World.antt =====
-- The scheduler's program as actions on a world: the tables, the calls that it made outside, and a
-- turn that counts its calls. What is outside the controller is the record `Env`: at each turn it
-- says which transactions of others have committed meanwhile, and how each service answers, so one
-- `Env` is one schedule of the other workers together with one behaviour of the services.
use Prim.Native.String.{String}
use managed_agent_web_slack.Common.{ℕ, suc, Option, none, some, List, [], ◌∷◌, Bool, if◌then◌else◌}
use managed_agent_web_slack.Store.{Key, Decision, PolicyCode, Db}
use managed_agent_web_slack.Runtime.Transaction.{
  Error, Result, Transaction, ok, err, definitive, external,
}
use managed_agent_web_slack.Runtime.Moves.Defs.{Move, moves}
use managed_agent_web_slack.Scheduler.Events.{Event}

-- How a call to a service ends: DefinitiveProviderError is told from other failures.
pub data Answer {ℓ} (A : Type ℓ) : Type ℓ where
  replied : A → Answer A
  rejected : Answer A
  failed : Answer A

pub data ToolKind : Type 0 where
  builtin mcp : ToolKind

pub record ToolPolicyRequest : Type 0 where
  pub root_id : Key
  pub invocation_id : Key
  pub tool_kind : ToolKind
  pub tool_name : String
  pub arguments : Key

pub record HumanReview : Type 0 where
  pub authority : Key
  pub fingerprint : Key
  pub description : Key

-- `other` is a decision text outside the type's three.
pub data Verdict : Type 0 where
  allow deny human_review other : Verdict

pub record ToolPolicyDecision : Type 0 where
  pub decision : Verdict
  pub review : Option HumanReview

pub data PolicyAnswer : Type 0 where
  decision : ToolPolicyDecision → PolicyAnswer
  policy_error : PolicyCode → PolicyAnswer
  timed_out broken : PolicyAnswer

-- The ruling that a person gave on an earlier review.
pub record Ruling : Type 0 where
  pub authority : Key
  pub fingerprint : Key
  pub ruling : Decision

pub record PreviewHint : Type 0 where
  pub task_id : Key
  pub context_id : Key
  pub session_id : Key
  pub phase_id : Key

pub record Env : Type 0 where
  -- the other workers' commits and the time that pass before a turn; a failed database call
  pub meanwhile : ℕ → List Move
  pub database_down : ℕ → Bool
  -- uuid4, and the uuid5 of a task and a provider event
  pub fresh : ℕ → Key
  pub approval_request_id : Key → Key → Key
  -- the provider
  pub find_session : ℕ → Key → Key → Answer (Option Key)
  pub create_session : ℕ → Key → Key → Key → Answer Key
  pub list_events : ℕ → Key → Answer (List Event)
  pub send_message : ℕ → Key → Key → Answer (Option Key)
  pub confirm_tool : ℕ → Key → Key → Bool → Option Key → Answer (Unit {0})
  pub send_custom_tool_result : ℕ → Key → Key → Key → Bool → Answer (Unit {0})
  pub interrupt : ℕ → Key → Answer (Unit {0})
  -- the pending-input store
  pub get_input : ℕ → Key → Answer Key
  pub put_input : ℕ → Key → Key → Answer (Unit {0})
  pub delete_input : ℕ → Key → Answer (Unit {0})
  pub list_old_keys : ℕ → ℕ → Answer (List Key)
  -- the policy engine, if one is configured
  pub has_policy_engine : Bool
  pub judge : ℕ → ToolPolicyRequest → Option Ruling → PolicyAnswer
  -- the queues
  pub schedule : ℕ → Key → ℕ → Answer (Unit {0})
  pub has_push_trigger : Bool
  pub schedule_push : ℕ → Key → Answer (Unit {0})
  pub has_preview_trigger : Bool
  pub start_preview : ℕ → PreviewHint → Answer (Unit {0})

-- The calls outside that have an effect there.
pub data Effect : Type 0 where
  create_session : Key → Effect
  send_message : Key → Effect
  confirm_tool : Key → Key → Bool → Effect
  send_custom_tool_result : Key → Key → Effect
  interrupt : Key → Effect
  put_input delete_input : Key → Effect
  schedule : Key → ℕ → Effect
  schedule_push : Key → Effect
  start_preview : PreviewHint → Effect

pub record World : Type 0 where
  pub db : Db
  pub log : List Effect
  pub hints : List PreviewHint
  pub turn : ℕ

abbrev pub Action : Type 0 → Type 0
Action A = World → Result A × World

module _ {A : Type 0} where
  unfoldable pub pure : A → Action A
  pure a w = (ok a, w)

  unfoldable pub raise : Error → Action A
  raise e w = (err e, w)

  -- `try: … except`: the outcome as a value.
  unfoldable pub attempt : Action A → Action (Result A)
  attempt m w = let (r, w') = m w in (ok r, w')

abbrev pub resume : {A B : Type 0} → Result A → (A → Action B) → Action B
resume (ok a) f w = f a w
resume (err e) f w = (err e, w)

infixl 5 ◌>>=◌ ◌>>◌
unfoldable pub ◌>>=◌ : {A B : Type 0} → Action A → (A → Action B) → Action B
unfolding pure raise attempt
◌>>=◌ m f w = let (r, w') = m w in resume r f w'

abbrev pub ◌>>◌ : {A B : Type 0} → Action A → Action B → Action B
m >> k = m >>= λ _. k

abbrev pub skip : Action (Unit {0})
skip = pure tt

abbrev pub when : Bool → Action (Unit {0}) → Action (Unit {0})
when b m = if b then m else skip

-- Branches on an optional value and on an outcome.
abbrev pub maybe : {A B : Type 0} → Option A → Action B → (A → Action B) → Action B
maybe none m f = m
maybe (some a) m f = f a

abbrev pub on_outcome : {A B : Type 0} → Result A → (A → Action B) → (Error → Action B) → Action B
on_outcome (ok a) f h = f a
on_outcome (err e) f h = h e

module _ {A B : Type 0} where
  -- A loop whose body may return from the function: `some` ends it.
  unfoldable pub for_each : List A → (A → Action (Option B)) → Action (Option B)
  for_each [] body = pure none
  for_each (x ∷ xs) body =
      let rest = for_each xs body in body x >>= λ r. maybe r rest (λ b. pure (some b))

module _ {A : Type 0} where
  -- A loop with no return.
  unfoldable pub for_all : List A → (A → Action (Unit {0})) → Action (Unit {0})
  for_all [] body = skip
  for_all (x ∷ xs) body = let rest = for_all xs body in body x >> rest

abbrev pub commit : {A : Type 0} → Result A × Db → World → Result A × World
commit (r, db) w = (r, record w { db = db })

abbrev pub reading : {A : Type 0} → (Db → A) → Transaction A
reading q db = (ok (q db), db)

abbrev pub returning : {A : Type 0} → (Db → A × Db) → Transaction A
returning t db = let (a, db') = t db in (ok a, db')

abbrev pub outcome : {A : Type 0} → Answer A → Result A
outcome (replied a) = ok a
outcome rejected = err definitive
outcome failed = err external

abbrev pub record_effect : Option Effect → List Effect → List Effect
record_effect none log = log
record_effect (some e) log = e ∷ log

module _ (env : Env) where
  -- The turn begins: what others did meanwhile is committed.
  unfoldable pub advance : World → World
  advance w = record w { db = moves (env.meanwhile w.turn) w.db; turn = suc w.turn }

  -- A transaction of the repository.
  unfoldable pub transact : {A : Type 0} → Transaction A → Action A
  unfolding advance
  transact t w =
      let w' = advance w in
      if env.database_down w.turn then (err external, w') else commit (t w'.db) w'

  unfoldable pub read : {A : Type 0} → (Db → A) → Action A
  unfolding transact
  read q = transact (reading q)

  -- A call outside; one with an effect is logged whatever its answer.
  unfoldable pub call : {A : Type 0} → Option Effect → (ℕ → Answer A) → Action A
  unfolding advance
  call effect reply w =
      let w' = advance w in (outcome (reply w.turn), record w' { log = record_effect effect w.log })

  unfoldable pub new_key : Action Key
  unfolding advance
  new_key w = (ok (env.fresh w.turn), advance w)
