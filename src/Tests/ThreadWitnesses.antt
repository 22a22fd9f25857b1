-- ===== src/Tests/ThreadWitnesses.antt =====
-- The theorems on threads at concrete inputs.
use managed_agent_web_slack.Common.{ℕ, ◌≡◌, refl, none, some, [], ◌∷◌, Evolves}
use managed_agent_web_slack.Threads.{ThreadDb, ok}
use managed_agent_web_slack.Threads.Creation.{new_thread, create_thread_idempotent, insert_thread}
use managed_agent_web_slack.Threads.Creation.Idempotent.{create_thread_idempotent-again}
use managed_agent_web_slack.Threads.Surfaces.{Surface, SurfaceRequest, get_or_create_surface_thread}
use managed_agent_web_slack.Threads.Moves.Defs
use managed_agent_web_slack.Threads.Moves.Defs.{ThreadMove, thread_move, thread_moves}
use managed_agent_web_slack.Threads.Moves.Kept.{Kept}
use managed_agent_web_slack.Threads.Moves.Stable.{thread_moves-Kept}
use managed_agent_web_slack.Threads.Moves.Checks.{IsValid, thread_moves-IsValid}
use managed_agent_web_slack.Threads.Moves.Claims.{HoldKept, thread_move-HoldKept}
use managed_agent_web_slack.Threads.Moves.Races.{
  Ends, Round, attempt_of, get_or_create_surface_thread-Ends,
}

abbrev slack_thread : Surface
slack_thread = record { surface = 1; tenant_id = 2; external_thread_id = 3 }

abbrev wanted : SurfaceRequest
wanted = record { principal_id = 5; agent_id = 6; surface = slack_thread; title = none }

abbrev pub no_threads : ThreadDb
no_threads = record {
  now = 100;
  principals = 5 ∷ [];
  identities = [];
  threads = [];
  bindings = [];
  sends = [];
}

-- Another caller wins the race.
abbrev pub lost : ℕ → Round
lost n = record {
  thread_id = 20;
  binding_id = 30;
  before_insert = Defs.create_surface_thread 21 31 wanted ∷ [];
  before_recovery = Defs.tick 3 ∷ [];
}

get_or_create_surface_thread-Ends_example :
    Ends wanted (get_or_create_surface_thread 1 (λ n. attempt_of (lost n)) wanted no_threads).0
get_or_create_surface_thread-Ends_example =
    get_or_create_surface_thread-Ends wanted 0 lost no_threads

abbrev one_thread : ThreadDb
one_thread =
    thread_moves (Defs.create_thread 20 5 6 none ∷ Defs.claim_context_initialization 40 20 30 ∷ [])
      no_threads

thread_move-HoldKept_example :
    Evolves
      (HoldKept 40 one_thread.now)
      one_thread.threads
      (thread_move (Defs.claim_context_initialization 41 20 30) one_thread).threads
thread_move-HoldKept_example =
    thread_move-HoldKept (Defs.claim_context_initialization 41 20 30) 40 one_thread refl

thread_moves-Kept_example :
    Kept one_thread
      (thread_moves (Defs.bind_context 20 40 70 ∷ Defs.archive_thread 5 20 ∷ []) one_thread)
thread_moves-Kept_example =
    thread_moves-Kept (Defs.bind_context 20 40 70 ∷ Defs.archive_thread 5 20 ∷ []) one_thread

pub no_threads-IsValid : IsValid no_threads
no_threads-IsValid = record { contexts = tt; surfaces = tt }

thread_moves-IsValid_example : IsValid (
    thread_moves
      (Defs.create_thread 20 5 6 none
        ∷ Defs.claim_context_initialization 40 20 30
        ∷ Defs.bind_context 20 40 70
        ∷ Defs.bind_surface 31 20 slack_thread
        ∷ [])
      no_threads)
thread_moves-IsValid_example =
    thread_moves-IsValid
      (Defs.create_thread 20 5 6 none
        ∷ Defs.claim_context_initialization 40 20 30
        ∷ Defs.bind_context 20 40 70
        ∷ Defs.bind_surface 31 20 slack_thread
        ∷ [])
      no_threads no_threads-IsValid

created :
    (create_thread_idempotent 20 5 6 80 none no_threads).0
    ≡ ok (new_thread 20 5 6 (some 80) none 100)
unfolding create_thread_idempotent insert_thread
created = refl

create_thread_idempotent-again_example :
    create_thread_idempotent 22 5 6 80
      (some (65 ∷ []))
      (create_thread_idempotent 20 5 6 80 none no_threads).1
    ≡ (
      ok (new_thread 20 5 6 (some 80) none 100),
      (create_thread_idempotent 20 5 6 80 none no_threads).1,
    )
create_thread_idempotent-again_example =
    create_thread_idempotent-again 20 22 5 6 80 none (some (65 ∷ [])) no_threads created
