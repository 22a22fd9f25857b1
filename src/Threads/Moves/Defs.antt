-- ===== src/Threads/Moves/Defs.antt =====
-- Every transaction on the threads' tables as one move, and time that passes between two of them.
-- A transaction that raises is rolled back and moves nothing.
use managed_agent_web_slack.Common.{ℕ, ◌+◌, Option, List, [], ◌∷◌}
use managed_agent_web_slack.Store.{Key}
use managed_agent_web_slack.Threads.{ThreadDb}
use managed_agent_web_slack.Threads.Identities
use managed_agent_web_slack.Threads.Creation
use managed_agent_web_slack.Threads.Surfaces
use managed_agent_web_slack.Threads.Surfaces.{Surface, SurfaceRequest}
use managed_agent_web_slack.Threads.Sends
use managed_agent_web_slack.Threads.Contexts

pub data ThreadMove : Type 0 where
  tick : ℕ → ThreadMove
  ensure_principal : Key → ThreadMove
  map_external_identity : Key → Key → Key → Key → Key → ThreadMove
  create_thread : Key → Key → Key → Option (List ℕ) → ThreadMove
  create_thread_idempotent : Key → Key → Key → Key → Option (List ℕ) → ThreadMove
  update_title_if_empty : Key → List ℕ → ThreadMove
  archive_thread restore_thread : Key → Key → ThreadMove
  create_surface_thread : Key → Key → SurfaceRequest → ThreadMove
  bind_surface : Key → Key → Surface → ThreadMove
  record_logical_send : Key → Key → Key → Key → ThreadMove
  bind_task_id : Key → Key → Key → ThreadMove
  claim_context_initialization : Key → Key → ℕ → ThreadMove
  bind_context : Key → Key → Key → ThreadMove
  release_context_initialization : Key → Key → ThreadMove

unfoldable pub thread_move : ThreadMove → ThreadDb → ThreadDb
thread_move (ThreadMove.tick n) db = record db { now = db.now + n }
thread_move (ThreadMove.ensure_principal id) db = Identities.ensure_principal id db
thread_move (ThreadMove.map_external_identity f p v t u) db =
    (Identities.map_external_identity f p v t u db).1
thread_move (ThreadMove.create_thread f p a title) db = (Creation.create_thread f p a title db).1
thread_move (ThreadMove.create_thread_idempotent f p a r title) db =
    (Creation.create_thread_idempotent f p a r title db).1
thread_move (ThreadMove.update_title_if_empty t title) db =
    (Creation.update_title_if_empty t title db).1
thread_move (ThreadMove.archive_thread p t) db = (Creation.archive_thread p t db).1
thread_move (ThreadMove.restore_thread p t) db = (Creation.restore_thread p t db).1
thread_move (ThreadMove.create_surface_thread t b r) db =
    (Surfaces.creation t b r (λ reached. reached) db).1
thread_move (ThreadMove.bind_surface f t s) db = (Surfaces.bind_surface f t s db).1
thread_move (ThreadMove.record_logical_send f t a m) db = (Sends.record_logical_send f t a m db).1
thread_move (ThreadMove.bind_task_id t m k) db = (Sends.bind_task_id t m k db).1
thread_move (ThreadMove.claim_context_initialization k t n) db =
    (Contexts.claim_context_initialization k t n db).1
thread_move (ThreadMove.bind_context t k c) db = (Contexts.bind_context t k c db).1
thread_move (ThreadMove.release_context_initialization t k) db =
    (Contexts.release_context_initialization t k db).1

unfoldable pub thread_moves : List ThreadMove → ThreadDb → ThreadDb
unfolding thread_move
thread_moves [] db = db
thread_moves (m ∷ ms) db = thread_moves ms (thread_move m db)
