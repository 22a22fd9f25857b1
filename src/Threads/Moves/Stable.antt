-- ===== src/Threads/Moves/Stable.antt =====
-- Over any interleaving: owners, contexts, tasks and surfaces are bound once.
use managed_agent_web_slack.Common.{◌∙◌, List, [], ◌∷◌, Evolves-trans}
use managed_agent_web_slack.Threads.{ThreadDb}
use managed_agent_web_slack.Threads.Moves.Defs.{ThreadMove, thread_move, thread_moves}
use managed_agent_web_slack.Threads.Moves.Kept.{
  ThreadKept, SendKept, BindingKept, Kept, ThreadKept-trans, SendKept-trans, Kept-refl,
  thread_move-Kept,
}

Kept-trans : (x y z : ThreadDb) → Kept x y → Kept y z → Kept x z
Kept-trans x y z h k = record {
  threads =
      Evolves-trans ThreadKept ThreadKept-trans x.threads y.threads z.threads h.threads k.threads;
  bindings =
      Evolves-trans BindingKept (λ a b c e f. f ∙ e) x.bindings y.bindings z.bindings h.bindings
        k.bindings;
  sends = Evolves-trans SendKept SendKept-trans x.sends y.sends z.sends h.sends k.sends;
}

-- Over any transactions by any callers in any order: no thread, surface binding or logical send is
-- ever deleted; a thread keeps its principal, agent and creation request, and a title that is not
-- empty; a context that a thread is ready with, and a task that a send is bound to, are final; a
-- surface binding never changes.
pub thread_moves-Kept : (ms : List ThreadMove) (db : ThreadDb) → Kept db (thread_moves ms db)
unfolding thread_moves
thread_moves-Kept [] db = Kept-refl db
thread_moves-Kept (m ∷ ms) db =
    Kept-trans db (thread_move m db) (thread_moves ms (thread_move m db)) (thread_move-Kept m db)
      (thread_moves-Kept ms (thread_move m db))
