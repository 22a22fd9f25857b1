-- ===== src/Tests/TurnWitnesses.antt =====
-- The theorems on turns at concrete inputs.
use managed_agent_web_slack.Common.{◌≡◌, refl, none, List, [], ◌∷◌, ℕ, zero, suc, true}
use managed_agent_web_slack.Threads.{get_thread}
use managed_agent_web_slack.Threads.Sends.{
  record_logical_send, bind_task_id, unbound_row, upsert_send,
}
use managed_agent_web_slack.Threads.Contexts.{
  claim_context_initialization, initializable, bind_context, claimed_row,
}
use managed_agent_web_slack.Threads.Creation.{create_thread, insert_thread}
use managed_agent_web_slack.Threads.Moves.Defs
use managed_agent_web_slack.Threads.Moves.Defs.{ThreadMove, thread_move, thread_moves}
use managed_agent_web_slack.Threads.Moves.Checks.{thread_moves-IsValid}
use managed_agent_web_slack.Sink.Texts.{is_space}
use managed_agent_web_slack.Turns.Send.{Host, sent, accepted, claim_context, send_turn}
use managed_agent_web_slack.Turns.Outcomes.{Settles, send_turn-Settles}
use managed_agent_web_slack.Tests.ThreadWitnesses.{no_threads, no_threads-IsValid}

-- The thread 20, which another caller has claimed for a second.
abbrev busy_moves : List ThreadMove
busy_moves = Defs.create_thread 20 5 6 none ∷ Defs.claim_context_initialization 40 20 1 ∷ []

-- Time passes before each round of the loop.
abbrev ticks : ℕ → List ThreadMove
ticks zero = []
ticks (suc n) = Defs.tick 1 ∷ []

abbrev pub turn_host : Host
turn_host = record {
  card = true;
  reply = λ c. accepted 9 70;
  pushes = true;
  send_id = 50;
  claim_ids = λ n. 60;
  claim_seconds = 30;
  others = ticks;
}

sends :
    (send_turn turn_host 20 8 (104 ∷ 105 ∷ []) (thread_moves busy_moves no_threads)).0 ≡ sent 9 70
unfolding send_turn get_thread is_space thread_moves thread_move create_thread insert_thread
    record_logical_send upsert_send claim_context claim_context_initialization initializable
    bind_context claimed_row bind_task_id unbound_row
sends = refl

send_turn-Settles_example :
    Settles 20 8 (send_turn turn_host 20 8 (104 ∷ 105 ∷ []) (thread_moves busy_moves no_threads))
send_turn-Settles_example =
    send_turn-Settles turn_host 20 8 (104 ∷ 105 ∷ []) (thread_moves busy_moves no_threads)
      (thread_moves-IsValid busy_moves no_threads no_threads-IsValid)
